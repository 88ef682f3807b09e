-- ===== src/Database/Retry/Serial.antt =====
-- A database that runs one transaction at a time, for the tests: a throw undoes what was written.
use cg_traveleke_service.Base.{false, ◌≡◌, refl, Result, ok, err, inl}
use cg_traveleke_service.Database.Retry.{Transactions}

module _ {S E A : Type 0} where
  abbrev pub undo : S → Result E A × S → Result E A × S
  undo s (ok a, s') = (ok a, s')
  undo s (err e, s') = (err e, s)

  pub undo-commits :
      (s : S) (r : Result E A × S) (a : A) → (undo s r).0 ≡ ok a → r ≡ (ok a, (undo s r).1)
  undo-commits s (ok b, s') a h = λ i. (h i, s')
  undo-commits s (err e, s') a h = cc

  pub undo-rolls_back :
      (s : S) (r : Result E A × S) (e : E) → (undo s r).0 ≡ err e → (undo s r).1 ≡ s
  undo-rolls_back s (ok b, s') e h = cc
  undo-rolls_back s (err x, s') e h = refl

  pub undo-throws : (s : S) (r : Result E A × S) (e : E) → (undo s r).0 ≡ err e → r.0 ≡ err e
  undo-throws s (ok b, s') e h = cc
  undo-throws s (err x, s') e h = h

  abbrev pub serial : Transactions S E A
  serial = record {
    execute = λ n op s. undo s (op s);
    others = λ n s. s;
    from_database = λ e. false;
    commits = λ n op s a h. undo-commits s (op s) a h;
    rolls_back = λ n op s e h. undo-rolls_back s (op s) e h;
    throws = λ n op s e h. inl (undo-throws s (op s) e h);
  }
