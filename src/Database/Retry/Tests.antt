-- ===== src/Database/Retry/Tests.antt =====
-- Runs of `runWithDeadlockRetry`.
use cg_traveleke_service.Base.{
  ℕ, zero, suc, ◌+◌, ◌≡◌, refl, none, some, [], ◌∷◌, Result, ok, err, Bool, true, ◌⊎◌, inl, inr,
  subst,
}
use cg_traveleke_service.Database.Errors.{
  DatabaseError, is_transient_database_error, calculate_backoff_delay,
}
use cg_traveleke_service.Database.Retry.{
  Transactions, Outcome, default_options, run_with_deadlock_retry,
}
use cg_traveleke_service.Database.Retry.Serial.{undo, undo-commits, undo-rolls_back, undo-throws}
use cg_traveleke_service.Database.Retry.Laws.{Ends, run_with_deadlock_retry-Ends}

abbrev deadlock : DatabaseError
deadlock = record {
  details = record {
    code = some "ER_LOCK_DEADLOCK";
    errno = some 1213;
    sql_state = none;
    message = some "";
  };
  driver_error = none;
}

abbrev transient : DatabaseError → Bool
transient e = is_transient_database_error (λ cs. cs) (some e)

deadlock-transient : transient deadlock ≡ true
unfolding is_transient_database_error
deadlock-transient = refl

-- The first transaction is the victim of a deadlock, the others run; another client adds 10 each time.
abbrev execute : ℕ → (ℕ → Result DatabaseError ℕ × ℕ) → ℕ → Result DatabaseError ℕ × ℕ
execute zero op s = (err deadlock, s + 10)
execute (suc n) op s = undo (s + 10) (op (s + 10))

execute-commits :
    (n : ℕ) (op : ℕ → Result DatabaseError ℕ × ℕ) (s a : ℕ)
    → (execute n op s).0 ≡ ok a
    → op (s + 10) ≡ (ok a, (execute n op s).1)
execute-commits zero op s a h = cc
execute-commits (suc n) op s a h = undo-commits (s + 10) (op (s + 10)) a h

execute-rolls_back :
    (n : ℕ) (op : ℕ → Result DatabaseError ℕ × ℕ) (s : ℕ) (e : DatabaseError)
    → (execute n op s).0 ≡ err e
    → (execute n op s).1 ≡ s + 10
execute-rolls_back zero op s e h = refl
execute-rolls_back (suc n) op s e h = undo-rolls_back (s + 10) (op (s + 10)) e h

err_same :
    {A : Type 0} {a b : DatabaseError} → ◌≡◌ {A = Result DatabaseError A} (err a) (err b) → a ≡ b
err_same h = cc

execute-throws :
    (n : ℕ) (op : ℕ → Result DatabaseError ℕ × ℕ) (s : ℕ) (e : DatabaseError)
    → (execute n op s).0 ≡ err e
    → ((op (s + 10)).0 ≡ err e) ⊎ (transient e ≡ true)
execute-throws zero op s e h =
    inr (subst (λ x. transient x ≡ true) (err_same {A = ℕ} h) deadlock-transient)
execute-throws (suc n) op s e h = inl (undo-throws (s + 10) (op (s + 10)) e h)

abbrev busy : Transactions ℕ DatabaseError ℕ
busy = record {
  execute = execute;
  others = λ n s. s + 10;
  from_database = transient;
  commits = execute-commits;
  rolls_back = execute-rolls_back;
  throws = execute-throws;
}

-- Takes one, and returns what it found.
abbrev take_one : ℕ → Result DatabaseError ℕ × ℕ
take_one s = (ok s, s + 1)

abbrev no_jitter : ℕ → ℕ → ℕ
no_jitter n b = 0

-- One wait of 100 ms.
busy_run :
    run_with_deadlock_retry transient no_jitter busy take_one default_options 5
    ≡ some (record { result = ok 25; state = 26; waits = 100 ∷ [] })
unfolding run_with_deadlock_retry is_transient_database_error calculate_backoff_delay
busy_run = refl

run_with_deadlock_retry-Ends_example :
    (out : Outcome ℕ DatabaseError ℕ) × (run_with_deadlock_retry transient no_jitter busy take_one
        default_options 5
      ≡ some out)
    × Ends transient no_jitter busy take_one default_options 0 5 out
run_with_deadlock_retry-Ends_example =
    run_with_deadlock_retry-Ends transient no_jitter busy take_one default_options (λ n b h. h) 5
