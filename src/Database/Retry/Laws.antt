-- ===== src/Database/Retry/Laws.antt =====
-- backend/src/common/database/transaction-retry.helper.ts: what `runWithDeadlockRetry` guarantees.
use cg_traveleke_service.Base.{
  ℕ, zero, suc, ◌+◌, ◌<◌, ◌≤◌, ltb, Bool, true, false, ◌&&◌, some, [], ◌∷◌, ◌≡◌, refl, Result, ok,
  err, arith, Bool-cases, Result-cases, ◌⊎◌, inl, inr, length, max, All, subst,
}
use native.Mathlib.Nat.{add-zero}
use cg_traveleke_service.Database.Errors.{calculate_backoff_delay}
use cg_traveleke_service.Database.Retry.{
  Transactions, RetryOptions, Outcome, settle, attempts, run_with_deadlock_retry,
}

-- The state that `k` rounds from the round `n` on find, if this program writes nothing.
abbrev pub drift : {S E A : Type 0} → Transactions S E A → ℕ → ℕ → S → S
drift tx zero n s = s
drift tx (suc k) n s = drift tx k (suc n) (tx.others n s)

-- How a call ends that found the state `s` last: what it returns it did in one piece at `s`; where it
-- throws it has written nothing, and throws what the operation throws at `s` or a database error.
abbrev pub Settled :
    {S E A : Type 0} → Transactions S E A → (S → Result E A × S) → S → Result E A → S → Type 0
Settled tx op s (ok a) s' = op s ≡ (ok a, s')
Settled tx op s (err e) s' = (s' ≡ s) × (((op s).0 ≡ err e) ⊎ (tx.from_database e ≡ true))

execute-Settled :
    {S E A : Type 0} (tx : Transactions S E A) (op : S → Result E A × S) (n : ℕ) (s : S)
    (r : Result E A)
    → (tx.execute n op s).0 ≡ r
    → Settled tx op (tx.others n s) r (tx.execute n op s).1
execute-Settled tx op n s (ok a) e = tx.commits n op s a e
execute-Settled tx op n s (err x) e = (tx.rolls_back n op s x e, tx.throws n op s x e)

-- A transient error at the end means that all retries are used up.
abbrev pub Exhausted : {E A : Type 0} → (E → Bool) → RetryOptions → ℕ → Result E A → Type 0
Exhausted is_transient o n (ok a) = Unit
Exhausted is_transient o n (err e) = is_transient e ≡ true → n ≡ o.max_retries

module _ {S E A : Type 0} (is_transient : E → Bool) (random : ℕ → ℕ → ℕ) (tx : Transactions S E A)
    (op : S → Result E A × S) (o : RetryOptions) where
  abbrev pub WithinDelay : ℕ → Type 0
  WithinDelay d = d < o.max_delay_ms + max 1 o.jitter_ms

  -- How the loop ends that reaches the round `n` in the state `s`.
  pub record Ends (n : ℕ) (s : S) (out : Outcome S E A) : Type 0 where
    pub capped : n + length out.waits ≤ o.max_retries
    pub settled : Settled tx op (drift tx (suc (length out.waits)) n s) out.result out.state
    pub exhausted : Exhausted is_transient o (n + length out.waits) out.result
    pub bounded : All WithinDelay out.waits

  module _ (random-lt : (n b : ℕ) → 0 < b → random n b < b) where
    delay-lt :
        (n : ℕ)
        → WithinDelay
            (calculate_backoff_delay (random n) (suc n) o.base_delay_ms o.max_delay_ms o.jitter_ms)
    unfolding calculate_backoff_delay
    delay-lt n = omega (arith, random-lt n (max 1 o.jitter_ms) (omega arith))

    Ends-now :
        (n : ℕ) (s : S) (r : Result E A)
        → n ≤ o.max_retries
        → (tx.execute n op s).0 ≡ r
        → Exhausted is_transient o n r
        → Ends n s (record { result = r; state = (tx.execute n op s).1; waits = [] })
    Ends-now n s r h e x = record {
      capped = omega arith;
      settled = execute-Settled tx op n s r e;
      exhausted = rw add-zero x;
      bounded = tt;
    }

    Ends-later :
        (n d : ℕ) (s t : S) (out : Outcome S E A)
        → t ≡ tx.others n s
        → WithinDelay d
        → Ends (suc n) t out
        → Ends n s (record out { waits = d ∷ out.waits })
    Ends-later n d s t out e w h = record {
      capped = omega (arith, h.capped);
      settled =
          subst
            (λ v. Settled tx op (drift tx (suc (length out.waits)) (suc n) v) out.result out.state)
            e h.settled;
      exhausted = subst (λ k. Exhausted is_transient o k out.result) (omega arith) h.exhausted;
      bounded = (w, h.bounded);
    }

    not_exhausted :
        (x : E) (n : ℕ)
        → n ≤ o.max_retries
        → (is_transient x && ltb n o.max_retries) ≡ false
        → is_transient x ≡ true
        → n ≡ o.max_retries
    not_exhausted x n h last t = ground arith

    attempts-Ends :
        (fuel n : ℕ) (s : S)
        → n ≤ o.max_retries
        → o.max_retries < n + fuel
        → (out : Outcome S E A) × (attempts is_transient random tx op o fuel n s ≡ some out)
          × Ends n s out
    unfolding attempts
    attempts-Ends zero n s h k = absurd (omega arith)
    attempts-Ends (suc fuel) n s h k = elim (Result-cases (tx.execute n op s).0) [
      | inl (a, e) ↦ rw (e, settle) (_, refl, Ends-now n s (ok a) h e tt)
      | inr (x, e) ↦ elim (Bool-cases (is_transient x && ltb n o.max_retries)) [
        | inl more ↦
            let (out, run, ends) =
              attempts-Ends fuel (suc n) (tx.execute n op s).1 (ground arith) (omega arith) in
            rw (e, more, settle, run)
              (
                _,
                refl,
                Ends-later n _ s (tx.execute n op s).1 out (tx.rolls_back n op s x e) (delay-lt n)
                    ends,
              )
        | inr last ↦
            rw (e, last, settle) (_, refl, Ends-now n s (err x) h e (not_exhausted x n h last))
      ]
    ]

    -- The helper always ends, after at most `max_retries` waits, each below `max_delay_ms` and the
    -- jitter together. What it returns, the operation did in one piece at a state that only other
    -- clients have changed, and only once; where it throws, it has written nothing, and throws what the
    -- operation throws there or an error of the database; and it throws a transient error only after
    -- `max_retries` waits.
    pub run_with_deadlock_retry-Ends :
        (s : S)
        → (out : Outcome S E A) × (run_with_deadlock_retry is_transient random tx op o s ≡ some out)
          × Ends 0 s out
    unfolding run_with_deadlock_retry
    run_with_deadlock_retry-Ends s =
        attempts-Ends (suc o.max_retries) 0 s (omega arith) (omega arith)

  -- A transaction that returns at once is the whole run.
  pub run-first :
      (s s' : S) (a : A)
      → tx.execute 0 op s ≡ (ok a, s')
      → run_with_deadlock_retry is_transient random tx op o s
        ≡ some (record { result = ok a; state = s'; waits = [] })
  unfolding run_with_deadlock_retry attempts
  run-first s s' a h = rw (h, settle) refl
