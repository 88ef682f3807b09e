-- ===== src/Database/Retry.antt =====
-- backend/src/common/database/transaction-retry.helper.ts: `runWithDeadlockRetry`.
pub mod Laws
pub mod Serial
mod Tests
use cg_traveleke_service.Base.{
  ℕ, zero, suc, ◌+◌, ◌<◌, ltb, Bool, ◌&&◌, Option, none, some, List, [], ◌∷◌, ◌≡◌, ◌⊎◌, true,
  Result, ok, err, if◌then◌else◌,
}
use cg_traveleke_service.Database.Errors.{calculate_backoff_delay}

-- What the database does with a transaction, which is not the program's code. `execute n op s` is the
-- attempt number `n` at the state `s`; meanwhile other clients may commit (`others`). A transaction
-- that returns ran in one piece; one that throws has left no trace, and what it throws is the
-- operation's own error or an error `from_database`.
pub record Transactions (S E A : Type 0) : Type 0 where
  pub execute : ℕ → (S → Result E A × S) → S → Result E A × S
  pub others : ℕ → S → S
  pub from_database : E → Bool
  pub commits :
      (n : ℕ) (op : S → Result E A × S) (s : S) (a : A)
      → (execute n op s).0 ≡ ok a
      → op (others n s) ≡ (ok a, (execute n op s).1)
  pub rolls_back :
      (n : ℕ) (op : S → Result E A × S) (s : S) (e : E)
      → (execute n op s).0 ≡ err e
      → (execute n op s).1 ≡ others n s
  pub throws :
      (n : ℕ) (op : S → Result E A × S) (s : S) (e : E)
      → (execute n op s).0 ≡ err e
      → ((op (others n s)).0 ≡ err e) ⊎ (from_database e ≡ true)

pub record RetryOptions : Type 0 where
  pub max_retries : ℕ
  pub base_delay_ms : ℕ
  pub max_delay_ms : ℕ
  pub jitter_ms : ℕ

-- The defaults of the options.
abbrev pub default_options : RetryOptions
default_options = record {
  max_retries = 3;
  base_delay_ms = 50;
  max_delay_ms = 1000;
  jitter_ms = 50;
}

-- The result, the state that is left, and the waits in order.
pub record Outcome (S E A : Type 0) : Type 0 where
  pub result : Result E A
  pub state : S
  pub waits : List ℕ

abbrev add_wait : {S E A : Type 0} → ℕ → Option (Outcome S E A) → Option (Outcome S E A)
add_wait d none = none
add_wait d (some o) = some (record o { waits = d ∷ o.waits })

-- The body of the loop, after the transaction of this round; `again` is the rest of the loop.
settle :
    {S E A : Type 0}
    → (E → Bool)
    → (ℕ → ℕ → ℕ)
    → RetryOptions
    → ℕ
    → Result E A × S
    → (S → Option (Outcome S E A))
    → Option (Outcome S E A)
settle is_transient random o attempt (ok a, s) again =
    some (record { result = ok a; state = s; waits = [] })
settle is_transient random o attempt (err e, s) again =
    let delay =
      calculate_backoff_delay (random attempt) (suc attempt) o.base_delay_ms o.max_delay_ms
        o.jitter_ms in
    let retry = add_wait delay (again s) in
    if is_transient e && ltb attempt o.max_retries
    then retry
    else some (record { result = err e; state = s; waits = [] })

-- The loop `while (true)`, on fuel: `none` means that the fuel ran out.
attempts :
    {S E A : Type 0}
    → (E → Bool)
    → (ℕ → ℕ → ℕ)
    → Transactions S E A
    → (S → Result E A × S)
    → RetryOptions
    → ℕ
    → ℕ
    → S
    → Option (Outcome S E A)
unfolding settle
attempts is_transient random tx op o zero attempt s = none
attempts is_transient random tx op o (suc fuel) attempt s =
    settle is_transient random o attempt (tx.execute attempt op s)
      (λ s'. attempts is_transient random tx op o fuel (suc attempt) s')

-- `random n` is the source of randomness of the round `n`.
unfoldable pub run_with_deadlock_retry :
    {S E A : Type 0}
    → (E → Bool)
    → (ℕ → ℕ → ℕ)
    → Transactions S E A
    → (S → Result E A × S)
    → RetryOptions
    → S
    → Option (Outcome S E A)
unfolding attempts
run_with_deadlock_retry is_transient random tx op o s =
    attempts is_transient random tx op o (suc o.max_retries) 0 s
