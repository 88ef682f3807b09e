-- ===== src/Database/Errors.antt =====
-- backend/src/common/database/transaction-retry.helper.ts: which database errors are transient, and
-- how long to wait before the next attempt.
use text.Mathlib.Text.{◌==◌ as str_eq}
use cg_traveleke_service.Base.{
  ℕ, ◌+◌, ◌*◌, ◌^◌, ◌==◌, min, max, String, Bool, true, false, ◌||◌, Option, none, some, List,
  codes, includes, if◌then◌else◌,
}

-- The properties that the helper reads, of an error or of its `driverError`.
pub record Details : Type 0 where
  pub code : Option String
  pub errno : Option ℕ
  pub sql_state : Option String
  pub message : Option String

pub record DatabaseError : Type 0 where
  pub details : Details
  pub driver_error : Option Details

-- JavaScript's `a || b` on texts: the empty text gives way.
abbrev pub or_text : Option String → String → String
or_text none b = b
or_text (some a) b = if str_eq a "" then b else a

-- JavaScript's `a || b` on numbers that may be undefined: 0 gives way.
abbrev or_number : Option ℕ → Option ℕ → Option ℕ
or_number none b = b
or_number (some a) b = if a == 0 then b else some a

abbrev of_driver {ℓ} : {A : Type ℓ} → (Details → Option A) → DatabaseError → Option A
of_driver f e = elim e.driver_error [ none ↦ none | some d ↦ f d ]

abbrev is_number : ℕ → Option ℕ → Bool
is_number n none = false
is_number n (some m) = m == n

-- `lower` is `toLowerCase` of the JavaScript runtime, on code points.
unfoldable pub is_transient_database_error : (List ℕ → List ℕ) → Option DatabaseError → Bool
is_transient_database_error lower none = false
is_transient_database_error lower (some e) =
    let code = or_text e.details.code (or_text (of_driver (λ d. d.code) e) "") in
    let errno = or_number e.details.errno (of_driver (λ d. d.errno) e) in
    let sql_state = or_text e.details.sql_state (or_text (of_driver (λ d. d.sql_state) e) "") in
    let message =
      lower (codes (or_text e.details.message (or_text (of_driver (λ d. d.message) e) ""))) in
    if str_eq code "ER_LOCK_DEADLOCK" || is_number 1213 errno || str_eq sql_state "40001"
    then true
    else if str_eq code "ER_LOCK_WAIT_TIMEOUT" || is_number 1205 errno
    then true
    else if str_eq code "40P01" || str_eq code "40001"
    then true
    else includes (codes "deadlock") message
      || includes (codes "lock wait timeout") message
      || includes (codes "try restarting transaction") message

-- `random n` is `Math.floor(Math.random() * n)`.
unfoldable pub calculate_backoff_delay : (ℕ → ℕ) → ℕ → ℕ → ℕ → ℕ → ℕ
calculate_backoff_delay random attempt base_delay_ms max_delay_ms jitter_ms =
    let exponential = min max_delay_ms (base_delay_ms * 2 ^ attempt) in
    let jitter = random (max 1 jitter_ms) in exponential + jitter
