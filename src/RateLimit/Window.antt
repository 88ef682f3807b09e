-- ===== src/RateLimit/Window.antt =====
-- backend/src/rate-limit/scripts/sliding-window.script.ts: the Lua script of the sliding window, which
-- Redis runs in one piece.
use cg_traveleke_service.Base.{
  ℕ, ◌+◌, ◌==◌, leb, Bool, true, false, not, Option, none, some, List, [], ◌∷◌, ◌≡◌, refl, count,
  select, length, if◌then◌else◌, arith, count-append, ◌++◌,
}

-- An element of a sorted set.
pub record Entry : Type 0 where
  pub score : ℕ
  pub member : ℕ

-- The commands of Redis on a sorted set that the script calls, with what it relies on.
pub record SortedSet : Type 0 where
  -- `ZREMRANGEBYSCORE key -inf bound`, the range as a test
  pub zremrangebyscore : (ℕ → Bool) → List Entry → List Entry
  pub zcard : List Entry → ℕ
  pub zadd : ℕ → ℕ → List Entry → List Entry
  pub zremrangebyscore_lem :
      (p : ℕ → Bool) (es : List Entry) → zremrangebyscore p es ≡ select (λ e. not (p e.score)) es
  pub zcard_lem : (es : List Entry) → zcard es ≡ length es
  -- a new member is one element more
  pub zadd_lem :
      (s m : ℕ) (es : List Entry) (q : Entry → Bool)
      → count (λ e. e.member == m) es ≡ 0
      → count q (zadd s m es) ≡ count q es + (if q (record { score = s; member = m }) then 1 else 0)

-- A key with the time at which `PEXPIRE` lets it go.
pub record WindowKey : Type 0 where
  pub entries : List Entry
  pub expires_at : Option ℕ

-- What Redis finds under the key at a time.
abbrev pub held_at : ℕ → WindowKey → List Entry
held_at clock k = elim k.expires_at [
  | none ↦ k.entries
  | some d ↦ if leb d clock then [] else k.entries
]

-- The answer `[allowed, currentCount]`, and the key.
pub record WindowAnswer : Type 0 where
  pub allowed : Bool
  pub current_count : ℕ
  pub key : WindowKey

-- `score <= now - windowMs`, over the integers.
abbrev pub outside : ℕ → ℕ → ℕ → Bool
outside window_ms now s = leb (s + window_ms) now

unfoldable pub sliding_window : SortedSet → ℕ → ℕ → ℕ → ℕ → ℕ → WindowKey → WindowAnswer
sliding_window redis clock now window_ms limit request_id key =
    let kept = redis.zremrangebyscore (outside window_ms now) (held_at clock key) in
    let current = redis.zcard kept in
    let until = some (clock + window_ms) in
    if leb limit current
    then record {
      allowed = false;
      current_count = current;
      key = record { entries = kept; expires_at = until };
    }
    else record {
      allowed = true;
      current_count = current + 1;
      key = record { entries = redis.zadd now request_id kept; expires_at = until };
    }

pub list-zadd :
    (s m : ℕ) (es : List Entry) (q : Entry → Bool)
    → count (λ e. e.member == m) es ≡ 0
    → count q (es ++ record { score = s; member = m } ∷ [])
      ≡ count q es + (if q (record { score = s; member = m }) then 1 else 0)
list-zadd s m es q h = ground (arith, count-append q es (record { score = s; member = m } ∷ []))

-- A sorted set as a list, which meets the laws.
abbrev pub list_set : SortedSet
list_set = record {
  zremrangebyscore = λ p. select (λ e. not (p e.score));
  zcard = length;
  zadd = λ s m es. es ++ record { score = s; member = m } ∷ [];
  zremrangebyscore_lem = λ p es. refl;
  zcard_lem = λ es. refl;
  zadd_lem = list-zadd;
}
