-- ===== src/RedisLock.antt =====
-- backend/src/redis/redis-lock.service.ts: `acquireLock` and `releaseLock`, on the key of one resource.
-- A token is a UUID, which is the number that it writes.
pub mod Exclusive
mod Tests
use cg_traveleke_service.Base.{
  ℕ, ◌+◌, ◌<◌, ◌≤◌, ◌==◌, ltb, refl, arith, Bool, true, false, Option, none, some, ◌≡◌,
  if◌then◌else◌,
}

-- The commands of Redis that the service sends for the key, at a time of the server, with what it
-- relies on. `answers n` says that Redis answers the command that is sent at `n`.
pub record KeyCommands (K : Type 0) : Type 0 where
  pub answers : ℕ → Bool
  pub get : ℕ → K → Option ℕ
  -- `SET key token PX ttl NX`: whether it says OK
  pub set_nx_px : ℕ → ℕ → ℕ → K → Bool × K
  pub del : ℕ → K → K
  pub set_nx_px_taken :
      (n token ttl other : ℕ) (k : K) → get n k ≡ some other → set_nx_px n token ttl k ≡ (false, k)
  pub set_nx_px_free :
      (n token ttl : ℕ) (k : K) → get n k ≡ none → (set_nx_px n token ttl k).0 ≡ true
  pub get_set :
      (n token ttl m : ℕ) (k : K)
      → get n k ≡ none
      → n ≤ m
      → m < n + ttl
      → get m (set_nx_px n token ttl k).1 ≡ some token

-- `lock.release` releases by the token, unless Redis did not answer.
pub record LockHandle : Type 0 where
  pub acquired : Bool
  pub token : ℕ
  pub release_at_redis : Bool

unfoldable pub acquire_lock : {K : Type 0} → KeyCommands K → ℕ → ℕ → ℕ → K → LockHandle × K
acquire_lock redis now token ttl_ms k =
    let result = redis.set_nx_px now token ttl_ms k in
    if redis.answers now
    then (record { acquired = result.0; token = token; release_at_redis = true }, result.1)
    else (record { acquired = true; token = token; release_at_redis = false }, k)

-- `redis.call("get", KEYS[1]) == ARGV[1]`
abbrev pub owns : ℕ → Option ℕ → Bool
owns token none = false
owns token (some t) = t == token

unfoldable pub release_lock : {K : Type 0} → KeyCommands K → ℕ → ℕ → K → Bool × K
release_lock redis now token k =
    if redis.answers now
    then if owns token (redis.get now k) then (true, redis.del now k) else (false, k)
    else (false, k)

-- A key with its token and the time at which it goes, which meets the laws.
abbrev pub stored_get : ℕ → Option (ℕ × ℕ) → Option ℕ
stored_get n none = none
stored_get n (some (t, until)) = if ltb n until then some t else none

abbrev pub stored_set : ℕ → ℕ → ℕ → Option (ℕ × ℕ) → Bool × Option (ℕ × ℕ)
stored_set n token ttl k = elim (stored_get n k) [
  | none ↦ (true, some (token, n + ttl))
  | some t ↦ (false, k)
]

pub stored-taken :
    (n token ttl other : ℕ) (k : Option (ℕ × ℕ))
    → stored_get n k ≡ some other
    → stored_set n token ttl k ≡ (false, k)
stored-taken n token ttl other k h = rw (h, stored_set) refl

pub stored-free :
    (n token ttl : ℕ) (k : Option (ℕ × ℕ))
    → stored_get n k ≡ none
    → (stored_set n token ttl k).0 ≡ true
stored-free n token ttl k h = rw (h, stored_set) refl

pub stored-get_set :
    (n token ttl m : ℕ) (k : Option (ℕ × ℕ))
    → stored_get n k ≡ none
    → n ≤ m
    → m < n + ttl
    → stored_get m (stored_set n token ttl k).1 ≡ some token
stored-get_set n token ttl m k h a b = rw (h, stored_set) (ground arith)

abbrev pub stored : KeyCommands (Option (ℕ × ℕ))
stored = record {
  answers = λ n. true;
  get = stored_get;
  set_nx_px = stored_set;
  del = λ n k. none;
  set_nx_px_taken = stored-taken;
  set_nx_px_free = stored-free;
  get_set = stored-get_set;
}
