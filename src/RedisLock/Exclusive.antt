-- ===== src/RedisLock/Exclusive.antt =====
-- backend/src/redis/redis-lock.service.ts: who can take and release a lock that is held.
use cg_traveleke_service.Base.{
  ℕ, ◌+◌, ◌<◌, ◌≤◌, Bool, true, false, none, some, List, [], ◌∷◌, ◌≡◌, ◌≢◌, refl, All, ==_false,
  ==_refl,
}
use cg_traveleke_service.RedisLock.{KeyCommands, acquire_lock, release_lock}

-- What the other clients ask for, in order.
pub data Ask : Type 0 where
  acquires : (now token ttl_ms : ℕ) → Ask
  releases : (now token : ℕ) → Ask

module _ {K : Type 0} (redis : KeyCommands K) where
  unfoldable pub answer : Ask → K → Bool × K
  unfolding acquire_lock release_lock
  answer (acquires now token ttl_ms) k =
      let r = acquire_lock redis now token ttl_ms k in (r.0.acquired, r.1)
  answer (releases now token) k = release_lock redis now token k

  -- The answers to all of them, and the key that is left.
  unfoldable pub answer_all : List Ask → K → List Bool × K
  unfolding answer
  answer_all [] k = ([], k)
  answer_all (a ∷ asks) k =
      let first = answer a k in let rest = answer_all asks first.1 in (first.0 ∷ rest.0, rest.1)

  -- A request of another client that reaches Redis while the lock lasts.
  abbrev pub Meanwhile : ℕ → ℕ → ℕ → Ask → Type 0
  Meanwhile token from until (acquires now other ttl) =
      (redis.answers now ≡ true) × (from ≤ now) × (now < until)
  Meanwhile token from until (releases now other) =
      (redis.answers now ≡ true) × (from ≤ now) × (now < until) × (token ≢ other)

  abbrev Holds : ℕ → ℕ → ℕ → K → Type 0
  Holds token from until k = (t : ℕ) → from ≤ t → t < until → redis.get t k ≡ some token

  answer-refused :
      (token from until : ℕ) (a : Ask) (k : K)
      → Holds token from until k
      → Meanwhile token from until a
      → answer a k ≡ (false, k)
  unfolding answer acquire_lock release_lock
  answer-refused token from until (acquires now other ttl) k h m =
      rw (m.0, redis.set_nx_px_taken now other ttl token k (h now m.1 m.2)) refl
  answer-refused token from until (releases now other) k h m =
      rw (m.0, h now m.1 m.2, ==_false token other m.3) refl

  answer_all-refused :
      (token from until : ℕ) (asks : List Ask) (k : K)
      → Holds token from until k
      → All (Meanwhile token from until) asks
      → All (λ b. b ≡ false) (answer_all asks k).0 × ((answer_all asks k).1 ≡ k)
  unfolding answer_all
  answer_all-refused token from until [] k h m = (tt, refl)
  answer_all-refused token from until (a ∷ asks) k h m =
      let rest = answer_all-refused token from until asks k h m.1 in
      rw (answer-refused token from until a k h m.0) ((refl, rest.0), rest.1)

  -- If Redis answers and the lock is free, it is acquired; then each acquisition by others, and each
  -- release by another token, that reaches Redis before the lock runs out is refused; and until then a
  -- release by the owner that reaches Redis succeeds.
  pub acquire_lock-excludes :
      (now token ttl_ms : ℕ) (k : K) (asks : List Ask) (t : ℕ)
      → redis.answers now ≡ true
      → redis.get now k ≡ none
      → All (Meanwhile token now (now + ttl_ms)) asks
      → redis.answers t ≡ true
      → now ≤ t
      → t < now + ttl_ms
      → ((acquire_lock redis now token ttl_ms k).0.acquired ≡ true)
        × All (λ b. b ≡ false) (answer_all asks (acquire_lock redis now token ttl_ms k).1).0
        × ((release_lock redis t token
              (answer_all asks (acquire_lock redis now token ttl_ms k).1).1).0
            ≡ true)
  unfolding acquire_lock release_lock
  acquire_lock-excludes now token ttl_ms k asks t up free others up' after before =
      let held = redis.set_nx_px now token ttl_ms k in
      let holds : Holds token now (now + ttl_ms) held.1 =
        λ m a b. redis.get_set now token ttl_ms m k free a b in
      let refused = answer_all-refused token now (now + ttl_ms) asks held.1 holds others in
      rw up (
        redis.set_nx_px_free now token ttl_ms k free,
        refused.0,
        rw (refused.1, up', holds t after before, ==_refl token) refl,
      )
