-- ===== src/RedisLock/Tests.antt =====
-- A lock of five seconds that two others ask for.
use cg_traveleke_service.Base.{List, true, false, none, [], ◌∷◌, ◌≡◌, refl, arith, All}
use cg_traveleke_service.RedisLock.{stored, acquire_lock, release_lock}
use cg_traveleke_service.RedisLock.Exclusive.{
  Ask, acquires, releases, answer_all, acquire_lock-excludes,
}

abbrev asks : List Ask
asks = acquires 1500 8 5000 ∷ releases 1600 9 ∷ []

acquire_lock-excludes_example :
    ((acquire_lock stored 1000 7 5000 none).0.acquired ≡ true)
    × All (λ b. b ≡ false) (answer_all stored asks (acquire_lock stored 1000 7 5000 none).1).0
    × ((release_lock stored 5999 7
          (answer_all stored asks (acquire_lock stored 1000 7 5000 none).1).1).0
        ≡ true)
acquire_lock-excludes_example =
    acquire_lock-excludes stored 1000 7 5000 none asks 5999 refl refl
      ((refl, omega arith, omega arith), ((refl, omega arith, omega arith, λ e. omega arith), tt))
      refl (omega arith) (omega arith)
