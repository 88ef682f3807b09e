-- ===== src/Base/Sums.antt =====
-- Sums over the rows of a table, and what a conditional update and an insertion do to them.
use Prim.Native.Nat.{ℕ, ◌+◌}
use mathlib.Core.Path.{◌≡◌, refl}
use mathlib.Core.Bool.{Bool}
use mathlib.Core.List.{List, [], ◌∷◌, ◌++◌}
use native.Mathlib.Omega.{arith}
use cg_traveleke_service.Base.Tests.{if◌then◌else◌}
use cg_traveleke_service.Base.Lists.{select, All}

module _ {ℓ} {A : Type ℓ} where
  abbrev pub sum_by : (A → ℕ) → List A → ℕ
  sum_by f [] = 0
  sum_by f (x ∷ xs) = f x + sum_by f xs

  pub sum_by-append : (f : A → ℕ) (xs ys : List A) → sum_by f (xs ++ ys) ≡ sum_by f xs + sum_by f ys
  sum_by-append f [] ys = omega arith
  sum_by-append f (x ∷ xs) ys = omega (arith, sum_by-append f xs ys)

module _ {ℓ} {A : Type ℓ} (f g h : A → ℕ) where
  pub sum_by-add :
      ((a : A) → f a + g a ≡ h a) → (xs : List A) → sum_by f xs + sum_by g xs ≡ sum_by h xs
  sum_by-add e [] = omega arith
  sum_by-add e (x ∷ xs) = omega (arith, e x, sum_by-add e xs)

module _ {ℓ} {A : Type ℓ} where
  -- The sum over the rows that a query selects.
  pub sum_by-select :
      (f : A → ℕ) (p : A → Bool) (xs : List A)
      → sum_by f (select p xs) ≡ sum_by (λ x. if p x then f x else 0) xs
  sum_by-select f p [] = refl
  sum_by-select f p (x ∷ xs) = ground (arith, sum_by-select f p xs)

  pub sum_by-cong :
      (f g : A → ℕ) (xs : List A) → All (λ a. f a ≡ g a) xs → sum_by f xs ≡ sum_by g xs
  sum_by-cong f g [] h = refl
  sum_by-cong f g (x ∷ xs) h = omega (arith, h.0, sum_by-cong f g xs h.1)

  pub sum_by-zero : (f : A → ℕ) → ((a : A) → f a ≡ 0) → (xs : List A) → sum_by f xs ≡ 0
  sum_by-zero f h [] = refl
  sum_by-zero f h (x ∷ xs) = omega (arith, h x, sum_by-zero f h xs)
