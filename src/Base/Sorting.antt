-- ===== src/Base/Sorting.antt =====
-- `Array.prototype.sort` with a comparator: a stable sort. `gt a b` says that the comparator is
-- positive at `(a, b)`.
use Prim.Native.Nat.{ℕ, suc, ◌+◌}
use mathlib.Core.Path.{◌≡◌, refl}
use mathlib.Core.Bool.{Bool, true, false}
use mathlib.Core.Logic.{inl, inr}
use mathlib.Core.List.{List, [], ◌∷◌, Perm}
use mathlib.Core.List.Perm
use native.Mathlib.Omega.{arith}
use cg_traveleke_service.Base.Tests.{if◌then◌else◌, Bool-cases}
use cg_traveleke_service.Base.Lists.{All, All-mono, length}
use cg_traveleke_service.Base.Sums.{sum_by}

module _ {ℓ} {A : Type ℓ} (gt : A → A → Bool) where
  pub place : A → List A → List A
  place x [] = x ∷ []
  place x (y ∷ ys) = let later = y ∷ place x ys in if gt x y then later else x ∷ y ∷ ys

  unfoldable pub sort : List A → List A
  unfolding place
  sort [] = []
  sort (x ∷ xs) = place x (sort xs)

  sum_by-place : (f : A → ℕ) (x : A) (xs : List A) → sum_by f (place x xs) ≡ f x + sum_by f xs
  unfolding place
  sum_by-place f x [] = refl
  sum_by-place f x (y ∷ ys) = ground (arith, sum_by-place f x ys)

  pub sum_by-sort : (f : A → ℕ) (xs : List A) → sum_by f (sort xs) ≡ sum_by f xs
  unfolding sort
  sum_by-sort f [] = refl
  sum_by-sort f (x ∷ xs) = omega (arith, sum_by-place f x (sort xs), sum_by-sort f xs)

  length-place : (x : A) (xs : List A) → length (place x xs) ≡ suc (length xs)
  unfolding place
  length-place x [] = refl
  length-place x (y ∷ ys) = ground (arith, length-place x ys)

  pub length-sort : (xs : List A) → length (sort xs) ≡ length xs
  unfolding sort
  length-sort [] = refl
  length-sort (x ∷ xs) = omega (arith, length-place x (sort xs), length-sort xs)

  place-perm : (x : A) (xs : List A) → Perm (place x xs) (x ∷ xs)
  unfolding place
  place-perm x [] = Perm.refl (x ∷ [])
  place-perm x (y ∷ ys) = elim (Bool-cases (gt x y)) [
    | inl e ↦ rw e (Perm.trans (Perm.cons y (place-perm x ys)) (Perm.swap x y ys))
    | inr e ↦ rw e (Perm.refl (x ∷ y ∷ ys))
  ]

  pub sort-perm : (xs : List A) → Perm (sort xs) xs
  unfolding sort
  sort-perm [] = Perm.refl []
  sort-perm (x ∷ xs) = Perm.trans (place-perm x (sort xs)) (Perm.cons x (sort-perm xs))

-- Each element is followed by none that the comparator puts before it.
module _ {ℓ} {A : Type ℓ} (gt : A → A → Bool) where
  abbrev pub Ascending : List A → Type 0
  Ascending [] = Unit
  Ascending (x ∷ xs) = All (λ y. gt x y ≡ false) xs × Ascending xs

  module _ (gt_asymm : (a b : A) → gt a b ≡ true → gt b a ≡ false)
      (le_trans : (a b c : A) → gt a b ≡ false → gt b c ≡ false → gt a c ≡ false) where
    All-place :
        (y x : A) (xs : List A)
        → gt y x ≡ false
        → All (λ z. gt y z ≡ false) xs
        → All (λ z. gt y z ≡ false) (place gt x xs)
    unfolding place
    All-place y x [] h a = (h, tt)
    All-place y x (z ∷ zs) h a = elim (Bool-cases (gt x z)) [
      | inl e ↦ rw e (a.0, All-place y x zs h a.1)
      | inr e ↦ rw e (h, a)
    ]

    place-Ascending : (x : A) (xs : List A) → Ascending xs → Ascending (place gt x xs)
    unfolding place
    place-Ascending x [] h = (tt, tt)
    place-Ascending x (y ∷ ys) h = elim (Bool-cases (gt x y)) [
      | inl e ↦ rw e (All-place y x ys (gt_asymm x y e) h.0, place-Ascending x ys h.1)
      | inr e ↦ rw e (
        (e, All-mono (λ z. gt y z ≡ false) (λ z. gt x z ≡ false) (λ z. le_trans x y z e) ys h.0),
        h,
      )
    ]

    pub sort-Ascending : (xs : List A) → Ascending (sort gt xs)
    unfolding sort
    sort-Ascending [] = tt
    sort-Ascending (x ∷ xs) = place-Ascending x (sort gt xs) (sort-Ascending xs)

module _ {ℓ κ} {A : Type ℓ} (gt : A → A → Bool) (P : A → Type κ) where
  All-of-place : (x : A) (xs : List A) → All P (place gt x xs) → P x × All P xs
  unfolding place
  All-of-place x [] h = h
  All-of-place x (y ∷ ys) h = elim (Bool-cases (gt x y)) [
    | inl e ↦ let r = rw e at h in let later = All-of-place x ys r.1 in (later.0, (r.0, later.1))
    | inr e ↦ rw e at h
  ]

  -- What holds of all elements of the sorted list held of all before.
  pub All-of-sort : (xs : List A) → All P (sort gt xs) → All P xs
  unfolding sort
  All-of-sort [] h = tt
  All-of-sort (x ∷ xs) h = let r = All-of-place x (sort gt xs) h in (r.0, All-of-sort xs r.1)

  All-place_intro : (x : A) (xs : List A) → P x → All P xs → All P (place gt x xs)
  unfolding place
  All-place_intro x [] p h = (p, tt)
  All-place_intro x (y ∷ ys) p h = elim (Bool-cases (gt x y)) [
    | inl e ↦ rw e (h.0, All-place_intro x ys p h.1)
    | inr e ↦ rw e (p, h)
  ]

  pub All-sort : (xs : List A) → All P xs → All P (sort gt xs)
  unfolding sort
  All-sort [] h = tt
  All-sort (x ∷ xs) h = All-place_intro x (sort gt xs) h.0 (All-sort xs h.1)
