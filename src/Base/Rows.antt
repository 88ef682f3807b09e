-- ===== src/Base/Rows.antt =====
-- One row of a table, found by a test that at most one row passes: what a save and a deletion do.
use Prim.Native.Nat.{ℕ, ◌+◌, ◌≤◌}
use mathlib.Core.Path.{◌≡◌, refl, ap, subst}
use mathlib.Core.Logic.{inl, inr}
use mathlib.Core.Bool.{Bool, true, false, not}
use mathlib.Core.List.{List, [], ◌∷◌}
use mathlib.Core.Option.{Option, some}
use native.Mathlib.Omega.{arith}
use cg_traveleke_service.Base.Tests.{if◌then◌else◌, Bool-cases, or_else}
use cg_traveleke_service.Base.Lists.{
  select, first, count, map_where, map_where-none, count_of_first, All,
}

module _ {ℓ} {A : Type ℓ} where
  -- The head of a list, where the first row is the one that was found.
  same_row :
      {y a : A} (rest : Option A) (b : Bool)
      → b ≡ true
      → (if b then some y else rest) ≡ some a
      → y ≡ a
  same_row {y} {a} rest b e h = ap (λ o. or_else o a) (rw e at h)

  select-none : (p : A → Bool) (xs : List A) → count p xs ≡ 0 → select (λ x. not (p x)) xs ≡ xs
  select-none p [] h = refl
  select-none p (x ∷ xs) h = ground (arith, select-none p xs)

  -- A save replaces the row by another.
  pub count-save :
      (q p : A → Bool) (b a : A) (xs : List A)
      → first p xs ≡ some a
      → count p xs ≤ 1
      → count q (map_where p (λ _. b) xs) + (if q a then 1 else 0)
        ≡ count q xs + (if q b then 1 else 0)
  count-save q p b a [] e h = absurd (ground arith)
  count-save q p b a (y ∷ ys) e h = elim (Bool-cases (p y)) [
    | inl m ↦
        let same = same_row _ (p y) m e in
        let none_left : count p ys ≡ 0 = ground arith in
        rw (m, map_where-none p (λ _. b) ys none_left, same) (ground arith)
    | inr m ↦ ground (arith, count-save q p b a ys)
  ]

  -- A deletion takes the row away.
  pub count-delete :
      (q p : A → Bool) (a : A) (xs : List A)
      → first p xs ≡ some a
      → count p xs ≤ 1
      → count q (select (λ x. not (p x)) xs) + (if q a then 1 else 0) ≡ count q xs
  count-delete q p a [] e h = absurd (ground arith)
  count-delete q p a (y ∷ ys) e h = elim (Bool-cases (p y)) [
    | inl m ↦
        let same = same_row _ (p y) m e in
        let none_left : count p ys ≡ 0 = ground arith in
        rw (m, select-none p ys none_left, same) (ground arith)
    | inr m ↦ ground (arith, count-delete q p a ys)
  ]

  -- A row that fails a test does not count for the first that passes it.
  pub first-delete :
      (q p : A → Bool) (a : A) (xs : List A)
      → first p xs ≡ some a
      → count p xs ≤ 1
      → q a ≡ false
      → first q (select (λ x. not (p x)) xs) ≡ first q xs
  first-delete q p a [] e h f = refl
  first-delete q p a (y ∷ ys) e h f = elim (Bool-cases (p y)) [
    | inl m ↦
        let same = same_row _ (p y) m e in
        let none_left : count p ys ≡ 0 = ground arith in
        rw (m, select-none p ys none_left, same, f) refl
    | inr m ↦ ground (arith, first-delete q p a ys)
  ]

  -- Where no row passes a test, the saved row is the first that does.
  pub first-save :
      (q p : A → Bool) (b a : A) (xs : List A)
      → first p xs ≡ some a
      → count q xs ≡ 0
      → q b ≡ true
      → first q (map_where p (λ _. b) xs) ≡ some b
  first-save q p b a [] e h t = absurd (ground arith)
  first-save q p b a (y ∷ ys) e h t = ground (arith, first-save q p b a ys)

  -- A save by key is found by a finer test that the saved row passes.
  pub first-save_finer :
      (q p : A → Bool) (b a : A) (xs : List A)
      → ((x : A) → q x ≡ true → p x ≡ true)
      → first q xs ≡ some a
      → q b ≡ true
      → first q (map_where p (λ _. b) xs) ≡ some b
  first-save_finer q p b a [] f e t = absurd (ground arith)
  first-save_finer q p b a (y ∷ ys) f e t = ground (arith, f y, first-save_finer q p b a ys f)

  count-delete_le : (q p : A → Bool) (xs : List A) → count q (select p xs) ≤ count q xs
  count-delete_le q p [] = omega arith
  count-delete_le q p (y ∷ ys) = ground (arith, count-delete_le q p ys)

  pub All-map_where {κ} :
      (P : A → Type κ) (p : A → Bool) (f : A → A) (xs : List A)
      → ((a : A) → P a → P (f a))
      → All P xs
      → All P (map_where p f xs)
  All-map_where P p f [] k h = tt
  All-map_where P p f (x ∷ xs) k h = elim (Bool-cases (p x)) [
    | inl e ↦ rw e (k x h.0, All-map_where P p f xs k h.1)
    | inr e ↦ rw e (h.0, All-map_where P p f xs k h.1)
  ]

  pub All-first {κ} :
      (P : A → Type κ) (p : A → Bool) (xs : List A) (a : A) → first p xs ≡ some a → All P xs → P a
  All-first P p [] a e h = absurd (ground arith)
  All-first P p (x ∷ xs) a e h = elim (Bool-cases (p x)) [
    | inl m ↦ subst P (same_row (first p xs) (p x) m e) h.0
    | inr m ↦ All-first P p xs a (rw m at e) h.1
  ]

  pub All-both {κ μ} :
      (P : A → Type κ) (Q : A → Type μ) (xs : List A)
      → All P xs
      → All Q xs
      → All (λ x. P x × Q x) xs
  All-both P Q [] h k = tt
  All-both P Q (x ∷ xs) h k = ((h.0, k.0), All-both P Q xs h.1 k.1)

  pub select-passes : (p : A → Bool) (xs : List A) → All (λ x. p x ≡ true) (select p xs)
  select-passes p [] = tt
  select-passes p (x ∷ xs) = elim (Bool-cases (p x)) [
    | inl e ↦ rw e (e, select-passes p xs)
    | inr e ↦ rw e (select-passes p xs)
  ]

  pub none-selected :
      (p : A → Bool) (xs : List A) → All (λ x. p x ≡ false) (select p xs) → count p xs ≡ 0
  none-selected p [] h = refl
  none-selected p (x ∷ xs) h = elim (Bool-cases (p x)) [
    | inl e ↦ let wrong = (rw e at h).0 in absurd (ground arith)
    | inr e ↦ rw e (none-selected p xs (rw e at h))
  ]

-- Rows with a key that no two have are found by their keys.
module _ {ℓ} {A : Type ℓ} (same : ℕ → A → Bool) (key : A → ℕ)
    (same_refl : (x : A) → same (key x) x ≡ true) where
  found_before :
      (x : A) (xs zs : List A)
      → ((i : ℕ) → count (same i) (x ∷ xs) ≤ 1)
      → All (λ y. first (same (key y)) xs ≡ some y) zs
      → All (λ y. first (same (key y)) (x ∷ xs) ≡ some y) zs
  found_before x xs [] h a = tt
  found_before x xs (z ∷ zs) h a =
      let once = count_of_first (same (key z)) xs z a.0 in
      (ground (arith, h (key z)), found_before x xs zs h a.1)

  pub All-found :
      (xs : List A)
      → ((i : ℕ) → count (same i) xs ≤ 1)
      → All (λ y. first (same (key y)) xs ≡ some y) xs
  All-found [] h = tt
  All-found (x ∷ xs) h =
      (rw (same_refl x) refl, found_before x xs xs h (All-found xs (λ i. ground (arith, h i))))
