-- ===== src/Base/Lists.antt =====
-- Lists as the rows of a table: the first row that passes a test, all that do, a conditional update.
use Prim.Native.Nat.{ℕ, suc, ◌+◌, ◌≤◌}
use mathlib.Core.Path.{◌≡◌, refl, ap, ◌∙◌}
use mathlib.Core.Logic.{inl, inr}
use mathlib.Core.Bool.{Bool, true, false, ◌&&◌}
use mathlib.Core.List.{List, [], ◌∷◌, ◌++◌}
use mathlib.Core.Option.{Option, none, some}
use native.Mathlib.Omega.{arith}
use cg_traveleke_service.Base.Tests.{if◌then◌else◌, Bool-cases, or_else}

module _ {ℓ} {A : Type ℓ} where
  abbrev pub length : List A → ℕ
  length [] = 0
  length (x ∷ xs) = suc (length xs)

  pub length-append : (xs ys : List A) → length (xs ++ ys) ≡ length xs + length ys
  length-append [] ys = omega arith
  length-append (x ∷ xs) ys = omega (arith, length-append xs ys)

  -- The rows that pass the test, in order.
  abbrev pub select : (A → Bool) → List A → List A
  select p [] = []
  select p (x ∷ xs) = let rest = select p xs in if p x then x ∷ rest else rest

  -- The first row that passes the test.
  abbrev pub first : (A → Bool) → List A → Option A
  first p [] = none
  first p (x ∷ xs) = let rest = first p xs in if p x then some x else rest

  abbrev pub count : (A → Bool) → List A → ℕ
  count p [] = 0
  count p (x ∷ xs) = let rest = count p xs in if p x then suc rest else rest

  -- `f` at the rows that pass the test; the others stay.
  abbrev pub map_where : (A → Bool) → (A → A) → List A → List A
  map_where p f [] = []
  map_where p f (x ∷ xs) = (if p x then f x else x) ∷ map_where p f xs

  abbrev pub all : (A → Bool) → List A → Bool
  all p [] = true
  all p (x ∷ xs) = p x && all p xs

  pub select-append :
      (p : A → Bool) (xs ys : List A) → select p (xs ++ ys) ≡ select p xs ++ select p ys
  select-append p [] ys = refl
  select-append p (x ∷ xs) ys = ground (arith, select-append p xs ys)

  pub count-append : (p : A → Bool) (xs ys : List A) → count p (xs ++ ys) ≡ count p xs + count p ys
  count-append p [] ys = omega arith
  count-append p (x ∷ xs) ys = ground (arith, count-append p xs ys)

  pub count-le : (p : A → Bool) (xs : List A) → count p xs ≤ length xs
  count-le p [] = omega arith
  count-le p (x ∷ xs) = ground (arith, count-le p xs)

  pub length-map_where :
      (p : A → Bool) (f : A → A) (xs : List A) → length (map_where p f xs) ≡ length xs
  length-map_where p f [] = refl
  length-map_where p f (x ∷ xs) = ap suc (length-map_where p f xs)

  pub first-passes : (p : A → Bool) (xs : List A) (a : A) → first p xs ≡ some a → p a ≡ true
  first-passes p [] a h = ground arith
  first-passes p (x ∷ xs) a h = ground (arith, first-passes p xs a)

  -- No row is changed where none passes the test.
  pub map_where-none :
      (p : A → Bool) (f : A → A) (xs : List A) → count p xs ≡ 0 → map_where p f xs ≡ xs
  map_where-none p f [] h = refl
  map_where-none p f (x ∷ xs) h = ground (arith, map_where-none p f xs)

module _ {ℓ κ} {A : Type ℓ} (P : A → Type κ) where
  abbrev pub All : List A → Type κ
  All [] = Unit
  All (x ∷ xs) = P x × All xs

module _ {ℓ κ μ} {A : Type ℓ} (P : A → Type κ) (Q : A → Type μ) (imp : (a : A) → P a → Q a) where
  pub All-mono : (xs : List A) → All P xs → All Q xs
  All-mono [] h = tt
  All-mono (x ∷ xs) h = (imp x h.0, All-mono xs h.1)

module _ {ℓ} {A : Type ℓ} where
  -- An update that keeps what a test reads keeps the number of rows that pass it.
  pub count-map_where :
      (q p : A → Bool) (f : A → A) (xs : List A)
      → ((a : A) → p a ≡ true → q (f a) ≡ q a)
      → count q (map_where p f xs) ≡ count q xs
  count-map_where q p f [] h = refl
  count-map_where q p f (x ∷ xs) h = ground (arith, h x, count-map_where q p f xs h)

  -- An update by `f` at rows that fail `q`, and fail it afterwards, does not change the first that passes.
  pub first-map_where :
      (q p : A → Bool) (f : A → A) (xs : List A)
      → ((a : A) → p a ≡ true → (q a ≡ false) × (q (f a) ≡ false))
      → first q (map_where p f xs) ≡ first q xs
  first-map_where q p f [] h = refl
  first-map_where q p f (x ∷ xs) h = ground (arith, h x, first-map_where q p f xs h)

  pub select-map_where :
      (q p : A → Bool) (f : A → A) (xs : List A)
      → ((a : A) → p a ≡ true → (q a ≡ false) × (q (f a) ≡ false))
      → select q (map_where p f xs) ≡ select q xs
  select-map_where q p f [] h = refl
  select-map_where q p f (x ∷ xs) h = ground (arith, h x, select-map_where q p f xs h)

  pub map_where-append :
      (p : A → Bool) (f : A → A) (xs ys : List A)
      → map_where p f (xs ++ ys) ≡ map_where p f xs ++ map_where p f ys
  map_where-append p f [] ys = refl
  map_where-append p f (x ∷ xs) ys =
      ap (λ r. (if p x then f x else x) ∷ r) (map_where-append p f xs ys)

  pub count-of_none : (q : A → Bool) (xs : List A) → first q xs ≡ none → count q xs ≡ 0
  count-of_none q [] h = refl
  count-of_none q (x ∷ xs) h = ground (arith, count-of_none q xs)

  -- The row that a save by key replaces is found again.
  pub first-map_where_const :
      (q : A → Bool) (b : A) (xs : List A) {a : A}
      → q b ≡ true
      → first q xs ≡ some a
      → first q (map_where q (λ _. b) xs) ≡ some b
  first-map_where_const q b [] h e = cc
  first-map_where_const q b (x ∷ xs) {a} h e =
      ground (arith, first-map_where_const q b xs {a = a} h)

  pub All-select {κ} :
      (P : A → Type κ) (p : A → Bool) (xs : List A) → All P xs → All P (select p xs)
  All-select P p [] h = tt
  All-select P p (x ∷ xs) h = elim (Bool-cases (p x)) [
    | inl e ↦ rw e (h.0, All-select P p xs h.1)
    | inr e ↦ rw e (All-select P p xs h.1)
  ]

  pub All-append {κ} : (P : A → Type κ) (xs ys : List A) → All P xs → All P ys → All P (xs ++ ys)
  All-append P [] ys h k = k
  All-append P (x ∷ xs) ys h k = (h.0, All-append P xs ys h.1 k)

  pub count_of_first : (q : A → Bool) (xs : List A) (a : A) → first q xs ≡ some a → 1 ≤ count q xs
  count_of_first q [] a h = ground arith
  count_of_first q (x ∷ xs) a h = ground (arith, count_of_first q xs a)

  pub first-append_none :
      (q : A → Bool) (xs ys : List A) → count q xs ≡ 0 → first q (xs ++ ys) ≡ first q ys
  first-append_none q [] ys h = refl
  first-append_none q (x ∷ xs) ys h = ground (arith, first-append_none q xs ys)

  pub first-append_some :
      (q : A → Bool) (xs ys : List A) → 1 ≤ count q xs → first q (xs ++ ys) ≡ first q xs
  first-append_some q [] ys h = absurd (omega arith)
  first-append_some q (x ∷ xs) ys h = ground (arith, first-append_some q xs ys)

  pub count_mono :
      (p q : A → Bool) (xs : List A) → ((a : A) → p a ≡ true → q a ≡ true) → count p xs ≤ count q xs
  count_mono p q [] h = omega arith
  count_mono p q (x ∷ xs) h = ground (arith, h x, count_mono p q xs h)

-- A row that one test finds passes another, which so has it first if only one row passes it.
pub passes-counted :
    {A : Type 0} (q p : A → Bool) (xs : List A) (a : A)
    → first q xs ≡ some a
    → p a ≡ true
    → 1 ≤ count p xs
passes-counted q p [] a e h = absurd (ground arith)
passes-counted q p (y ∷ ys) a e h = elim (Bool-cases (q y)) [
  | inl m ↦ rw (ap p (ap (λ o. or_else o a) (rw m at e)) ∙ h) (omega arith)
  | inr m ↦ ground (arith, passes-counted q p ys a)
]

pub first_by :
    {A : Type 0} (q p : A → Bool) (xs : List A) (a : A)
    → first q xs ≡ some a
    → p a ≡ true
    → count p xs ≤ 1
    → first p xs ≡ some a
first_by q p [] a e h k = e
first_by q p (y ∷ ys) a e h k = elim (Bool-cases (q y)) [
  | inl m ↦ let same = ap (λ o. or_else o a) (rw m at e) in rw (ap p same ∙ h) (ap some same)
  | inr m ↦ ground (arith, passes-counted q p ys a, first_by q p ys a)
]

-- The first row that passes a test is still the first after an update that keeps the test.
pub first-map_where_image :
    {A : Type 0} (q p : A → Bool) (f : A → A) (xs : List A) (a : A)
    → ((b : A) → q (f b) ≡ q b)
    → p a ≡ true
    → first q xs ≡ some a
    → first q (map_where p f xs) ≡ some (f a)
first-map_where_image q p f [] a h s e = absurd (ground arith)
first-map_where_image q p f (y ∷ ys) a h s e = elim (Bool-cases (q y)) [
  | inl m ↦
      let same = ap (λ o. or_else o a) (rw m at e) in
      rw (ap p same ∙ s, h y, m) (ap (λ z. some (f z)) same)
  | inr m ↦ ground (arith, h y, first-map_where_image q p f ys a h s)
]
