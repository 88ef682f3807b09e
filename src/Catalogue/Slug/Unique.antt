-- ===== src/Catalogue/Slug/Unique.antt =====
-- backend/src/hotels/hotels.service.ts and backend/src/rooms/rooms.service.ts: the loop of
-- `buildUniqueSlug` ends, with a slug that no row has.
use native.Mathlib.Decide.{dec_lt}
use cg_traveleke_service.Base.{
  ℕ, zero, suc, ◌+◌, ◌≤◌, ◌<◌, Bool, true, false, ◌||◌, some, List, [], ◌∷◌, ◌++◌, ◌≡◌, ◌≢◌, refl,
  arith, length, count, subst, ap, or_else, Option-cases, if◌then◌else◌, ◌⊎◌, inl, inr, Bool-cases,
}
use cg_traveleke_service.Catalogue.Slug.{free_slug, unique, no_slug, endless, build_unique_slug}

-- How many of the first numbers pass the test.
hits : ℕ → (ℕ → Bool) → ℕ
hits zero p = 0
hits (suc n) p = (if p n then 1 else 0) + hits n p

hits-none : (n : ℕ) (p : ℕ → Bool) → ((i : ℕ) → i < n → p i ≡ false) → hits n p ≡ 0
unfolding hits
hits-none zero p h = refl
hits-none (suc n) p h = ground (arith, h n (omega arith), hits-none n p (λ i k. h i (omega arith)))

hits-all : (n : ℕ) (p : ℕ → Bool) → ((i : ℕ) → i < n → p i ≡ true) → hits n p ≡ n
unfolding hits
hits-all zero p h = refl
hits-all (suc n) p h = ground (arith, h n (omega arith), hits-all n p (λ i k. h i (omega arith)))

not_hit :
    (p : ℕ → Bool) (i n : ℕ) → i < n → p n ≡ true → (p i ≡ true → p n ≡ true → i ≡ n) → p i ≡ false
not_hit p i n l e h = elim (Bool-cases (p i)) [ inl m ↦ absurd (omega (arith, h m e)) | inr m ↦ m ]

if_le_one : (b : Bool) → (if b then 1 else 0) ≤ 1
if_le_one true = omega arith
if_le_one false = omega arith

hits-one : (n : ℕ) (p : ℕ → Bool) → ((i j : ℕ) → p i ≡ true → p j ≡ true → i ≡ j) → hits n p ≤ 1
unfolding hits
hits-one zero p h = omega arith
hits-one (suc n) p h = elim (Bool-cases (p n)) [
  | inl e ↦ omega (arith, hits-none n p (λ i k. not_hit p i n k e (h i n)), if_le_one (p n))
  | inr e ↦ rw e (omega (arith, hits-one n p h))
]

hits-or : (n : ℕ) (p q : ℕ → Bool) → hits n (λ i. p i || q i) ≤ hits n p + hits n q
unfolding hits
hits-or zero p q = omega arith
hits-or (suc n) p q = ground (arith, hits-or n p q)

-- Does a row have the slug?
abbrev pub any {ℓ} : {A : Type ℓ} → (A → Bool) → List A → Bool
any p [] = false
any p (x ∷ xs) = p x || any p xs

hits-any :
    {A : Type 0} (m : ℕ → A → Bool) (rows : List A) (n : ℕ)
    → ((r : A) (i j : ℕ) → m i r ≡ true → m j r ≡ true → i ≡ j)
    → hits n (λ i. any (m i) rows) ≤ length rows
hits-any m [] n h = omega (arith, hits-none n (λ i. false) (λ i k. refl))
hits-any m (r ∷ rows) n h = omega (
  arith,
  hits-or n (λ i. m i r) (λ i. any (m i) rows),
  hits-one n (λ i. m i r) (h r),
  hits-any m rows n h,
)

module _ (number_text : ℕ → List ℕ) (base : List ℕ) where
  -- The candidates in order.
  abbrev pub candidate : ℕ → List ℕ
  candidate zero = base
  candidate (suc k) = base ++ b'-' ∷ number_text (k + 2)

  -- The first candidate that is free.
  pub record IsFirstFree (taken : List ℕ → Bool) (s : List ℕ) : Type 0 where
    pub number : ℕ
    pub is_candidate : s ≡ candidate number
    pub free : taken s ≡ false
    pub earlier : (i : ℕ) → i < number → taken (candidate i) ≡ true

  below :
      (taken : List ℕ → Bool) (i k : ℕ)
      → i < suc k
      → taken (candidate k) ≡ true
      → (i < k → taken (candidate i) ≡ true)
      → taken (candidate i) ≡ true
  below taken i k l e h = elim (dec_lt i k) [
    | yes m ↦ h m
    | no m ↦ subst (λ j. taken (candidate j) ≡ true) (omega arith) e
  ]

  search_from :
      (taken : List ℕ → Bool) (fuel k : ℕ)
      → ((i : ℕ) → i < k → taken (candidate i) ≡ true)
      → ((s : List ℕ) × (free_slug taken number_text base fuel (k + 2) (candidate k) ≡ some s)
          × IsFirstFree taken s)
        ⊎ ((i : ℕ) → i < k + fuel → taken (candidate i) ≡ true)
  unfolding free_slug
  search_from taken zero k h = inr (λ i l. h i (omega arith))
  search_from taken (suc fuel) k h = elim (Bool-cases (taken (candidate k))) [
    | inr e ↦
        inl (
          candidate k,
          rw e refl,
          record { number = k; is_candidate = refl; free = e; earlier = h },
        )
    | inl e ↦
        let next : k + 2 + 1 ≡ suc k + 2 = omega arith in
        elim (search_from taken fuel (suc k) (λ i l. below taken i k l e (h i))) [
          | inl (s, run, first) ↦ inl (s, rw (e, next) run, first)
          | inr f ↦ inr (λ i l. f i (omega arith))
        ]
  ]

  module _ {Row : Type 0} (has_slug : List ℕ → Row → Bool) (rows : List Row)
      (distinct : (r : Row) (i j : ℕ)
        → has_slug (candidate i) r ≡ true
        → has_slug (candidate j) r ≡ true
        → i ≡ j) where
    -- If a row has at most one of the candidates, the loop finds one that no row has, and no sooner one is
    -- free.
    free_slug-IsFirstFree :
        (s : List ℕ) × (free_slug
            (λ c. any (has_slug c) rows)
            number_text
            base
            (suc (length rows))
            2
            base
          ≡ some s)
        × IsFirstFree (λ c. any (has_slug c) rows) s
    free_slug-IsFirstFree =
        elim (search_from (λ c. any (has_slug c) rows) (suc (length rows)) 0
          (λ i l. absurd (omega arith))) [
            | inl found ↦ found
            | inr all_taken ↦ absurd (
                omega (
                  arith,
                  hits-all (suc (length rows)) (λ i. any (has_slug (candidate i)) rows)
                      (λ i l. all_taken i (omega arith)),
                  hits-any (λ i. has_slug (candidate i)) rows (suc (length rows)) distinct,
                ))
          ]

-- `buildUniqueSlug` ends for every text that is not empty, if no row has two of the candidates: the slug
-- is the first candidate that no row has.
pub build_unique_slug-IsFirstFree :
    {Row : Type 0} (number_text : ℕ → List ℕ) (base : List ℕ) (has_slug : List ℕ → Row → Bool)
    (rows : List Row)
    → base ≢ []
    → ((r : Row) (i j : ℕ)
        → has_slug (candidate number_text base i) r ≡ true
        → has_slug (candidate number_text base j) r ≡ true
        → i ≡ j)
    → (s : List ℕ) × (build_unique_slug (λ c. any (has_slug c) rows) number_text (length rows) base
        ≡ unique s)
      × IsFirstFree number_text base (λ c. any (has_slug c) rows) s
unfolding build_unique_slug
build_unique_slug-IsFirstFree number_text [] has_slug rows full distinct = absurd (full refl)
build_unique_slug-IsFirstFree number_text (c ∷ cs) has_slug rows full distinct =
    let (s, run, first) = free_slug-IsFirstFree number_text (c ∷ cs) has_slug rows distinct in
    (s, rw run refl, first)

free_slug-free :
    (taken : List ℕ → Bool) (number_text : ℕ → List ℕ) (base : List ℕ) (fuel suffix : ℕ)
    (c s : List ℕ)
    → free_slug taken number_text base fuel suffix c ≡ some s
    → taken s ≡ false
unfolding free_slug
free_slug-free taken number_text base zero suffix c s h = absurd (ground arith)
free_slug-free taken number_text base (suc fuel) suffix c s h = elim (Bool-cases (taken c)) [
  | inl e ↦ free_slug-free taken number_text base fuel (suffix + 1) _ s (rw e at h)
  | inr e ↦ subst (λ x. taken x ≡ false) (ap (λ o. or_else o c) (rw e at h)) e
]

-- A slug that `buildUniqueSlug` returns is free.
pub build_unique_slug-free :
    (taken : List ℕ → Bool) (number_text : ℕ → List ℕ) (rows : ℕ) (base s : List ℕ)
    → build_unique_slug taken number_text rows base ≡ unique s
    → taken s ≡ false
unfolding build_unique_slug
build_unique_slug-free taken number_text rows [] s h = absurd (ground arith)
build_unique_slug-free taken number_text rows (c ∷ cs) s h =
    elim (Option-cases (free_slug taken number_text (c ∷ cs) (suc rows) 2 (c ∷ cs))) [
      | inl e ↦ let wrong = rw e at h in absurd (ground arith)
      | inr (x, e) ↦
          let same : x ≡ s =
            ap (λ r. elim r [ unique y ↦ y | no_slug ↦ x | endless ↦ x ]) (rw e at h) in
          subst (λ y. taken y ≡ false) same
            (free_slug-free taken number_text (c ∷ cs) (suc rows) 2 (c ∷ cs) x e)
    ]

pub any-none {ℓ} : {A : Type ℓ} (p : A → Bool) (xs : List A) → any p xs ≡ false → count p xs ≡ 0
any-none p [] h = refl
any-none p (x ∷ xs) h = ground (arith, any-none p xs)
