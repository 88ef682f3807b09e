-- ===== src/Catalogue/Slug/Shape.antt =====
-- backend/src/hotels/hotels.service.ts: what `normalizeSlug` leaves of a text.
use cg_traveleke_service.Base.{
  ℕ, zero, suc, ◌≤◌, ◌==◌, Bool, true, false, ◌||◌, List, [], ◌∷◌, ◌≡◌, ◌≢◌, refl, arith, All,
  length, Bool-cases, inl, inr,
}
use cg_traveleke_service.Catalogue.Slug.{
  is_slug_char, dashed, strip_front, cons_unless_last_dash, strip_back, take, normalize_slug,
}

-- A lower-case letter, a digit or a dash.
abbrev pub InSlug : ℕ → Type 0
InSlug c = (is_slug_char c || c == b'-') ≡ true

abbrev pub NoFrontDash : List ℕ → Type 0
NoFrontDash [] = Unit
NoFrontDash (c ∷ cs) = c ≢ b'-'

dashed-InSlug : (before : Bool) (cs : List ℕ) → All InSlug (dashed before cs)
unfolding dashed
dashed-InSlug before [] = tt
dashed-InSlug before (c ∷ cs) = elim (Bool-cases (is_slug_char c)) [
  | inl e ↦ rw e (rw e refl, dashed-InSlug false cs)
  | inr e ↦ elim (Bool-cases before) [
    | inl b ↦ rw (e, b) (dashed-InSlug true cs)
    | inr b ↦ rw (e, b) (refl, dashed-InSlug true cs)
  ]
]

strip_front-InSlug : (cs : List ℕ) → All InSlug cs → All InSlug (strip_front cs)
unfolding strip_front
strip_front-InSlug [] h = tt
strip_front-InSlug (c ∷ cs) h = elim (Bool-cases (c == b'-')) [
  | inl e ↦ rw e (strip_front-InSlug cs h.1)
  | inr e ↦ rw e h
]

strip_front-NoFrontDash : (cs : List ℕ) → NoFrontDash (strip_front cs)
unfolding strip_front
strip_front-NoFrontDash [] = tt
strip_front-NoFrontDash (c ∷ cs) = elim (Bool-cases (c == b'-')) [
  | inl e ↦ rw e (strip_front-NoFrontDash cs)
  | inr e ↦ rw e (ground arith)
]

cons-InSlug :
    (c : ℕ) (cs : List ℕ) → InSlug c → All InSlug cs → All InSlug (cons_unless_last_dash c cs)
cons-InSlug c [] k h = elim (Bool-cases (c == b'-')) [ inl e ↦ rw e tt | inr e ↦ rw e (k, tt) ]
cons-InSlug c (d ∷ ds) k h = (k, h)

strip_back-InSlug : (cs : List ℕ) → All InSlug cs → All InSlug (strip_back cs)
unfolding strip_back
strip_back-InSlug [] h = tt
strip_back-InSlug (c ∷ cs) h = cons-InSlug c (strip_back cs) h.0 (strip_back-InSlug cs h.1)

cons-NoFrontDash : (c : ℕ) (cs : List ℕ) → c ≢ b'-' → NoFrontDash (cons_unless_last_dash c cs)
cons-NoFrontDash c [] h = elim (Bool-cases (c == b'-')) [ inl e ↦ rw e tt | inr e ↦ rw e h ]
cons-NoFrontDash c (d ∷ ds) h = h

strip_back-NoFrontDash : (cs : List ℕ) → NoFrontDash cs → NoFrontDash (strip_back cs)
unfolding strip_back
strip_back-NoFrontDash [] h = tt
strip_back-NoFrontDash (c ∷ cs) h = cons-NoFrontDash c (strip_back cs) h

take-InSlug : (n : ℕ) (cs : List ℕ) → All InSlug cs → All InSlug (take n cs)
unfolding take
take-InSlug zero cs h = tt
take-InSlug (suc n) [] h = tt
take-InSlug (suc n) (c ∷ cs) h = (h.0, take-InSlug n cs h.1)

take-NoFrontDash : (n : ℕ) (cs : List ℕ) → NoFrontDash cs → NoFrontDash (take n cs)
unfolding take
take-NoFrontDash zero cs h = tt
take-NoFrontDash (suc n) [] h = tt
take-NoFrontDash (suc n) (c ∷ cs) h = h

length-take : (n : ℕ) (cs : List ℕ) → length (take n cs) ≤ n
unfolding take
length-take zero cs = omega arith
length-take (suc n) [] = omega arith
length-take (suc n) (c ∷ cs) = omega (arith, length-take n cs)

-- A normalised slug holds lower-case letters, digits and dashes only, does not begin with a dash, and is
-- no longer than the limit.
pub normalize_slug-InSlug :
    (plain : List ℕ → List ℕ) (max_length : ℕ) (value : List ℕ)
    → All InSlug (normalize_slug plain max_length value)
      × NoFrontDash (normalize_slug plain max_length value)
      × (length (normalize_slug plain max_length value) ≤ max_length)
unfolding normalize_slug
normalize_slug-InSlug plain max_length value =
    let base = dashed false (plain value) in
    (
      take-InSlug max_length _ (
          strip_back-InSlug (strip_front base)
            (strip_front-InSlug base (dashed-InSlug false (plain value)))),
      take-NoFrontDash max_length _
          (strip_back-NoFrontDash (strip_front base) (strip_front-NoFrontDash base)),
      length-take max_length _,
    )
