-- ===== src/Catalogue/Listed.antt =====
-- backend/src/hotels/hotels.service.ts: the pages of `search`, together.
use text.Mathlib.Text.{◌==◌ as str_eq}
use cg_traveleke_service.Base.{
  ℕ, suc, ◌*◌, ◌≤◌, ◌==◌, Bool, true, false, not, ◌&&◌, ◌||◌, Option, none, some, some_same,
  none_ne, List, ◌≡◌, ◌↔◌, refl, sym, arith, length, min, max, length-sort, select, sort, Perm,
  sort-perm, Ascending, sort-Ascending, subst, String, Bool-cases, inl, inr, zero,
}
use cg_traveleke_service.Pagination.Pages.{drop, take, newer, page_rows, pages_from, pages_all}
use cg_traveleke_service.Catalogue.Hotels.Model.{Hotel}
use cg_traveleke_service.Catalogue.Search.{
  SearchServices, SearchHotelDto, given, given_id, given_text, like_null, star_is,
  same_hotel_status, hotel_wanted, search_hotels,
}

given_iff :
    {A : Type 0} (o : Option A) (p : A → Bool)
    → (given o p ≡ true) ↔ ((a : A) → o ≡ some a → p a ≡ true)
given_iff none p = (λ _ a e. absurd (none_ne e), λ _. refl)
given_iff (some b) p = (λ h a e. subst (λ x. p x ≡ true) (some_same e) h, λ k. k b refl)

given_id_iff :
    (o : Option ℕ) (p : ℕ → Bool)
    → (given_id o p ≡ true) ↔ ((n : ℕ) → o ≡ some (suc n) → p (suc n) ≡ true)
given_id_iff none p = (λ _ n e. absurd (none_ne e), λ _. refl)
given_id_iff (some zero) p = (λ _ n e. absurd (omega (arith, some_same e)), λ _. refl)
given_id_iff (some (suc m)) p = (λ h n e. subst (λ x. p x ≡ true) (some_same e) h, λ k. k m refl)

given_text_iff :
    (v : SearchServices) (o : Option String) (p : String → Bool)
    → (given_text v o p ≡ true)
      ↔ ((k : String) → o ≡ some k → (str_eq (v.trim k) "" || p (v.trim k)) ≡ true)
given_text_iff v none p = (λ _ n e. absurd (none_ne e), λ _. refl)
given_text_iff v (some t) p = elim (Bool-cases (str_eq (v.trim t) "")) [
  | inl b ↦ (
    λ h k e. subst (λ x. (str_eq (v.trim x) "" || p (v.trim x)) ≡ true) (some_same e) (rw b refl),
    λ k. rw b refl,
  )
  | inr b ↦ (
    λ h k e.
        subst (λ x. (str_eq (v.trim x) "" || p (v.trim x)) ≡ true) (some_same e) (rw b (rw b at h)),
    λ k. rw b (rw b at (k t refl)),
  )
]

all_six :
    (a b c d e f : Bool)
    → ((not a && b && c && d && e && f) ≡ true)
      ↔ ((a ≡ false) × (b ≡ true) × (c ≡ true) × (d ≡ true) × (e ≡ true) × (f ≡ true))
all_six a b c d e f = (
  λ h. (ground arith, ground arith, ground arith, ground arith, ground arith, ground arith),
  λ h. ground (arith, h),
)

clamped : (k : ℕ) → suc k ≤ 100 → min (max (suc k) 1) 100 ≡ suc k
clamped k h = omega arith

by_newer_asymm : (a b : Hotel) → newer (λ r. r.id) a b ≡ true → newer (λ r. r.id) b a ≡ false
by_newer_asymm a b h = ground arith

by_newer_trans :
    (a b c : Hotel)
    → newer (λ r. r.id) a b ≡ false
    → newer (λ r. r.id) b c ≡ false
    → newer (λ r. r.id) a c ≡ false
by_newer_trans a b c h k = ground arith

-- The rows of page `suc p`.
abbrev pub hotel_page : SearchServices → SearchHotelDto → List Hotel → ℕ → List Hotel
hotel_page v q hotels p = (search_hotels v (record q { page = some (suc p) }) hotels).0

module _ (v : SearchServices) (q : SearchHotelDto) where
  -- What a guest asks for: what is not given excludes nothing, nor does a blank keyword, nor 0 stars.
  abbrev pub Wanted : Hotel → Type 0
  Wanted h =
      (h.deleted ≡ false)
      × ((k : String)
          → q.keyword ≡ some k
          → (str_eq (v.trim k) ""
              || (v.like h.name (v.trim k)
                  || v.like h.address (v.trim k)
                  || like_null v h.description (v.trim k)
                  || like_null v h.email (v.trim k)))
            ≡ true)
      × ((l : ℕ) → q.location_id ≡ some l → (h.location_id == l) ≡ true)
      × ((t : ℕ) → q.hotel_type_id ≡ some t → (h.hotel_type_id == t) ≡ true)
      × ((s : ℕ) → q.star_rating ≡ some (suc s) → star_is h.star_rating (suc s) ≡ true)
      × ((s : _) → q.status ≡ some s → same_hotel_status h.status s ≡ true)

  hotel_wanted_iff : (h : Hotel) → (hotel_wanted v q h ≡ true) ↔ Wanted h
  hotel_wanted_iff h =
      let six =
        all_six h.deleted
          (given_text v q.keyword (λ k.
            v.like h.name k
            || v.like h.address k
            || like_null v h.description k
            || like_null v h.email k))
          (given q.location_id (λ l. h.location_id == l))
          (given q.hotel_type_id (λ t. h.hotel_type_id == t))
          (given_id q.star_rating (star_is h.star_rating))
          (given q.status (same_hotel_status h.status)) in
      let keyword = given_text_iff v q.keyword (λ k.
        v.like h.name k
        || v.like h.address k
        || like_null v h.description k
        || like_null v h.email k) in
      let location = given_iff q.location_id (λ l. h.location_id == l) in
      let type = given_iff q.hotel_type_id (λ t. h.hotel_type_id == t) in
      let stars = given_id_iff q.star_rating (star_is h.star_rating) in
      let status = given_iff q.status (same_hotel_status h.status) in
      (
        λ e.
            let (a, b, c, d, s, f) = six.0 e in
            (a, keyword.0 b, location.0 c, type.0 d, stars.0 s, status.0 f),
        λ w.
            let (a, b, c, d, s, f) = w in
            six.1 (a, keyword.1 b, location.1 c, type.1 d, stars.1 s, status.1 f),
      )

  module _ (hotels : List Hotel) (k : ℕ) (limit : q.per_page ≡ some (suc k))
      (small : suc k ≤ 100) where
    abbrev sorted : List Hotel
    sorted = sort (newer (λ r. r.id)) (select (hotel_wanted v q) hotels)

    is_page : (p : ℕ) → hotel_page v q hotels p ≡ take (suc k) (drop (p * suc k) sorted)
    unfolding search_hotels page_rows
    is_page p = rw (search_hotels, limit, v.hotel_repo.find_lem, clamped k small) refl

    -- If a page has from 1 to 100 rows: enough pages of `search`, one after the other, hold each hotel once
    -- that passes the tests and no other, the newest first; and a hotel passes the tests exactly if it is
    -- not deleted and is as each field of the request asks that is given, where a blank keyword and 0
    -- stars count as not given.
    pub search_hotels-Perm :
        (n : ℕ)
        → length (select (hotel_wanted v q) hotels) ≤ n * suc k
        → Perm (pages_from (hotel_page v q hotels) n 0) (select (hotel_wanted v q) hotels)
          × Ascending (newer (λ r. r.id)) (pages_from (hotel_page v q hotels) n 0)
          × ((h : Hotel) → (hotel_wanted v q h ≡ true) ↔ Wanted h)
    search_hotels-Perm n h =
        let found = select (hotel_wanted v q) hotels in
        let same =
          pages_all sorted (suc k) (hotel_page v q hotels) is_page n
            (omega (arith, h, length-sort (newer (λ r. r.id)) found)) in
        let (perm, order) =
          subst (λ l. Perm l found × Ascending (newer (λ r. r.id)) l) (sym same)
            (
              sort-perm (newer (λ r. r.id)) found,
              sort-Ascending (newer (λ r. r.id)) by_newer_asymm by_newer_trans found,
            ) in
        (perm, order, hotel_wanted_iff)
