-- ===== src/Pagination/Laws.antt =====
-- backend/src/common/pagination/pagination.helper.ts: the bounds of a page and what the pages cover.
use cg_traveleke_service.Base.{
  ℕ, suc, ◌+◌, ◌*◌, ◌/◌, ◌≤◌, ◌<◌, ltb, true, false, ◌≡◌, ◌↔◌, sym, ◌∙◌, none, some, arith, ltb→lt,
  lt→ltb, inl, inr, Bool-cases,
}
use native.Mathlib.Nat.{lt_of_mul-lt-mul_right, div-mul-le_self, lt-div-mul-add, div-eq_of_lt-le}
use cg_traveleke_service.Pagination.{
  num, finite, rows, NormalizedPagination, ceil_div, PageQuery, normalize_pagination,
  build_pagination_meta,
}

ceil_bounds : (a b : ℕ) → 0 < b → (a ≤ ceil_div a b * b) × (ceil_div a b * b < a + b)
ceil_bounds a b h = grind arith

lt-ceil_iff : (p a b : ℕ) → 0 < b → (p < ceil_div a b) ↔ (p * b < a)
lt-ceil_iff p a b h = (
  λ k. grind (arith, ceil_bounds a b h),
  λ k. lt_of_mul-lt-mul_right b (omega (arith, ceil_bounds a b h)),
)

rows-injective : {a b : ℕ} → rows a ≡ rows b → a ≡ b
rows-injective e = cc

-- Whatever the request holds, the page size lies between 1 and the maximum.
pub normalize_pagination-limit :
    (q : PageQuery) (d m : ℕ)
    → 1 ≤ m
    → (1 ≤ (normalize_pagination q d m).limit) × ((normalize_pagination q d m).limit ≤ m)
unfolding normalize_pagination
normalize_pagination-limit q d m h = ground arith

-- The page is at least 1, except for a page between 0 and 1, which the helper rounds down to page 0 and
-- a negative offset.
pub normalize_pagination-page :
    (q : PageQuery) (d m : ℕ)
    → ((normalize_pagination q d m).page ≡ finite 0) ↔ (q.page ≡ some (num 0 true))
unfolding normalize_pagination
normalize_pagination-page q d m = (λ h. ground arith, λ h. ground arith)

-- The request for page `p` with `l` rows.
abbrev pub request : ℕ → ℕ → PageQuery
request p l = record { page = some (num p false); per_page = some (num l false); limit = none }

-- The row number `i`, from 0, is on the page.
abbrev pub Covers : NormalizedPagination → ℕ → Type 0
Covers r i = (s : ℕ) × (r.skip ≡ rows s) × (s ≤ i) × (i < s + r.limit)

request_lem :
    (p l d m : ℕ)
    → 1 ≤ l
    → l ≤ m
    → let r = normalize_pagination (request (suc p) l) d m in
      (r.skip ≡ rows (p * l)) × (r.limit ≡ l)
unfolding normalize_pagination
request_lem p l d m h k = ground arith

-- Each row is on exactly one page of size `l`, and that page is among those that the metadata count.
pub pages_cover :
    (l d m total n i : ℕ)
    → 1 ≤ l
    → l ≤ m
    → i < total
    → Covers (normalize_pagination (request (suc (i / l)) l) d m) i
      × (i / l < (build_pagination_meta (suc (i / l)) l total n).total_pages)
      × ((p : ℕ) → Covers (normalize_pagination (request (suc p) l) d m) i → p ≡ i / l)
unfolding build_pagination_meta
pages_cover l d m total n i h k t = (
  (
    i / l * l,
    (request_lem (i / l) l d m h k).0,
    div-mul-le_self i l,
    rw (request_lem (i / l) l d m h k).1 (lt-div-mul-add h),
  ),
  rw (lt→ltb 0 total (omega arith))
      ((lt-ceil_iff (i / l) total l h).1 (omega (arith, div-mul-le_self i l))),
  λ p c.
      let e : c.0 ≡ p * l = rows-injective (sym c.1 ∙ (request_lem p l d m h k).0) in
      sym
        (div-eq_of_lt-le l (omega (arith, c.2)) (omega (arith, c.3, (request_lem p l d m h k).1))),
)

-- There is a next page exactly if a row stands behind the rows of this one, and a previous page
-- exactly if this is not the first.
pub build_pagination_meta-neighbours :
    (page limit total n : ℕ)
    → 1 ≤ limit
    → let m = build_pagination_meta page limit total n in
      ((m.has_next_page ≡ true) ↔ (page * limit < total))
      × ((m.has_previous_page ≡ true) ↔ (1 < page))
unfolding build_pagination_meta
build_pagination_meta-neighbours page limit total n h = elim (Bool-cases (ltb 0 total)) [
  | inl e ↦ rw e (
    (
      λ k. (lt-ceil_iff page total limit h).0 (ltb→lt _ _ k),
      λ k. lt→ltb _ _ ((lt-ceil_iff page total limit h).1 k),
    ),
    (λ k. ground arith, λ k. ground arith),
  )
  | inr e ↦ rw e ((λ k. ground arith, λ k. ground arith), (λ k. ground arith, λ k. ground arith))
]
