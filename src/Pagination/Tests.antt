-- ===== src/Pagination/Tests.antt =====
-- A request at its bounds.
use cg_traveleke_service.Base.{ℕ, suc, ◌*◌, ◌/◌, ◌≤◌, ◌<◌, true, none, some, ◌≡◌, ◌↔◌, refl, arith}
use cg_traveleke_service.Pagination.{
  PageQuery, num, infinity, finite, before, normalize_pagination, build_pagination_meta,
}
use cg_traveleke_service.Pagination.Laws.{
  Covers, request, normalize_pagination-limit, normalize_pagination-page, pages_cover,
  build_pagination_meta-neighbours,
}

-- `?page=0.5&perPage=Infinity`
abbrev half_page : PageQuery
half_page = record { page = some (num 0 true); per_page = some infinity; limit = none }

half_page_lem :
    normalize_pagination half_page 20 100
    ≡ record { page = finite 0; limit = 100; skip = before 100; per_page = 100 }
unfolding normalize_pagination
half_page_lem = refl

normalize_pagination-limit_example :
    (1 ≤ (normalize_pagination half_page 20 100).limit)
    × ((normalize_pagination half_page 20 100).limit ≤ 100)
normalize_pagination-limit_example = normalize_pagination-limit half_page 20 100 (omega arith)

normalize_pagination-page_example :
    ((normalize_pagination half_page 20 100).page ≡ finite 0) ↔ (half_page.page ≡ some (num 0 true))
normalize_pagination-page_example = normalize_pagination-page half_page 20 100

build_pagination_meta-neighbours_example :
    let m = build_pagination_meta 3 20 60 20 in
    ((m.has_next_page ≡ true) ↔ (3 * 20 < 60)) × ((m.has_previous_page ≡ true) ↔ (1 < 3))
build_pagination_meta-neighbours_example = build_pagination_meta-neighbours 3 20 60 20 (omega arith)

pages_cover_example :
    Covers (normalize_pagination (request (suc (45 / 20)) 20) 20 100) 45
    × (45 / 20 < (build_pagination_meta (suc (45 / 20)) 20 60 20).total_pages)
    × ((p : ℕ) → Covers (normalize_pagination (request (suc p) 20) 20 100) 45 → p ≡ 45 / 20)
pages_cover_example = pages_cover 20 20 100 60 20 45 (omega arith) (omega arith) (omega arith)
