-- ===== src/Pagination.antt =====
-- backend/src/common/pagination/pagination.helper.ts.
pub mod Laws
pub mod Pages
mod Tests
use cg_traveleke_service.Base.{
  ℕ, zero, suc, ◌+◌, ◌-◌, ◌*◌, ◌/◌, ltb, min, max, Bool, true, false, Option, none, some,
  if◌then◌else◌,
}

-- A value of JavaScript's `Number(x)`, as far as the helper can tell: NaN, a negative number,
-- `Infinity`, or a number from 0 on by its whole part and whether a fraction follows.
pub data Number : Type 0 where
  nan : Number
  minus : Number
  infinity : Number
  num : ℕ → Bool → Number

-- `!isNaN(x) && x > 0`
abbrev pub is_positive : Number → Bool
is_positive nan = false
is_positive minus = false
is_positive infinity = true
is_positive (num zero fraction) = fraction
is_positive (num (suc n) fraction) = true

-- A number that the helper has floored: finite or `Infinity`.
pub data Floored : Type 0 where
  finite : ℕ → Floored
  infinite : Floored

-- `Math.floor(x)` of a positive number; the other cases do not reach it.
abbrev floor_of : Number → Floored
floor_of nan = finite 0
floor_of minus = finite 0
floor_of infinity = infinite
floor_of (num n fraction) = finite n

-- An offset may be negative: `before n` is -n.
pub data Offset : Type 0 where
  rows : ℕ → Offset
  before : ℕ → Offset
  unbounded : Offset

-- The three parameters of a request, each after `Number(…)`; `none` is `undefined`.
pub record PageQuery : Type 0 where
  pub page : Option Number
  pub per_page : Option Number
  pub limit : Option Number

pub record NormalizedPagination : Type 0 where
  pub page : Floored
  pub limit : ℕ
  pub skip : Offset
  pub per_page : ℕ

-- `x !== undefined ? x : y`
abbrev coalesce : Option Number → Option Number → Option Number
coalesce none y = y
coalesce (some x) y = some x

-- `Number(undefined)` is NaN.
abbrev to_number : Option Number → Number
to_number none = nan
to_number (some x) = x

-- `(page - 1) * limit`
abbrev pub skip_of : Floored → ℕ → Offset
skip_of infinite limit = unbounded
skip_of (finite zero) limit = before limit
skip_of (finite (suc p)) limit = rows (p * limit)

-- `Math.min(Math.max(x, 1), maxLimit)`
abbrev clamp_limit : Floored → ℕ → ℕ
clamp_limit (finite n) max_limit = min (max n 1) max_limit
clamp_limit infinite max_limit = max_limit

unfoldable pub normalize_pagination : PageQuery → ℕ → ℕ → NormalizedPagination
normalize_pagination query default_per_page max_limit =
    let parsed_page = to_number query.page in
    let page = if is_positive parsed_page then floor_of parsed_page else finite 1 in
    let raw_limit = coalesce query.per_page query.limit in
    let parsed_limit = to_number raw_limit in
    let requested_limit =
      if is_positive parsed_limit then floor_of parsed_limit else finite default_per_page in
    let limit = clamp_limit requested_limit max_limit in
    record { page = page; limit = limit; skip = skip_of page limit; per_page = limit }

pub record PaginationMeta : Type 0 where
  pub page : ℕ
  pub per_page : ℕ
  pub total : ℕ
  pub total_pages : ℕ
  pub total_items : ℕ
  pub item_count : ℕ
  pub items_per_page : ℕ
  pub current_page : ℕ
  pub has_next_page : Bool
  pub has_previous_page : Bool

-- `Math.ceil(a / b)` for a positive `b`
abbrev pub ceil_div : ℕ → ℕ → ℕ
ceil_div a b = (a + (b - 1)) / b

unfoldable pub build_pagination_meta : ℕ → ℕ → ℕ → ℕ → PaginationMeta
build_pagination_meta page limit total data_length =
    let total_pages = if ltb 0 total then ceil_div total limit else 0 in
    record {
      page = page;
      per_page = limit;
      total = total;
      total_pages = total_pages;
      total_items = total;
      item_count = data_length;
      items_per_page = limit;
      current_page = page;
      has_next_page = ltb page total_pages;
      has_previous_page = ltb 1 page;
    }
