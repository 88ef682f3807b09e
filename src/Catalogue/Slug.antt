-- ===== src/Catalogue/Slug.antt =====
-- backend/src/hotels/hotels.service.ts and backend/src/rooms/rooms.service.ts: `normalizeSlug` and
-- `buildUniqueSlug`, which differ in the length and in the query. A slug is the list of its code points.
pub mod Unique
pub mod Shape
use cg_traveleke_service.Base.{
  ℕ, zero, suc, ◌+◌, ◌==◌, leb, Bool, true, false, ◌&&◌, ◌||◌, Option, none, some, List, [], ◌∷◌,
  ◌++◌, if◌then◌else◌,
}

-- `[a-z0-9]`
abbrev pub is_slug_char : ℕ → Bool
is_slug_char c = (leb b'a' c && leb c b'z') || (leb b'0' c && leb c b'9')

-- `.replace(/[^a-z0-9]+/g, '-')`; the test says that the character before was replaced.
unfoldable pub dashed : Bool → List ℕ → List ℕ
dashed before [] = []
dashed before (c ∷ cs) =
    let kept = c ∷ dashed false cs in
    let later = dashed true cs in
    if is_slug_char c then kept else (if before then later else b'-' ∷ later)

-- `.replace(/^-+|-+$/g, '')`, its two halves.
unfoldable pub strip_front : List ℕ → List ℕ
strip_front [] = []
strip_front (c ∷ cs) = let rest = strip_front cs in if c == b'-' then rest else c ∷ cs

-- A dash is kept only if something is kept after it.
abbrev pub cons_unless_last_dash : ℕ → List ℕ → List ℕ
cons_unless_last_dash c [] = if c == b'-' then [] else c ∷ []
cons_unless_last_dash c (d ∷ ds) = c ∷ d ∷ ds

unfoldable pub strip_back : List ℕ → List ℕ
strip_back [] = []
strip_back (c ∷ cs) = cons_unless_last_dash c (strip_back cs)

-- `.slice(0, n)`
unfoldable pub take : ℕ → List ℕ → List ℕ
take zero cs = []
take (suc n) [] = []
take (suc n) (c ∷ cs) = c ∷ take n cs

-- `plain` stands for `trim`, `toLowerCase`, the replacement of đ, `normalize('NFD')` and the removal of
-- the diacritics, which the JavaScript runtime does.
unfoldable pub normalize_slug : (List ℕ → List ℕ) → ℕ → List ℕ → List ℕ
unfolding dashed strip_front strip_back take
normalize_slug plain max_length value =
    take max_length (strip_back (strip_front (dashed false (plain value))))

-- The loop `while (true)` on fuel: `none` means that the fuel ran out. `taken` is the query, and
-- `number_text` the text of a number.
unfoldable pub free_slug :
    (List ℕ → Bool) → (ℕ → List ℕ) → List ℕ → ℕ → ℕ → List ℕ → Option (List ℕ)
free_slug taken number_text base zero suffix candidate = none
free_slug taken number_text base (suc fuel) suffix candidate =
    let next =
      free_slug taken number_text base fuel (suffix + 1) (base ++ b'-' ∷ number_text suffix) in
    if taken candidate then next else some candidate

-- How `buildUniqueSlug` ends: refused, with a slug, or never.
pub data SlugResult : Type 0 where
  no_slug endless : SlugResult
  unique : List ℕ → SlugResult

abbrev pub slug_of : Option (List ℕ) → SlugResult
slug_of none = endless
slug_of (some s) = unique s

-- `base` is the normalised text, and `rows` the number of rows that the query looks at.
unfoldable pub build_unique_slug : (List ℕ → Bool) → (ℕ → List ℕ) → ℕ → List ℕ → SlugResult
unfolding free_slug
build_unique_slug taken number_text rows [] = no_slug
build_unique_slug taken number_text rows (c ∷ cs) =
    slug_of (free_slug taken number_text (c ∷ cs) (suc rows) 2 (c ∷ cs))
