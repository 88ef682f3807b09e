-- ===== src/Database/LockOrder.antt =====
-- backend/src/common/database/transaction-retry.helper.ts: `deterministicSort`, the order in which a
-- transaction locks the rows that it updates.
use cg_traveleke_service.Base.{
  ℕ, ltb, Bool, List, ◌≡◌, String, sort, sum_by, sum_by-sort, All, All-sort,
}

-- A key is a number or a text.
pub data SortKey : Type 0 where
  number : ℕ → SortKey
  string : String → SortKey

-- The comparator is positive. `locale_gt a b` is `String(a).localeCompare(String(b)) > 0`.
abbrev pub key_gt : (SortKey → SortKey → Bool) → SortKey → SortKey → Bool
key_gt locale_gt (number a) (number b) = ltb b a
key_gt locale_gt (number a) (string b) = locale_gt (number a) (string b)
key_gt locale_gt (string a) b = locale_gt (string a) b

unfoldable pub deterministic_sort :
    {T : Type 0} → (SortKey → SortKey → Bool) → (T → SortKey) → List T → List T
deterministic_sort locale_gt key_extractor items =
    sort (λ a b. key_gt locale_gt (key_extractor a) (key_extractor b)) items

pub sum_by-deterministic_sort :
    {T : Type 0} (locale_gt : SortKey → SortKey → Bool) (key : T → SortKey) (f : T → ℕ)
    (xs : List T)
    → sum_by f (deterministic_sort locale_gt key xs) ≡ sum_by f xs
unfolding deterministic_sort
sum_by-deterministic_sort locale_gt key f xs = sum_by-sort _ f xs

pub All-deterministic_sort :
    {T : Type 0} (locale_gt : SortKey → SortKey → Bool) (key : T → SortKey) (P : T → Type 0)
    (xs : List T)
    → All P xs
    → All P (deterministic_sort locale_gt key xs)
unfolding deterministic_sort
All-deterministic_sort locale_gt key P xs h = All-sort _ P xs h
