-- ===== src/Pagination/Pages.antt =====
-- What the services do with `normalizePagination`: `orderBy('id', 'DESC')`, `skip`, `take` and
-- `getManyAndCount` of a query builder, on the rows that pass its tests.
use mathlib.Core.List.{append_assoc, append-nil}
use cg_traveleke_service.Base.{
  ℕ, zero, suc, ◌+◌, ◌*◌, ◌≤◌, ltb, Bool, List, [], ◌∷◌, ◌++◌, ◌≡◌, refl, sym, ap, ◌∙◌, arith,
  length, sort,
}
use cg_traveleke_service.Pagination.{
  Floored, finite, infinite, Offset, rows, before, unbounded, NormalizedPagination, PaginationMeta,
  build_pagination_meta,
}

abbrev pub drop {ℓ} : {A : Type ℓ} → ℕ → List A → List A
drop zero xs = xs
drop (suc n) [] = []
drop (suc n) (x ∷ xs) = drop n xs

abbrev pub take {ℓ} : {A : Type ℓ} → ℕ → List A → List A
take zero xs = []
take (suc n) [] = []
take (suc n) (x ∷ xs) = x ∷ take n xs

take-drop : {A : Type 0} (n : ℕ) (xs : List A) → take n xs ++ drop n xs ≡ xs
take-drop zero xs = refl
take-drop (suc n) [] = refl
take-drop (suc n) (x ∷ xs) = ap (λ l. x ∷ l) (take-drop n xs)

drop-nil : {A : Type 0} (n : ℕ) → drop {A = A} n [] ≡ []
drop-nil zero = refl
drop-nil (suc n) = refl

same_drop : {A : Type 0} (xs : List A) (m n : ℕ) → m ≡ n → drop m xs ≡ drop n xs
same_drop xs m n h = ap (λ k. drop k xs) h

drop-add : {A : Type 0} (m n : ℕ) (xs : List A) → drop n (drop m xs) ≡ drop (m + n) xs
drop-add zero n xs = same_drop xs n (0 + n) (omega arith)
drop-add (suc m) n [] = drop-nil n ∙ sym (drop-nil (suc m + n))
drop-add (suc m) n (x ∷ xs) =
    drop-add m n xs ∙ same_drop (x ∷ xs) (suc (m + n)) (suc m + n) (omega arith)

drop-all : {A : Type 0} (n : ℕ) (xs : List A) → length xs ≤ n → drop n xs ≡ []
drop-all zero [] h = refl
drop-all zero (x ∷ xs) h = absurd (omega arith)
drop-all (suc n) [] h = refl
drop-all (suc n) (x ∷ xs) h = drop-all n xs (omega arith)

-- A page of whole number from 1 on has an offset from 0 on, and the DTOs admit no other.
abbrev pub offset_of : Offset → ℕ
offset_of (rows n) = n
offset_of (before n) = 0
offset_of unbounded = 0

abbrev pub page_of : Floored → ℕ
page_of (finite n) = n
page_of infinite = 0

abbrev pub newer {ℓ} : {R : Type ℓ} → (R → ℕ) → R → R → Bool
newer id a b = ltb (id a) (id b)

-- The page and its `meta`.
unfoldable pub page_rows :
    {R : Type 0} → (R → ℕ) → NormalizedPagination → List R → List R × PaginationMeta
unfolding sort build_pagination_meta
page_rows id r found =
    let page = take r.limit (drop (offset_of r.skip) (sort (newer id) found)) in
    (page, build_pagination_meta (page_of r.page) r.limit (length found) (length page))

-- `k` pages from page `p` on, one after the other.
abbrev pub pages_from : {R : Type 0} → (ℕ → List R) → ℕ → ℕ → List R
pages_from page zero p = []
pages_from page (suc k) p = page p ++ pages_from page k (suc p)

module _ {R : Type 0} (xs : List R) (l : ℕ) (page : ℕ → List R)
    (is_page : (p : ℕ) → page p ≡ take l (drop (p * l) xs)) where
  shift : (p k : ℕ) → p + suc k ≡ suc p + k
  shift p k = omega arith

  pages_rest : (k p : ℕ) → pages_from page k p ++ drop ((p + k) * l) xs ≡ drop (p * l) xs
  pages_rest zero p = same_drop xs ((p + 0) * l) (p * l) (omega arith)
  pages_rest (suc k) p =
      append_assoc (page p) (pages_from page k (suc p)) (drop ((p + suc k) * l) xs)
      ∙ ap (λ ys. page p ++ (pages_from page k (suc p) ++ ys))
          (same_drop xs ((p + suc k) * l) ((suc p + k) * l) (ap (λ n. n * l) (shift p k)))
      ∙ ap (λ ys. page p ++ ys) (pages_rest k (suc p))
      ∙ ap (λ ys. ys ++ drop (suc p * l) xs) (is_page p)
      ∙ ap (λ ys. take l (drop (p * l) xs) ++ ys)
          (same_drop xs (suc p * l) (p * l + l) (omega arith) ∙ sym (drop-add (p * l) l xs))
      ∙ take-drop l (drop (p * l) xs)

  -- Enough pages are all the rows.
  pub pages_all : (n : ℕ) → length xs ≤ n * l → pages_from page n 0 ≡ xs
  pages_all n h =
      sym (append-nil (pages_from page n 0))
      ∙ ap (λ ys. pages_from page n 0 ++ ys) (sym (drop-all ((0 + n) * l) xs (omega (arith, h))))
      ∙ pages_rest n 0
      ∙ same_drop xs (0 * l) 0 (omega arith)
