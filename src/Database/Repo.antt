-- ===== src/Database/Repo.antt =====
-- A TypeORM repository, which is not the program's code: what the services call of it, with what they
-- rely on. A table is the list of its rows; `key` is the primary key.
use cg_traveleke_service.Base.{
  ℕ, suc, ◌≤◌, max, Bool, not, ◌==◌, Option, List, [], ◌∷◌, ◌++◌, ◌≡◌, refl, first, select, count,
  map_where, arith,
}

pub record Repo (Row : Type 0) (key : Row → ℕ) : Type 0 where
  -- `findOne({ where })`
  pub find_one : (Row → Bool) → List Row → Option Row
  -- `find({ where })`
  pub find : (Row → Bool) → List Row → List Row
  -- `update(where, set)`, and `createQueryBuilder().update().set().where().execute()`
  pub update : (Row → Bool) → (Row → Row) → List Row → List Row
  -- the `affected` of such an update
  pub affected : (Row → Bool) → List Row → ℕ
  -- `save(entity)` of an entity that was read before
  pub save : Row → List Row → List Row
  -- the generated id, and `save(create(…))` of a new entity under it
  pub next_id : List Row → ℕ
  pub insert : Row → List Row → List Row
  -- `delete(where)` and `remove(entity)`
  pub delete : (Row → Bool) → List Row → List Row
  -- `count({ where })`
  pub count_rows : (Row → Bool) → List Row → ℕ
  pub find_one_lem : (p : Row → Bool) (t : List Row) → find_one p t ≡ first p t
  pub find_lem : (p : Row → Bool) (t : List Row) → find p t ≡ select p t
  pub update_lem : (p : Row → Bool) (f : Row → Row) (t : List Row) → update p f t ≡ map_where p f t
  pub affected_lem : (p : Row → Bool) (t : List Row) → affected p t ≡ count p t
  pub save_lem : (r : Row) (t : List Row) → save r t ≡ map_where (λ x. key x == key r) (λ _. r) t
  pub next_id_fresh : (t : List Row) → count (λ x. key x == next_id t) t ≡ 0
  pub insert_lem : (r : Row) (t : List Row) → insert r t ≡ t ++ r ∷ []
  pub delete_lem : (p : Row → Bool) (t : List Row) → delete p t ≡ select (λ x. not (p x)) t
  pub count_rows_lem : (p : Row → Bool) (t : List Row) → count_rows p t ≡ count p t

-- A repository on lists, which meets the laws.
abbrev pub max_key : {Row : Type 0} → (Row → ℕ) → List Row → ℕ
max_key key [] = 0
max_key key (r ∷ t) = max (suc (key r)) (max_key key t)

count-above :
    {Row : Type 0} (key : Row → ℕ) (t : List Row) (n : ℕ)
    → max_key key t ≤ n
    → count (λ x. key x == n) t ≡ 0
count-above key [] n h = refl
count-above key (r ∷ t) n h = ground (arith, count-above key t n)

pub max_key_fresh :
    {Row : Type 0} (key : Row → ℕ) (t : List Row) → count (λ x. key x == max_key key t) t ≡ 0
max_key_fresh key t = count-above key t (max_key key t) (omega arith)

abbrev pub list_repo : {Row : Type 0} (key : Row → ℕ) → Repo Row key
list_repo key = record {
  find_one = first;
  find = select;
  update = map_where;
  affected = count;
  save = λ r. map_where (λ x. key x == key r) (λ _. r);
  next_id = max_key key;
  insert = λ r t. t ++ r ∷ [];
  delete = λ p. select (λ x. not (p x));
  count_rows = count;
  find_one_lem = λ p t. refl;
  find_lem = λ p t. refl;
  update_lem = λ p f t. refl;
  affected_lem = λ p t. refl;
  save_lem = λ r t. refl;
  next_id_fresh = max_key_fresh key;
  insert_lem = λ r t. refl;
  delete_lem = λ p t. refl;
  count_rows_lem = λ p t. refl;
}
