-- ===== src/Catalogue/Fields.antt =====
-- The fields of the DTOs of backend/src/hotels and backend/src/rooms: a field that may be left out, or be
-- null, and how `update` writes it.
use cg_traveleke_service.Base.{Option, none, some}

pub data Field (A : Type 0) : Type 0 where
  missing : Field A
  null : Field A
  given : A → Field A

-- `field ?? null`
abbrev pub or_null : {A : Type 0} → Field A → Option A
or_null missing = none
or_null null = none
or_null (given a) = some a

-- `if (field !== undefined) row.field = f(field)`, of a column that may be null and of one that may not.
abbrev pub assign : {A : Type 0} → (A → A) → Field A → Option A → Option A
assign f missing old = old
assign f null old = none
assign f (given a) old = some (f a)

abbrev pub replace {ℓ} : {A B : Type ℓ} → (A → B) → Option A → B → B
replace f none old = old
replace f (some a) old = f a

-- `field?.trim() ?? null`
abbrev pub tidy : {A : Type 0} → (A → A) → Field A → Option A
tidy f missing = none
tidy f null = none
tidy f (given a) = some (f a)
