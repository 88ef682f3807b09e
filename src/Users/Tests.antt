-- ===== src/Users/Tests.antt =====
-- Requests to a service with one administrator and one customer.
use Prim.Native.String.{String}
use text.Mathlib.Text.{◌==◌ as str_eq}
use cg_traveleke_service.Base.{
  ℕ, zero, suc, ◌≡◌, refl, ap, arith, none, some, List, [], ◌∷◌, true, codes, length, count, ok,
}
use cg_traveleke_service.Database.Repo.{list_repo}
use cg_traveleke_service.Booking.Reassign.{UserRole, admin, employee, customer}
use cg_traveleke_service.Auth.Users.{User, UserStatus}
use cg_traveleke_service.Users.Model.{Role, CreateStaffDto, UserServices, UsersDb}
use cg_traveleke_service.Users.Service.{user_with}
use cg_traveleke_service.Users.Routes.{customer_status, creates, removes, gives_role, handle}
use cg_traveleke_service.Users.Admins.{IsStaffed}
use cg_traveleke_service.Users.History.{Sent, run_requests, run_requests-IsStaffed}
use cg_traveleke_service.Users.OwnId.{remove_staff-own}

-- An id is written in strokes, and any text is read as its length.
abbrev strokes : ℕ → String
strokes zero = String.[]
strokes (suc n) = String.◌∷◌ "1" (strokes n)

read-strokes : (n : ℕ) → length (codes (strokes n)) ≡ n
read-strokes zero = refl
read-strokes (suc n) = ap suc (read-strokes n)

abbrev services : UserServices
services = record {
  user_repo = list_repo (λ u. u.id);
  role_repo = list_repo (λ r. r.id);
  same_text = str_eq;
  hash_password = λ p. p;
  trim = λ s. s;
  id_number = λ s. some (length (codes s));
  id_text = strokes;
  id_text_lem = λ n. ap some (read-strokes n);
}

abbrev person : ℕ → String → UserRole → User
person id email role = record {
  id = id;
  full_name = "An";
  email = email;
  phone = none;
  address = none;
  password = "hash";
  avatar_url = none;
  date_of_birth = none;
  gender = none;
  status = UserStatus.active;
  email_verified_at = none;
  last_login_at = none;
  deleted_at = none;
  role_ids = [];
  role = role;
}

abbrev row : ℕ → String → Role
row id name = record {
  id = id;
  name = name;
  display_name = name;
  description = none;
  is_system = true;
}

abbrev db : UsersDb
db = record {
  users = person 1 "an@x" admin ∷ person 2 "chi@x" customer ∷ [];
  roles = row 1 "ADMIN" ∷ row 2 "EMPLOYEE" ∷ [];
}

abbrev newcomer : CreateStaffDto
newcomer = record {
  full_name = "Binh";
  email = "binh@x";
  password = none;
  phone = none;
  date_of_birth = none;
  gender = none;
  role = some admin;
}

-- The first administrator makes a second one, who takes the role of the first away.
abbrev requests : List Sent
requests =
    record { sub = 1; now = 10; request = creates newcomer }
    ∷ record {
      sub = 1;
      now = 11;
      request = customer_status "11" (record { status = UserStatus.blocked });
    }
    ∷ record { sub = 3; now = 12; request = gives_role (strokes 1) employee }
    ∷ []

db-IsStaffed : IsStaffed db
db-IsStaffed = record { unique = λ i. ground arith; some_admin = omega arith }

run_requests-IsStaffed_example : IsStaffed (run_requests services requests db)
run_requests-IsStaffed_example =
    run_requests-IsStaffed services requests db (tt, (tt, ((1, refl), tt))) db-IsStaffed

remove_staff-own_example :
    (db' : UsersDb) × (handle services 1 20 (removes "7") db ≡ ok db')
    × (count (user_with 1) db'.users ≡ 0)
remove_staff-own_example =
    remove_staff-own services 1 20 "7" (person 1 "an@x" admin) db refl refl refl refl refl
