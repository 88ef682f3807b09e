-- ===== src/Users/Model.antt =====
-- backend/src/users/dto, backend/src/users/entities/role.entity.ts and what
-- backend/src/users/users.service.ts takes from outside. The entity of a user is that of the authentication.
use cg_traveleke_service.Base.{ℕ, Bool, Option, some, List, String, ◌≡◌}
use cg_traveleke_service.Database.Repo.{Repo}
use cg_traveleke_service.Booking.Reassign.{UserRole, admin, employee, customer}
use cg_traveleke_service.Auth.Users.{User, UserGender, UserStatus}

pub record Role : Type 0 where
  pub id : ℕ
  pub name : String
  pub display_name : String
  pub description : Option String
  pub is_system : Bool

pub record CreateStaffDto : Type 0 where
  pub full_name : String
  pub email : String
  pub password : Option String
  pub phone : Option String
  pub date_of_birth : Option String
  pub gender : Option UserGender
  pub role : Option UserRole

pub record UpdateStaffDto : Type 0 where
  pub full_name : Option String
  pub phone : Option String
  pub date_of_birth : Option String
  pub gender : Option UserGender
  pub password : Option String

pub record UpdateStatusDto : Type 0 where
  pub status : UserStatus

pub data UserError : Type 0 where
  customer_not_found staff_not_found email_taken role_missing : UserError
  own_removal own_role own_status : UserError
  unauthenticated forbidden : UserError

abbrev pub role_name : UserRole → String
role_name admin = "ADMIN"
role_name employee = "EMPLOYEE"
role_name customer = "CUSTOMER"

pub record UserServices : Type 0 where
  pub user_repo : Repo User (λ u. u.id)
  pub role_repo : Repo Role (λ r. r.id)
  -- the collation of a column of text
  pub same_text : String → String → Bool
  pub hash_password : String → String
  pub trim : String → String
  -- the number that the database reads in a text that it compares with an id, if it can match one
  pub id_number : String → Option ℕ
  -- an id as the database answers it
  pub id_text : ℕ → String
  pub id_text_lem : (n : ℕ) → id_number (id_text n) ≡ some n

pub record UsersDb : Type 0 where
  pub users : List User
  pub roles : List Role
