-- ===== src/Auth/Users.antt =====
-- backend/src/users/entities/user.entity.ts: the accounts.
use cg_traveleke_service.Base.{ℕ, Bool, true, false, Option, List, String}
use cg_traveleke_service.Booking.Reassign.{UserRole, customer}

pub data UserGender : Type 0 where
  male female other : UserGender

pub data UserStatus : Type 0 where
  active blocked inactive : UserStatus

-- `password` is the stored hash; `role_ids` are the rows of `users_roles`.
pub record User : Type 0 where
  pub id : ℕ
  pub full_name : String
  pub email : String
  pub phone : Option String
  pub address : Option String
  pub password : String
  pub avatar_url : Option String
  pub date_of_birth : Option String
  pub gender : Option UserGender
  pub status : UserStatus
  pub email_verified_at : Option ℕ
  pub last_login_at : Option ℕ
  pub deleted_at : Option ℕ
  pub role_ids : List ℕ
  pub role : UserRole

-- `status === 'ACTIVE'`
abbrev pub is_active_status : UserStatus → Bool
is_active_status active = true
is_active_status _ = false

-- `role === 'CUSTOMER'`
abbrev pub is_customer_role : UserRole → Bool
is_customer_role customer = true
is_customer_role _ = false
