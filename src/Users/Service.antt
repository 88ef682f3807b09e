-- ===== src/Users/Service.antt =====
-- backend/src/users/users.service.ts: `UsersService`.
use text.Mathlib.Text.{◌==◌ as str_eq}
use cg_traveleke_service.Base.{
  ℕ, ◌==◌, Bool, true, false, not, ◌&&◌, Option, none, some, List, [], ◌∷◌, String, Result, ok, err,
  if◌then◌else◌, or_else, or_throw, throw_if, ◌>>=◌, ◌>>◌,
}
use cg_traveleke_service.Booking.Reassign.{UserRole, employee}
use cg_traveleke_service.Auth.Users.{User, UserStatus, is_customer_role}
use cg_traveleke_service.Users.Model.{
  Role, CreateStaffDto, UpdateStaffDto, UpdateStatusDto, UserError, customer_not_found,
  staff_not_found, email_taken, role_missing, own_removal, own_role, own_status, role_name,
  UserServices, UsersDb,
}

-- `deletedAt IS NULL`, which every query without `withDeleted` asks for.
abbrev pub undeleted : User → Bool
undeleted u = elim u.deleted_at [ none ↦ true | some t ↦ false ]

abbrev pub has_user_id : ℕ → User → Bool
has_user_id n u = u.id == n

abbrev pub user_with : ℕ → User → Bool
user_with n u = has_user_id n u && undeleted u

-- `usersRepository.findOne({ where: { id } })`
abbrev pub user_of : UserServices → Option ℕ → UsersDb → Option User
user_of v none db = none
user_of v (some n) db = v.user_repo.find_one (user_with n) db.users

-- The user, if it is found and its role is not the wrong one.
abbrev pub unless_role : (User → Bool) → UserError → Option User → Result UserError User
unless_role wrong e none = err e
unless_role wrong e (some u) = if wrong u then err e else ok u

abbrev pub is_customer : User → Bool
is_customer u = is_customer_role u.role

abbrev pub is_no_customer : User → Bool
is_no_customer u = not (is_customer_role u.role)

abbrev pub save_user : UserServices → User → UsersDb → Result UserError (User × UsersDb)
save_user v u db = ok (u, record db { users = v.user_repo.save u db.users })

unfoldable pub update_customer_status :
    UserServices → String → UpdateStatusDto → UsersDb → Result UserError (User × UsersDb)
update_customer_status v id dto db =
    unless_role is_no_customer customer_not_found (user_of v (v.id_number id) db) >>= λ u.
    save_user v (record u { status = dto.status }) db

unfoldable pub find_one_staff : UserServices → String → UsersDb → Result UserError User
find_one_staff v id db = unless_role is_customer staff_not_found (user_of v (v.id_number id) db)

-- The role's row.
unfoldable pub role_named : UserServices → UserRole → UsersDb → Result UserError Role
role_named v role db =
    or_throw (v.role_repo.find_one (λ r. v.same_text r.name (role_name role)) db.roles) role_missing

-- `dto.password?.trim() ? dto.password.trim() : '123456789'`
abbrev pub raw_password : UserServices → Option String → String
raw_password v none = "123456789"
raw_password v (some p) = if str_eq (v.trim p) "" then "123456789" else v.trim p

unfoldable pub new_staff : UserServices → CreateStaffDto → UserRole → Role → List User → User
new_staff v dto role row users = record {
  id = v.user_repo.next_id users;
  full_name = dto.full_name;
  email = dto.email;
  phone = dto.phone;
  address = none;
  password = v.hash_password (raw_password v dto.password);
  avatar_url = none;
  date_of_birth = dto.date_of_birth;
  gender = dto.gender;
  status = UserStatus.active;
  email_verified_at = none;
  last_login_at = none;
  deleted_at = none;
  role_ids = row.id ∷ [];
  role = role;
}

unfoldable pub create_staff :
    UserServices → CreateStaffDto → UsersDb → Result UserError (User × UsersDb)
unfolding role_named new_staff
create_staff v dto db = elim (v.user_repo.find_one (λ u. v.same_text u.email dto.email) db.users) [
  | some u ↦ err email_taken
  | none ↦
      let role = or_else dto.role employee in
      role_named v role db >>= λ row.
      let u = new_staff v dto role row db.users in
      ok (u, record db { users = v.user_repo.insert u db.users })
]

-- `{ ...(field !== undefined && { field }) }`, of a column that may be null and of one that may not.
abbrev pub overwrite : {A : Type 0} → Option A → Option A → Option A
overwrite none old = old
overwrite (some a) old = some a

-- The password, hashed if a text that is not empty is given.
abbrev pub new_password : UserServices → Option String → String → String
new_password v none old = old
new_password v (some p) old = if str_eq p "" then old else v.hash_password p

unfoldable pub changed_staff : UserServices → UpdateStaffDto → User → User
changed_staff v dto u = record u {
  full_name = or_else dto.full_name u.full_name;
  phone = overwrite dto.phone u.phone;
  date_of_birth = overwrite dto.date_of_birth u.date_of_birth;
  gender = overwrite dto.gender u.gender;
  password = new_password v dto.password u.password;
}

unfoldable pub update_staff :
    UserServices → String → UpdateStaffDto → UsersDb → Result UserError (User × UsersDb)
unfolding find_one_staff changed_staff
update_staff v id dto db = find_one_staff v id db >>= λ u. save_user v (changed_staff v dto u) db

-- `removeStaff`, a soft deletion at the moment `now`.
unfoldable pub remove_staff :
    UserServices → ℕ → String → String → UsersDb → Result UserError UsersDb
unfolding find_one_staff
remove_staff v now id request_user_id db =
    throw_if (str_eq id request_user_id) own_removal
    >> (find_one_staff v id db >>= λ u. ok (record db {
      users =
          v.user_repo.update (has_user_id u.id) (λ x. record x { deleted_at = some now }) db.users;
    }))

unfoldable pub assign_role :
    UserServices → String → UserRole → String → UsersDb → Result UserError (User × UsersDb)
unfolding find_one_staff role_named
assign_role v id role request_user_id db =
    throw_if (str_eq id request_user_id) own_role
    >> (find_one_staff v id db >>= λ u. role_named v role db >>= λ row.
        save_user v (record u { role_ids = row.id ∷ []; role = role }) db)

unfoldable pub update_status :
    UserServices → String → UpdateStatusDto → String → UsersDb → Result UserError (User × UsersDb)
unfolding find_one_staff
update_status v id dto request_user_id db =
    throw_if (str_eq id request_user_id) own_status
    >> (find_one_staff v id db >>= λ u. save_user v (record u { status = dto.status }) db)
