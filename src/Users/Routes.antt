-- ===== src/Users/Routes.antt =====
-- backend/src/users/users.controller.ts with the guards of its routes: `validate` of
-- backend/src/auth/strategies/jwt.strategy.ts and `canActivate` of backend/src/auth/guards/roles.guard.ts.
use cg_traveleke_service.Base.{
  ℕ, Bool, true, false, not, ◌||◌, none, some, List, [], ◌∷◌, String, Result, ok, err, throw_if,
  ◌>>=◌, ◌>>◌, if◌then◌else◌,
}
use cg_traveleke_service.Booking.Reassign.{UserRole, admin, employee, customer}
use cg_traveleke_service.Auth.Users.{User, is_active_status}
use cg_traveleke_service.Users.Model.{
  CreateStaffDto, UpdateStaffDto, UpdateStatusDto, UserError, unauthenticated, forbidden,
  UserServices, UsersDb,
}
use cg_traveleke_service.Users.Service.{
  user_of, update_customer_status, create_staff, update_staff, remove_staff, assign_role,
  update_status,
}

-- `validate`, of a token whose signature holds: `sub` is its subject.
unfoldable pub validate : UserServices → ℕ → UsersDb → Result UserError User
validate v sub db = elim (user_of v (some sub) db) [
  | none ↦ err unauthenticated
  | some u ↦ if is_active_status u.status then ok u else err unauthenticated
]

abbrev pub same_role : UserRole → UserRole → Bool
same_role admin admin = true
same_role employee employee = true
same_role customer customer = true
same_role a b = false

abbrev pub includes_role : List UserRole → UserRole → Bool
includes_role [] r = false
includes_role (s ∷ ss) r = same_role s r || includes_role ss r

-- `canActivate`, of a route that asks for these roles.
unfoldable pub can_activate : List UserRole → User → Result UserError (Unit {0})
can_activate [] u = ok tt
can_activate (r ∷ rs) u = throw_if (not (includes_role (r ∷ rs) u.role)) forbidden

-- A request that writes. A path gives its id as a text.
pub data UserRequest : Type 0 where
  customer_status : String → UpdateStatusDto → UserRequest
  creates : CreateStaffDto → UserRequest
  edits : String → UpdateStaffDto → UserRequest
  removes : String → UserRequest
  gives_role : String → UserRole → UserRequest
  sets_status : String → UpdateStatusDto → UserRequest

-- `@Roles(…)`
abbrev pub required_roles : UserRequest → List UserRole
required_roles (customer_status id dto) = admin ∷ employee ∷ []
required_roles _ = admin ∷ []

abbrev pub written : Result UserError (User × UsersDb) → Result UserError UsersDb
written r = r >>= λ p. ok p.1

-- The handler, which knows the user of the request.
unfoldable pub dispatch : UserServices → ℕ → UserRequest → User → UsersDb → Result UserError UsersDb
unfolding update_customer_status create_staff update_staff remove_staff assign_role update_status
dispatch v now (customer_status id dto) u db = written (update_customer_status v id dto db)
dispatch v now (creates dto) u db = written (create_staff v dto db)
dispatch v now (edits id dto) u db = written (update_staff v id dto db)
dispatch v now (removes id) u db = remove_staff v now id (v.id_text u.id) db
dispatch v now (gives_role id role) u db = written (assign_role v id role (v.id_text u.id) db)
dispatch v now (sets_status id dto) u db = written (update_status v id dto (v.id_text u.id) db)

unfoldable pub handle : UserServices → ℕ → ℕ → UserRequest → UsersDb → Result UserError UsersDb
unfolding validate can_activate dispatch
handle v sub now r db =
    validate v sub db >>= λ u. can_activate (required_roles r) u >> dispatch v now r u db
