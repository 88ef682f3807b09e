-- ===== src/Users/OwnId.antt =====
-- backend/src/users/users.service.ts: the guards against a change of one's own account compare texts.
use text.Mathlib.Text.{◌==◌ as str_eq}
use cg_traveleke_service.Base.{
  ℕ, true, false, some, List, [], ◌∷◌, ◌≡◌, refl, ◌∙◌, arith, String, ok, count, first, map_where,
}
use cg_traveleke_service.Booking.Reassign.{admin}
use cg_traveleke_service.Auth.Users.{User, is_active_status}
use cg_traveleke_service.Users.Model.{UserServices, UsersDb}
use cg_traveleke_service.Users.Service.{has_user_id, user_with, find_one_staff, remove_staff}
use cg_traveleke_service.Users.Routes.{validate, can_activate, removes, dispatch, handle}

deleted_none :
    (n now : ℕ) (users : List User)
    → count
        (user_with n)
        (map_where (has_user_id n) (λ x. record x { deleted_at = some now }) users)
      ≡ 0
deleted_none n now [] = refl
deleted_none n now (x ∷ xs) = ground (arith, deleted_none n now xs)

-- An active administrator who asks for the removal of the own account, and writes its id otherwise than
-- the database does, in a text that the database still reads as the id: the request succeeds, and no
-- account with the id is left.
pub remove_staff-own :
    (v : UserServices) (sub now : ℕ) (id : String) (u : User) (db : UsersDb)
    → first (user_with sub) db.users ≡ some u
    → is_active_status u.status ≡ true
    → u.role ≡ admin
    → v.id_number id ≡ some sub
    → str_eq id (v.id_text u.id) ≡ false
    → (db' : UsersDb) × (handle v sub now (removes id) db ≡ ok db')
      × (count (user_with u.id) db'.users ≡ 0)
unfolding handle validate can_activate dispatch remove_staff find_one_staff
remove_staff-own v sub now id u db found active role reads other =
    let one = v.user_repo.find_one_lem (user_with sub) db.users ∙ found in
    (
      record db {
        users =
            v.user_repo.update (has_user_id u.id) (λ x. record x { deleted_at = some now })
              db.users;
      },
      rw
          (
            handle, validate, one, active, can_activate, role, dispatch, remove_staff, other,
            find_one_staff, reads, one, role,
          )
          refl,
      rw v.user_repo.update_lem (deleted_none u.id now db.users),
    )
