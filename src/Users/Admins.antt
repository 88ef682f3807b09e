-- ===== src/Users/Admins.antt =====
-- backend/src/users/users.service.ts: an administrator who asks for a change stays one.
use text.Mathlib.Text.{◌==◌ as str_eq}
use text.Mathlib.TextPositions.{eq_refl}
use cg_traveleke_service.Base.{
  ℕ, ◌≤◌, ◌==◌, Bool, true, false, ◌&&◌, some, List, ◌≡◌, sym, ap, ◌∙◌, subst, arith, String, count,
  count_mono, count-map_where, count-save, first, first_by, first-passes, map_where, ==_refl,
  Bool-cases, Option-cases, inl, inr,
}
use cg_traveleke_service.Booking.Reassign.{UserRole, admin}
use cg_traveleke_service.Auth.Users.{User, is_active_status}
use cg_traveleke_service.Users.Model.{UserServices, UsersDb}
use cg_traveleke_service.Users.Service.{undeleted, has_user_id, user_with, user_of}

abbrev pub is_admin_role : UserRole → Bool
is_admin_role admin = true
is_admin_role _ = false

-- An account that the guards let pass as an administrator.
abbrev pub is_admin : User → Bool
is_admin u = is_admin_role u.role && is_active_status u.status && undeleted u

abbrev pub admin_with : ℕ → User → Bool
admin_with i u = has_user_id i u && is_admin u

pub record IsStaffed (db : UsersDb) : Type 0 where
  pub unique : (i : ℕ) → count (has_user_id i) db.users ≤ 1
  pub some_admin : 1 ≤ count is_admin db.users

-- An administrator with this id is enough.
pub admin-IsStaffed :
    (i : ℕ) (db : UsersDb)
    → ((j : ℕ) → count (has_user_id j) db.users ≤ 1)
    → 1 ≤ count (admin_with i) db.users
    → IsStaffed db
admin-IsStaffed i db unique h = record {
  unique = unique;
  some_admin = omega (arith, h, count_mono (admin_with i) is_admin db.users (λ x m. ground arith));
}

module _ (n : ℕ) (f : User → User)
    (same_id : (u : User) → has_user_id n u ≡ true → (f u).id ≡ u.id) where
  -- A change of the rows of one id leaves the ids,
  pub changed_unique :
      (users : List User)
      → ((j : ℕ) → count (has_user_id j) users ≤ 1)
      → (j : ℕ) → count (has_user_id j) (map_where (has_user_id n) f users) ≤ 1
  changed_unique users h j =
      let same =
        count-map_where (has_user_id j) (has_user_id n) f users
          (λ a m. ap (λ k. k == j) (same_id a m)) in
      omega (arith, same, h j)

  -- and the administrator of another id.
  pub changed_others :
      (i : ℕ) (users : List User)
      → (n == i) ≡ false
      → count (admin_with i) (map_where (has_user_id n) f users) ≡ count (admin_with i) users
  changed_others i users other =
      count-map_where (admin_with i) (has_user_id n) f users (λ a m. ground (arith, same_id a m))

-- A row that is saved with the same rank leaves the number of administrators.
pub saved-admins :
    (n : ℕ) (u u' : User) (users : List User)
    → first (user_with n) users ≡ some u
    → ((j : ℕ) → count (has_user_id j) users ≤ 1)
    → u'.id ≡ u.id
    → is_admin u' ≡ is_admin u
    → count is_admin (map_where (has_user_id u'.id) (λ _. u') users) ≡ count is_admin users
saved-admins n u u' users found unique same rank =
    let here = first-passes (user_with n) users u found in
    let by_id : has_user_id u'.id u ≡ true = rw same (==_refl u.id) in
    let finer : first (user_with u'.id) users ≡ some u =
      subst (λ k. first (user_with k) users ≡ some u) (sym (same ∙ ground (arith, here))) found in
    let found' =
      first_by (user_with u'.id) (has_user_id u'.id) users u finer by_id (unique u'.id) in
    let moved = count-save is_admin (has_user_id u'.id) u' u users found' (unique u'.id) in
    omega (arith, rw rank at moved)

module _ (v : UserServices) where
  -- The user that a text finds.
  pub user_of-row :
      (id : String) (db : UsersDb) (u : User)
      → user_of v (v.id_number id) db ≡ some u
      → (n : ℕ) × (v.id_number id ≡ some n) × (first (user_with n) db.users ≡ some u) × (u.id ≡ n)
  user_of-row id db u h = elim (Option-cases (v.id_number id)) [
    | inl e ↦ let wrong = rw e at h in absurd (ground arith)
    | inr (n, e) ↦
        let found : first (user_with n) db.users ≡ some u =
          sym (v.user_repo.find_one_lem _ _) ∙ (rw e at h) in
        let here = first-passes (user_with n) db.users u found in
        (n, e, found, ground (arith, here))
  ]

  -- The guard on the id of the request's user tells apart ids that are written alike.
  pub other_id :
      (i n : ℕ) (id : String)
      → id ≡ v.id_text n
      → str_eq id (v.id_text i) ≡ false
      → (n == i) ≡ false
  other_id i n id written guard = elim (Bool-cases (n == i)) [
    | inr m ↦ m
    | inl m ↦
        let same : n ≡ i = ground (arith, m) in
        let equal : str_eq id (v.id_text i) ≡ true = rw (written, same) (eq_refl (v.id_text i)) in
        absurd (ground (arith, guard, equal))
  ]
