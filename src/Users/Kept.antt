-- ===== src/Users/Kept.antt =====
-- backend/src/users/users.service.ts: no request takes the last administrator away.
use text.Mathlib.Text.{◌==◌ as str_eq}
use cg_traveleke_service.Base.{
  ℕ, ◌≤◌, ◌==◌, Bool, true, false, not, Option, none, some, [], ◌∷◌, ◌≡◌, refl, sym, ap, ◌∙◌, subst,
  arith, String, ok, or_else, count, count-append, map_where, Bool-cases, Option-cases, inl, inr,
  Yields, Yields-bind, ok_same,
}
use cg_traveleke_service.Booking.Reassign.{UserRole, admin, employee, customer}
use cg_traveleke_service.Auth.Users.{User, UserStatus, is_customer_role}
use cg_traveleke_service.Users.Model.{
  CreateStaffDto, UpdateStaffDto, UpdateStatusDto, UserError, UserServices, UsersDb,
}
use cg_traveleke_service.Users.Service.{
  has_user_id, user_of, unless_role, is_customer, is_no_customer, update_customer_status,
  find_one_staff, role_named, new_staff, create_staff, changed_staff, update_staff, remove_staff,
  assign_role, update_status,
}
use cg_traveleke_service.Users.Admins.{
  is_admin_role, is_admin, admin_with, IsStaffed, admin-IsStaffed, changed_unique, changed_others,
  saved-admins, user_of-row, other_id,
}

unless_found :
    (wrong : User → Bool) (e : UserError) (o : Option User) (u : User)
    → unless_role wrong e o ≡ ok u
    → (o ≡ some u) × (wrong u ≡ false)
unless_found wrong e none u h = absurd (ground arith)
unless_found wrong e (some x) u h = elim (Bool-cases (wrong x)) [
  | inl m ↦ let wrong_way = rw m at h in absurd (ground arith)
  | inr m ↦ let same : x ≡ u = ok_same (rw m at h) in (ap some same, rw (sym same) m)
]

no_admin_role : (r : UserRole) → not (is_customer_role r) ≡ false → is_admin_role r ≡ false
no_admin_role admin h = absurd (ground arith)
no_admin_role employee h = absurd (ground arith)
no_admin_role customer h = refl

-- A customer is no administrator, whatever the status.
rank_of_customer :
    (u : User) (status : UserStatus)
    → is_no_customer u ≡ false
    → is_admin (record u { status = status }) ≡ is_admin u
rank_of_customer u status h = rw (no_admin_role u.role h) refl

module _ (v : UserServices) (db : UsersDb) (h : IsStaffed db) where
  staff_found :
      (id : String) (u : User)
      → find_one_staff v id db ≡ ok u
      → user_of v (v.id_number id) db ≡ some u
  unfolding find_one_staff
  staff_found id u e = (unless_found is_customer _ (user_of v (v.id_number id) db) u e).0

  -- A row that is saved with the same rank.
  saved-IsStaffed :
      (id : String) (u u' : User)
      → user_of v (v.id_number id) db ≡ some u
      → u'.id ≡ u.id
      → is_admin u' ≡ is_admin u
      → IsStaffed (record db { users = v.user_repo.save u' db.users })
  saved-IsStaffed id u u' found same rank =
      let (n, _, first_found, _) = user_of-row v id db u found in
      rw v.user_repo.save_lem (record {
        unique = changed_unique u'.id (λ _. u') (λ a m. ground (arith, m)) db.users h.unique;
        some_admin =
            omega
              (arith, h.some_admin, saved-admins n u u' db.users first_found h.unique same rank);
      })

  -- A change of another account than the administrator's who asks for it.
  module _ (i : ℕ) (here : 1 ≤ count (admin_with i) db.users) (id : String) (n : ℕ)
      (written : id ≡ v.id_text n) (other : str_eq id (v.id_text i) ≡ false) (u : User)
      (found : find_one_staff v id db ≡ ok u) where
    other_row : (u.id == i) ≡ false
    other_row =
        let (m, read, _, same) = user_of-row v id db u (staff_found id u found) in
        let number : some n ≡ some m =
          sym (v.id_text_lem n) ∙ ap v.id_number (sym written) ∙ read in
        rw (same, sym (ap (λ o. or_else o n) number)) (other_id v i n id written other)

    changed-IsStaffed :
        (f : User → User)
        → ((x : User) → has_user_id u.id x ≡ true → (f x).id ≡ x.id)
        → IsStaffed (record db { users = map_where (has_user_id u.id) f db.users })
    changed-IsStaffed f same =
        admin-IsStaffed i _ (changed_unique u.id f same db.users h.unique)
          (omega (arith, here, changed_others u.id f same i db.users other_row))

    other_saved :
        (u' : User) → u'.id ≡ u.id → IsStaffed (record db { users = v.user_repo.save u' db.users })
    other_saved u' same =
        subst (λ t. IsStaffed (record db { users = t }))
          (sym (
            v.user_repo.save_lem u' db.users
            ∙ ap (λ k. map_where (has_user_id k) (λ _. u') db.users) same))
          (changed-IsStaffed (λ _. u') (λ x m. ground (arith, same, m)))

  -- The new account has an id of its own.
  inserted-IsStaffed :
      (u : User)
      → u.id ≡ v.user_repo.next_id db.users
      → IsStaffed (record db { users = v.user_repo.insert u db.users })
  inserted-IsStaffed u same = rw v.user_repo.insert_lem (record {
    unique = λ j. ground (
      arith,
      count-append (has_user_id j) db.users (u ∷ []),
      h.unique j,
      same,
      v.user_repo.next_id_fresh db.users,
    );
    some_admin = omega (arith, h.some_admin, count-append is_admin db.users (u ∷ []));
  })

  abbrev pub Stays : User × UsersDb → Type 0
  Stays r = IsStaffed r.1

  pub customer-Stays :
      (id : String) (dto : UpdateStatusDto) → Yields Stays (update_customer_status v id dto db)
  unfolding update_customer_status
  customer-Stays id dto =
      Yields-bind Stays (unless_role is_no_customer _ (user_of v (v.id_number id) db)) _ (λ u e.
        let (found, role) = unless_found is_no_customer _ (user_of v (v.id_number id) db) u e in
        saved-IsStaffed id u (record u { status = dto.status }) found refl
          (rank_of_customer u dto.status role))

  pub staff-Stays : (id : String) (dto : UpdateStaffDto) → Yields Stays (update_staff v id dto db)
  unfolding update_staff changed_staff
  staff-Stays id dto =
      Yields-bind Stays (find_one_staff v id db) _
        (λ u e. saved-IsStaffed id u (changed_staff v dto u) (staff_found id u e) refl refl)

  pub created-Stays : (dto : CreateStaffDto) → Yields Stays (create_staff v dto db)
  unfolding create_staff new_staff
  created-Stays dto =
      elim (Option-cases (v.user_repo.find_one (λ u. v.same_text u.email dto.email) db.users)) [
        | inr (u, e) ↦ rw (create_staff, e) tt
        | inl e ↦
            rw (create_staff, e)
              (Yields-bind Stays (role_named v (or_else dto.role employee) db) _ (λ row _.
                inserted-IsStaffed (new_staff v dto (or_else dto.role employee) row db.users) refl))
      ]

  module _ (i : ℕ) (here : 1 ≤ count (admin_with i) db.users) (id : String) (n : ℕ)
      (written : id ≡ v.id_text n) where
    pub removed-IsStaffed : (now : ℕ) → Yields IsStaffed (remove_staff v now id (v.id_text i) db)
    unfolding remove_staff
    removed-IsStaffed now = elim (Bool-cases (str_eq id (v.id_text i))) [
      | inl m ↦ rw (remove_staff, m) tt
      | inr m ↦
          rw (remove_staff, m)
            (Yields-bind IsStaffed (find_one_staff v id db) _ (λ u e. rw v.user_repo.update_lem (
              changed-IsStaffed i here id n written m u e (λ x. record x { deleted_at = some now })
                (λ x _. refl))))
    ]

    pub role-Stays : (role : UserRole) → Yields Stays (assign_role v id role (v.id_text i) db)
    unfolding assign_role
    role-Stays role = elim (Bool-cases (str_eq id (v.id_text i))) [
      | inl m ↦ rw (assign_role, m) tt
      | inr m ↦
          rw (assign_role, m)
            (Yields-bind Stays (find_one_staff v id db) _ (λ u e.
              Yields-bind Stays (role_named v role db) _ (λ row _.
                other_saved i here id n written m u e
                  (record u { role_ids = row.id ∷ []; role = role }) refl)))
    ]

    pub status-Stays :
        (dto : UpdateStatusDto) → Yields Stays (update_status v id dto (v.id_text i) db)
    unfolding update_status
    status-Stays dto = elim (Bool-cases (str_eq id (v.id_text i))) [
      | inl m ↦ rw (update_status, m) tt
      | inr m ↦
          rw (update_status, m)
            (Yields-bind Stays (find_one_staff v id db) _ (λ u e.
              other_saved i here id n written m u e (record u { status = dto.status }) refl))
    ]
