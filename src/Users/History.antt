-- ===== src/Users/History.antt =====
-- backend/src/users/users.controller.ts: any sequence of requests, behind the guards.
use cg_traveleke_service.Base.{
  ℕ, ◌≤◌, true, false, not, some, List, [], ◌∷◌, ◌≡◌, refl, sym, ap, ◌∙◌, arith, Result, ok, err,
  count, first, first-passes, passes-counted, All, Bool-cases, Option-cases, Result-cases, inl, inr,
  ==_refl, Yields, Yields-bind, Yields-ok, ok_same,
}
use cg_traveleke_service.Booking.Reassign.{UserRole, admin, employee, customer}
use cg_traveleke_service.Auth.Users.{User, is_active_status}
use cg_traveleke_service.Users.Model.{UserError, UserServices, UsersDb}
use cg_traveleke_service.Users.Service.{user_with}
use cg_traveleke_service.Users.Routes.{
  validate, includes_role, can_activate, UserRequest, customer_status, creates, edits, removes,
  gives_role, sets_status, required_roles, written, dispatch, handle,
}
use cg_traveleke_service.Users.Admins.{is_admin_role, admin_with, IsStaffed}
use cg_traveleke_service.Users.Kept.{
  customer-Stays, staff-Stays, created-Stays, removed-IsStaffed, role-Stays, status-Stays,
}

-- The path writes its id as the database does.
abbrev pub IsPlain : UserServices → UserRequest → Type 0
IsPlain v (customer_status id dto) = Unit
IsPlain v (creates dto) = Unit
IsPlain v (edits id dto) = Unit
IsPlain v (removes id) = (n : ℕ) × (id ≡ v.id_text n)
IsPlain v (gives_role id role) = (n : ℕ) × (id ≡ v.id_text n)
IsPlain v (sets_status id dto) = (n : ℕ) × (id ≡ v.id_text n)

written-IsStaffed :
    (r : Result UserError (User × UsersDb))
    → Yields (λ p. IsStaffed p.1) r
    → Yields IsStaffed (written r)
written-IsStaffed (ok p) h = h
written-IsStaffed (err e) h = tt

only_admin : (r : UserRole) → not (includes_role (admin ∷ []) r) ≡ false → is_admin_role r ≡ true
only_admin admin h = refl
only_admin employee h = absurd (ground arith)
only_admin customer h = absurd (ground arith)

admitted : (u : User) → can_activate (admin ∷ []) u ≡ ok tt → is_admin_role u.role ≡ true
unfolding can_activate
admitted u h = elim (Bool-cases (includes_role (admin ∷ []) u.role)) [
  | inr m ↦ let wrong = rw m at h in absurd (ground arith)
  | inl m ↦ only_admin u.role (rw m refl)
]

-- A request with the subject of its token and the moment.
pub record Sent : Type 0 where
  pub sub : ℕ
  pub now : ℕ
  pub request : UserRequest

module _ (v : UserServices) where
  validated :
      (sub : ℕ) (u : User) (db : UsersDb)
      → validate v sub db ≡ ok u
      → (first (user_with sub) db.users ≡ some u) × (is_active_status u.status ≡ true)
  unfolding validate
  validated sub u db h = elim (Option-cases (v.user_repo.find_one (user_with sub) db.users)) [
    | inl e ↦ let wrong = rw (validate, e) at h in absurd (ground arith)
    | inr (x, e) ↦ elim (Bool-cases (is_active_status x.status)) [
      | inr m ↦ let wrong = rw (validate, e, m) at h in absurd (ground arith)
      | inl m ↦
          let same : x ≡ u = ok_same (rw (validate, e, m) at h) in
          (sym (v.user_repo.find_one_lem _ _) ∙ e ∙ ap some same, rw (sym same) m)
    ]
  ]

  -- Who passes the guards of an administrator's route counts as one.
  counted :
      (sub : ℕ) (u : User) (db : UsersDb)
      → validate v sub db ≡ ok u
      → is_admin_role u.role ≡ true
      → 1 ≤ count (admin_with u.id) db.users
  counted sub u db h role =
      let (found, active) = validated sub u db h in
      let here = first-passes (user_with sub) db.users u found in
      passes-counted (user_with sub) (admin_with u.id) db.users u found
        (ground (arith, here, active, role, ==_refl u.id))

  dispatch-IsStaffed :
      (sub now : ℕ) (r : UserRequest) (u : User) (db : UsersDb)
      → IsPlain v r
      → IsStaffed db
      → validate v sub db ≡ ok u
      → can_activate (required_roles r) u ≡ ok tt
      → Yields IsStaffed (dispatch v now r u db)
  unfolding dispatch
  dispatch-IsStaffed sub now (customer_status id dto) u db plain h who may =
      written-IsStaffed _ (customer-Stays v db h id dto)
  dispatch-IsStaffed sub now (creates dto) u db plain h who may =
      written-IsStaffed _ (created-Stays v db h dto)
  dispatch-IsStaffed sub now (edits id dto) u db plain h who may =
      written-IsStaffed _ (staff-Stays v db h id dto)
  dispatch-IsStaffed sub now (removes id) u db (n, plain) h who may =
      removed-IsStaffed v db h u.id (counted sub u db who (admitted u may)) id n plain now
  dispatch-IsStaffed sub now (gives_role id role) u db (n, plain) h who may =
      written-IsStaffed _
        (role-Stays v db h u.id (counted sub u db who (admitted u may)) id n plain role)
  dispatch-IsStaffed sub now (sets_status id dto) u db (n, plain) h who may =
      written-IsStaffed _
        (status-Stays v db h u.id (counted sub u db who (admitted u may)) id n plain dto)

  handle-IsStaffed :
      (sub now : ℕ) (r : UserRequest) (db : UsersDb)
      → IsPlain v r
      → IsStaffed db
      → Yields IsStaffed (handle v sub now r db)
  unfolding handle
  handle-IsStaffed sub now r db plain h = Yields-bind IsStaffed (validate v sub db) _ (λ u who.
      Yields-bind IsStaffed (can_activate (required_roles r) u) _
        (λ t may. dispatch-IsStaffed sub now r u db plain h who may))

  unfoldable pub run_requests : List Sent → UsersDb → UsersDb
  unfolding handle
  run_requests [] db = db
  run_requests (s ∷ rs) db =
      run_requests rs (elim (handle v s.sub s.now s.request db) [ ok db' ↦ db' | err e ↦ db ])

  -- From accounts with unique ids and an administrator who is active: after any sequence of requests,
  -- whoever sends them, there is such an administrator, if each path of a removal, of a new role or of a
  -- new status writes its id as the database does.
  pub run_requests-IsStaffed :
      (rs : List Sent) (db : UsersDb)
      → All (λ s. IsPlain v s.request) rs
      → IsStaffed db
      → IsStaffed (run_requests rs db)
  unfolding run_requests
  run_requests-IsStaffed [] db plain h = h
  run_requests-IsStaffed (s ∷ rs) db plain h =
      elim (Result-cases (handle v s.sub s.now s.request db)) [
        | inl (db', e) ↦
            rw (run_requests, e)
              (run_requests-IsStaffed rs db' plain.1
                (Yields-ok IsStaffed _ db' e (handle-IsStaffed s.sub s.now s.request db plain.0 h)))
        | inr (x, e) ↦ rw (run_requests, e) (run_requests-IsStaffed rs db plain.1 h)
      ]
