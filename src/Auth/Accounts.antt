-- ===== src/Auth/Accounts.antt =====
-- backend/src/auth/auth.service.ts: from `register` over `verifyEmail` to `login`.
use text.Mathlib.Text.{◌==◌ as str_eq}
use cg_traveleke_service.Base.{
  ℕ, ◌==◌, Bool, true, false, ◌&&◌, Option, none, some, [], ◌∷◌, ◌++◌, String, ok, Result-cases,
  inl, inr, is_ok, ◌≡◌, refl, sym, ap, ◌∙◌, arith, count, first, map_where, ==_refl, count_mono,
  count-of_none, map_where-append, map_where-none, first-append_none,
}
use cg_traveleke_service.Auth.Users.{User}
use cg_traveleke_service.Auth.Model.{Meta, email_verification, AuthDb, AuthServices, Draw}
use cg_traveleke_service.Auth.Login.{
  LoginDto, RegisterDto, Registered, with_email, new_user, verification_token, check_login,
  check_verification, login, register, verify_email,
}

is_ok-login :
    (v : AuthServices) (x : Draw) (dto : LoginDto) (meta : Meta) (db : AuthDb)
    → is_ok (login v x dto meta db).0 ≡ is_ok (check_login v dto db)
unfolding login
is_ok-login v x dto meta db = elim (Result-cases (check_login v dto db)) [
  | inl (u, n) ↦ rw (n, login) refl
  | inr (e, n) ↦ rw (n, login) refl
]

module _ (v : AuthServices) (now later : ℕ) (dto : RegisterDto) (avatar : Option String)
    (db : AuthDb)
    (free : v.user_repo.find_one (λ u. v.same_email u.email dto.email) db.users ≡ none)
    (hashes : (p : String) → v.compare_password p (v.hash_password p) ≡ true)
    (collates : (e : String) → v.same_email e e ≡ true)
    (signed : v.verify (verification_token v now (new_user v dto avatar db.users)) later
      ≡ some (
          email_verification
            (new_user v dto avatar db.users).id
            (new_user v dto avatar db.users).email))
    (full : str_eq (verification_token v now (new_user v dto avatar db.users)) "" ≡ false) where
  abbrev user : User
  user = new_user v dto avatar db.users

  abbrev verified : User
  verified = record user { email_verified_at = some later }

  abbrev link : String
  link = verification_token v now user

  no_same : count (with_email v dto.email) db.users ≡ 0
  no_same =
      let none_yet =
        count-of_none (λ u. v.same_email u.email dto.email) db.users
          (sym (v.user_repo.find_one_lem _ _) ∙ free) in
      omega (
        arith,
        none_yet,
        count_mono (with_email v dto.email) (λ u. v.same_email u.email dto.email) db.users
            (λ u m. ground arith),
      )

  abbrev registered : AuthDb
  registered = record db { users = v.user_repo.insert user db.users }

  abbrev confirmed : AuthDb
  confirmed = record db { users = v.user_repo.save verified registered.users }

  abbrev named : User → Bool
  named u = u.id == user.id && with_email v user.email u

  same_email_user : with_email v dto.email user ≡ true
  unfolding new_user
  same_email_user = rw (collates dto.email) refl

  fresh_id : count (λ u. u.id == user.id) db.users ≡ 0
  unfolding new_user
  fresh_id = v.user_repo.next_id_fresh db.users

  named_none : count named db.users ≡ 0
  named_none =
      omega
        (arith, fresh_id, count_mono named (λ u. u.id == user.id) db.users (λ u m. ground arith))

  named_user : named user ≡ true
  unfolding new_user
  named_user = rw (==_refl user.id, collates dto.email) refl

  check_link : check_verification v later link registered ≡ ok user
  unfolding check_verification
  check_link =
      rw
        (
          full,
          signed,
          v.user_repo.find_one_lem,
          v.user_repo.insert_lem,
          first-append_none named db.users (user ∷ []) named_none,
          named_user,
        )
        refl

  -- The table after the verification.
  confirmed-users : confirmed.users ≡ db.users ++ verified ∷ []
  confirmed-users =
      v.user_repo.save_lem verified registered.users
      ∙ ap (map_where (λ u. u.id == user.id) (λ u. verified)) (v.user_repo.insert_lem user db.users)
      ∙ map_where-append (λ u. u.id == user.id) (λ u. verified) db.users (user ∷ [])
      ∙ rw
          (map_where-none (λ u. u.id == user.id) (λ u. verified) db.users fresh_id, ==_refl user.id)
          refl

  -- The checks of a login, of the account that was added last.
  login_of :
      (u : User)
      → with_email v dto.email u ≡ true
      → first (with_email v dto.email) (db.users ++ u ∷ []) ≡ some u
  login_of u m = rw (first-append_none (with_email v dto.email) db.users (u ∷ []) no_same, m) refl

  abbrev credentials : LoginDto
  credentials = record { email = dto.email; password = dto.password }

  refused : is_ok (check_login v credentials registered) ≡ false
  unfolding check_login new_user
  refused =
      rw
        (
          v.user_repo.find_one_lem,
          v.user_repo.insert_lem,
          login_of user same_email_user,
          hashes dto.password,
        )
        refl

  accepted : is_ok (check_login v credentials confirmed) ≡ true
  unfolding check_login new_user
  accepted =
      rw
        (
          v.user_repo.find_one_lem,
          confirmed-users,
          login_of verified same_email_user,
          hashes dto.password,
        )
        refl

  -- For an address that no account has, if bcrypt accepts the password that it hashed, the collation is
  -- reflexive, and the signature of the link is still valid: `register` succeeds, a login is refused
  -- until `verifyEmail` is called with the link of the mail, which succeeds, and accepted afterwards.
  pub register-verify_email :
      (x : Draw) (meta : Meta)
      → (r : Registered) × (db1 db2 : AuthDb) × (register v now dto avatar db ≡ (ok r, db1))
        × (is_ok (login v x (record { email = dto.email; password = dto.password }) meta db1).0
            ≡ false)
        × (verify_email v later r.mail.2 db1 ≡ (ok (false, dto.email), db2))
        × (is_ok (login v x (record { email = dto.email; password = dto.password }) meta db2).0
            ≡ true)
  unfolding register verify_email new_user
  register-verify_email x meta = (
    record {
      user_id = user.id;
      full_name = user.full_name;
      email = user.email;
      mail = (user.email, user.full_name, link);
    },
    registered,
    confirmed,
    rw (free, register) refl,
    is_ok-login v x credentials meta registered ∙ refused,
    rw (check_link, verify_email) refl,
    is_ok-login v x credentials meta confirmed ∙ accepted,
  )
