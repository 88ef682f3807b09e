-- ===== src/Auth/Sessions.antt =====
-- backend/src/auth/auth.service.ts: who can log in, and that the session that is opened can be renewed.
use text.Mathlib.Text.{◌==◌ as str_eq}
use cg_traveleke_service.Base.{
  ◌≤◌, ◌==◌, Bool, true, false, not, ◌&&◌, some, [], ◌∷◌, Result, ok, err, is_ok, ◌≡◌, ◌↔◌, refl,
  sym, ap, ◌∙◌, subst, arith, count, first, Option-cases, inl, inr, is_some, ==_refl, throw_if,
  Result-cases, ◌>>◌, first-append_none, first-map_where_image, first_by, first-passes, count_mono,
}
use cg_traveleke_service.Database.Retry.{default_options}
use cg_traveleke_service.Database.Retry.Laws.{run-first}
use cg_traveleke_service.Auth.Users.{User, is_active_status, is_customer_role}
use cg_traveleke_service.Auth.Model.{
  RefreshToken, Meta, AuthTokenPayload, AuthError, AuthDb, AuthServices, Draw, after_days,
}
use cg_traveleke_service.Auth.Rotate.{
  has_hash, find_token, account_of, lapsed, payload, get_me, swap_token, rotate_known,
  rotate_refresh_token,
}
use cg_traveleke_service.Auth.Login.{
  LoginDto, with_email, check_login, first_token, open_session, login,
}

-- The account that a login is for may log in.
pub record MayLogIn (v : AuthServices) (dto : LoginDto) (db : AuthDb) (u : User) : Type 0 where
  pub found : first (with_email v dto.email) db.users ≡ some u
  pub is_active : is_active_status u.status ≡ true
  pub password : v.compare_password dto.password u.password ≡ true
  pub verified : is_customer_role u.role ≡ true → is_some u.email_verified_at ≡ true

guarded :
    {E : Type 0} (a b c : Bool) (e f g : E) (w u : User)
    → (throw_if (not a) e >> throw_if (not b) f >> throw_if c g >> ok w) ≡ ok u
    → (a ≡ true) × (b ≡ true) × (c ≡ false) × (w ≡ u)
guarded true true false e f g w u h =
    (refl, refl, refl, ap (λ r. elim r [ ok x ↦ x | err y ↦ w ]) h)
guarded false b c e f g w u h = absurd (ground arith)
guarded true false c e f g w u h = absurd (ground arith)
guarded true true true e f g w u h = absurd (ground arith)

module _ (v : AuthServices) (dto : LoginDto) (db : AuthDb) where
  check_login-MayLogIn : (u : User) → check_login v dto db ≡ ok u → MayLogIn v dto db u
  unfolding check_login
  check_login-MayLogIn u h =
      elim (Option-cases (v.user_repo.find_one (with_email v dto.email) db.users)) [
        | inl n ↦ let wrong = rw n at h in absurd (ground arith)
        | inr (w, n) ↦
            let (active, password, known, same) = guarded _ _ _ _ _ _ w u (rw n at h) in
            record {
              found = sym (v.user_repo.find_one_lem _ _) ∙ n ∙ ap some same;
              is_active = ap (λ x. is_active_status x.status) (sym same) ∙ active;
              password = ap (λ x. v.compare_password dto.password x.password) (sym same) ∙ password;
              verified =
                  subst (λ x. is_customer_role x.role ≡ true → is_some x.email_verified_at ≡ true)
                    same (λ c. ground arith);
            }
      ]

  check_login-finds : (u : User) → MayLogIn v dto db u → check_login v dto db ≡ ok u
  unfolding check_login
  check_login-finds u m =
      rw (v.user_repo.find_one_lem, m.found, m.is_active, m.password) (ground (arith, m.verified))

-- A login succeeds exactly if its address finds an account that is not deleted, is active, has the
-- password, and is verified if it is a customer's; a login that fails writes nothing.
pub login-MayLogIn :
    (v : AuthServices) (x : Draw) (dto : LoginDto) (meta : Meta) (db : AuthDb)
    → ((is_ok (login v x dto meta db).0 ≡ true) ↔ ((u : User) × MayLogIn v dto db u))
      × (is_ok (login v x dto meta db).0 ≡ false → (login v x dto meta db).1 ≡ db)
unfolding login
login-MayLogIn v x dto meta db = elim (Result-cases (check_login v dto db)) [
  | inl (u, n) ↦
      rw (n, login)
        (((λ h. (u, check_login-MayLogIn v dto db u n)), (λ h. refl)), (λ h. absurd (ground arith)))
  | inr (e, n) ↦
      rw (n, login)
        (
          (
            (λ h. absurd (ground arith)),
            (λ m. absurd (let wrong = sym n ∙ check_login-finds v dto db m.0 m.1 in ground arith)),
          ),
          (λ h. refl),
        )
]

-- A database on which a transaction that can return does so at the first attempt, and no other client
-- comes between.
abbrev pub IsQuiet : AuthServices → Type 0
IsQuiet v =
    (op : AuthDb → Result AuthError AuthTokenPayload × AuthDb) (s : AuthDb) (a : AuthTokenPayload)
    (s' : AuthDb)
    → op s ≡ (ok a, s')
    → v.transactions.execute 0 op s ≡ (ok a, s')

module _ (v : AuthServices) (x : Draw) (dto : LoginDto) (meta : Meta) (db : AuthDb) (u : User)
    (may : MayLogIn v dto db u)
    (new_hash : count (has_hash (v.hash_token x.raw_token)) db.tokens ≡ 0)
    (one_row : count (λ w. w.id == u.id) db.users ≤ 1) where
  abbrev opened : AuthDb
  opened = open_session v x meta u db

  abbrev fresh : RefreshToken
  fresh = first_token v x u meta db.tokens

  opened_token : find_token v x.raw_token opened ≡ some fresh
  unfolding open_session first_token
  opened_token =
      rw
        (
          v.token_repo.find_one_lem,
          v.token_repo.insert_lem,
          first-append_none (has_hash (v.hash_token x.raw_token)) db.tokens (fresh ∷ []) new_hash,
        )
        (rw (==_refl (v.hash_token x.raw_token)) refl)

  abbrev kept : User → Bool
  kept w = w.id == u.id && not (is_some w.deleted_at)

  kept_u : kept u ≡ true
  kept_u =
      let here = first-passes (with_email v dto.email) db.users u may.found in
      ground (arith, ==_refl u.id)

  opened_account : account_of v fresh opened ≡ some (record u { last_login_at = some x.now })
  unfolding open_session
  opened_account =
      let by_id : first kept db.users ≡ some u =
        first_by (with_email v dto.email) kept db.users u may.found kept_u (
          omega
            (arith, count_mono kept (λ w. w.id == u.id) db.users (λ w m. ground arith), one_row)) in
      let live : not (is_some u.deleted_at) ≡ true =
        let here = kept_u in ground (arith, ==_refl u.id) in
      rw
        (
          v.user_repo.find_one_lem,
          v.user_repo.update_lem,
          first-map_where_image kept (λ w. w.id == u.id)
              (λ w. record w { last_login_at = some x.now }) db.users u (λ w. refl) (==_refl u.id)
              by_id,
          may.is_active,
          live,
        )
        refl

  opened_rotates :
      IsQuiet v
      → (y : Draw) (meta' : Meta) → lapsed y.now fresh ≡ false
      → rotate_known v y fresh meta' opened
        ≡ some (swap_token v y (record u { last_login_at = some x.now }) fresh meta' opened)
  unfolding rotate_known swap_token first_token
  opened_rotates quiet y meta' in_time =
      let w = record u { last_login_at = some x.now } in
      rw
        (
          in_time,
          opened_account,
          run-first v.is_transient v.random v.transactions (swap_token v y w fresh meta')
              default_options opened _ _ (quiet (swap_token v y w fresh meta') opened _ _ refl),
        )
        refl

  -- A login that may succeed answers with a token, and a rotation of that token succeeds as long as both
  -- lifetimes last, if the token is not empty and new, the account has one row, and the database is
  -- quiet.
  pub login-rotates :
      IsQuiet v
      → str_eq x.raw_token "" ≡ false
      → (y : Draw) (meta' : Meta) → y.now ≤ after_days x.now v.refresh_expires_days 7
      → y.now ≤ after_days x.now v.absolute_lifetime_days 30
      → (r s : AuthTokenPayload) × (db' db'' : AuthDb) × (login v x dto meta db ≡ (ok r, db'))
        × (rotate_refresh_token v y r.refresh_token meta' db' ≡ some (ok s, db''))
        × (s.user.id ≡ u.id)
  unfolding login rotate_refresh_token get_me swap_token
  login-rotates quiet full y meta' short long =
      let in_time : lapsed y.now fresh ≡ false = ground arith in
      (
        payload v x u x.session_uuid,
        payload v y (record u { last_login_at = some x.now }) x.session_uuid,
        opened,
        (swap_token v y (record u { last_login_at = some x.now }) fresh meta' opened).1,
        rw (check_login-finds v dto db u may, login) refl,
        rw (full, opened_token) (opened_rotates quiet y meta' in_time),
        refl,
      )
