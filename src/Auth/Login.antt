-- ===== src/Auth/Login.antt =====
-- backend/src/auth/auth.service.ts: `login`, `register`, `verifyEmail` and `resendVerification`.
use text.Mathlib.Text.{◌==◌ as str_eq}
use cg_traveleke_service.Base.{
  ℕ, ◌==◌, Bool, true, false, not, ◌&&◌, Option, none, some, List, [], ◌∷◌, String, Result, ok, err,
  if◌then◌else◌, is_some, throw_if, or_throw, ◌>>=◌, ◌>>◌,
}
use cg_traveleke_service.Booking.Reassign.{customer}
use cg_traveleke_service.Auth.Users.{
  User, UserGender, UserStatus, is_active_status, is_customer_role,
}
use cg_traveleke_service.Auth.Model.{
  RefreshToken, active, Meta, Claims, access, email_verification, AuthError, email_taken,
  email_unknown, account_blocked, wrong_password, requires_verification, empty_verification,
  bad_verification, wrong_token_type, account_missing, missing_email, already_verified, mail_failed,
  AuthDb, AuthServices, Draw, after_days,
}
use cg_traveleke_service.Auth.Rotate.{payload, Answer}

pub record LoginDto : Type 0 where
  pub email : String
  pub password : String

abbrev pub with_email : AuthServices → String → User → Bool
with_email v email u = v.same_email u.email email && not (is_some u.deleted_at)

-- The checks of `login`: the account that may log in.
unfoldable pub check_login : AuthServices → LoginDto → AuthDb → Result AuthError User
check_login v dto db =
    or_throw (v.user_repo.find_one (with_email v dto.email) db.users) email_unknown >>= λ u.
    throw_if (not (is_active_status u.status)) account_blocked
    >> throw_if (not (v.compare_password dto.password u.password)) wrong_password
    >> throw_if (is_customer_role u.role && not (is_some u.email_verified_at))
        (requires_verification u.email)
    >> ok u

unfoldable pub first_token : AuthServices → Draw → User → Meta → List RefreshToken → RefreshToken
first_token v x u meta tokens = record {
  id = v.token_repo.next_id tokens;
  user_id = u.id;
  session_id = x.session_uuid;
  family_id = x.family_uuid;
  token_hash = v.hash_token x.raw_token;
  parent_token_id = none;
  status = active;
  expires_at = after_days x.now v.refresh_expires_days 7;
  used_at = none;
  revoked_at = none;
  absolute_expires_at = after_days x.now v.absolute_lifetime_days 30;
  ip_address = meta.ip_address;
  user_agent = meta.user_agent;
}

-- The writes of `login`. The profile is that of the user as read.
unfoldable pub open_session : AuthServices → Draw → Meta → User → AuthDb → AuthDb
unfolding first_token
open_session v x meta u db = record {
  users =
      v.user_repo.update (λ r. r.id == u.id) (λ r. record r { last_login_at = some x.now })
        db.users;
  tokens = v.token_repo.insert (first_token v x u meta db.tokens) db.tokens;
}

unfoldable pub login : AuthServices → Draw → LoginDto → Meta → AuthDb → Answer
unfolding check_login open_session
login v x dto meta db = elim (check_login v dto db) [
  | err e ↦ (err e, db)
  | ok u ↦ (ok (payload v x u x.session_uuid), open_session v x meta u db)
]

pub record RegisterDto : Type 0 where
  pub full_name : String
  pub email : String
  pub password : String
  pub phone : Option String
  pub address : Option String
  pub date_of_birth : Option String
  pub gender : Option UserGender

-- The answer of `register`: a new account is never verified. `mail` is what the mail server was given.
pub record Registered : Type 0 where
  pub user_id : ℕ
  pub full_name : String
  pub email : String
  pub mail : String × String × String

abbrev pub roles_of : Option ℕ → List ℕ
roles_of none = []
roles_of (some r) = r ∷ []

unfoldable pub new_user : AuthServices → RegisterDto → Option String → List User → User
new_user v dto avatar_url users = record {
  id = v.user_repo.next_id users;
  full_name = dto.full_name;
  email = dto.email;
  password = v.hash_password dto.password;
  phone = dto.phone;
  address = dto.address;
  date_of_birth = dto.date_of_birth;
  gender = dto.gender;
  avatar_url = avatar_url;
  role = customer;
  status = UserStatus.active;
  email_verified_at = none;
  last_login_at = none;
  deleted_at = none;
  role_ids = roles_of v.customer_role;
}

abbrev pub verification_token : AuthServices → ℕ → User → String
verification_token v now u = v.sign (email_verification u.id u.email) "24h" now

-- A mail that cannot be sent is logged, and the account stays.
unfoldable pub register :
    AuthServices → ℕ → RegisterDto → Option String → AuthDb → Result AuthError Registered × AuthDb
unfolding new_user
register v now dto avatar_url db =
    elim (v.user_repo.find_one (λ u. v.same_email u.email dto.email) db.users) [
      | some u ↦ (err email_taken, db)
      | none ↦
          let u = new_user v dto avatar_url db.users in
          (
            ok (record {
              user_id = u.id;
              full_name = u.full_name;
              email = u.email;
              mail = (u.email, u.full_name, verification_token v now u);
            }),
            record db { users = v.user_repo.insert u db.users },
          )
    ]

-- `alreadyVerified` and the address.
abbrev pub Verified : Type 0
Verified = Bool × String

abbrev pub verification_of : Claims → Result AuthError (ℕ × String)
verification_of (access i email role session) = err wrong_token_type
verification_of (email_verification i email) = ok (i, email)

-- The account that the link of a mail names.
unfoldable pub check_verification : AuthServices → ℕ → String → AuthDb → Result AuthError User
check_verification v now token db =
    throw_if (str_eq token "") empty_verification
    >> or_throw (v.verify token now) bad_verification
    >>= verification_of
    >>= λ who.
        or_throw (v.user_repo.find_one (λ u. u.id == who.0 && with_email v who.1 u) db.users)
          account_missing

unfoldable pub verify_email :
    AuthServices → ℕ → String → AuthDb → Result AuthError Verified × AuthDb
unfolding check_verification
verify_email v now token db = elim (check_verification v now token db) [
  | err e ↦ (err e, db)
  | ok u ↦
      let u' = record u { email_verified_at = some now } in
      if is_some u.email_verified_at
      then (ok (true, u.email), db)
      else (ok (false, u.email), record db { users = v.user_repo.save u' db.users })
]

-- The mail that goes out, or the error; nothing is written.
unfoldable pub resend_verification :
    AuthServices → ℕ → String → AuthDb → Result AuthError (String × String × String)
resend_verification v now email db =
    throw_if (str_eq email "") missing_email
    >> or_throw (v.user_repo.find_one (with_email v email) db.users) email_unknown
    >>= λ u.
        throw_if (is_some u.email_verified_at) already_verified
        >> throw_if (not (v.send_mail u.email u.full_name (verification_token v now u))) mail_failed
        >> ok (u.email, u.full_name, verification_token v now u)
