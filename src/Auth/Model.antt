-- ===== src/Auth/Model.antt =====
-- backend/src/auth/entities/refresh-token.entity.ts and the state of
-- backend/src/auth/auth.service.ts: the refresh tokens, and what the service takes from outside.
-- A digest and a UUID are the numbers that they write.
use cg_traveleke_service.Base.{ℕ, ◌+◌, ◌*◌, Bool, true, false, Option, List, String, or_else}
use cg_traveleke_service.Booking.Reassign.{UserRole}
use cg_traveleke_service.Database.Errors.{DatabaseError}
use cg_traveleke_service.Database.Repo.{Repo}
use cg_traveleke_service.Database.Retry.{Transactions}
use cg_traveleke_service.Auth.Users.{User, UserStatus}

pub data RefreshTokenStatus : Type 0 where
  active used revoked expired : RefreshTokenStatus

pub record RefreshToken : Type 0 where
  pub id : ℕ
  pub user_id : ℕ
  pub session_id : ℕ
  pub family_id : ℕ
  pub token_hash : ℕ
  pub parent_token_id : Option ℕ
  pub status : RefreshTokenStatus
  pub expires_at : ℕ
  pub used_at : Option ℕ
  pub revoked_at : Option ℕ
  pub absolute_expires_at : ℕ
  pub ip_address : Option String
  pub user_agent : Option String

-- `status === ACTIVE`, `status === USED || status === REVOKED` and `status === EXPIRED`.
abbrev pub is_active : RefreshTokenStatus → Bool
is_active active = true
is_active _ = false

abbrev pub was_spent : RefreshTokenStatus → Bool
was_spent used = true
was_spent revoked = true
was_spent _ = false

abbrev pub is_expired : RefreshTokenStatus → Bool
is_expired expired = true
is_expired _ = false

-- `meta`
pub record Meta : Type 0 where
  pub ip_address : Option String
  pub user_agent : Option String

-- What a JSON Web Token is signed for.
pub data Claims : Type 0 where
  access : ℕ → String → UserRole → ℕ → Claims
  email_verification : ℕ → String → Claims

pub record MeResponse : Type 0 where
  pub id : ℕ
  pub full_name : String
  pub email : String
  pub phone : Option String
  pub address : Option String
  pub avatar_url : Option String
  pub role : UserRole
  pub status : UserStatus
  pub is_email_verified : Bool
  pub email_verified_at : Option ℕ
  pub last_login_at : Option ℕ
  pub permissions : List String

-- `token_type` is always Bearer.
pub record AuthTokenPayload : Type 0 where
  pub access_token : String
  pub refresh_token : String
  pub expires_in : String
  pub user : MeResponse

pub data AuthError : Type 0 where
  malformed_token : AuthError
  unknown_token : AuthError
  token_replay : AuthError
  session_expired : AuthError
  account_unavailable : AuthError
  email_taken : AuthError
  email_unknown : AuthError
  account_blocked : AuthError
  wrong_password : AuthError
  requires_verification : String → AuthError
  empty_verification : AuthError
  bad_verification : AuthError
  wrong_token_type : AuthError
  account_missing : AuthError
  missing_email : AuthError
  already_verified : AuthError
  mail_failed : AuthError
  database : DatabaseError → AuthError

pub record AuthDb : Type 0 where
  pub users : List User
  pub tokens : List RefreshToken

-- What the service takes from outside: the repositories, the configuration, SHA-256, bcrypt and the
-- signatures, the collation by which the database compares addresses, the mail server, and the
-- database's transactions.
pub record AuthServices : Type 0 where
  pub user_repo : Repo User (λ u. u.id)
  pub token_repo : Repo RefreshToken (λ t. t.id)
  pub access_expires_in : Option String
  pub refresh_expires_days : Option ℕ
  pub absolute_lifetime_days : Option ℕ
  pub hash_token : String → ℕ
  pub hash_password : String → String
  pub compare_password : String → String → Bool
  -- `sign(claims, { expiresIn })` at a time
  pub sign : Claims → String → ℕ → String
  -- `verify(token)` at a time; nothing stands for a throw
  pub verify : String → ℕ → Option Claims
  pub same_email : String → String → Bool
  pub send_mail : String → String → String → Bool
  pub customer_role : Option ℕ
  pub is_transient : AuthError → Bool
  pub random : ℕ → ℕ → ℕ
  pub transactions : Transactions AuthDb AuthError AuthTokenPayload

-- What one request draws: the time, the random bytes as text, and two UUIDs.
pub record Draw : Type 0 where
  pub now : ℕ
  pub raw_token : String
  pub session_uuid : ℕ
  pub family_uuid : ℕ

abbrev pub day : ℕ
day = 86400000

abbrev pub expires_in : AuthServices → String
expires_in v = or_else v.access_expires_in "15m"

-- `now` and the days of the configuration.
abbrev pub after_days : ℕ → Option ℕ → ℕ → ℕ
after_days now days default_days = now + or_else days default_days * day
