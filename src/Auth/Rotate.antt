-- ===== src/Auth/Rotate.antt =====
-- backend/src/auth/auth.service.ts: `getMe`, `rotateRefreshToken`, `logout` and `logoutAll`.
use text.Mathlib.Text.{◌==◌ as str_eq}
use cg_traveleke_service.Base.{
  ℕ, ◌==◌, ltb, min, Bool, not, ◌&&◌, ◌||◌, Option, none, some, List, [], ◌∷◌, String, Result, ok,
  err, if◌then◌else◌, is_some,
}
use cg_traveleke_service.Booking.Reassign.{UserRole, customer, employee, admin}
use cg_traveleke_service.Database.Retry.{Outcome, default_options, run_with_deadlock_retry}
use cg_traveleke_service.Auth.Users.{User, is_active_status}
use cg_traveleke_service.Auth.Model.{
  RefreshToken, active, used, revoked, expired, is_active, was_spent, is_expired, Meta, access,
  MeResponse, AuthTokenPayload, AuthError, malformed_token, unknown_token, token_replay,
  session_expired, account_unavailable, AuthDb, AuthServices, Draw, expires_in, after_days,
}

-- `ROLE_PERMISSIONS`
unfoldable pub role_permissions : UserRole → List String
role_permissions admin =
    "hotels.create" ∷ "hotels.read" ∷ "hotels.update" ∷ "hotels.delete" ∷ "hotels.manage_images"
    ∷ "rooms.create" ∷ "rooms.read" ∷ "rooms.update" ∷ "rooms.delete" ∷ "rooms.manage_images"
    ∷ "bookings.read" ∷ "bookings.update_status" ∷ "bookings.delete" ∷ "users.read" ∷ "users.create"
    ∷ "users.update" ∷ "users.delete" ∷ "users.manage_staff" ∷ "users.update_role"
    ∷ "users.update_status" ∷ []
role_permissions employee =
    "hotels.create" ∷ "hotels.read" ∷ "hotels.update" ∷ "hotels.manage_images" ∷ "rooms.create"
    ∷ "rooms.read" ∷ "rooms.update" ∷ "rooms.manage_images" ∷ "bookings.read"
    ∷ "bookings.update_status" ∷ []
role_permissions customer = []

unfoldable pub get_me : User → MeResponse
unfolding role_permissions
get_me u = record {
  id = u.id;
  full_name = u.full_name;
  email = u.email;
  phone = u.phone;
  address = u.address;
  avatar_url = u.avatar_url;
  role = u.role;
  status = u.status;
  is_email_verified = is_some u.email_verified_at;
  email_verified_at = u.email_verified_at;
  last_login_at = u.last_login_at;
  permissions = role_permissions u.role;
}

abbrev pub in_family : ℕ → RefreshToken → Bool
in_family f t = t.family_id == f

abbrev pub revoke : ℕ → RefreshToken → RefreshToken
revoke now t = record t { status = revoked; revoked_at = some now }

abbrev pub revoke_where : AuthServices → ℕ → (RefreshToken → Bool) → AuthDb → AuthDb
revoke_where v now p db = record db { tokens = v.token_repo.update p (revoke now) db.tokens }

abbrev pub has_hash : ℕ → RefreshToken → Bool
has_hash h t = t.token_hash == h

abbrev pub find_token : AuthServices → String → AuthDb → Option RefreshToken
find_token v raw db = v.token_repo.find_one (has_hash (v.hash_token raw)) db.tokens

-- The account of a token, if it may be used. A query leaves deleted rows out.
abbrev pub usable : Option User → Option User
usable none = none
usable (some u) = if is_active_status u.status && not (is_some u.deleted_at) then some u else none

abbrev pub account_of : AuthServices → RefreshToken → AuthDb → Option User
account_of v t db =
    usable (v.user_repo.find_one (λ u. u.id == t.user_id && not (is_some u.deleted_at)) db.users)

abbrev pub lapsed : ℕ → RefreshToken → Bool
lapsed now t = is_expired t.status || ltb t.expires_at now || ltb t.absolute_expires_at now

unfoldable pub successor :
    AuthServices → Draw → User → RefreshToken → Meta → List RefreshToken → RefreshToken
successor v x u t meta tokens = record {
  id = v.token_repo.next_id tokens;
  user_id = u.id;
  session_id = t.session_id;
  family_id = t.family_id;
  token_hash = v.hash_token x.raw_token;
  parent_token_id = some t.id;
  status = active;
  expires_at = min (after_days x.now v.refresh_expires_days 7) t.absolute_expires_at;
  used_at = none;
  revoked_at = none;
  absolute_expires_at = t.absolute_expires_at;
  ip_address = meta.ip_address;
  user_agent = meta.user_agent;
}

abbrev pub has_id : ℕ → RefreshToken → Bool
has_id i t = t.id == i

abbrev pub spend : ℕ → RefreshToken → RefreshToken
spend now t = record t { status = used; used_at = some now }

abbrev pub payload : AuthServices → Draw → User → ℕ → AuthTokenPayload
payload v x u session = record {
  access_token = v.sign (access u.id u.email u.role session) (expires_in v) x.now;
  refresh_token = x.raw_token;
  expires_in = expires_in v;
  user = get_me u;
}

-- The transaction's callback.
unfoldable pub swap_token :
    AuthServices
    → Draw
    → User
    → RefreshToken
    → Meta
    → AuthDb
    → Result AuthError AuthTokenPayload × AuthDb
unfolding successor
swap_token v x u t meta db =
    let spent = v.token_repo.update (has_id t.id) (spend x.now) db.tokens in
    (
      ok (payload v x u t.session_id),
      record db { tokens = v.token_repo.insert (successor v x u t meta spent) spent },
    )

abbrev pub Answer : Type 0
Answer = Result AuthError AuthTokenPayload × AuthDb

abbrev pub answer_of : Option (Outcome AuthDb AuthError AuthTokenPayload) → Option Answer
answer_of none = none
answer_of (some o) = some (o.result, o.state)

-- The token is known.
unfoldable pub rotate_known : AuthServices → Draw → RefreshToken → Meta → AuthDb → Option Answer
rotate_known v x t meta db =
    if was_spent t.status
    then some (err token_replay, revoke_where v x.now (in_family t.family_id) db)
    else if lapsed x.now t
    then some (
      err session_expired,
      record db {
        tokens = v.token_repo.update (has_id t.id) (λ r. record r { status = expired }) db.tokens;
      },
    )
    else elim (account_of v t db) [
      | none ↦ some (err account_unavailable, db)
      | some u ↦ answer_of (
          run_with_deadlock_retry v.is_transient v.random v.transactions (swap_token v x u t meta)
            default_options db)
    ]

-- `rotateRefreshToken`; `none` would be a retry that never ends.
unfoldable pub rotate_refresh_token : AuthServices → Draw → String → Meta → AuthDb → Option Answer
unfolding rotate_known
rotate_refresh_token v x raw meta db =
    if str_eq raw "" then some (err malformed_token, db) else elim (find_token v raw db) [
      | none ↦ some (err unknown_token, db)
      | some t ↦ rotate_known v x t meta db
    ]

-- `logoutAll`
unfoldable pub logout_all : AuthServices → ℕ → ℕ → AuthDb → AuthDb
logout_all v now user = revoke_where v now (λ t. t.user_id == user && is_active t.status)

-- JavaScript's truth of a text that may be missing.
abbrev pub given_text : Option String → Option String
given_text none = none
given_text (some s) = if str_eq s "" then none else some s

-- `logout`; an identifier, if there is one, is not the empty text.
unfoldable pub logout : AuthServices → ℕ → Option String → Option ℕ → Option ℕ → AuthDb → AuthDb
unfolding logout_all
logout v now raw session user db = elim (given_text raw) [
  | some r ↦ elim (find_token v r db) [
    | none ↦ db
    | some t ↦ revoke_where v now (in_family t.family_id) db
  ]
  | none ↦ elim session [
    | some s ↦ revoke_where v now (λ t. t.session_id == s) db
    | none ↦ elim user [ none ↦ db | some u ↦ logout_all v now u db ]
  ]
]
