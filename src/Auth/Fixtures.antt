-- ===== src/Auth/Fixtures.antt =====
-- Accounts, tokens and services for the tests of the authentication service.
use Prim.Native.Char.{code}
use text.Mathlib.Text.{◌==◌ as str_eq}
use cg_traveleke_service.Base.{ℕ, ◌+◌, ◌*◌, true, false, none, some, [], ◌∷◌, String}
use cg_traveleke_service.Booking.Reassign.{customer}
use cg_traveleke_service.Database.Repo.{list_repo}
use cg_traveleke_service.Database.Retry.Serial.{serial}
use cg_traveleke_service.Auth.Users.{User, UserStatus}
use cg_traveleke_service.Auth.Model.{
  RefreshToken, active, Meta, AuthDb, AuthServices, Draw, email_verification,
}
use cg_traveleke_service.Auth.Login.{RegisterDto, LoginDto}

abbrev digest : String → ℕ
digest String.[] = 0
digest (String.◌∷◌ c s) = code c + 256 * digest s

abbrev pub services : AuthServices
services = record {
  user_repo = list_repo (λ u. u.id);
  token_repo = list_repo (λ t. t.id);
  access_expires_in = none;
  refresh_expires_days = none;
  absolute_lifetime_days = none;
  hash_token = digest;
  hash_password = λ p. p;
  compare_password = str_eq;
  sign = λ c d n. "signed";
  verify = λ s n. some (email_verification 2 "binh@example.com");
  same_email = str_eq;
  send_mail = λ a b c. true;
  customer_role = some 3;
  is_transient = λ e. false;
  random = λ n b. 0;
  transactions = serial;
}

abbrev pub an : User
an = record {
  id = 1;
  full_name = "An";
  email = "an@example.com";
  phone = none;
  address = none;
  password = "secret";
  avatar_url = none;
  date_of_birth = none;
  gender = none;
  status = UserStatus.active;
  email_verified_at = some 5;
  last_login_at = none;
  deleted_at = none;
  role_ids = 3 ∷ [];
  role = customer;
}

abbrev pub token_a : RefreshToken
token_a = record {
  id = 0;
  user_id = 1;
  session_id = 21;
  family_id = 31;
  token_hash = digest "a";
  parent_token_id = none;
  status = active;
  expires_at = 604800010;
  used_at = none;
  revoked_at = none;
  absolute_expires_at = 2592000010;
  ip_address = none;
  user_agent = none;
}

abbrev pub meta : Meta
meta = record { ip_address = none; user_agent = none }

abbrev pub draw_a : Draw
draw_a = record { now = 10; raw_token = "a"; session_uuid = 21; family_uuid = 31 }

abbrev pub draw_b : Draw
draw_b = record { now = 20; raw_token = "b"; session_uuid = 22; family_uuid = 32 }

abbrev pub draw_c : Draw
draw_c = record { now = 30; raw_token = "c"; session_uuid = 23; family_uuid = 33 }

abbrev pub dto : LoginDto
dto = record { email = "an@example.com"; password = "secret" }

abbrev pub form : RegisterDto
form = record {
  full_name = "Binh";
  email = "binh@example.com";
  password = "hidden";
  phone = none;
  address = none;
  date_of_birth = none;
  gender = none;
}

abbrev pub db : AuthDb
db = record { users = an ∷ []; tokens = token_a ∷ [] }

abbrev pub no_tokens : AuthDb
no_tokens = record { users = an ∷ []; tokens = [] }
