-- ===== src/Auth/Tests.antt =====
-- Logins, rotations and logouts of one account.
use cg_traveleke_service.Database.Retry.Serial.{undo}
use cg_traveleke_service.Base.{
  ap, ◌<◌, Bool, ℕ, suc, ◌≡◌, ◌↔◌, refl, arith, none, some, String, ok, err, true, false, not, ◌&&◌,
  count, select, is_ok,
}
use text.Mathlib.Text.{◌==◌ as str_eq}
use cg_traveleke_service.Auth.Users.{User}
use cg_traveleke_service.Auth.Model.{
  RefreshToken, token_replay, AuthTokenPayload, AuthDb, Draw, Meta,
}
use cg_traveleke_service.Auth.Rotate.{
  Answer, in_family, find_token, payload, swap_token, rotate_refresh_token, logout,
}
use cg_traveleke_service.Booking.Fixtures.{str_eq_refl}
use cg_traveleke_service.Auth.Accounts.{register-verify_email}
use cg_traveleke_service.Auth.Login.{LoginDto, Registered, register, verify_email, new_user, login}
use cg_traveleke_service.Auth.Families.{live, IsSound}
use cg_traveleke_service.Auth.Ends.{RotateEnded, rotate_refresh_token-Ended}
use cg_traveleke_service.Auth.SingleUse.{rotate-single_use}
use cg_traveleke_service.Auth.Races.{swap_token-revives}
use cg_traveleke_service.Auth.History.{Call, Calls, Calls-IsSound}
use cg_traveleke_service.Auth.Sessions.{MayLogIn, login-MayLogIn, login-rotates}
use cg_traveleke_service.Auth.Closing.{logout-closes}
use cg_traveleke_service.Database.Retry.{run_with_deadlock_retry}
use cg_traveleke_service.Auth.Fixtures.{
  form, services, an, token_a, meta, draw_a, draw_b, draw_c, dto, db, no_tokens,
}

abbrev binh_dto : LoginDto
binh_dto = record { email = "binh@example.com"; password = "hidden" }

random-lt : (n b : ℕ) → 0 < b → services.random n b < b
random-lt n b h = h

rotate_refresh_token-Ended_example :
    (a : Answer) × (rotate_refresh_token services draw_b "a" meta db ≡ some a)
    × RotateEnded services draw_b "a" meta db a
rotate_refresh_token-Ended_example =
    rotate_refresh_token-Ended services draw_b "a" meta db random-lt

-- The tables after the rotation of the token.
abbrev rotated : AuthDb
rotated = (swap_token services draw_b an token_a meta db).1

rotated_lem :
    rotate_refresh_token services draw_b "a" meta db
    ≡ some (ok (payload services draw_b an 21), rotated)
unfolding rotate_refresh_token swap_token run_with_deadlock_retry
rotated_lem = refl

rotate-single_use_example :
    (t : RefreshToken) × (db' : AuthDb) × (find_token services "a" db ≡ some t)
    × (rotate_refresh_token services draw_c "a" meta rotated ≡ some (err token_replay, db'))
    × (count (live t.family_id) db'.tokens ≡ 0)
rotate-single_use_example =
    rotate-single_use services (λ n s. refl) random-lt draw_b "a" meta db
      (payload services draw_b an 21) rotated rotated_lem draw_c meta

-- A second rotation of the token that was read before the first wrote: two active tokens.
swap_token-revives_example :
    (is_ok (swap_token services draw_c an token_a meta rotated).0 ≡ true)
    × (count (live 31) (swap_token services draw_c an token_a meta rotated).1.tokens
        ≡ suc (count (live 31) rotated.tokens))
unfolding swap_token
swap_token-revives_example = swap_token-revives services draw_c an token_a meta rotated refl

one_active : count (live 31) rotated.tokens ≡ 1
unfolding swap_token
one_active = refl

no_tokens-IsSound : IsSound no_tokens.tokens
no_tokens-IsSound = record {
  unique_ids = λ i. omega arith;
  unique_hashes = λ h. omega arith;
  one_live = λ f. omega arith;
}

abbrev logged_in : AuthDb
logged_in = (login services draw_a dto meta no_tokens).1

abbrev logged_out : AuthDb
logged_out = logout services 40 (some "a") none none logged_in

calls : Calls services no_tokens logged_out
unfolding login
calls =
    Calls.then_call logged_in logged_out
      (Calls.then_call no_tokens logged_in Calls.none_yet (Call.logs_in draw_a dto meta refl refl))
      (Call.logs_out 40 (some "a") none none)

Calls-IsSound_example : IsSound logged_out.tokens
Calls-IsSound_example =
    Calls-IsSound services (λ n s. refl) random-lt no_tokens logged_out calls no_tokens-IsSound

an-MayLogIn : MayLogIn services dto no_tokens an
an-MayLogIn = record { found = refl; is_active = refl; password = refl; verified = λ h. refl }

login-MayLogIn_example :
    ((is_ok (login services draw_a dto meta no_tokens).0 ≡ true)
      ↔ ((u : User) × MayLogIn services dto no_tokens u))
    × (is_ok (login services draw_a dto meta no_tokens).0 ≡ false
        → (login services draw_a dto meta no_tokens).1 ≡ no_tokens)
login-MayLogIn_example = login-MayLogIn services draw_a dto meta no_tokens

login-rotates_example :
    (r s : AuthTokenPayload) × (db' db'' : AuthDb) × (login services draw_a dto meta no_tokens
      ≡ (ok r, db'))
    × (rotate_refresh_token services draw_b r.refresh_token meta db' ≡ some (ok s, db''))
    × (s.user.id ≡ 1)
login-rotates_example =
    login-rotates services draw_a dto meta no_tokens an an-MayLogIn refl (omega arith)
      (λ op s a s' h. ap (undo s) h) refl draw_b meta (omega arith) (omega arith)

logout-closes_example :
    (count (live 31) (logout services 40 (some "a") none none db).tokens ≡ 0)
    × ((p : RefreshToken → Bool)
        → select
            (λ r. not (in_family 31 r) && p r)
            (logout services 40 (some "a") none none db).tokens
          ≡ select (λ r. not (in_family 31 r) && p r) db.tokens)
    × ((y : Draw) (raw : String) (m : Meta) (t : RefreshToken)
        → str_eq raw "" ≡ false
        → find_token services raw db ≡ some t
        → t.family_id ≡ 31
        → (db' : AuthDb) × (rotate_refresh_token services y raw m
              (logout services 40 (some "a") none none db)
            ≡ some (err token_replay, db')))
logout-closes_example = logout-closes services 40 "a" none none db token_a refl refl

register-verify_email_example :
    (r : Registered) × (db1 db2 : AuthDb) × (register services 40 form none db ≡ (ok r, db1))
    × (is_ok (login services draw_b binh_dto meta db1).0 ≡ false)
    × (verify_email services 50 r.mail.2 db1 ≡ (ok (false, "binh@example.com"), db2))
    × (is_ok (login services draw_b binh_dto meta db2).0 ≡ true)
unfolding new_user
register-verify_email_example =
    register-verify_email services 40 50 form none db refl str_eq_refl str_eq_refl refl refl draw_b
      meta
