-- ===== src/Auth/Ends.antt =====
-- backend/src/auth/auth.service.ts: how a call of `rotateRefreshToken` ends.
use text.Mathlib.Text.{◌==◌ as str_eq}
use cg_traveleke_service.Base.{
  ℕ, suc, ◌<◌, ltb, Bool, true, false, ◌||◌, none, some, String, Result, ok, err, ◌≡◌, refl, arith,
  Bool-cases, Option-cases, ◌⊎◌, inl, inr, length,
}
use cg_traveleke_service.Database.Retry.{Outcome, default_options}
use cg_traveleke_service.Database.Retry.Laws.{drift, Settled, run_with_deadlock_retry-Ends}
use cg_traveleke_service.Auth.Users.{User}
use cg_traveleke_service.Auth.Model.{
  RefreshToken, RefreshTokenStatus, active, used, revoked, expired, is_active, was_spent,
  is_expired, Meta, AuthTokenPayload, AuthError, malformed_token, unknown_token, token_replay,
  session_expired, account_unavailable, AuthDb, AuthServices, Draw,
}
use cg_traveleke_service.Auth.Rotate.{
  Answer, in_family, has_id, revoke_where, find_token, account_of, lapsed, swap_token, rotate_known,
  rotate_refresh_token,
}

-- A token that is neither spent nor expired is active.
live_status :
    (s : RefreshTokenStatus) (b c : Bool)
    → was_spent s ≡ false
    → (is_expired s || b || c) ≡ false
    → is_active s ≡ true
live_status active b c h k = refl
live_status used b c h k = absurd (ground arith)
live_status revoked b c h k = absurd (ground arith)
live_status expired b c h k = absurd (ground arith)

module _ (v : AuthServices) (x : Draw) (raw : String) (meta : Meta) (db : AuthDb) where
  pub data RotateEnded (a : Answer) : Type 0 where
    malformed : str_eq raw "" ≡ true → a ≡ (err malformed_token, db) → RotateEnded a
    unknown : find_token v raw db ≡ none → a ≡ (err unknown_token, db) → RotateEnded a
    replayed :
        (t : RefreshToken)
        → find_token v raw db ≡ some t
        → was_spent t.status ≡ true
        → a ≡ (err token_replay, revoke_where v x.now (in_family t.family_id) db)
        → RotateEnded a
    too_late :
        (t : RefreshToken)
        → find_token v raw db ≡ some t
        → was_spent t.status ≡ false
        → lapsed x.now t ≡ true
        → a ≡ (
          err session_expired,
          record db {
            tokens =
                v.token_repo.update (has_id t.id) (λ r. record r { status = expired }) db.tokens;
          },
        )
        → RotateEnded a
    no_account :
        (t : RefreshToken)
        → find_token v raw db ≡ some t
        → is_active t.status ≡ true
        → lapsed x.now t ≡ false
        → account_of v t db ≡ none
        → a ≡ (err account_unavailable, db)
        → RotateEnded a
    failed :
        (t : RefreshToken) (u : User) (e : AuthError) (k : ℕ)
        → find_token v raw db ≡ some t
        → is_active t.status ≡ true
        → lapsed x.now t ≡ false
        → account_of v t db ≡ some u
        → v.transactions.from_database e ≡ true
        → a ≡ (err e, drift v.transactions k 0 db)
        → RotateEnded a
    swapped :
        (t : RefreshToken) (u : User) (r : AuthTokenPayload) (k : ℕ)
        → find_token v raw db ≡ some t
        → is_active t.status ≡ true
        → lapsed x.now t ≡ false
        → account_of v t db ≡ some u
        → a.0 ≡ ok r
        → swap_token v x u t meta (drift v.transactions k 0 db) ≡ (ok r, a.1)
        → RotateEnded a

  -- The transaction of a rotation throws nothing of its own.
  database_error :
      (t : RefreshToken) (u : User) (s : AuthDb) (e : AuthError)
      → ((swap_token v x u t meta s).0 ≡ err e) ⊎ (v.transactions.from_database e ≡ true)
      → v.transactions.from_database e ≡ true
  unfolding swap_token
  database_error t u s e (inl h) = cc
  database_error t u s e (inr h) = h

  module _ (random-lt : (n b : ℕ) → 0 < b → v.random n b < b) where
    finish :
        (t : RefreshToken) (u : User) (o : Outcome AuthDb AuthError AuthTokenPayload)
        (r : Result AuthError AuthTokenPayload)
        → find_token v raw db ≡ some t
        → is_active t.status ≡ true
        → lapsed x.now t ≡ false
        → account_of v t db ≡ some u
        → o.result ≡ r
        → Settled v.transactions
            (swap_token v x u t meta)
            (drift v.transactions (suc (length o.waits)) 0 db)
            r
            o.state
        → RotateEnded (o.result, o.state)
    finish t u o (ok r) e live late account same h =
        RotateEnded.swapped t u r (suc (length o.waits)) e live late account same h
    finish t u o (err y) e live late account same h =
        RotateEnded.failed t u y (suc (length o.waits)) e live late account
          (database_error t u (drift v.transactions (suc (length o.waits)) 0 db) y h.1)
          (rw (same, h.0) refl)

    known :
        (t : RefreshToken)
        → find_token v raw db ≡ some t
        → (a : Answer) × (rotate_known v x t meta db ≡ some a) × RotateEnded a
    unfolding rotate_known
    known t e = elim (Bool-cases (was_spent t.status)) [
      | inl s ↦ rw s (_, refl, RotateEnded.replayed t e s refl)
      | inr s ↦ elim (Bool-cases (lapsed x.now t)) [
        | inl l ↦ rw (s, l) (_, refl, RotateEnded.too_late t e s l refl)
        | inr l ↦ elim (Option-cases (account_of v t db)) [
          | inl n ↦
              let live =
                live_status t.status (ltb t.expires_at x.now) (ltb t.absolute_expires_at x.now) s
                  l in
              rw (s, l, n) (_, refl, RotateEnded.no_account t e live l n refl)
          | inr (u, n) ↦
              let (o, run, ends) =
                run_with_deadlock_retry-Ends v.is_transient v.random v.transactions
                  (swap_token v x u t meta) default_options random-lt db in
              rw (s, l, n, run)
                (
                  _,
                  refl,
                  finish t u o o.result e
                      (live_status t.status (ltb t.expires_at x.now)
                        (ltb t.absolute_expires_at x.now) s l)
                      l n refl ends.settled,
                )
        ]
      ]
    ]

    -- If the jitter stays below its bound, every call of `rotateRefreshToken` ends, in one of seven ways. It is refused for an empty or
    -- unknown token or an unusable account, and writes nothing; it revokes the family of a token that
    -- was spent; it marks a token expired; or the token was active, unexpired and of a usable account,
    -- and either the database throws an error of its own, with nothing written, or one transaction swaps
    -- the token, at a state that only other clients have changed since.
    pub rotate_refresh_token-Ended :
        (a : Answer) × (rotate_refresh_token v x raw meta db ≡ some a) × RotateEnded a
    unfolding rotate_refresh_token
    rotate_refresh_token-Ended = elim (Bool-cases (str_eq raw "")) [
      | inl e ↦ rw e (_, refl, RotateEnded.malformed e refl)
      | inr e ↦ elim (Option-cases (find_token v raw db)) [
        | inl n ↦ rw (e, n) (_, refl, RotateEnded.unknown n refl)
        | inr (t, n) ↦ rw (e, n) (known t n)
      ]
    ]
