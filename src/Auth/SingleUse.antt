-- ===== src/Auth/SingleUse.antt =====
-- backend/src/auth/auth.service.ts: a refresh token is good for one rotation.
use text.Mathlib.Text.{◌==◌ as str_eq}
use cg_traveleke_service.Base.{
  ℕ, zero, suc, ◌<◌, true, false, some, List, [], ◌∷◌, ◌++◌, String, ok, err, is_ok, ◌≡◌, refl, sym,
  ap, ◌∙◌, subst, arith, count, first, map_where, Bool-cases, inl, inr, or_else, ==_refl,
  first-map_where_image, first-append_some, count_of_first,
}
use cg_traveleke_service.Database.Retry.Laws.{drift}
use cg_traveleke_service.Auth.Users.{User}
use cg_traveleke_service.Auth.Model.{
  RefreshToken, is_active, token_replay, Meta, AuthTokenPayload, AuthDb, AuthServices, Draw,
}
use cg_traveleke_service.Auth.Rotate.{
  Answer, has_hash, has_id, in_family, spend, revoke_where, find_token, account_of, lapsed,
  successor, swap_token, rotate_refresh_token,
}
use cg_traveleke_service.Auth.Families.{live, live-revoked}
use cg_traveleke_service.Auth.Ends.{RotateEnded, rotate_refresh_token-Ended}

module _ (v : AuthServices) (alone : (n : ℕ) (s : AuthDb) → v.transactions.others n s ≡ s) where
  pub drift-alone : (k n : ℕ) (s : AuthDb) → drift v.transactions k n s ≡ s
  drift-alone zero n s = refl
  drift-alone (suc k) n s = rw (alone n s) (drift-alone k (suc n) s)

  module _ (x : Draw) (raw : String) (meta : Meta) (db : AuthDb) where
    -- What a rotation that succeeds found.
    pub record Rotation (db' : AuthDb) : Type 0 where
      pub token : RefreshToken
      pub user : User
      pub answer : AuthTokenPayload
      pub found : find_token v raw db ≡ some token
      pub was_live : is_active token.status ≡ true
      pub in_time : lapsed x.now token ≡ false
      pub account : account_of v token db ≡ some user
      pub swap : swap_token v x user token meta db ≡ (ok answer, db')

    pub of_ended : (a : Answer) → is_ok a.0 ≡ true → RotateEnded v x raw meta db a → Rotation a.1
    of_ended a h (RotateEnded.malformed p e) = absurd (ground arith)
    of_ended a h (RotateEnded.unknown p e) = absurd (ground arith)
    of_ended a h (RotateEnded.replayed t p s e) = absurd (ground arith)
    of_ended a h (RotateEnded.too_late t p s l e) = absurd (ground arith)
    of_ended a h (RotateEnded.no_account t p s l n e) = absurd (ground arith)
    of_ended a h (RotateEnded.failed t u y k p i l c s e) = absurd (ground arith)
    of_ended a h (RotateEnded.swapped t u r k found active in_time account same swap) = record {
      token = t;
      user = u;
      answer = r;
      found = found;
      was_live = active;
      in_time = in_time;
      account = account;
      swap = rw (drift-alone k 0 db) at swap;
    }

    -- A rotation that succeeds is of the one kind.
    pub rotation :
        ((n b : ℕ) → 0 < b → v.random n b < b)
        → (r : AuthTokenPayload) (db' : AuthDb)
        → rotate_refresh_token v x raw meta db ≡ some (ok r, db')
        → Rotation db'
    rotation random-lt r db' h =
        let (a, run, ended) = rotate_refresh_token-Ended v x raw meta db random-lt in
        let same : a ≡ (ok r, db') = ap (λ o. or_else o a) (sym run ∙ h) in
        subst Rotation (ap (λ b. b.1) same) (of_ended a (ap (λ b. is_ok b.0) same) ended)

    -- The rotated token is marked, and its successor is added.
    abbrev pub marked : RefreshToken → List RefreshToken
    marked t = map_where (has_id t.id) (spend x.now) db.tokens

    pub tokens_after :
        (db' : AuthDb) (h : Rotation db')
        → db'.tokens ≡ marked h.token ++ successor v x h.user h.token meta (marked h.token) ∷ []
    unfolding swap_token
    tokens_after db' h =
        sym (ap (λ a. a.1.tokens) h.swap)
        ∙ v.token_repo.insert_lem _ _
        ∙ ap (λ s. s ++ successor v x h.user h.token meta s ∷ []) (v.token_repo.update_lem _ _ _)

    found_first :
        (db' : AuthDb) (h : Rotation db')
        → first (has_hash (v.hash_token raw)) db.tokens ≡ some h.token
    found_first db' h = sym (v.token_repo.find_one_lem _ _) ∙ h.found

    first-marked :
        (db' : AuthDb) (h : Rotation db')
        → first (has_hash (v.hash_token raw)) (marked h.token) ≡ some (spend x.now h.token)
    first-marked db' h =
        first-map_where_image (has_hash (v.hash_token raw)) (has_id h.token.id) (spend x.now)
          db.tokens h.token (λ b. refl) (==_refl h.token.id) (found_first db' h)

    pub still_found :
        (db' : AuthDb) (h : Rotation db') → find_token v raw db' ≡ some (spend x.now h.token)
    still_found db' h =
        v.token_repo.find_one_lem _ _
        ∙ ap (first (has_hash (v.hash_token raw))) (tokens_after db' h)
        ∙ first-append_some _ (marked h.token) _
            (count_of_first (has_hash (v.hash_token raw)) (marked h.token) _ (first-marked db' h))
        ∙ first-marked db' h

  not_empty :
      (x : Draw) (raw : String) (meta : Meta) (db : AuthDb) (r : AuthTokenPayload) (db' : AuthDb)
      → rotate_refresh_token v x raw meta db ≡ some (ok r, db')
      → str_eq raw "" ≡ false
  unfolding rotate_refresh_token
  not_empty x raw meta db r db' h = elim (Bool-cases (str_eq raw "")) [
    | inl e ↦ let wrong = rw e at h in absurd (ground arith)
    | inr e ↦ e
  ]

  -- If no other client comes between and the jitter stays below its bound: once a rotation has
  -- succeeded, a second rotation of the same token, whoever asks for it, is refused as a replay and
  -- leaves no active token in the family.
  pub rotate-single_use :
      ((n b : ℕ) → 0 < b → v.random n b < b)
      → (x : Draw) (raw : String) (meta : Meta) (db : AuthDb) (r : AuthTokenPayload) (db' : AuthDb)
      → rotate_refresh_token v x raw meta db ≡ some (ok r, db')
      → (y : Draw) (meta' : Meta)
      → (t : RefreshToken) × (db'' : AuthDb) × (find_token v raw db ≡ some t)
        × (rotate_refresh_token v y raw meta' db' ≡ some (err token_replay, db''))
        × (count (live t.family_id) db''.tokens ≡ 0)
  unfolding rotate_refresh_token
  rotate-single_use random-lt x raw meta db r db' h y meta' =
      let g = rotation x raw meta db random-lt r db' h in
      (
        g.token,
        revoke_where v y.now (in_family g.token.family_id) db',
        g.found,
        rw (not_empty x raw meta db r db' h, still_found x raw meta db db' g) refl,
        rw (v.token_repo.update_lem) (live-revoked g.token.family_id y.now db'.tokens),
      )
