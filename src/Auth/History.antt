-- ===== src/Auth/History.antt =====
-- backend/src/auth/auth.service.ts: sequences of calls, of which each runs alone.
use cg_traveleke_service.Base.{
  ℕ, ◌<◌, ◌≤◌, ◌==◌, Bool, ◌&&◌, Option, some, List, String, ◌≡◌, refl, sym, ap, ◌∙◌, subst, arith,
  count, first, map_where, Bool-cases, Result-cases, Option-cases, inl, inr, or_else, is_some,
  is_ok, ==_refl, first_by, count_mono, count-map_where,
}
use cg_traveleke_service.Auth.Model.{
  RefreshToken, is_active, expired, Meta, AuthDb, AuthServices, Draw,
}
use cg_traveleke_service.Auth.Rotate.{
  Answer, has_hash, has_id, in_family, spend, revoke, revoke_where, find_token, given_text,
  successor, rotate_refresh_token, logout, logout_all,
}
use cg_traveleke_service.Auth.Login.{
  LoginDto, RegisterDto, check_login, first_token, login, register, check_verification,
  verify_email,
}
use cg_traveleke_service.Auth.Families.{
  live, IsSound, map_where-IsSound, append-IsSound, none_live-spent,
}
use cg_traveleke_service.Auth.Ends.{RotateEnded, rotate_refresh_token-Ended}
use cg_traveleke_service.Auth.SingleUse.{Rotation, of_ended, drift-alone, tokens_after}

module _ (v : AuthServices) where
  pub data Call (db : AuthDb) : AuthDb → Type 0 where
    -- The random family and the random token are new.
    logs_in :
        (x : Draw) (dto : LoginDto) (meta : Meta)
        → count (in_family x.family_uuid) db.tokens ≡ 0
        → count (has_hash (v.hash_token x.raw_token)) db.tokens ≡ 0
        → Call db (login v x dto meta db).1
    rotates :
        (x : Draw) (raw : String) (meta : Meta) (a : Answer)
        → count (has_hash (v.hash_token x.raw_token)) db.tokens ≡ 0
        → rotate_refresh_token v x raw meta db ≡ some a
        → Call db a.1
    logs_out :
        (now : ℕ) (raw : Option String) (session user : Option ℕ)
        → Call db (logout v now raw session user db)
    logs_out_everywhere : (now user : ℕ) → Call db (logout_all v now user db)
    registers :
        (now : ℕ) (dto : RegisterDto) (avatar : Option String)
        → Call db (register v now dto avatar db).1
    verifies : (now : ℕ) (token : String) → Call db (verify_email v now token db).1

  pub data Calls (db : AuthDb) : AuthDb → Type 0 where
    none_yet : Calls db db
    then_call : (db' db'' : AuthDb) → Calls db db' → Call db' db'' → Calls db db''

  revoke_where-IsSound :
      (now : ℕ) (p : RefreshToken → Bool) (db : AuthDb)
      → IsSound db.tokens
      → IsSound (revoke_where v now p db).tokens
  revoke_where-IsSound now p db h =
      rw (v.token_repo.update_lem)
        (map_where-IsSound p (revoke now) db.tokens (λ t. refl) (λ t. refl) (λ t. refl) h)

  logout_all-IsSound :
      (now user : ℕ) (db : AuthDb) → IsSound db.tokens → IsSound (logout_all v now user db).tokens
  unfolding logout_all
  logout_all-IsSound now user db h =
      revoke_where-IsSound now (λ t. t.user_id == user && is_active t.status) db h

  logout-IsSound :
      (now : ℕ) (raw : Option String) (session user : Option ℕ) (db : AuthDb)
      → IsSound db.tokens
      → IsSound (logout v now raw session user db).tokens
  unfolding logout
  logout-IsSound now raw session user db h = elim (Option-cases (given_text raw)) [
    | inr (r, e) ↦ elim (Option-cases (find_token v r db)) [
      | inl n ↦ rw (e, logout, n) h
      | inr (t, n) ↦ rw (e, logout, n) (revoke_where-IsSound now (in_family t.family_id) db h)
    ]
    | inl e ↦ elim (Option-cases session) [
      | inr (s, n) ↦ rw (e, logout, n) (revoke_where-IsSound now (λ t. t.session_id == s) db h)
      | inl n ↦ elim (Option-cases user) [
        | inl m ↦ rw (e, logout, n, m) h
        | inr (u, m) ↦ rw (e, logout, n, m) (logout_all-IsSound now u db h)
      ]
    ]
  ]

  family_live : (f : ℕ) (ts : List RefreshToken) → count (live f) ts ≤ count (in_family f) ts
  family_live f ts = count_mono (live f) (in_family f) ts (λ t m. ground arith)

  login-IsSound :
      (x : Draw) (dto : LoginDto) (meta : Meta) (db : AuthDb)
      → count (in_family x.family_uuid) db.tokens ≡ 0
      → count (has_hash (v.hash_token x.raw_token)) db.tokens ≡ 0
      → IsSound db.tokens
      → IsSound (login v x dto meta db).1.tokens
  unfolding login
  login-IsSound x dto meta db f d h = elim (Result-cases (check_login v dto db)) [
    | inr (e, n) ↦ rw (n, login) h
    | inl (u, n) ↦
        rw (n, login, v.token_repo.insert_lem)
          (append-IsSound (first_token v x u meta db.tokens) db.tokens
            (v.token_repo.next_id_fresh db.tokens) d
            (omega (arith, family_live x.family_uuid db.tokens, f)) h)
  ]

  -- `register` and `verifyEmail` leave the tokens alone.
  register-tokens :
      (now : ℕ) (dto : RegisterDto) (avatar : Option String) (db : AuthDb)
      → (register v now dto avatar db).1.tokens ≡ db.tokens
  unfolding register
  register-tokens now dto avatar db =
      elim (Option-cases (v.user_repo.find_one (λ u. v.same_email u.email dto.email) db.users)) [
        | inl n ↦ rw (n, register) refl
        | inr (u, n) ↦ rw (n, register) refl
      ]

  verify_email-tokens :
      (now : ℕ) (token : String) (db : AuthDb) → (verify_email v now token db).1.tokens ≡ db.tokens
  unfolding verify_email
  verify_email-tokens now token db = elim (Result-cases (check_verification v now token db)) [
    | inr (e, n) ↦ rw (n, verify_email) refl
    | inl (u, n) ↦ elim (Bool-cases (is_some u.email_verified_at)) [
      | inl m ↦ rw (n, verify_email, m) refl
      | inr m ↦ rw (n, verify_email, m) refl
    ]
  ]

  module _ (alone : (n : ℕ) (s : AuthDb) → v.transactions.others n s ≡ s)
      (random-lt : (n b : ℕ) → 0 < b → v.random n b < b) where
    swap-IsSound :
        (x : Draw) (raw : String) (meta : Meta) (db db' : AuthDb)
        → Rotation v alone x raw meta db db'
        → count (has_hash (v.hash_token x.raw_token)) db.tokens ≡ 0
        → IsSound db.tokens
        → IsSound db'.tokens
    unfolding successor
    swap-IsSound x raw meta db db' g d h =
        let t = g.token in
        let ts = map_where (has_id t.id) (spend x.now) db.tokens in
        let by_id : first (has_id t.id) db.tokens ≡ some t =
          first_by (has_hash (v.hash_token raw)) (has_id t.id) db.tokens t
            (sym (v.token_repo.find_one_lem _ _) ∙ g.found) (==_refl t.id) (h.unique_ids t.id) in
        let sound =
          map_where-IsSound (has_id t.id) (spend x.now) db.tokens (λ y. refl) (λ y. refl)
            (λ y. refl) h in
        rw (tokens_after v alone x raw meta db db' g) (
          append-IsSound (successor v x g.user t meta ts) ts (v.token_repo.next_id_fresh ts)
            (count-map_where _ (has_id t.id) (spend x.now) db.tokens (λ y _. refl) ∙ d)
            (none_live-spent x.now t db.tokens by_id g.was_live h) sound)

    -- A rotation that does not succeed spends, revokes or expires tokens at most.
    rotate-IsSound :
        (x : Draw) (raw : String) (meta : Meta) (db : AuthDb) (a : Answer)
        → count (has_hash (v.hash_token x.raw_token)) db.tokens ≡ 0
        → RotateEnded v x raw meta db a
        → IsSound db.tokens
        → IsSound a.1.tokens
    rotate-IsSound x raw meta db a d (RotateEnded.malformed p e) h = rw e h
    rotate-IsSound x raw meta db a d (RotateEnded.unknown p e) h = rw e h
    rotate-IsSound x raw meta db a d (RotateEnded.replayed t p s e) h =
        rw e (revoke_where-IsSound x.now (in_family t.family_id) db h)
    rotate-IsSound x raw meta db a d (RotateEnded.too_late t p s l e) h =
        rw (e, v.token_repo.update_lem)
          (map_where-IsSound (has_id t.id) (λ r. record r { status = expired }) db.tokens
            (λ y. refl) (λ y. refl) (λ y. refl) h)
    rotate-IsSound x raw meta db a d (RotateEnded.no_account t p s l n e) h = rw e h
    rotate-IsSound x raw meta db a d (RotateEnded.failed t u y k p i l c s e) h =
        rw (e, drift-alone v alone k 0 db) h
    rotate-IsSound x raw meta db a d (RotateEnded.swapped t u r k p l i c same w) h =
        swap-IsSound x raw meta db a.1
          (of_ended v alone x raw meta db a (ap is_ok same)
            (RotateEnded.swapped t u r k p l i c same w))
          d h

    Call-IsSound : (db db' : AuthDb) → Call db db' → IsSound db.tokens → IsSound db'.tokens
    Call-IsSound db db' (Call.logs_in x dto meta f d) h = login-IsSound x dto meta db f d h
    Call-IsSound db db' (Call.rotates x raw meta a d run) h =
        let (b, run', ended) = rotate_refresh_token-Ended v x raw meta db random-lt in
        let same : b ≡ a = ap (λ o. or_else o b) (sym run' ∙ run) in
        rotate-IsSound x raw meta db a d (subst (RotateEnded v x raw meta db) same ended) h
    Call-IsSound db db' (Call.logs_out now raw session user) h =
        logout-IsSound now raw session user db h
    Call-IsSound db db' (Call.logs_out_everywhere now user) h = logout_all-IsSound now user db h
    Call-IsSound db db' (Call.registers now dto avatar) h = rw (register-tokens now dto avatar db) h
    Call-IsSound db db' (Call.verifies now token) h = rw (verify_email-tokens now token db) h

    -- If no other client comes between, the jitter stays below its bound and each token and family that
    -- is drawn is new: after any sequence of logins, rotations, logouts, registrations and
    -- verifications from tables with unique ids and digests and at most one active token in each
    -- family, the tables are such again.
    pub Calls-IsSound : (db db' : AuthDb) → Calls db db' → IsSound db.tokens → IsSound db'.tokens
    Calls-IsSound db db' (Calls.none_yet) h = h
    Calls-IsSound db db' (Calls.then_call mid _ before c) h =
        Call-IsSound mid db' c (Calls-IsSound db mid before h)
