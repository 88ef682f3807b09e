-- ===== src/Auth/Closing.antt =====
-- backend/src/auth/auth.service.ts: what `logout` closes.
use text.Mathlib.Text.{◌==◌ as str_eq}
use cg_traveleke_service.Base.{
  ℕ, Bool, true, false, not, ◌&&◌, Option, some, String, err, ◌≡◌, refl, sym, ◌∙◌, arith, count,
  first, select, select-map_where, first-map_where_image,
}
use cg_traveleke_service.Auth.Model.{RefreshToken, token_replay, Meta, AuthDb, AuthServices, Draw}
use cg_traveleke_service.Auth.Rotate.{
  has_hash, in_family, revoke, revoke_where, find_token, rotate_known, rotate_refresh_token, logout,
}
use cg_traveleke_service.Auth.Families.{live, live-revoked}

-- A token of a revoked family is still found, and refused.
revoked_found :
    (v : AuthServices) (now f : ℕ) (db : AuthDb) (raw : String) (t : RefreshToken)
    → find_token v raw db ≡ some t
    → t.family_id ≡ f
    → find_token v raw (revoke_where v now (in_family f) db) ≡ some (revoke now t)
revoked_found v now f db raw t found same =
    let q = has_hash (v.hash_token raw) in
    let here : first q db.tokens ≡ some t = sym (v.token_repo.find_one_lem _ _) ∙ found in
    let member : in_family f t ≡ true = ground arith in
    rw (v.token_repo.find_one_lem, v.token_repo.update_lem)
      (first-map_where_image q (in_family f) (revoke now) db.tokens t (λ r. refl) member here)

revoked_replay :
    (v : AuthServices) (now f : ℕ) (db : AuthDb) (y : Draw) (raw : String) (meta : Meta)
    (t : RefreshToken)
    → str_eq raw "" ≡ false
    → find_token v raw db ≡ some t
    → t.family_id ≡ f
    → (db' : AuthDb) × (rotate_refresh_token v y raw meta (revoke_where v now (in_family f) db)
        ≡ some (err token_replay, db'))
unfolding rotate_refresh_token rotate_known
revoked_replay v now f db y raw meta t full found same = (
  revoke_where v y.now (in_family t.family_id) (revoke_where v now (in_family f) db),
  rw (full, revoked_found v now f db raw t found same) refl,
)

logout_known :
    (v : AuthServices) (now : ℕ) (raw : String) (session user : Option ℕ) (db : AuthDb)
    (t : RefreshToken)
    → str_eq raw "" ≡ false
    → find_token v raw db ≡ some t
    → logout v now (some raw) session user db ≡ revoke_where v now (in_family t.family_id) db
unfolding logout
logout_known v now raw session user db t full found = rw (full, logout, found) refl

-- After a logout with a known token, no token of its family is active, the tokens of the other families
-- are as they were, and each token of the family is refused as a replay.
pub logout-closes :
    (v : AuthServices) (now : ℕ) (raw : String) (session user : Option ℕ) (db : AuthDb)
    (t : RefreshToken)
    → str_eq raw "" ≡ false
    → find_token v raw db ≡ some t
    → (count (live t.family_id) (logout v now (some raw) session user db).tokens ≡ 0)
      × ((p : RefreshToken → Bool)
          → select
              (λ r. not (in_family t.family_id r) && p r)
              (logout v now (some raw) session user db).tokens
            ≡ select (λ r. not (in_family t.family_id r) && p r) db.tokens)
      × ((y : Draw) (raw' : String) (meta : Meta) (t' : RefreshToken)
          → str_eq raw' "" ≡ false
          → find_token v raw' db ≡ some t'
          → t'.family_id ≡ t.family_id
          → (db' : AuthDb) × (rotate_refresh_token v y raw' meta
                (logout v now (some raw) session user db)
              ≡ some (err token_replay, db')))
logout-closes v now raw session user db t full found =
    rw (logout_known v now raw session user db t full found) (
      rw v.token_repo.update_lem (live-revoked t.family_id now db.tokens),
      λ p. rw v.token_repo.update_lem (
          select-map_where (λ r. not (in_family t.family_id r) && p r) (in_family t.family_id)
            (revoke now) db.tokens (λ r m. (ground arith, ground arith))),
      λ y raw' meta t' full' found' same.
          revoked_replay v now t.family_id db y raw' meta t' full' found' same,
    )
