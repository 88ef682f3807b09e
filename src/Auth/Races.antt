-- ===== src/Auth/Races.antt =====
-- backend/src/auth/auth.service.ts: the transaction of `rotateRefreshToken` does not read the token
-- again that was checked before it.
use cg_traveleke_service.Base.{
  ℕ, suc, Bool, true, ◌&&◌, List, [], ◌∷◌, ◌≡◌, refl, arith, count, map_where, is_ok, count-append,
  ==_refl,
}
use cg_traveleke_service.Auth.Users.{User}
use cg_traveleke_service.Auth.Model.{RefreshToken, is_active, Meta, AuthDb, AuthServices, Draw}
use cg_traveleke_service.Auth.Rotate.{has_id, spend, swap_token}
use cg_traveleke_service.Auth.Families.{live}

-- The rows of an id that are active.
abbrev pub live_id : ℕ → RefreshToken → Bool
live_id i t = has_id i t && is_active t.status

live-spent_again :
    (f i now : ℕ) (ts : List RefreshToken)
    → count (live_id i) ts ≡ 0
    → count (live f) (map_where (has_id i) (spend now) ts) ≡ count (live f) ts
live-spent_again f i now [] h = refl
live-spent_again f i now (t ∷ ts) h = ground (arith, live-spent_again f i now ts)

-- If the token was spent or revoked after `rotateRefreshToken` had read it as active, the transaction
-- still answers with a new token, and the family has one active token more than before.
pub swap_token-revives :
    (v : AuthServices) (x : Draw) (u : User) (t : RefreshToken) (meta : Meta) (db : AuthDb)
    → count (live_id t.id) db.tokens ≡ 0
    → (is_ok (swap_token v x u t meta db).0 ≡ true)
      × (count (live t.family_id) (swap_token v x u t meta db).1.tokens
          ≡ suc (count (live t.family_id) db.tokens))
unfolding swap_token
swap_token-revives v x u t meta db h = (
  refl,
  rw
      (
        v.token_repo.update_lem,
        v.token_repo.insert_lem,
        count-append (live t.family_id),
        live-spent_again t.family_id t.id x.now db.tokens h,
        ==_refl t.family_id,
      )
      (omega arith),
)
