-- ===== src/Auth/Families.antt =====
-- backend/src/auth/auth.service.ts: the tokens of a family, and how many of them are active.
use cg_traveleke_service.Base.{
  ℕ, ◌+◌, ◌≤◌, ◌==◌, Bool, true, false, ◌&&◌, some, List, [], ◌∷◌, ◌++◌, ◌≡◌, refl, arith, count,
  first, map_where, if◌then◌else◌, count-append, count-map_where, inl, inr, Bool-cases, ap, or_else,
  ==_refl, map_where-none,
}
use cg_traveleke_service.Auth.Model.{RefreshToken, is_active}
use cg_traveleke_service.Auth.Rotate.{in_family, has_hash, has_id, revoke, spend}

-- The active tokens of a family.
abbrev pub live : ℕ → RefreshToken → Bool
live f t = in_family f t && is_active t.status

-- No id and no digest stands for two tokens, and no family has two active ones.
pub record IsSound (tokens : List RefreshToken) : Type 0 where
  pub unique_ids : (i : ℕ) → count (has_id i) tokens ≤ 1
  pub unique_hashes : (h : ℕ) → count (has_hash h) tokens ≤ 1
  pub one_live : (f : ℕ) → count (live f) tokens ≤ 1

-- After its family was revoked, no token of it is active.
pub live-revoked :
    (f now : ℕ) (ts : List RefreshToken)
    → count (live f) (map_where (in_family f) (revoke now) ts) ≡ 0
live-revoked f now [] = refl
live-revoked f now (t ∷ ts) = ground (arith, live-revoked f now ts)

-- An update of tokens that activates none leaves no more active ones.
pub live-map_where :
    (f : ℕ) (p : RefreshToken → Bool) (g : RefreshToken → RefreshToken) (ts : List RefreshToken)
    → ((t : RefreshToken) → is_active (g t).status ≡ false)
    → count (live f) (map_where p g ts) ≤ count (live f) ts
live-map_where f p g [] h = omega arith
live-map_where f p g (t ∷ ts) h = ground (arith, h t, live-map_where f p g ts h)

-- A token that is spent or revoked keeps its id and its digest, so soundness is kept.
pub map_where-IsSound :
    (p : RefreshToken → Bool) (g : RefreshToken → RefreshToken) (ts : List RefreshToken)
    → ((t : RefreshToken) → is_active (g t).status ≡ false)
    → ((t : RefreshToken) → (g t).id ≡ t.id)
    → ((t : RefreshToken) → (g t).token_hash ≡ t.token_hash)
    → IsSound ts
    → IsSound (map_where p g ts)
map_where-IsSound p g ts dead same_id same_hash h = record {
  unique_ids =
      λ i. rw (count-map_where (has_id i) p g ts (λ t _. rw (same_id t) refl)) (h.unique_ids i);
  unique_hashes = λ d.
      rw (count-map_where (has_hash d) p g ts (λ t _. rw (same_hash t) refl)) (h.unique_hashes d);
  one_live = λ f. omega (arith, live-map_where f p g ts dead, h.one_live f);
}

-- The token that is spent was the active one of its family, where ids are unique.
pub live-spent :
    (f now : ℕ) (t : RefreshToken) (ts : List RefreshToken)
    → first (has_id t.id) ts ≡ some t
    → is_active t.status ≡ true
    → count (has_id t.id) ts ≤ 1
    → count (live f) (map_where (has_id t.id) (spend now) ts) + (if t.family_id == f then 1 else 0)
      ≡ count (live f) ts
live-spent f now t [] e a h = absurd (ground arith)
live-spent f now t (y ∷ ts) e a h = elim (Bool-cases (y.id == t.id)) [
  | inl m ↦
      let same = ap (λ o. or_else o t) (rw m at e) in
      let none_left : count (has_id t.id) ts ≡ 0 = ground arith in
      rw (m, map_where-none (has_id t.id) (spend now) ts none_left, same, a) (ground arith)
  | inr m ↦ ground (arith, live-spent f now t ts)
]

-- So its family has no active token then.
pub none_live-spent :
    (now : ℕ) (t : RefreshToken) (ts : List RefreshToken)
    → first (has_id t.id) ts ≡ some t
    → is_active t.status ≡ true
    → IsSound ts
    → count (live t.family_id) (map_where (has_id t.id) (spend now) ts) ≡ 0
none_live-spent now t ts e a h =
    let spent = live-spent t.family_id now t ts e a (h.unique_ids t.id) in
    ground (arith, spent, h.one_live t.family_id, ==_refl t.family_id)

-- A new token with a new id and digest keeps soundness, if its family has no active one.
pub append-IsSound :
    (t : RefreshToken) (ts : List RefreshToken)
    → count (has_id t.id) ts ≡ 0
    → count (has_hash t.token_hash) ts ≡ 0
    → count (live t.family_id) ts ≡ 0
    → IsSound ts
    → IsSound (ts ++ t ∷ [])
append-IsSound t ts i d f h = record {
  unique_ids = λ n. ground (arith, count-append (has_id n) ts (t ∷ []), h.unique_ids n);
  unique_hashes = λ n. ground (arith, count-append (has_hash n) ts (t ∷ []), h.unique_hashes n);
  one_live = λ n. ground (arith, count-append (live n) ts (t ∷ []), h.one_live n);
}
