-- ===== src/RateLimit/Allowed.antt =====
-- backend/src/rate-limit/scripts/sliding-window.script.ts: how many requests a window lets through.
use cg_traveleke_service.Base.{
  ℕ, ◌+◌, ◌≤◌, ◌<◌, ◌==◌, ltb, leb, Bool, true, false, not, none, some, List, [], ◌∷◌, ◌++◌, ◌≡◌,
  ◌↔◌, refl, sym, ap, ◌∙◌, arith, count, select, length, if◌then◌else◌, count-append, All,
  All-append, All-mono, Bool-cases, Option-cases, count_mono, inl, inr,
}
use cg_traveleke_service.RateLimit.Window.{
  Entry, SortedSet, WindowKey, held_at, WindowAnswer, outside, sliding_window,
}

-- The request came in the window that ends at the time.
abbrev pub recent : ℕ → ℕ → ℕ → Bool
recent window_ms t s = ltb t (s + window_ms)

abbrev recent_entry : ℕ → ℕ → Entry → Bool
recent_entry w t e = recent w t e.score

abbrev pub record_time : Bool → ℕ → List ℕ → List ℕ
record_time true now log = log ++ now ∷ []
record_time false now log = log

module _ (redis : SortedSet) (w limit : ℕ) where
  abbrev pub ask : ℕ → ℕ → WindowKey → WindowAnswer
  ask now id key = sliding_window redis now now w limit id key

  -- The key after requests one after the other, with the times of those that were let through, and the
  -- time of the last. The clocks of the service and of Redis agree, and each request has a new id.
  pub data Requests : List ℕ → WindowKey → ℕ → Type 0 where
    none_yet : (t : ℕ) → Requests [] (record { entries = []; expires_at = none }) t
    then_one :
        (log : List ℕ) (key : WindowKey) (last now id : ℕ)
        → Requests log key last
        → last ≤ now
        → count (λ e. e.member == id) key.entries ≡ 0
        → Requests (record_time (ask now id key).allowed now log) (ask now id key).key now

  record Mirrors (log : List ℕ) (key : WindowKey) (last : ℕ) : Type 0 where
    same :
        (c t : ℕ)
        → last ≤ c
        → c ≤ t
        → count (recent_entry w t) (held_at c key) ≡ count (recent w t) log
    past : All (λ s. s ≤ last) log

  count-kept :
      (now t : ℕ) (es : List Entry)
      → now ≤ t
      → count (recent_entry w t) (select (λ e. not (outside w now e.score)) es)
        ≡ count (recent_entry w t) es
  count-kept now t [] h = refl
  count-kept now t (e ∷ es) h = ground (arith, count-kept now t es)

  length-kept :
      (now : ℕ) (es : List Entry)
      → length (select (λ e. not (outside w now e.score)) es) ≡ count (recent_entry w now) es
  length-kept now [] = refl
  length-kept now (e ∷ es) = ground (arith, length-kept now es)

  new-kept : (q p : Entry → Bool) (es : List Entry) → count q es ≡ 0 → count q (select p es) ≡ 0
  new-kept q p [] h = refl
  new-kept q p (e ∷ es) h = ground (arith, new-kept q p es)

  gone :
      (last t : ℕ) (log : List ℕ)
      → All (λ s. s ≤ last) log
      → last + w ≤ t
      → count (recent w t) log ≡ 0
  gone last t [] h k = refl
  gone last t (s ∷ log) h k = ground (arith, h.0, gone last t log h.1 k)

  with_time :
      (t now : ℕ) (log : List ℕ)
      → count (recent w t) (log ++ now ∷ [])
        ≡ count (recent w t) log + (if recent w t now then 1 else 0)
  with_time t now log = ground (arith, count-append (recent w t) log (now ∷ []))

  renewed :
      (es : List Entry) (log : List ℕ) (now : ℕ)
      → All (λ s. s ≤ now) log
      → ((t : ℕ) → now ≤ t → count (recent_entry w t) es ≡ count (recent w t) log)
      → Mirrors log (record { entries = es; expires_at = some (now + w) }) now
  renewed es log now past h = record {
    same = λ c t k l. elim (Bool-cases (leb (now + w) c)) [
      | inl e ↦ rw e (sym (gone now t log past (ground arith)))
      | inr e ↦ rw e (h t (omega arith))
    ];
    past = past;
  }

  abbrev kept : ℕ → WindowKey → List Entry
  kept now key = redis.zremrangebyscore (outside w now) (held_at now key)

  kept_lem :
      (log : List ℕ) (key : WindowKey) (last now t : ℕ)
      → Mirrors log key last
      → last ≤ now
      → now ≤ t
      → count (recent_entry w t) (kept now key) ≡ count (recent w t) log
  kept_lem log key last now t m h k =
      ap (count (recent_entry w t)) (redis.zremrangebyscore_lem (outside w now) (held_at now key))
      ∙ count-kept now t (held_at now key) k
      ∙ m.same now t h k

  zcard-kept :
      (log : List ℕ) (key : WindowKey) (last now : ℕ)
      → Mirrors log key last
      → last ≤ now
      → redis.zcard (kept now key) ≡ count (recent w now) log
  zcard-kept log key last now m h =
      redis.zcard_lem (kept now key)
      ∙ ap length (redis.zremrangebyscore_lem (outside w now) (held_at now key))
      ∙ length-kept now (held_at now key)
      ∙ m.same now now h (omega arith)

  new_held :
      (now id : ℕ) (key : WindowKey)
      → count (λ e. e.member == id) key.entries ≡ 0
      → count (λ e. e.member == id) (held_at now key) ≡ 0
  new_held now id key h = elim (Option-cases key.expires_at) [
    | inl e ↦ rw e h
    | inr (d, e) ↦ elim (Bool-cases (leb d now)) [ inl f ↦ rw (e, f) refl | inr f ↦ rw (e, f) h ]
  ]

  ask-Mirrors :
      (log : List ℕ) (key : WindowKey) (last now id : ℕ)
      → Mirrors log key last
      → last ≤ now
      → count (λ e. e.member == id) key.entries ≡ 0
      → Mirrors (record_time (ask now id key).allowed now log) (ask now id key).key now
  unfolding sliding_window
  ask-Mirrors log key last now id m h new =
      let past = All-mono (λ s. s ≤ last) (λ s. s ≤ now) (λ s k. omega arith) log m.past in
      let fresh : count (λ e. e.member == id) (kept now key) ≡ 0 =
        ap (count (λ e. e.member == id))
          (redis.zremrangebyscore_lem (outside w now) (held_at now key))
        ∙ new-kept (λ e. e.member == id) (λ e. not (outside w now e.score)) (held_at now key)
            (new_held now id key new) in
      elim (Bool-cases (leb limit (redis.zcard (kept now key)))) [
        | inl e ↦
            rw (e, sliding_window)
              (renewed (kept now key) log now past (λ t k. kept_lem log key last now t m h k))
        | inr e ↦
            rw (e, sliding_window)
              (renewed (redis.zadd now id (kept now key)) (log ++ now ∷ []) now
                (All-append (λ s. s ≤ now) log (now ∷ []) past (omega arith, tt))
                (λ t k.
                  redis.zadd_lem now id (kept now key) (recent_entry w t) fresh
                  ∙ ap (λ n. n + (if recent w t now then 1 else 0))
                      (kept_lem log key last now t m h k)
                  ∙ sym (with_time t now log)))
      ]

  Requests-Mirrors :
      (log : List ℕ) (key : WindowKey) (last : ℕ) → Requests log key last → Mirrors log key last
  Requests-Mirrors _ _ _ (Requests.none_yet t) = record { same = λ c t k l. refl; past = tt }
  Requests-Mirrors _ _ _ (Requests.then_one log key last now id before h new) =
      ask-Mirrors log key last now id (Requests-Mirrors log key last before) h new

  -- If the clocks of the service and of Redis agree and each request has a new id, a request is let
  -- through exactly if fewer than `limit` were let through in the window that ends now.
  pub sliding_window-allowed :
      (log : List ℕ) (key : WindowKey) (last now id : ℕ)
      → Requests log key last
      → last ≤ now
      → ((ask now id key).allowed ≡ true) ↔ (count (recent w now) log < limit)
  unfolding sliding_window
  sliding_window-allowed log key last now id r h =
      rw (zcard-kept log key last now (Requests-Mirrors log key last r) h) (ground arith)

  -- If the clocks of the service and of Redis agree and each request has a new id, no window that ends
  -- at or after the last request has let more than `limit` requests through.
  pub sliding_window-limit :
      (log : List ℕ) (key : WindowKey) (last t : ℕ)
      → Requests log key last
      → last ≤ t
      → count (recent w t) log ≤ limit
  sliding_window-limit _ _ _ t (Requests.none_yet s) h = omega arith
  sliding_window-limit _ _ _ t (Requests.then_one log key last now id before le new) h =
      elim (Bool-cases (ask now id key).allowed) [
        | inr e ↦ rw e (sliding_window-limit log key last t before (omega arith))
        | inl e ↦
            let few = (sliding_window-allowed log key last now id before le).0 e in
            let fewer = count_mono (recent w t) (recent w now) log (λ s m. ground arith) in
            rw e (ground (arith, with_time t now log, few, fewer))
      ]
