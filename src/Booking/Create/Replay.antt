-- ===== src/Booking/Create/Replay.antt =====
-- backend/src/bookings/bookings.service.ts: the idempotency key of `create`.
use cg_traveleke_service.Base.{
  ℕ, ◌<◌, none, some, String, Result, ok, err, true, some_same, ◌≡◌, sym, ◌∙◌, ap, subst,
}
use cg_traveleke_service.Booking.Model.{Db, CreateBookingDto, BookingError}
use cg_traveleke_service.Booking.Create.{
  Created, CacheClient, Services, Called, Response, created, replayed, create, keyed, truthy,
  read_cache,
}
use cg_traveleke_service.Booking.Create.Ends.{Ended, create-Ended}

create-cached :
    {C : Type 0} (v : Services C) (dto : CreateBookingDto) (db : Db) (c : C) (text : String)
    → read_cache (keyed (truthy dto.idempotency_key) v.cache) c ≡ some text
    → v.parses text ≡ true
    → create v dto db c
      ≡ some (record { response = ok (replayed text); db = db; cache = c; emitted = none })
unfolding create
create-cached v dto db c text e p = rw (e, p, create)

abbrev Answer : Type 0
Answer = Result BookingError Response

replayed-ne : {t : String} {r : Created} → ◌≡◌ {A = Answer} (ok (replayed t)) (ok (created r)) → ⊥
replayed-ne e = cc

err-ne : {x : BookingError} {r : Created} → ◌≡◌ {A = Answer} (err x) (ok (created r)) → ⊥
err-ne e = cc

created-injective : {a b : Created} → ◌≡◌ {A = Answer} (ok (created a)) (ok (created b)) → a ≡ b
created-injective e = cc

module _ {C : Type 0} (v : Services C) (client : CacheClient C) (k : String)
    (dto : CreateBookingDto) (db : Db) (c c' : C) (r : Created) where
  cache-stored :
      (out : Called C)
      → keyed (truthy dto.idempotency_key) v.cache ≡ some (client, k)
      → client.write k (v.to_json r) c ≡ some c'
      → out.response ≡ ok (created r)
      → Ended v dto db c out
      → out.cache ≡ c'
  cache-stored out has_key stored booked (Ended.answered text _ _ e) =
      absurd (replayed-ne (sym (ap (λ o. o.response) e) ∙ booked))
  cache-stored out has_key stored booked (Ended.no_room _ _ e) =
      absurd (err-ne (sym (ap (λ o. o.response) e) ∙ booked))
  cache-stored out has_key stored booked (Ended.bad_request _ x _ _ _ e) =
      absurd (err-ne (sym (ap (λ o. o.response) e) ∙ booked))
  cache-stored out has_key stored booked (Ended.failed _ _ x _ _ _ _ _ e) =
      absurd (err-ne (sym (ap (λ o. o.response) e) ∙ booked))
  cache-stored out has_key stored booked (Ended.booked r' _ _ _ _ _ _ _ _ (e, kept, _)) =
      kept ∙ rw (has_key, created-injective (sym e ∙ booked), stored)
  cache-stored out has_key stored booked (Ended.lost r' _ _ _ _ _ _ _ _ (e, kept, _)) =
      kept ∙ rw (has_key, created-injective (sym e ∙ booked), stored)

  -- Once a call has booked under a key and Redis has kept the answer, any call under the same key gets the
  -- stored answer and writes nothing, whatever else it asks for and whatever the tables hold by then.
  pub create-replays :
      (out : Called C)
      → ((n b : ℕ) → 0 < b → v.random n b < b)
      → keyed (truthy dto.idempotency_key) v.cache ≡ some (client, k)
      → client.write k (v.to_json r) c ≡ some c'
      → truthy (some (v.to_json r)) ≡ some (v.to_json r)
      → create v dto db c ≡ some out
      → out.response ≡ ok (created r)
      → (dto' : CreateBookingDto) (db' : Db)
      → keyed (truthy dto'.idempotency_key) v.cache ≡ some (client, k)
      → create v dto' db' out.cache
        ≡ some (record {
          response = ok (replayed (v.to_json r));
          db = db';
          cache = out.cache;
          emitted = none;
        })
  create-replays out random-lt has_key stored text call booked dto' db' has_key' =
      let (out', call', ended') = create-Ended v dto db c random-lt in
      let ended = subst (Ended v dto db c) (some_same (sym call' ∙ call)) ended' in
      let kept = cache-stored out has_key stored booked ended in
      create-cached v dto' db' out.cache (v.to_json r)
        (rw (has_key', kept, client.read-write k (v.to_json r) c c' stored) text)
        (v.to_json_parses r)
