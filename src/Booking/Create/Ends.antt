-- ===== src/Booking/Create/Ends.antt =====
-- backend/src/bookings/bookings.service.ts: how a call of `create` ends, and what a repeated call gets.
use cg_traveleke_service.Base.{
  Bool, some_same, none_ne, first, count, ◌≤◌, true, Bool-cases, sym, ◌∙◌, ap, subst, ◌⊎◌, ℕ, suc,
  ◌==◌, ◌<◌, not, ◌&&◌, Option, none, some, String, Result, ok, err, ◌≡◌, refl, Option-cases,
  Result-cases, inl, inr, length,
}
use cg_traveleke_service.Database.Retry.{Outcome, default_options, run_with_deadlock_retry}
use cg_traveleke_service.Database.Retry.Laws.{drift, Settled, run_with_deadlock_retry-Ends}
use cg_traveleke_service.Booking.Model.{Db, Room, CreateBookingDto, BookingError, room_not_found}
use cg_traveleke_service.Booking.Inventory.{has_booking_id}
use cg_traveleke_service.Booking.Inventory.Stored.{place_booking-IsStored}
use cg_traveleke_service.Booking.Quote.{Quote, quote}
use cg_traveleke_service.Booking.Create.{
  Created, CacheClient, Services, Called, created, replayed, place_booking, create, create_fresh,
  committed, keyed, truthy, read_cache, cached_answer, write_cache, after_commit,
}

module _ {C : Type 0} (v : Services C) (dto : CreateBookingDto) (db : Db) (c : C) where
  abbrev pub key : Option (CacheClient C × String)
  key = keyed (truthy dto.idempotency_key) v.cache

  abbrev pub op : Room → Quote → Db → Result BookingError Created × Db
  op room q = place_booking v.orm v.staff dto room q v.generate_code

  -- The test of the rooms in `where: { id: dto.roomId }`, less what is deleted.
  abbrev pub Finds : Option Room → Type 0
  Finds found = first (λ r. r.id == dto.room_id && not r.deleted) db.rooms ≡ found

  -- No answer of the cache is read.
  abbrev pub Missed : Type 0
  Missed = cached_answer v.parses key c ≡ none

  -- The answer and the notification of a call that has a booking to return.
  abbrev pub Answers : Created → Called C → Type 0
  Answers r out =
      (out.response ≡ ok (created r))
      × (out.cache ≡ write_cache key (v.to_json r) c)
      × (out.emitted ≡ some r)

  abbrev pub silent : BookingError → Db → Called C
  silent e s = record { response = err e; db = s; cache = c; emitted = none }

  pub data Ended (out : Called C) : Type 0 where
    answered :
        (text : String)
        → read_cache key c ≡ some text
        → v.parses text ≡ true
        → out ≡ record { response = ok (replayed text); db = db; cache = c; emitted = none }
        → Ended out
    no_room : Missed → Finds none → out ≡ silent room_not_found db → Ended out
    bad_request :
        (room : Room) (e : BookingError)
        → Missed
        → Finds (some room)
        → quote v.new_date dto room ≡ err e
        → out ≡ silent e db
        → Ended out
    failed :
        (room : Room) (q : Quote) (e : BookingError) (k : ℕ)
        → Missed
        → Finds (some room)
        → quote v.new_date dto room ≡ ok q
        → ((op room q (drift v.transactions k 0 db)).0 ≡ err e)
          ⊎ (v.transactions.from_database e ≡ true)
        → out ≡ silent e (drift v.transactions k 0 db)
        → Ended out
    booked :
        (r : Created) (k : ℕ) (room : Room) (q : Quote)
        → Missed
        → Finds (some room)
        → quote v.new_date dto room ≡ ok q
        → op room q (drift v.transactions k 0 db) ≡ (ok r, out.db)
        → 1 ≤ count (has_booking_id r.booking.id) out.db.bookings
        → Answers r out
        → Ended out
    lost :
        (r : Created) (k : ℕ) (room : Room) (q : Quote)
        → Missed
        → Finds (some room)
        → quote v.new_date dto room ≡ ok q
        → op room q (drift v.transactions k 0 db) ≡ (ok r, out.db)
        → out.db ≡ drift v.transactions k 0 db
        → Answers r out
        → Ended out

  module _ (random-lt : (n b : ℕ) → 0 < b → v.random n b < b) (miss : Missed) where
    returned :
        (room : Room) (q : Quote) (r : Created) (k : ℕ) (s : Db)
        → Finds (some room)
        → quote v.new_date dto room ≡ ok q
        → op room q (drift v.transactions k 0 db) ≡ (ok r, s)
        → Ended (after_commit v.to_json key c (ok r) s)
    returned room q r k s f e same =
        elim (place_booking-IsStored v.orm v.staff dto room q v.generate_code
          (drift v.transactions k 0 db) r s same) [
            | inl one ↦ Ended.booked r k room q miss f e same one (refl, refl, refl)
            | inr back ↦ Ended.lost r k room q miss f e same back (refl, refl, refl)
          ]

    finish :
        (room : Room) (q : Quote) (o : Outcome Db BookingError Created)
        (r : Result BookingError Created)
        → Finds (some room)
        → quote v.new_date dto room ≡ ok q
        → o.result ≡ r
        → Settled v.transactions
            (op room q)
            (drift v.transactions (suc (length o.waits)) 0 db)
            r
            o.state
        → (out : Called C) × (committed v.to_json key c (some o) ≡ some out) × Ended out
    finish room q o (ok r) f e same h =
        rw same (_, refl, returned room q r (suc (length o.waits)) o.state f e h)
    finish room q o (err x) f e same h =
        let (back, cause) = h in
        rw (same, after_commit)
          (
            _,
            refl,
            Ended.failed room q x (suc (length o.waits)) miss f e cause (ap (silent x) back),
          )

    attempt :
        (room : Room) (q : Quote)
        → Finds (some room)
        → quote v.new_date dto room ≡ ok q
        → (out : Called C) × (committed v.to_json key c (
              run_with_deadlock_retry v.is_transient v.random v.transactions
                (op room q)
                default_options
                db)
            ≡ some out)
          × Ended out
    attempt room q f e =
        let (o, run, ends) =
          run_with_deadlock_retry-Ends v.is_transient v.random v.transactions (op room q)
            default_options random-lt db in
        rw run (finish room q o o.result f e refl ends.settled)

    create_fresh-Ended : (out : Called C) × (create_fresh v key dto db c ≡ some out) × Ended out
    unfolding create_fresh
    create_fresh-Ended =
        let wanted : Room → Bool = λ r. r.id == dto.room_id && not r.deleted in
        let looked = v.orm.room_repo.find_one_lem wanted db.rooms in
        elim (Option-cases (v.orm.room_repo.find_one wanted db.rooms)) [
          | inl e ↦ rw (e, create_fresh) (_, refl, Ended.no_room miss (sym looked ∙ e) refl)
          | inr (room, e) ↦
              let found : Finds (some room) = sym looked ∙ e in
              elim (Result-cases (quote v.new_date dto room)) [
                | inr (x, f) ↦
                    rw (e, create_fresh, f) (_, refl, Ended.bad_request room x miss found f refl)
                | inl (q, f) ↦ rw (e, create_fresh, f) (attempt room q found f)
              ]
        ]

  parsed :
      (text answer : String)
      → read_cache key c ≡ some answer
      → cached_answer v.parses key c ≡ some text
      → (read_cache key c ≡ some text) × (v.parses text ≡ true)
  parsed text answer e h = elim (Bool-cases (v.parses answer)) [
    | inl p ↦
        let same : answer ≡ text = some_same (rw (cached_answer, e, p) at h) in
        subst (λ t. (read_cache key c ≡ some t) × (v.parses t ≡ true)) same (e, p)
    | inr p ↦ absurd (none_ne (rw (cached_answer, e, p) at h))
  ]

  parsed_answer :
      (text : String)
      → cached_answer v.parses key c ≡ some text
      → (read_cache key c ≡ some text) × (v.parses text ≡ true)
  parsed_answer text h = elim (Option-cases (read_cache key c)) [
    | inl e ↦ absurd (none_ne (rw (cached_answer, e) at h))
    | inr (answer, e) ↦ parsed text answer e h
  ]

  -- If the jitter stays below its bound, every call of `create` ends in one of six ways. A text of the cache
  -- that parses answers it, and it writes nothing. Or the cache has no such text: no undeleted room has
  -- the id asked for; or the quote for that room is refused; or the transaction throws an error of its
  -- own or of the database; in these the call has written nothing and notifies nobody. Or the transaction
  -- returns a booking of that room at that quote, from a state that only other clients have changed, and
  -- the call stores the answer and notifies; then the booking has a row, or a deadlock that was
  -- swallowed has undone it and nothing is written.
  pub create-Ended :
      (random-lt : (n b : ℕ) → 0 < b → v.random n b < b)
      → (out : Called C) × (create v dto db c ≡ some out) × Ended out
  unfolding create
  create-Ended random-lt = elim (Option-cases (cached_answer v.parses key c)) [
    | inl e ↦ rw (e, create) (create_fresh-Ended random-lt e)
    | inr (text, e) ↦
        let (read, parse) = parsed_answer text e in
        rw (e, create) (_, refl, Ended.answered text read parse refl)
  ]
