-- ===== src/Booking/Create.antt =====
-- backend/src/bookings/bookings.service.ts: `create`. The idempotency cache, the transaction, the
-- realtime gateway and the sources of codes and randomness are arguments.
pub mod Ends
pub mod Replay
use text.Mathlib.Text.{◌==◌ as str_eq}
use cg_traveleke_service.Base.{
  ℕ, suc, ◌+◌, ◌-◌, leb, ◌==◌, Bool, true, false, not, ◌&&◌, Option, none, some, List, [], ◌∷◌,
  String, Result, ok, err, if◌then◌else◌, ◌≡◌,
}
use cg_traveleke_service.Database.Repo.{Repo}
use cg_traveleke_service.Database.Retry.{
  Transactions, Outcome, default_options, run_with_deadlock_retry,
}
use cg_traveleke_service.Booking.Model.{
  Db, Room, Booking, BookingRoom, CreateBookingDto, automatic, pending, Orm, BookingError,
  room_not_found, sold_out, Tx, pure, throw, get, put, ◌>>=◌, ◌>>◌,
}
use cg_traveleke_service.Booking.Quote.{Quote, quote}
use cg_traveleke_service.Booking.Assign.{StaffQueries, auto_assign_hotel_staff}

abbrev pub has_stock : ℕ → ℕ → Room → Bool
has_stock room_id n r = r.id == room_id && leb n r.available_rooms

abbrev pub take_stock : ℕ → Room → Room
take_stock n r = record r { available_rooms = r.available_rooms - n }

-- `UPDATE rooms SET available_rooms = available_rooms - n WHERE id = ? AND available_rooms >= n`; no
-- row affected is a conflict.
reserve : Orm → Room → ℕ → Tx (Unit {0})
reserve orm room n db =
    let repo = orm.room_repo in
    let affected = repo.affected (has_stock room.id n) db.rooms in
    let db' = record db { rooms = repo.update (has_stock room.id n) (take_stock n) db.rooms } in
    if affected == 0 then throw (sold_out room.name) db' else pure tt db'

unfoldable pub new_booking : ℕ → CreateBookingDto → Room → Quote → String → Booking
new_booking id dto room q code = record {
  id = id;
  booking_code = code;
  user_id = dto.user_id;
  hotel_id = room.hotel_id;
  trip_plan_id = none;
  handled_by = none;
  assignment_type = automatic;
  assignment_note = none;
  reassigned_at = none;
  reassigned_by = none;
  contact_name = dto.contact_name;
  contact_email = dto.contact_email;
  contact_phone = dto.contact_phone;
  check_in_at = q.check_in;
  check_out_at = q.check_out;
  total_guests = dto.total_guests;
  requested_room_count = dto.room_count;
  estimated_total = q.subtotal;
  status = pending;
  special_request = dto.special_request;
  confirmed_at = none;
  rejected_at = none;
  cancelled_at = none;
}

insert_booking : Orm → CreateBookingDto → Room → Quote → String → Tx Booking
unfolding new_booking
insert_booking orm dto room q code db =
    let repo = orm.booking_repo in
    let b = new_booking (repo.next_id db.bookings) dto room q code in
    pure b (record db { bookings = repo.insert b db.bookings })

insert_booking_room : Orm → CreateBookingDto → Room → Quote → Booking → Tx BookingRoom
insert_booking_room orm dto room q booking db =
    let repo = orm.booking_room_repo in
    let br : BookingRoom = record {
      id = repo.next_id db.booking_rooms;
      booking_id = booking.id;
      room_id = room.id;
      quantity = dto.room_count;
      price_per_night = q.price_per_night;
      nights = q.nights;
      subtotal = q.subtotal;
    } in
    pure br (record db { booking_rooms = repo.insert br db.booking_rooms })

assign : Orm → StaffQueries → Db → Booking → Room → Tx Booking
assign orm staff start booking room db =
    let (b, db') = auto_assign_hotel_staff orm staff start booking room db in pure b db'

-- `data` of the answer.
pub record Created : Type 0 where
  pub booking : Booking
  pub room_id : ℕ
  pub room_name : String
  pub booking_room : BookingRoom

-- The statements of the transaction that found `start`.
booking_statements : Orm → StaffQueries → CreateBookingDto → Room → Quote → String → Db → Tx Created
unfolding reserve insert_booking insert_booking_room assign
booking_statements orm staff dto room q code start = do
  reserve orm room dto.room_count
  saved ← insert_booking orm dto room q code
  br ← insert_booking_room orm dto room q saved
  booking ← assign orm staff start saved room
  pure (record { booking = booking; room_id = room.id; room_name = room.name; booking_room = br })

-- The transaction's callback.
unfoldable pub place_booking :
    Orm → StaffQueries → CreateBookingDto → Room → Quote → String → Tx Created
unfolding booking_statements
place_booking orm staff dto room q code db = booking_statements orm staff dto room q code db db

-- The answer: a new booking, or what the cache keeps under the key, which was its text.
pub data Response : Type 0 where
  created : Created → Response
  replayed : String → Response

-- The Redis client: `read` and `write` are `none` where the call throws; `write` is
-- `SET key value EX 86400`.
pub record CacheClient (C : Type 0) : Type 0 where
  pub read : String → C → Option (Option String)
  pub write : String → String → C → Option C
  pub read-write : (k v : String) (c c' : C) → write k v c ≡ some c' → read k c' ≡ some (some v)

-- What `create` uses besides the request; `parses` is where `JSON.parse` does not throw.
pub record Services (C : Type 0) : Type 0 where
  pub orm : Orm
  pub staff : StaffQueries
  pub cache : Option (CacheClient C)
  pub to_json : Created → String
  pub parses : String → Bool
  pub to_json_parses : (r : Created) → parses (to_json r) ≡ true
  pub new_date : String → Option ℕ
  pub generate_code : String
  pub is_transient : BookingError → Bool
  pub random : ℕ → ℕ → ℕ
  pub transactions : Transactions Db BookingError Created

pub record Called (C : Type 0) : Type 0 where
  pub response : Result BookingError Response
  pub db : Db
  pub cache : C
  -- what `emitBookingCreated` is called with
  pub emitted : Option Created

-- JavaScript's truth of a text that may be missing.
abbrev pub truthy : Option String → Option String
truthy none = none
truthy (some s) = if str_eq s "" then none else some s

-- The cache and the key, if the request has one and Redis is configured.
abbrev pub keyed :
    {C : Type 0} → Option String → Option (CacheClient C) → Option (CacheClient C × String)
keyed none client = none
keyed (some k) none = none
keyed (some k) (some client) = some (client, k)

abbrev pub read_cache : {C : Type 0} → Option (CacheClient C × String) → C → Option String
read_cache none c = none
read_cache (some (client, k)) c = elim (client.read k c) [ none ↦ none | some v ↦ truthy v ]

-- What the cache answers; a text that is not JSON is passed over.
abbrev pub cached_answer :
    {C : Type 0} → (String → Bool) → Option (CacheClient C × String) → C → Option String
cached_answer parses key c = elim (read_cache key c) [
  | none ↦ none
  | some text ↦ if parses text then some text else none
]

abbrev pub write_cache : {C : Type 0} → Option (CacheClient C × String) → String → C → C
write_cache none v c = c
write_cache (some (client, k)) v c = elim (client.write k v c) [ none ↦ c | some c' ↦ c' ]

-- What follows the transaction: the cache, if it committed, and the notification.
abbrev pub after_commit :
    {C : Type 0}
    → (Created → String)
    → Option (CacheClient C × String)
    → C
    → Result BookingError Created
    → Db
    → Called C
after_commit to_json key c (ok r) db = record {
  response = ok (created r);
  db = db;
  cache = write_cache key (to_json r) c;
  emitted = some r;
}
after_commit to_json key c (err e) db = record {
  response = err e;
  db = db;
  cache = c;
  emitted = none;
}

abbrev pub committed :
    {C : Type 0}
    → (Created → String)
    → Option (CacheClient C × String)
    → C
    → Option (Outcome Db BookingError Created)
    → Option (Called C)
committed to_json key c none = none
committed to_json key c (some o) = some (after_commit to_json key c o.result o.state)

-- Steps 1 to 8, for a request that the cache does not answer.
unfoldable pub create_fresh :
    {C : Type 0}
    → Services C
    → Option (CacheClient C × String)
    → CreateBookingDto
    → Db
    → C
    → Option (Called C)
create_fresh v key dto db c =
    elim (v.orm.room_repo.find_one (λ r. r.id == dto.room_id && not r.deleted) db.rooms) [
      | none ↦ some (record { response = err room_not_found; db = db; cache = c; emitted = none })
      | some room ↦ elim (quote v.new_date dto room) [
        | err e ↦ some (record { response = err e; db = db; cache = c; emitted = none })
        | ok q ↦ committed v.to_json key c (
            run_with_deadlock_retry v.is_transient v.random v.transactions
              (place_booking v.orm v.staff dto room q v.generate_code) default_options db)
      ]
    ]

-- `create`; `none` would be a retry that never ends.
unfoldable pub create : {C : Type 0} → Services C → CreateBookingDto → Db → C → Option (Called C)
unfolding create_fresh
create v dto db c =
    let key = keyed (truthy dto.idempotency_key) v.cache in
    elim (cached_answer v.parses key c) [
      | some text ↦
          some (record { response = ok (replayed text); db = db; cache = c; emitted = none })
      | none ↦ create_fresh v key dto db c
    ]
