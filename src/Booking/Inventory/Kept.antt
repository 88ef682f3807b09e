-- ===== src/Booking/Inventory/Kept.antt =====
-- backend/src/bookings/bookings.service.ts: the automatic assignment of staff keeps the stock.
use cg_traveleke_service.Base.{
  ℕ, ◌≤◌, false, List, ◌≡◌, refl, some, first, count, arith, inl, inr, Option-cases, All-mono,
  count-map_where, sum_by-zero,
}
use cg_traveleke_service.Booking.Model.{Booking, BookingStatusLog, Note, Db, Room, Orm}
use cg_traveleke_service.Booking.Status.{gives_back}
use cg_traveleke_service.Booking.Assign.{
  WriteFailure, statement_fails, deadlock_victim, after_failure, StaffQueries, Candidate,
  auto_assign_hotel_staff, assign_to, best_candidate, candidates_for, assigned, assignment_log,
  is_vip_room,
}
use cg_traveleke_service.Booking.Inventory.{has_booking_id, stock, IsConsistent}
use cg_traveleke_service.Booking.Inventory.Holds.{saved, held-saved, released_by}

-- The second state has the stock of the first, and its keys.
abbrev pub Keeps : Db → Db → Type 0
Keeps db db' = ((r : ℕ) → stock r db' ≡ stock r db) × (IsConsistent db → IsConsistent db')

pub count-saved :
    (i : ℕ) (b : Booking) (bookings : List Booking)
    → count (has_booking_id i) (saved b bookings) ≡ count (has_booking_id i) bookings
count-saved i b bookings =
    count-map_where (has_booking_id i) (has_booking_id b.id) (λ _. b) bookings (λ a e. ground arith)

pub saved-IsConsistent :
    (b : Booking) (db : Db)
    → IsConsistent db
    → IsConsistent (record db { bookings = saved b db.bookings })
saved-IsConsistent b db v = record {
  unique_rooms = v.unique_rooms;
  unique_bookings = λ i. rw (count-saved i b db.bookings) (v.unique_bookings i);
  rooms_exist = v.rooms_exist;
  bookings_exist =
      All-mono (λ br. 1 ≤ count (has_booking_id br.booking_id) db.bookings) _
        (λ br h. rw (count-saved br.booking_id b db.bookings) h) db.booking_rooms v.bookings_exist;
}

pub saved-Keeps :
    (b b' : Booking) (db : Db)
    → first (has_booking_id b'.id) db.bookings ≡ some b
    → gives_back b.status ≡ false
    → gives_back b'.status ≡ false
    → Keeps db (record db { bookings = saved b' db.bookings })
saved-Keeps b b' db h k k' = (
  λ r. omega (
    arith,
    held-saved r b b' db.bookings db.booking_rooms h k,
    sum_by-zero (released_by r b') (λ br. rw k' (ground arith)) db.booking_rooms,
  ),
  saved-IsConsistent b' db,
)

pub relogged-IsConsistent :
    (db : Db) (logs : List BookingStatusLog)
    → IsConsistent db
    → IsConsistent (record db { status_logs = logs })
relogged-IsConsistent db logs v = record {
  unique_rooms = v.unique_rooms;
  unique_bookings = v.unique_bookings;
  rooms_exist = v.rooms_exist;
  bookings_exist = v.bookings_exist;
}

after_failure-Keeps :
    (f : WriteFailure) (start db db' : Db)
    → Keeps db db'
    → Keeps db start
    → Keeps db (after_failure f start db')
after_failure-Keeps statement_fails start db db' kept back = kept
after_failure-Keeps deadlock_victim start db db' kept back = back

assign_to-Keeps :
    (orm : Orm) (q : StaffQueries) (start : Db) (b : Booking) (c : Candidate) (reason : Note)
    (db : Db)
    → Keeps db start
    → first (has_booking_id b.id) db.bookings ≡ some b
    → gives_back b.status ≡ false
    → Keeps db (assign_to orm q start b c reason db).1
unfolding assign_to
assign_to-Keeps orm q start b c reason db back h k =
    let b' = assigned b c reason in
    let (same, valid) = saved-Keeps b b' db h k k in
    let save = orm.booking_repo.save_lem b' db.bookings in
    let db' = record db { bookings = orm.booking_repo.save b' db.bookings } in
    let log = assignment_log orm db' b' c reason in
    elim (Option-cases (q.save_fails b' db)) [
      | inr (f, e) ↦
          rw (assign_to, e) (after_failure-Keeps f start db db ((λ r. refl), (λ v. v)) back)
      | inl e ↦ elim (Option-cases (q.log_fails log db')) [
        | inr (f, g) ↦
            rw (assign_to, e, g) (after_failure-Keeps f start db db' (rw save (same, valid)) back)
        | inl f ↦ rw (assign_to, e, f, save) (same, λ v. relogged-IsConsistent _ _ (valid v))
      ]
    ]

pub auto_assign-Keeps :
    (orm : Orm) (q : StaffQueries) (start : Db) (b : Booking) (room : Room) (db : Db)
    → Keeps db start
    → first (has_booking_id b.id) db.bookings ≡ some b
    → gives_back b.status ≡ false
    → Keeps db (auto_assign_hotel_staff orm q start b room db).1
unfolding auto_assign_hotel_staff
auto_assign-Keeps orm q start b room db back h k =
    elim (Option-cases (candidates_for q b.hotel_id db)) [
      | inl e ↦ rw (e, auto_assign_hotel_staff) ((λ r. refl), (λ v. v))
      | inr (cs, e) ↦
          elim (Option-cases (best_candidate (is_vip_room room.price_per_night room.name) cs)) [
            | inl f ↦ rw (e, auto_assign_hotel_staff, f) ((λ r. refl), (λ v. v))
            | inr (c, f) ↦
                rw (e, auto_assign_hotel_staff, f) (assign_to-Keeps orm q start b c _ db back h k)
          ]
    ]
