-- ===== src/Booking/Inventory/Stored.antt =====
-- backend/src/bookings/bookings.service.ts: what the transaction of `create` that returns has stored.
use cg_traveleke_service.Base.{
  ◌≤◌, ◌==◌, [], ◌∷◌, ◌≡◌, refl, sym, ◌∙◌, ap, subst, String, Result, ok, ok_same, Option-cases,
  ◌⊎◌, inl, inr, count, count-append, arith, ==_refl, Bool-cases,
}
use cg_traveleke_service.Booking.Model.{
  Booking, Note, Db, Room, Orm, CreateBookingDto, BookingError,
}
use cg_traveleke_service.Booking.Quote.{Quote}
use cg_traveleke_service.Booking.Assign.{
  WriteFailure, statement_fails, deadlock_victim, after_failure, StaffQueries, Candidate,
  auto_assign_hotel_staff, assign_to, best_candidate, candidates_for, assigned, assignment_log,
  is_vip_room,
}
use cg_traveleke_service.Booking.Create.{Created, place_booking}
use cg_traveleke_service.Booking.Inventory.{has_booking_id}
use cg_traveleke_service.Booking.Inventory.Kept.{count-saved}
use cg_traveleke_service.Booking.Inventory.Created.{
  fresh_booking, placed, reserved, place_booking-placed, place_booking-sold_out, absurd_result,
}

-- There is a row of the booking, or the tables are those that the transaction found.
abbrev pub IsStored : Db → Booking × Db → Type 0
IsStored start (b, db) = (1 ≤ count (has_booking_id b.id) db.bookings) ⊎ (db ≡ start)

after_failure-IsStored :
    (f : WriteFailure) (start : Db) (b : Booking) (db : Db)
    → 1 ≤ count (has_booking_id b.id) db.bookings
    → IsStored start (b, after_failure f start db)
after_failure-IsStored statement_fails start b db h = inl h
after_failure-IsStored deadlock_victim start b db h = inr refl

assign_to-IsStored :
    (orm : Orm) (q : StaffQueries) (start : Db) (b : Booking) (c : Candidate) (reason : Note)
    (db : Db)
    → 1 ≤ count (has_booking_id b.id) db.bookings
    → IsStored start (assign_to orm q start b c reason db)
unfolding assign_to
assign_to-IsStored orm q start b c reason db h =
    let b' = assigned b c reason in
    let db' = record db { bookings = orm.booking_repo.save b' db.bookings } in
    let log = assignment_log orm db' b' c reason in
    let kept : 1 ≤ count (has_booking_id b'.id) db'.bookings =
      rw (orm.booking_repo.save_lem, count-saved b'.id b' db.bookings) h in
    elim (Option-cases (q.save_fails b' db)) [
      | inr (f, e) ↦ rw (assign_to, e) (after_failure-IsStored f start b' db h)
      | inl e ↦ elim (Option-cases (q.log_fails log db')) [
        | inr (f, g) ↦ rw (assign_to, e, g) (after_failure-IsStored f start b' db' kept)
        | inl g ↦ rw (assign_to, e, g) (inl kept)
      ]
    ]

auto_assign-IsStored :
    (orm : Orm) (q : StaffQueries) (start : Db) (b : Booking) (room : Room) (db : Db)
    → 1 ≤ count (has_booking_id b.id) db.bookings
    → IsStored start (auto_assign_hotel_staff orm q start b room db)
unfolding auto_assign_hotel_staff
auto_assign-IsStored orm q start b room db h =
    elim (Option-cases (candidates_for q b.hotel_id db)) [
      | inl e ↦ rw (e, auto_assign_hotel_staff) (inl h)
      | inr (cs, e) ↦
          elim (Option-cases (best_candidate (is_vip_room room.price_per_night room.name) cs)) [
            | inl f ↦ rw (e, auto_assign_hotel_staff, f) (inl h)
            | inr (c, f) ↦
                rw (e, auto_assign_hotel_staff, f) (assign_to-IsStored orm q start b c _ db h)
          ]
    ]

created_same :
    {c d : Created} {s t : Db}
    → ◌≡◌ {A = Result BookingError Created × Db} (ok c, s) (ok d, t)
    → c ≡ d
created_same h = ok_same (ap (λ p. p.0) h)

returned_same :
    {c d : Created} {s t : Db}
    → ◌≡◌ {A = Result BookingError Created × Db} (ok c, s) (ok d, t)
    → ◌≡◌ {A = Booking × Db} (c.booking, s) (d.booking, t)
returned_same h = λ i. ((created_same h i).booking, (h i).1)

module _ (orm : Orm) (staff : StaffQueries) (dto : CreateBookingDto) (room : Room) (q : Quote)
    (code : String) (db : Db) where
  placed-one :
      1
      ≤ count
          (has_booking_id (fresh_booking orm staff dto room q code db).id)
          (placed orm staff dto room q code db).bookings
  placed-one =
      rw
        (
          count-append (has_booking_id (fresh_booking orm staff dto room q code db).id) db.bookings
              (fresh_booking orm staff dto room q code db ∷ []),
          ==_refl (fresh_booking orm staff dto room q code db).id,
        )
        (omega arith)

  -- The booking that the transaction returns has a row, or nothing at all is written: a deadlock has
  -- undone the transaction.
  pub place_booking-IsStored :
      (c : Created) (db' : Db)
      → place_booking orm staff dto room q code db ≡ (ok c, db')
      → IsStored db (c.booking, db')
  place_booking-IsStored c db' h = elim (Bool-cases (reserved orm staff dto room q code db == 0)) [
    | inl none_left ↦
        absurd_result
          (sym (place_booking-sold_out orm staff dto room q code db none_left) ∙ ap (λ p. p.0) h)
    | inr e ↦
        let same = sym (place_booking-placed orm staff dto room q code db e) ∙ h in
        subst (λ p. IsStored db p) (returned_same same)
          (auto_assign-IsStored orm staff db (fresh_booking orm staff dto room q code db) room
            (placed orm staff dto room q code db) placed-one)
  ]
