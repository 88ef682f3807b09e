-- ===== src/Booking/Inventory/Created.antt =====
-- backend/src/bookings/bookings.service.ts: `create` keeps the stock.
use cg_traveleke_service.Base.{
  ℕ, ◌+◌, ◌≤◌, ◌==◌, true, false, [], ◌∷◌, ◌++◌, ◌≡◌, refl, sym, ◌∙◌, ap, String, ok, err, count,
  map_where, arith, Bool-cases, inl, inr, ==_iff, subst, All-mono, All-append, count-map_where,
  count-append, first-append_none, ==_refl, count_mono, le_trans,
}
use cg_traveleke_service.Booking.Model.{
  Booking, BookingRoom, Db, Room, Orm, CreateBookingDto, sold_out, BookingError,
}
use cg_traveleke_service.Booking.Quote.{Quote}
use cg_traveleke_service.Booking.Assign.{StaffQueries, auto_assign_hotel_staff}
use cg_traveleke_service.Booking.Create.{Created, place_booking, has_stock, take_stock, new_booking}
use cg_traveleke_service.Booking.Inventory.{has_id, has_booking_id, stock, available, IsConsistent}
use cg_traveleke_service.Booking.Inventory.Rooms.{quantity_at, available-take}
use cg_traveleke_service.Booking.Inventory.Holds.{held-inserted}
use cg_traveleke_service.Booking.Inventory.Kept.{Keeps, auto_assign-Keeps}

pub absurd_result : {A : Type 0} {e : BookingError} {c : Created} → err e ≡ ok c → A
absurd_result h = cc

-- The tables before the staff is assigned.
module _ (orm : Orm) (staff : StaffQueries) (dto : CreateBookingDto) (room : Room) (q : Quote)
    (code : String) (db : Db) where
  abbrev pub fresh_booking : Booking
  fresh_booking = new_booking (orm.booking_repo.next_id db.bookings) dto room q code

  abbrev pub fresh_row : BookingRoom
  fresh_row = record {
    id = orm.booking_room_repo.next_id db.booking_rooms;
    booking_id = fresh_booking.id;
    room_id = room.id;
    quantity = dto.room_count;
    price_per_night = q.price_per_night;
    nights = q.nights;
    subtotal = q.subtotal;
  }

  abbrev pub placed : Db
  placed = record db {
    rooms = map_where (has_stock room.id dto.room_count) (take_stock dto.room_count) db.rooms;
    bookings = db.bookings ++ fresh_booking ∷ [];
    booking_rooms = db.booking_rooms ++ fresh_row ∷ [];
  }

  abbrev pub reserved : ℕ
  reserved = count (has_stock room.id dto.room_count) db.rooms

  pub place_booking-placed :
      (reserved == 0) ≡ false
      → place_booking orm staff dto room q code db ≡ (
        ok (record {
          booking = (auto_assign_hotel_staff orm staff db fresh_booking room placed).0;
          room_id = room.id;
          room_name = room.name;
          booking_room = fresh_row;
        }),
        (auto_assign_hotel_staff orm staff db fresh_booking room placed).1,
      )
  unfolding place_booking
  place_booking-placed e = rw (
    orm.room_repo.affected_lem (has_stock room.id dto.room_count) db.rooms,
    orm.room_repo.update_lem (has_stock room.id dto.room_count) (take_stock dto.room_count)
        db.rooms,
    e,
    orm.booking_repo.insert_lem fresh_booking db.bookings,
    orm.booking_room_repo.insert_lem fresh_row db.booking_rooms,
  )

  pub place_booking-sold_out :
      (reserved == 0) ≡ true
      → (place_booking orm staff dto room q code db).0 ≡ err (sold_out room.name)
  unfolding place_booking
  place_booking-sold_out e =
      rw (orm.room_repo.affected_lem (has_stock room.id dto.room_count) db.rooms, e)

  module _ (v : IsConsistent db) (e : (reserved == 0) ≡ false) where
    room-one : 1 ≤ count (has_id room.id) db.rooms
    room-one = le_trans (ground arith) (
        count_mono (has_stock room.id dto.room_count) (has_id room.id) db.rooms
          (λ a h. ground arith))

    reserved-one : reserved ≡ 1
    reserved-one = omega (
      arith,
      v.unique_rooms room.id,
      count_mono (has_stock room.id dto.room_count) (has_id room.id) db.rooms (λ a h. ground arith),
      (let k : 1 ≤ reserved = ground arith in k),
    )

    fresh : count (has_booking_id fresh_booking.id) db.bookings ≡ 0
    unfolding new_booking
    fresh = orm.booking_repo.next_id_fresh db.bookings

    rooms-same : (i : ℕ) → count (has_id i) placed.rooms ≡ count (has_id i) db.rooms
    rooms-same i = count-map_where (has_id i) _ _ db.rooms (λ a h. refl)

    placed-available :
        (r : ℕ) → available r placed.rooms + quantity_at r fresh_row ≡ available r db.rooms
    placed-available r =
        let taken = available-take r room.id dto.room_count db.rooms in
        let one = reserved-one in ground arith

    placed-stock : (r : ℕ) → stock r placed ≡ stock r db
    unfolding new_booking
    placed-stock r = omega (
      arith,
      placed-available r,
      held-inserted r fresh_booking db.bookings fresh_row db.booking_rooms fresh v.bookings_exist
          refl refl,
    )

    bookings-grow :
        (i : ℕ)
        → count (has_booking_id i) placed.bookings
          ≡ count (has_booking_id i) db.bookings + count (has_booking_id i) (fresh_booking ∷ [])
    bookings-grow i = count-append (has_booking_id i) db.bookings (fresh_booking ∷ [])

    bookings_unique : (i : ℕ) → count (has_booking_id i) placed.bookings ≤ 1
    bookings_unique i = elim (Bool-cases (fresh_booking.id == i)) [
      | inl same ↦
          let none_yet =
            subst (λ j. count (has_booking_id j) db.bookings ≡ 0) ((==_iff _ _).0 same) fresh in
          rw (bookings-grow i, same) (omega (arith, none_yet))
      | inr other ↦ rw (bookings-grow i, other) (omega (arith, v.unique_bookings i))
    ]

    placed-IsConsistent : IsConsistent placed
    unfolding new_booking
    placed-IsConsistent = record {
      unique_rooms = λ i. rw (rooms-same i) (v.unique_rooms i);
      unique_bookings = bookings_unique;
      rooms_exist =
          All-append _ db.booking_rooms (fresh_row ∷ [])
            (All-mono (λ br. 1 ≤ count (has_id br.room_id) db.rooms) _
              (λ br h. rw (rooms-same br.room_id) h) db.booking_rooms v.rooms_exist)
            (rw (rooms-same room.id) room-one, tt);
      bookings_exist =
          All-append _ db.booking_rooms (fresh_row ∷ [])
            (All-mono (λ br. 1 ≤ count (has_booking_id br.booking_id) db.bookings) _
              (λ br h. rw (bookings-grow br.booking_id) (omega arith)) db.booking_rooms
              v.bookings_exist)
            (rw (bookings-grow fresh_booking.id, ==_refl fresh_booking.id) (omega arith), tt);
    }

    staffed-Keeps : Keeps placed (auto_assign_hotel_staff orm staff db fresh_booking room placed).1
    unfolding new_booking
    staffed-Keeps =
        auto_assign-Keeps orm staff db fresh_booking room placed
          ((λ r. sym (placed-stock r)), (λ _. v))
          (rw (
            first-append_none (has_booking_id fresh_booking.id) db.bookings (fresh_booking ∷ [])
                fresh,
            ==_refl fresh_booking.id,
          ))
          refl

  -- A transaction that books keeps, for each room, the sum of the rooms available and the rooms held.
  pub place_booking-Keeps :
      (c : Created) (db' : Db)
      → IsConsistent db
      → place_booking orm staff dto room q code db ≡ (ok c, db')
      → ((r : ℕ) → stock r db' ≡ stock r db) × IsConsistent db'
  place_booking-Keeps c db' v h = elim (Bool-cases (reserved == 0)) [
    | inl none_left ↦ absurd_result (sym (place_booking-sold_out none_left) ∙ ap (λ p. p.0) h)
    | inr e ↦
        let (same, valid) = staffed-Keeps v e in
        subst (λ d. ((r : ℕ) → stock r d ≡ stock r db) × IsConsistent d)
          (ap (λ p. p.1) (sym (place_booking-placed e) ∙ h))
          ((λ r. same r ∙ placed-stock v e r), valid (placed-IsConsistent v e))
  ]
