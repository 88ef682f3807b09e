-- ===== src/Booking/Inventory/Changed.antt =====
-- backend/src/bookings/bookings.service.ts: `updateStatus` keeps the stock.
use mathlib.Core.Path.{ap₂}
use cg_traveleke_service.Base.{
  ℕ, ◌+◌, ◌≤◌, ◌==◌, Bool, false, List, ◌≡◌, refl, sym, ◌∙◌, ap, some, String, ok, err,
  if◌then◌else◌, first, count, select, sum_by, All, arith, Bool-cases, inl, inr, ==_iff, subst,
  All-mono, All-select, sum_by-select, sum_by-zero, first-passes,
}
use cg_traveleke_service.Database.LockOrder.{
  SortKey, string, deterministic_sort, sum_by-deterministic_sort, All-deterministic_sort,
}
use cg_traveleke_service.Booking.Model.{Booking, BookingRoom, Db, Orm, BookingStatus, BookingError}
use cg_traveleke_service.Booking.Status.{
  gives_back, is_room, UpdateBookingStatusDto, refund_rooms, updated_booking, apply_status,
  update_status, StatusChange,
}
use cg_traveleke_service.Booking.Status.Refund.{
  allowed-holds, updated_booking-id, updated_booking-status, update_status-cases, StatusOutcome,
}
use cg_traveleke_service.Booking.Inventory.{has_id, has_booking_id, stock, available, IsConsistent}
use cg_traveleke_service.Booking.Inventory.Rooms.{
  quantity_at, available-refund_all, count-refund_all,
}
use cg_traveleke_service.Booking.Inventory.Holds.{saved, held-saved, released_by}
use cg_traveleke_service.Booking.Inventory.Kept.{count-saved}

absurd_change : {A : Type 0} {e : BookingError} {c : StatusChange} → err e ≡ ok c → A
absurd_change h = cc

-- What the rows of the booking hold of the room `r`.
abbrev pub booked : ℕ → ℕ → Db → ℕ
booked r i db = sum_by (λ br. if br.booking_id == i then quantity_at r br else 0) db.booking_rooms

module _ (orm : Orm) (id_text : ℕ → String) (locale_gt : SortKey → SortKey → Bool) (db : Db)
    (v : IsConsistent db) where
  abbrev sorted : ℕ → List BookingRoom
  sorted i =
      deterministic_sort locale_gt (λ br. string (id_text br.room_id))
        (select (λ br. br.booking_id == i) db.booking_rooms)

  sum-sorted : (r i : ℕ) → sum_by (quantity_at r) (sorted i) ≡ booked r i db
  sum-sorted r i =
      sum_by-deterministic_sort locale_gt (λ br. string (id_text br.room_id)) (quantity_at r) _
      ∙ sum_by-select (quantity_at r) (λ br. br.booking_id == i) db.booking_rooms

  rooms-one : (i : ℕ) → All (λ br. count (is_room br) db.rooms ≡ 1) (sorted i)
  rooms-one i =
      All-deterministic_sort locale_gt (λ br. string (id_text br.room_id)) _ _
        (All-select _ (λ br. br.booking_id == i) db.booking_rooms
          (All-mono (λ br. 1 ≤ count (has_id br.room_id) db.rooms) _
            (λ br h. omega (arith, v.unique_rooms br.room_id)) db.booking_rooms v.rooms_exist))

  -- The rooms come back exactly if the new status gives them back.
  pub available-refund_rooms :
      (r : ℕ) (s : BookingStatus) (b : Booking)
      → available r (refund_rooms orm id_text locale_gt s b db).rooms
        ≡ available r db.rooms + (if gives_back s then booked r b.id db else 0)
  unfolding refund_rooms
  available-refund_rooms r s b = elim (Bool-cases (gives_back s)) [
    | inl e ↦
        rw (e, orm.booking_room_repo.find_lem (λ br. br.booking_id == b.id) db.booking_rooms)
          (omega (
            arith,
            available-refund_all orm r (sorted b.id) db.rooms (rooms-one b.id),
            sum-sorted r b.id,
          ))
    | inr e ↦ rw e (omega arith)
  ]

  count-refund_rooms :
      (i : ℕ) (s : BookingStatus) (b : Booking)
      → count (has_id i) (refund_rooms orm id_text locale_gt s b db).rooms
        ≡ count (has_id i) db.rooms
  unfolding refund_rooms
  count-refund_rooms i s b = elim (Bool-cases (gives_back s)) [
    | inl e ↦ rw e (
        count-refund_all orm (has_id i)
          (deterministic_sort locale_gt (λ br. string (id_text br.room_id))
            (orm.booking_room_repo.find (λ br. br.booking_id == b.id) db.booking_rooms))
          db.rooms (λ n x. refl))
    | inr e ↦ rw e
  ]

  module _ (dto : UpdateBookingStatusDto) (user now : ℕ) (b : Booking)
      (found : first (has_booking_id b.id) db.bookings ≡ some b)
      (live : gives_back b.status ≡ false) where
    abbrev changed : Db
    changed = (apply_status orm id_text locale_gt dto user now b db).1

    abbrev after : Booking
    after = updated_booking dto user now b

    after-found : first (has_booking_id after.id) db.bookings ≡ some b
    after-found = rw (updated_booking-id dto user now b) found

    changed-rooms : changed.rooms ≡ (refund_rooms orm id_text locale_gt dto.status b db).rooms
    unfolding apply_status
    changed-rooms = refl

    changed-bookings : changed.bookings ≡ saved after db.bookings
    unfolding apply_status refund_rooms
    changed-bookings = elim (Bool-cases (gives_back dto.status)) [
      | inl e ↦ rw e (orm.booking_repo.save_lem after db.bookings)
      | inr e ↦ rw e (orm.booking_repo.save_lem after db.bookings)
    ]

    changed-rows : changed.booking_rooms ≡ db.booking_rooms
    unfolding apply_status refund_rooms
    changed-rows = elim (Bool-cases (gives_back dto.status)) [ inl e ↦ rw e | inr e ↦ rw e ]

    released-booked :
        (r : ℕ)
        → sum_by (released_by r after) db.booking_rooms
          ≡ (if gives_back dto.status then booked r b.id db else 0)
    released-booked r =
        let released = λ (i : ℕ) (s : BookingStatus).
          sum_by
            (λ br. if br.booking_id == i then (if gives_back s then quantity_at r br else 0) else 0)
            db.booking_rooms in
        ap₂ released (updated_booking-id dto user now b) (updated_booking-status dto user now b)
        ∙ elim (Bool-cases (gives_back dto.status)) [
          | inl e ↦ rw e
          | inr e ↦ rw e (sum_by-zero _ (λ br. ground arith) db.booking_rooms)
        ]

    changed-stock : (r : ℕ) → stock r changed ≡ stock r db
    changed-stock r =
        rw (changed-rooms, changed-bookings, changed-rows)
          (omega (
            arith,
            available-refund_rooms r dto.status b,
            held-saved r b after db.bookings db.booking_rooms after-found live,
            released-booked r,
          ))

    changed-IsConsistent : IsConsistent changed
    changed-IsConsistent = record {
      unique_rooms = λ i. rw (changed-rooms, count-refund_rooms i dto.status b) (v.unique_rooms i);
      unique_bookings =
          λ i. rw (changed-bookings, count-saved i after db.bookings) (v.unique_bookings i);
      rooms_exist = rw changed-rows (
          All-mono (λ br. 1 ≤ count (has_id br.room_id) db.rooms) _
            (λ br h. rw (changed-rooms, count-refund_rooms br.room_id dto.status b) h)
            db.booking_rooms v.rooms_exist);
      bookings_exist = rw changed-rows (
          All-mono (λ br. 1 ≤ count (has_booking_id br.booking_id) db.bookings) _
            (λ br h. rw (changed-bookings, count-saved br.booking_id after db.bookings) h)
            db.booking_rooms v.bookings_exist);
    }

  module _ (booking_id : ℕ) (dto : UpdateBookingStatusDto) (user now : ℕ) where
    -- A change of status keeps, for each room, the sum of the rooms available and the rooms held; the
    -- rooms of the booking become available again exactly if it is cancelled or rejected.
    pub update_status-Keeps :
        (c : StatusChange) (db' : Db)
        → update_status orm id_text locale_gt booking_id dto user now db ≡ (ok c, db')
        → ((r : ℕ) → stock r db' ≡ stock r db)
          × ((r : ℕ)
              → available r db'.rooms
                ≡ available r db.rooms
                  + (if gives_back dto.status then booked r booking_id db else 0))
          × IsConsistent db'
    update_status-Keeps c db' h =
        elim (update_status-cases orm id_text locale_gt booking_id dto user now db) [
          | StatusOutcome.missing f e ↦ absurd_change (sym (ap (λ p. p.0) e) ∙ ap (λ p. p.0) h)
          | StatusOutcome.refused b f k e ↦ absurd_change (sym (ap (λ p. p.0) e) ∙ ap (λ p. p.0) h)
          | StatusOutcome.applied b f k e ↦
              let same : b.id ≡ booking_id =
                (==_iff _ _).0 (first-passes (λ x. x.id == booking_id) db.bookings b f) in
              let found : first (has_booking_id b.id) db.bookings ≡ some b =
                subst (λ i. first (has_booking_id i) db.bookings ≡ some b) (sym same) f in
              let live = allowed-holds b.status dto.status k in
              let moved : changed dto user now b found live ≡ db' = ap (λ p. p.1) (sym e ∙ h) in
              subst
                (λ d.
                  ((r : ℕ) → stock r d ≡ stock r db)
                  × ((r : ℕ)
                      → available r d.rooms
                        ≡ available r db.rooms
                          + (if gives_back dto.status then booked r booking_id db else 0))
                  × IsConsistent d)
                moved
                (
                  changed-stock dto user now b found live,
                  (λ r.
                      rw (changed-rooms dto user now b found live, ← same)
                        (available-refund_rooms r dto.status b)),
                  changed-IsConsistent dto user now b found live,
                )
        ]
