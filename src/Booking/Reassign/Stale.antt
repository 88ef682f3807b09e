-- ===== src/Booking/Reassign/Stale.antt =====
-- backend/src/bookings/bookings.service.ts: `reassignStaff` writes a booking that it read before its
-- transaction.
use cg_traveleke_service.Base.{
  ℕ, ◌+◌, ◌==◌, true, false, Option, some, String, ◌≡◌, ◌↔◌, refl, ok, if◌then◌else◌, first, arith,
  Bool-cases, inl, inr, ==_iff, ==_refl, first-map_where_const, sum_by-add,
}
use cg_traveleke_service.Booking.Model.{
  Db, Booking, BookingRoom, BookingStatus, pending, confirmed, rejected, checked_in, completed,
  cancelled, Orm, BookingStatus-discrete,
}
use cg_traveleke_service.Booking.Status.{gives_back}
use cg_traveleke_service.Booking.Reassign.{
  TargetStaff, can_reassign, check_status, reassigned_booking, write_reassign,
}
use cg_traveleke_service.Booking.Inventory.{has_booking_id, held_by, stock}
use cg_traveleke_service.Booking.Inventory.Rooms.{quantity_at}
use cg_traveleke_service.Booking.Inventory.Holds.{
  saved, booking_holds-saved_self, booking_holds_self, booking_holds-saved_other,
}
use cg_traveleke_service.Booking.Inventory.Changed.{booked}

-- The flag `canReassign` that the answers carry is the test by which `reassignStaff` accepts a booking.
pub can_reassign_iff : (s : BookingStatus) → (can_reassign s ≡ true) ↔ (check_status s ≡ ok tt)
unfolding can_reassign BookingStatus-discrete
can_reassign_iff pending = ((λ h. refl), (λ h. refl))
can_reassign_iff confirmed = ((λ h. refl), (λ h. refl))
can_reassign_iff rejected = ((λ h. cc), (λ h. cc))
can_reassign_iff checked_in = ((λ h. cc), (λ h. cc))
can_reassign_iff completed = ((λ h. cc), (λ h. cc))
can_reassign_iff cancelled = ((λ h. cc), (λ h. cc))

module _ (orm : Orm) (b : Booking) (t : TargetStaff) (target_id user : ℕ) (note : Option String)
    (now : ℕ) (db : Db) where
  abbrev after : Db
  after = (write_reassign orm b t target_id user note now db).1

  abbrev changed : Booking
  changed = reassigned_booking b t target_id user note now

  after-bookings : after.bookings ≡ saved changed db.bookings
  unfolding write_reassign
  after-bookings = orm.booking_repo.save_lem changed db.bookings

  held_by-revived :
      (r : ℕ) (b' : Booking) (br : BookingRoom)
      → first (has_booking_id b.id) db.bookings ≡ some b'
      → gives_back b'.status ≡ true
      → gives_back b.status ≡ false
      → held_by r db.bookings br + (if br.booking_id == b.id then quantity_at r br else 0)
        ≡ held_by r (saved changed db.bookings) br
  unfolding reassigned_booking
  held_by-revived r b' br h gone live = elim (Bool-cases (br.booking_id == b.id)) [
    | inl e ↦
        let same = (==_iff _ _).0 e in
        rw
          (
            booking_holds-saved_self b' changed db.bookings br.booking_id h same,
            booking_holds_self b' changed db.bookings br.booking_id h same,
            e,
            gone,
            live,
          )
          (ground arith)
    | inr e ↦ rw (booking_holds-saved_other changed db.bookings br.booking_id e, e) (ground arith)
  ]

  -- If the booking was cancelled or rejected after `reassignStaff` had read it, the write brings it back
  -- with the status that was read, though its rooms were given back: for each room type, the rooms
  -- available and held are more than before, by what the booking holds.
  pub write_reassign-revives :
      (b' : Booking)
      → first (has_booking_id b.id) db.bookings ≡ some b'
      → gives_back b'.status ≡ true
      → gives_back b.status ≡ false
      → ((first (has_booking_id b.id) after.bookings) ≡ some changed)
        × (changed.status ≡ b.status)
        × ((r : ℕ) → stock r after ≡ stock r db + booked r b.id db)
  unfolding write_reassign
  write_reassign-revives b' h gone live = (
    rw after-bookings
        (first-map_where_const (has_booking_id b.id) changed db.bookings {a = b'} (==_refl b.id) h),
    refl,
    λ r. rw after-bookings (
        omega (
          arith,
          sum_by-add (held_by r db.bookings)
              (λ br. if br.booking_id == b.id then quantity_at r br else 0)
              (held_by r (saved changed db.bookings)) (λ br. held_by-revived r b' br h gone live)
              db.booking_rooms,
        )),
  )
