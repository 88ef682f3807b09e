-- ===== src/Booking/Inventory.antt =====
-- backend/src/bookings/bookings.service.ts: the stock of rooms that `create` and `updateStatus` keep.
pub mod Rooms
pub mod Holds
pub mod Kept
pub mod Created
pub mod Stored
pub mod Changed
use cg_traveleke_service.Base.{
  ℕ, ◌+◌, ◌≤◌, ◌==◌, Bool, true, false, not, ◌&&◌, Option, none, some, List, if◌then◌else◌, first,
  count, sum_by, All,
}
use cg_traveleke_service.Booking.Model.{Db, Room, Booking, BookingRoom}
use cg_traveleke_service.Booking.Status.{gives_back}

abbrev pub has_id : ℕ → Room → Bool
has_id i r = r.id == i

abbrev pub has_booking_id : ℕ → Booking → Bool
has_booking_id i b = b.id == i

abbrev pub stock_at : ℕ → Room → ℕ
stock_at r x = if x.id == r then x.available_rooms else 0

-- The rooms of type `r` that can still be booked.
abbrev pub available : ℕ → List Room → ℕ
available r rooms = sum_by (stock_at r) rooms

-- The booking with this id is neither cancelled nor rejected.
abbrev pub holds_of : Option Booking → Bool
holds_of none = false
holds_of (some b) = not (gives_back b.status)

abbrev pub booking_holds : List Booking → ℕ → Bool
booking_holds bookings i = holds_of (first (has_booking_id i) bookings)

abbrev pub held_by : ℕ → List Booking → BookingRoom → ℕ
held_by r bookings br =
    if br.room_id == r && booking_holds bookings br.booking_id then br.quantity else 0

-- The rooms of type `r` that bookings hold.
abbrev pub held : ℕ → Db → ℕ
held r db = sum_by (held_by r db.bookings) db.booking_rooms

abbrev pub stock : ℕ → Db → ℕ
stock r db = available r db.rooms + held r db

-- The keys: ids are unique, and the rows of `booking_rooms` refer to rooms and bookings that exist.
pub record IsConsistent (db : Db) : Type 0 where
  pub unique_rooms : (i : ℕ) → count (has_id i) db.rooms ≤ 1
  pub unique_bookings : (i : ℕ) → count (has_booking_id i) db.bookings ≤ 1
  pub rooms_exist : All (λ br. 1 ≤ count (has_id br.room_id) db.rooms) db.booking_rooms
  pub bookings_exist :
      All (λ br. 1 ≤ count (has_booking_id br.booking_id) db.bookings) db.booking_rooms
