-- ===== src/Booking/Inventory/Holds.antt =====
-- backend/src/bookings/bookings.service.ts: what the writes to `bookings` and `booking_rooms` do to the
-- rooms that bookings hold.
use cg_traveleke_service.Base.{
  ℕ, ◌+◌, ◌≤◌, ◌==◌, false, not, List, [], ◌∷◌, ◌++◌, ◌≡◌, some, if◌then◌else◌, first, count,
  sum_by, map_where, All, arith, Bool-cases, inl, inr, ==_iff, first-map_where,
  first-map_where_const, first-append_some, first-append_none, sum_by-add, sum_by-append,
  sum_by-cong, All-mono, ==_refl,
}
use cg_traveleke_service.Booking.Model.{Booking, BookingRoom}
use cg_traveleke_service.Booking.Status.{gives_back}
use cg_traveleke_service.Booking.Inventory.{has_booking_id, booking_holds, held_by}
use cg_traveleke_service.Booking.Inventory.Rooms.{quantity_at}

-- The table after a booking is saved under its id.
abbrev pub saved : Booking → List Booking → List Booking
saved b bookings = map_where (has_booking_id b.id) (λ _. b) bookings

pub booking_holds-saved_self :
    (b b' : Booking) (bookings : List Booking) (i : ℕ)
    → first (has_booking_id b'.id) bookings ≡ some b
    → i ≡ b'.id
    → booking_holds (saved b' bookings) i ≡ not (gives_back b'.status)
booking_holds-saved_self b b' bookings i h e =
    rw (e, first-map_where_const (has_booking_id b'.id) b' bookings {a = b} (==_refl b'.id) h)

pub booking_holds_self :
    (b b' : Booking) (bookings : List Booking) (i : ℕ)
    → first (has_booking_id b'.id) bookings ≡ some b
    → i ≡ b'.id
    → booking_holds bookings i ≡ not (gives_back b.status)
booking_holds_self b b' bookings i h e = rw (e, h)

pub booking_holds-saved_other :
    (b' : Booking) (bookings : List Booking) (i : ℕ)
    → (i == b'.id) ≡ false
    → booking_holds (saved b' bookings) i ≡ booking_holds bookings i
booking_holds-saved_other b' bookings i h = rw (
    first-map_where (has_booking_id i) (has_booking_id b'.id) (λ _. b') bookings
      (λ a e. ground arith))

-- What the row gives back when its booking is saved as `b'`.
abbrev pub released_by : ℕ → Booking → BookingRoom → ℕ
released_by r b' br =
    if br.booking_id == b'.id then (if gives_back b'.status then quantity_at r br else 0) else 0

held_by-saved :
    (r : ℕ) (b b' : Booking) (bookings : List Booking) (br : BookingRoom)
    → first (has_booking_id b'.id) bookings ≡ some b
    → gives_back b.status ≡ false
    → held_by r (saved b' bookings) br + released_by r b' br ≡ held_by r bookings br
held_by-saved r b b' bookings br h k = elim (Bool-cases (br.booking_id == b'.id)) [
  | inl e ↦
      let same = (==_iff _ _).0 e in
      rw
        (
          booking_holds-saved_self b b' bookings br.booking_id h same,
          booking_holds_self b b' bookings br.booking_id h same,
          e,
          k,
        )
        (ground arith)
  | inr e ↦ rw (booking_holds-saved_other b' bookings br.booking_id e, e) (ground arith)
]

-- The rooms held fall by what the booking's rows give back.
pub held-saved :
    (r : ℕ) (b b' : Booking) (bookings : List Booking) (brs : List BookingRoom)
    → first (has_booking_id b'.id) bookings ≡ some b
    → gives_back b.status ≡ false
    → sum_by (held_by r (saved b' bookings)) brs + sum_by (released_by r b') brs
      ≡ sum_by (held_by r bookings) brs
held-saved r b b' bookings brs h k =
    sum_by-add _ _ _ (λ br. held_by-saved r b b' bookings br h k) brs

held_by-inserted :
    (r : ℕ) (b : Booking) (bookings : List Booking) (br : BookingRoom)
    → 1 ≤ count (has_booking_id br.booking_id) bookings
    → held_by r (bookings ++ b ∷ []) br ≡ held_by r bookings br
held_by-inserted r b bookings br h =
    rw (first-append_some (has_booking_id br.booking_id) bookings (b ∷ []) h)

held_by-new :
    (r : ℕ) (b : Booking) (bookings : List Booking) (br : BookingRoom)
    → count (has_booking_id b.id) bookings ≡ 0
    → br.booking_id ≡ b.id
    → gives_back b.status ≡ false
    → held_by r (bookings ++ b ∷ []) br ≡ quantity_at r br
held_by-new r b bookings br h e k =
    rw (e, first-append_none (has_booking_id b.id) bookings (b ∷ []) h, ==_refl b.id, k)
      (ground arith)

-- A new booking under a fresh id holds the quantity of its row, and changes no other hold.
pub held-inserted :
    (r : ℕ) (b : Booking) (bookings : List Booking) (br : BookingRoom) (brs : List BookingRoom)
    → count (has_booking_id b.id) bookings ≡ 0
    → All (λ x. 1 ≤ count (has_booking_id x.booking_id) bookings) brs
    → br.booking_id ≡ b.id
    → gives_back b.status ≡ false
    → sum_by (held_by r (bookings ++ b ∷ [])) (brs ++ br ∷ [])
      ≡ sum_by (held_by r bookings) brs + quantity_at r br
held-inserted r b bookings br brs fresh exist e k =
    let same = sum_by-cong (held_by r (bookings ++ b ∷ [])) (held_by r bookings) brs (
      All-mono (λ x. 1 ≤ count (has_booking_id x.booking_id) bookings) _
        (λ x h. held_by-inserted r b bookings x h) brs exist) in
    omega (
      arith,
      sum_by-append (held_by r (bookings ++ b ∷ [])) brs (br ∷ []),
      same,
      held_by-new r b bookings br fresh e k,
    )
