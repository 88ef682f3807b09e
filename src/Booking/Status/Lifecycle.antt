-- ===== src/Booking/Status/Lifecycle.antt =====
-- backend/src/bookings/bookings.service.ts: the life of a booking by `VALID_STATUS_TRANSITIONS`.
use cg_traveleke_service.Base.{ℕ, zero, suc, ◌+◌, ◌≤◌, ◌<◌, true, ◌≡◌, arith}
use cg_traveleke_service.Booking.Model.{
  BookingStatus, pending, confirmed, rejected, checked_in, completed, cancelled,
}
use cg_traveleke_service.Booking.Status.{valid_status_transitions, includes_status}

-- How many changes are left at most.
abbrev left : BookingStatus → ℕ
left pending = 3
left confirmed = 2
left checked_in = 1
left rejected = 0
left completed = 0
left cancelled = 0

left-falls :
    (a s : BookingStatus) → includes_status (valid_status_transitions a) s ≡ true → left s < left a
unfolding valid_status_transitions includes_status
left-falls pending s h = ground arith
left-falls confirmed s h = ground arith
left-falls checked_in s h = ground arith
left-falls rejected s h = cc
left-falls completed s h = cc
left-falls cancelled s h = cc

-- A sequence of changes that the table allows, with its length.
pub data Lifecycle (a : BookingStatus) : ℕ → BookingStatus → Type 0 where
  start : Lifecycle a zero a
  change :
      {n : ℕ} {s t : BookingStatus}
      → Lifecycle a n s
      → includes_status (valid_status_transitions s) t ≡ true
      → Lifecycle a (suc n) t

left-Lifecycle : {a s : BookingStatus} {n : ℕ} → Lifecycle a n s → n + left s ≤ left a
left-Lifecycle Lifecycle.start = omega arith
left-Lifecycle (Lifecycle.change {s = s} {t = t} h k) =
    omega (arith, left-Lifecycle h, left-falls s t k)

-- A new booking changes its status three times at most.
pub Lifecycle-le : {s : BookingStatus} {n : ℕ} → Lifecycle pending n s → n ≤ 3
Lifecycle-le h = omega (arith, left-Lifecycle h)
