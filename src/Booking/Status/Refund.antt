-- ===== src/Booking/Status/Refund.antt =====
-- backend/src/bookings/bookings.service.ts: `updateStatus`, the branches of the transaction's callback.
use mathlib.Core.Bool.{false≢true}
use cg_traveleke_service.Base.{
  ℕ, ◌==◌, Bool, true, false, ◌≡◌, refl, sym, ◌∙◌, Option, none, some, String, Result, err, is_ok,
  first, arith, Bool-cases, Option-cases, inl, inr,
}
use cg_traveleke_service.Database.LockOrder.{SortKey}
use cg_traveleke_service.Booking.Model.{
  Db, Booking, BookingStatus, pending, confirmed, rejected, checked_in, completed, cancelled, Orm,
  BookingError, booking_not_found, bad_transition,
}
use cg_traveleke_service.Booking.Status.{
  valid_status_transitions, includes_status, UpdateBookingStatusDto, gives_back, updated_booking,
  StatusChange, apply_status, update_status,
}

-- A booking whose rooms were given back allows no further change.
pub allowed-holds :
    (a s : BookingStatus)
    → includes_status (valid_status_transitions a) s ≡ true
    → gives_back a ≡ false
unfolding valid_status_transitions includes_status
allowed-holds pending s h = refl
allowed-holds confirmed s h = refl
allowed-holds checked_in s h = refl
allowed-holds completed s h = refl
allowed-holds rejected s h = cc
allowed-holds cancelled s h = cc

pub updated_booking-id :
    (dto : UpdateBookingStatusDto) (user now : ℕ) (b : Booking)
    → (updated_booking dto user now b).id ≡ b.id
unfolding updated_booking
updated_booking-id dto user now b = ground arith

pub updated_booking-status :
    (dto : UpdateBookingStatusDto) (user now : ℕ) (b : Booking)
    → (updated_booking dto user now b).status ≡ dto.status
unfolding updated_booking
updated_booking-status dto user now b = ground arith

module _ (orm : Orm) (id_text : ℕ → String) (locale_gt : SortKey → SortKey → Bool) (booking_id : ℕ)
    (dto : UpdateBookingStatusDto) (user now : ℕ) (db : Db) where
  abbrev pub run : Result BookingError StatusChange × Db
  run = update_status orm id_text locale_gt booking_id dto user now db

  abbrev pub found : Option Booking
  found = first (λ b. b.id == booking_id) db.bookings

  update_status-none : found ≡ none → run ≡ (err booking_not_found, db)
  unfolding update_status
  update_status-none h =
      rw (orm.booking_repo.find_one_lem (λ b. b.id == booking_id) db.bookings, update_status, h)

  update_status-refused :
      (b : Booking)
      → found ≡ some b
      → includes_status (valid_status_transitions b.status) dto.status ≡ false
      → run ≡ (err (bad_transition b.status dto.status), db)
  unfolding update_status
  update_status-refused b h k =
      rw (orm.booking_repo.find_one_lem (λ b. b.id == booking_id) db.bookings, update_status, h, k)

  pub update_status-allowed :
      (b : Booking)
      → found ≡ some b
      → includes_status (valid_status_transitions b.status) dto.status ≡ true
      → run ≡ apply_status orm id_text locale_gt dto user now b db
  unfolding update_status
  update_status-allowed b h k =
      rw (orm.booking_repo.find_one_lem (λ b. b.id == booking_id) db.bookings, update_status, h, k)

  apply_status-ok :
      (b : Booking) → is_ok (apply_status orm id_text locale_gt dto user now b db).0 ≡ true
  unfolding apply_status
  apply_status-ok b = refl

  not-ok :
      (b : Booking)
      → is_ok (apply_status orm id_text locale_gt dto user now b db).0 ≡ false
      → (apply_status orm id_text locale_gt dto user now b db).1 ≡ db
  not-ok b h = absurd (false≢true (sym h ∙ apply_status-ok b))

  -- The three ways that a request for a new status ends.
  pub data StatusOutcome : Type 0 where
    missing : found ≡ none → run ≡ (err booking_not_found, db) → StatusOutcome
    refused :
        (b : Booking)
        → found ≡ some b
        → includes_status (valid_status_transitions b.status) dto.status ≡ false
        → run ≡ (err (bad_transition b.status dto.status), db)
        → StatusOutcome
    applied :
        (b : Booking)
        → found ≡ some b
        → includes_status (valid_status_transitions b.status) dto.status ≡ true
        → run ≡ apply_status orm id_text locale_gt dto user now b db
        → StatusOutcome

  pub update_status-cases : StatusOutcome
  update_status-cases = elim (Option-cases found) [
    | inl h ↦ StatusOutcome.missing h (update_status-none h)
    | inr (b, h) ↦
        elim (Bool-cases (includes_status (valid_status_transitions b.status) dto.status)) [
          | inl k ↦ StatusOutcome.applied b h k (update_status-allowed b h k)
          | inr k ↦ StatusOutcome.refused b h k (update_status-refused b h k)
        ]
  ]

  abbrev pub allowed_from : Option Booking → BookingStatus → Bool
  allowed_from none s = false
  allowed_from (some b) s = includes_status (valid_status_transitions b.status) s

  -- The status changes exactly if the booking exists and the table allows the change; otherwise nothing
  -- is written.
  pub update_status-guard :
      (is_ok run.0 ≡ allowed_from found dto.status) × (is_ok run.0 ≡ false → run.1 ≡ db)
  update_status-guard = elim update_status-cases [
    | StatusOutcome.missing f e ↦ rw (f, e) (refl, λ h. refl)
    | StatusOutcome.refused b f k e ↦ rw (f, k, e) (refl, λ h. refl)
    | StatusOutcome.applied b f k e ↦ rw (f, k, e) (apply_status-ok b, λ h. not-ok b h)
  ]
