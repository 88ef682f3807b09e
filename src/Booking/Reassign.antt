-- ===== src/Booking/Reassign.antt =====
-- backend/src/bookings/bookings.service.ts: `reassignStaff`, the `canReassign` of `findOne` and
-- `getAvailableStaffForBooking`, and the recommendation of the latter. The query of the target member
-- of staff is an argument.
pub mod Stale
use text.Mathlib.Text.{◌==◌ as str_eq}
use cg_traveleke_service.Base.{
  ℕ, ◌==◌, leb, Bool, true, false, not, ◌&&◌, ◌||◌, Option, none, some, [], String, Result, ok, err,
  if◌then◌else◌,
}
use cg_traveleke_service.Database.Repo.{Repo}
use cg_traveleke_service.Database.Retry.{
  Transactions, Outcome, default_options, run_with_deadlock_retry,
}
use cg_traveleke_service.Booking.Model.{
  Db, Booking, BookingStatus, pending, confirmed, rejected, checked_in, completed, cancelled,
  BookingStatusLog, Note, given, reassigned_to, reassigned, manual, Orm, BookingError,
  booking_not_found, guest_checked_in, booking_closed, staff_not_found, customer_as_staff, Tx, pure,
}
use cg_traveleke_service.Booking.Status.{same_status}
use cg_traveleke_service.Booking.Assign.{Candidate, StaffRole, manager, other}

pub data UserRole : Type 0 where
  admin employee customer : UserRole

-- The row of `SELECT id, full_name, email, role FROM users`.
pub record TargetStaff : Type 0 where
  pub id : ℕ
  pub full_name : String
  pub role : UserRole

abbrev is_customer : UserRole → Bool
is_customer customer = true
is_customer _ = false

-- The guards of `reassignStaff`, in their order, after the booking is found.
abbrev pub check_status : BookingStatus → Result BookingError (Unit {0})
check_status s =
    if same_status s checked_in
    then err guest_checked_in
    else if same_status s completed || same_status s cancelled || same_status s rejected
    then err (booking_closed s)
    else ok tt

unfoldable pub can_reassign : BookingStatus → Bool
can_reassign s =
    not (same_status s checked_in)
    && not (same_status s completed)
    && not (same_status s cancelled)
    && not (same_status s rejected)

abbrev check_staff : Option TargetStaff → Result BookingError TargetStaff
check_staff none = err staff_not_found
check_staff (some t) = if is_customer t.role then err customer_as_staff else ok t

unfoldable pub check_reassign :
    Option Booking → Option TargetStaff → Result BookingError (Booking × TargetStaff)
check_reassign none target = err booking_not_found
check_reassign (some b) target = elim (check_status b.status) [
  | err e ↦ err e
  | ok _ ↦ elim (check_staff target) [ err e ↦ err e | ok t ↦ ok (b, t) ]
]

-- `note || '…'` gives way on the empty text too, `note ?? '…'` does not.
abbrev reason_of : Option String → Option String
reason_of none = none
reason_of (some s) = if str_eq s "" then none else some s

abbrev note_text : Option String → TargetStaff → Note
note_text none t = reassigned_to t.full_name
note_text (some s) t = given s

unfoldable pub reassigned_booking : Booking → TargetStaff → ℕ → ℕ → Option String → ℕ → Booking
reassigned_booking b t target_id user note now = record b {
  handled_by = some target_id;
  assignment_type = manual;
  assignment_note = some (note_text note t);
  reassigned_by = some user;
  reassigned_at = some now;
}

-- The transaction's callback; `b` was read before the transaction.
unfoldable pub write_reassign : Orm → Booking → TargetStaff → ℕ → ℕ → Option String → ℕ → Tx Booking
unfolding reassigned_booking
write_reassign orm b t target_id user note now db =
    let saved = reassigned_booking b t target_id user note now in
    let db1 = record db { bookings = orm.booking_repo.save saved db.bookings } in
    let log : BookingStatusLog = record {
      id = orm.status_log_repo.next_id db.status_logs;
      booking_id = b.id;
      changed_by = user;
      old_status = some b.status;
      new_status = b.status;
      note = some (reassigned b.handled_by t.full_name t.id (reason_of note));
    } in
    pure saved (record db1 { status_logs = orm.status_log_repo.insert log db1.status_logs })

-- `reassignStaff`; `find_staff` is the query on the users.
unfoldable pub reassign_staff :
    Orm
    → (BookingError → Bool)
    → (ℕ → ℕ → ℕ)
    → Transactions Db BookingError Booking
    → (ℕ → Option TargetStaff)
    → ℕ
    → ℕ
    → ℕ
    → Option String
    → ℕ
    → Db
    → Option (Outcome Db BookingError Booking)
reassign_staff orm is_transient random tx find_staff booking_id target_id user note now db =
    elim (check_reassign (orm.booking_repo.find_one (λ b. b.id == booking_id) db.bookings)
      (find_staff target_id)) [
        | err e ↦ some (record { result = err e; state = db; waits = [] })
        | ok (b, t) ↦
            run_with_deadlock_retry is_transient random tx
              (write_reassign orm b t target_id user note now) default_options db
      ]

abbrev is_manager : StaffRole → Bool
is_manager manager = true
is_manager other = false

-- `recommended` of a row of `getAvailableStaffForBooking`.
unfoldable pub recommended : Bool → Candidate → Bool
recommended is_vip s =
    if is_vip
    then leb 4 s.max_skill_level || leb 20 s.max_years_exp || is_manager s.staff_role
    else leb s.max_skill_level 3 && leb s.active_load 2
