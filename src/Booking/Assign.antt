-- ===== src/Booking/Assign.antt =====
-- backend/src/bookings/bookings.service.ts: `autoAssignHotelStaffInternal`, which picks the member of
-- staff for a new booking. The two SQL queries over the staff are arguments.
pub mod Best
use cg_traveleke_service.Base.{
  ℕ, ◌+◌, ◌*◌, ltb, leb, Bool, true, false, ◌||◌, Option, none, some, List, [], ◌∷◌, map, String,
  codes, includes, fold_case, Result, ok, err, if◌then◌else◌, sort,
}
use cg_traveleke_service.Database.Repo.{Repo}
use cg_traveleke_service.Booking.Model.{
  Db, Room, Booking, BookingStatusLog, Price, nan, negative, cents, Note, assigned_vip,
  assigned_standard, AssignmentType, automatic, pending, Orm, BookingError,
}

pub data StaffRole : Type 0 where
  manager other : StaffRole

-- A row of the staff query; `max_years_exp` is in tenths of a year, as the column DECIMAL(4,1) keeps it.
pub record Candidate : Type 0 where
  pub staff_user_id : ℕ
  pub staff_name : String
  pub staff_role : StaffRole
  pub max_skill_level : ℕ
  pub max_years_exp : ℕ
  pub completed_count : ℕ
  pub active_load : ℕ

-- How a write fails inside the transaction: alone, or as the victim of a deadlock, for which the database
-- has undone all that the transaction wrote.
pub data WriteFailure : Type 0 where
  statement_fails deadlock_victim : WriteFailure

-- What the database answers inside the transaction; a query of `none` throws.
pub record StaffQueries : Type 0 where
  pub staff_of_hotel : Db → ℕ → Option (List Candidate)
  pub staff_fallback : Db → Option (List Candidate)
  pub save_fails : Booking → Db → Option WriteFailure
  pub log_fails : BookingStatusLog → Db → Option WriteFailure

-- `Number(price) >= 1500000`, in hundredths
abbrev pub is_expensive : Price → Bool
is_expensive nan = false
is_expensive (negative n) = false
is_expensive (cents n) = leb 150000000 n

-- `/vip|suite|presidential|deluxe|luxury/i.test(name)`
unfoldable pub has_vip_name : String → Bool
has_vip_name name =
    let text = map fold_case (codes name) in
    includes (codes "vip") text
    || includes (codes "suite") text
    || includes (codes "presidential") text
    || includes (codes "deluxe") text
    || includes (codes "luxury") text

unfoldable pub is_vip_room : Price → String → Bool
unfolding has_vip_name
is_vip_room price name = is_expensive price || has_vip_name name

abbrev pub manager_bonus : StaffRole → ℕ
manager_bonus manager = 30
manager_bonus other = 0

-- A score is what adds to it and what is taken off, so that it may be negative. Ten points for a year are
-- one for a tenth.
pub record Score : Type 0 where
  pub gain : ℕ
  pub loss : ℕ

unfoldable pub vip_score : Candidate → Score
vip_score c = record {
  gain =
      c.max_skill_level * 20 + c.max_years_exp + c.completed_count * 5 + manager_bonus c.staff_role;
  loss = c.active_load * 15;
}

-- `(5 - level) * 20` may be negative too.
unfoldable pub standard_score : Candidate → Score
standard_score c = record {
  gain = 5 * 20 + (if leb c.max_years_exp 20 then 30 else 0);
  loss = c.max_skill_level * 20 + c.active_load * 25;
}

-- `scoreB - scoreA > 0`
abbrev pub lower : (Candidate → Score) → Candidate → Candidate → Bool
lower score a b = ltb ((score a).gain + (score b).loss) ((score b).gain + (score a).loss)

abbrev pub score_of : Bool → Candidate → Score
score_of vip = if vip then vip_score else standard_score

abbrev pub reason_for : Bool → Room → Candidate → Note
reason_for true room c =
    assigned_vip room.name c.staff_name c.max_skill_level c.max_years_exp c.completed_count
reason_for false room c = assigned_standard room.name c.staff_name c.max_skill_level

abbrev pub head_of : List Candidate → Option Candidate
head_of [] = none
head_of (c ∷ cs) = some c

-- The first candidate after the sort.
unfoldable pub best_candidate : Bool → List Candidate → Option Candidate
best_candidate vip candidates = head_of (sort (lower (score_of vip)) candidates)

-- The staff of the hotel, or the fallback where it has none.
unfoldable pub candidates_for : StaffQueries → ℕ → Db → Option (List Candidate)
candidates_for q hotel_id db = elim (q.staff_of_hotel db hotel_id) [
  | none ↦ none
  | some [] ↦ q.staff_fallback db
  | some (c ∷ cs) ↦ some (c ∷ cs)
]

abbrev pub assigned : Booking → Candidate → Note → Booking
assigned booking c reason = record booking {
  handled_by = some c.staff_user_id;
  assignment_type = automatic;
  assignment_note = some reason;
}

abbrev pub assignment_log : Orm → Db → Booking → Candidate → Note → BookingStatusLog
assignment_log orm db booking c reason = record {
  id = orm.status_log_repo.next_id db.status_logs;
  booking_id = booking.id;
  changed_by = c.staff_user_id;
  old_status = none;
  new_status = pending;
  note = some reason;
}

-- The tables that a failure leaves, of a transaction that found `start` and has come to `db`.
abbrev pub after_failure : WriteFailure → Db → Db → Db
after_failure statement_fails start db = db
after_failure deadlock_victim start db = start

-- The writes, once the candidate is chosen; what throws is swallowed, and the object stays changed. The
-- transaction that this is part of found `start`.
unfoldable pub assign_to : Orm → StaffQueries → Db → Booking → Candidate → Note → Db → Booking × Db
assign_to orm q start booking c reason db =
    let b = assigned booking c reason in
    let db' = record db { bookings = orm.booking_repo.save b db.bookings } in
    let log = assignment_log orm db' b c reason in
    elim (q.save_fails b db) [
      | some f ↦ (b, after_failure f start db)
      | none ↦ elim (q.log_fails log db') [
        | some f ↦ (b, after_failure f start db')
        | none ↦ (b, record db' { status_logs = orm.status_log_repo.insert log db'.status_logs })
      ]
    ]

-- The booking object as the call leaves it, and the tables. Nothing is thrown.
unfoldable pub auto_assign_hotel_staff :
    Orm → StaffQueries → Db → Booking → Room → Db → Booking × Db
unfolding assign_to best_candidate candidates_for
auto_assign_hotel_staff orm q start booking room db =
    let vip = is_vip_room room.price_per_night room.name in
    elim (candidates_for q booking.hotel_id db) [
      | none ↦ (booking, db)
      | some candidates ↦ elim (best_candidate vip candidates) [
        | none ↦ (booking, db)
        | some c ↦ assign_to orm q start booking c (reason_for vip room c) db
      ]
    ]
