-- ===== src/Requests/Service.antt =====
-- backend/src/services/services.service.ts: the requests of guests and the recovery from failures.
use cg_traveleke_service.Base.{
  ℕ, zero, suc, ◌+◌, ◌*◌, ◌==◌, ltb, Bool, true, false, not, ◌&&◌, ◌||◌, Option, none, some, List,
  String, Result, ok, or_else, or_throw, ◌>>=◌, if◌then◌else◌,
}
use cg_traveleke_service.Catalogue.Offers.{RoomService}
use cg_traveleke_service.Requests.Model.{
  ServiceRequest, ServiceRequestStatus, pending, accepted, assigned, in_progress, completed,
  confirmed, failed, cancelled, RecoveryType, RecoveryAction, typed, of_recovery,
  ServiceRecoveryLog, RecoveryStatus, approved, rejected, ServicesDb, Services, ServiceError,
  request_not_found, recovery_not_found, if_text, if_given,
}
use cg_traveleke_service.Requests.Offered.{get_room_service}

pub record CreateServiceRequestDto : Type 0 where
  pub booking_id : ℕ
  pub service_id : ℕ
  pub quantity : Option ℕ
  pub note : Option String
  pub scheduled_at : Option ℕ

abbrev pub price_of : RoomService → ℕ → ℕ
price_of s n = if s.is_complimentary then 0 else s.base_price * n

unfoldable pub new_request :
    Services → ℕ → CreateServiceRequestDto → RoomService → List ServiceRequest → ServiceRequest
new_request v now dto s requests = record {
  id = v.request_repo.next_id requests;
  booking_id = dto.booking_id;
  service_id = dto.service_id;
  assigned_to = none;
  service_name = s.name;
  unit_price = s.base_price;
  quantity = or_else dto.quantity 1;
  total_price = price_of s (or_else dto.quantity 1);
  note = dto.note;
  scheduled_at = dto.scheduled_at;
  sla_due_at = some (or_else dto.scheduled_at now + or_else s.sla_minutes 30 * 60 * 1000);
  is_sla_breached = false;
  accepted_at = none;
  started_at = none;
  completed_at = none;
  confirmed_at = none;
  failure_reason = none;
  recovery_action = none;
  recovery_approved_by = none;
  recovery_cost = none;
  status = pending;
}

-- The notification that follows is left out.
unfoldable pub create_service_request :
    Services
    → ℕ
    → CreateServiceRequestDto
    → ServicesDb
    → Result ServiceError (ServiceRequest × ServicesDb)
unfolding get_room_service new_request
create_service_request v now dto db = get_room_service v dto.service_id db >>= λ s.
    let r = new_request v now dto s db.requests in
    ok (r, record db { requests = v.request_repo.insert r db.requests })

pub record UpdateServiceRequestDto : Type 0 where
  pub status : Option ServiceRequestStatus
  pub assigned_to : Option ℕ
  pub note : Option String
  pub completed_at : Option ℕ
  pub confirmed_at : Option ℕ
  pub failure_reason : Option String
  pub recovery_action : Option String
  pub recovery_approved_by : Option ℕ
  pub recovery_cost : Option ℕ

-- `if (id) row.field = id`
abbrev pub if_positive : Option ℕ → Option ℕ → Option ℕ
if_positive none old = old
if_positive (some zero) old = old
if_positive (some (suc n)) old = some (suc n)

abbrev pub as_action : Option String → Option RecoveryAction → Option RecoveryAction
as_action given old = elim (if_text given none) [ none ↦ old | some t ↦ some (typed t) ]

abbrev pub edited_request : UpdateServiceRequestDto → ServiceRequest → ServiceRequest
edited_request dto r = record r {
  status = or_else dto.status r.status;
  assigned_to = if_given dto.assigned_to r.assigned_to;
  note = if_given dto.note r.note;
  completed_at = if_given dto.completed_at r.completed_at;
  confirmed_at = if_given dto.confirmed_at r.confirmed_at;
  failure_reason = if_text dto.failure_reason r.failure_reason;
  recovery_action = as_action dto.recovery_action r.recovery_action;
  recovery_approved_by = if_positive dto.recovery_approved_by r.recovery_approved_by;
  recovery_cost = if_given dto.recovery_cost r.recovery_cost;
}

abbrev pub has_request_id : ℕ → ServiceRequest → Bool
has_request_id i r = r.id == i

abbrev pub find_request : Services → ℕ → ServicesDb → Result ServiceError ServiceRequest
find_request v id db =
    or_throw (v.request_repo.find_one (has_request_id id) db.requests) request_not_found

abbrev pub save_request :
    Services → ServiceRequest → ServicesDb → Result ServiceError (ServiceRequest × ServicesDb)
save_request v r db = ok (r, record db { requests = v.request_repo.save r db.requests })

unfoldable pub update_service_request :
    Services
    → ℕ
    → UpdateServiceRequestDto
    → ServicesDb
    → Result ServiceError (ServiceRequest × ServicesDb)
update_service_request v id dto db =
    find_request v id db >>= λ r. save_request v (edited_request dto r) db

-- The payload of a change of status.
pub record Payload : Type 0 where
  pub assigned_to : Option ℕ
  pub failure_reason : Option String
  pub note : Option String

abbrev pub past_due : Option ℕ → ℕ → Bool
past_due none now = false
past_due (some due) now = ltb due now

abbrev pub is_done : ServiceRequestStatus → Bool
is_done completed = true
is_done confirmed = true
is_done _ = false

-- The `switch`.
abbrev pub stamped : ServiceRequestStatus → Payload → ℕ → ServiceRequest → ServiceRequest
stamped accepted p now r = record r { accepted_at = some now }
stamped assigned p now r = record r { assigned_to = if_positive p.assigned_to r.assigned_to }
stamped in_progress p now r = record r { started_at = some now }
stamped completed p now r = record r {
  completed_at = some now;
  is_sla_breached = r.is_sla_breached || past_due r.sla_due_at now;
}
stamped confirmed p now r = record r { confirmed_at = some now }
stamped failed p now r = record r {
  failure_reason = some (or_else p.failure_reason "Dịch vụ gặp sự cố không hoàn tất");
}
stamped cancelled p now r = record r { note = if_text p.note r.note }
stamped pending p now r = r

unfoldable pub moved_request : ServiceRequestStatus → Payload → ℕ → ServiceRequest → ServiceRequest
moved_request target p now r =
    let late = past_due r.sla_due_at now && not (is_done target) in
    let r1 =
      stamped target p now
        (record r { is_sla_breached = r.is_sla_breached || late; status = target }) in
    record r1 { note = if_text p.note r1.note; assigned_to = if_given p.assigned_to r1.assigned_to }

unfoldable pub update_service_request_status :
    Services
    → ℕ
    → ServiceRequestStatus
    → Payload
    → ℕ
    → ServicesDb
    → Result ServiceError (ServiceRequest × ServicesDb)
unfolding moved_request
update_service_request_status v id target p now db =
    find_request v id db >>= λ r. save_request v (moved_request target p now r) db

pub record CreateServiceRecoveryLogDto : Type 0 where
  pub service_request_id : Option ℕ
  pub booking_id : ℕ
  pub reported_by : ℕ
  pub recovery_type : RecoveryType
  pub reason : String
  pub action_taken : String
  pub cost_incurred : Option ℕ

-- The request of a recovery fails, if it is given and found.
abbrev pub fail_request :
    Services → CreateServiceRecoveryLogDto → Option ℕ → ServicesDb → ServicesDb
fail_request v dto none db = db
fail_request v dto (some zero) db = db
fail_request v dto (some (suc n)) db =
    elim (v.request_repo.find_one (has_request_id (suc n)) db.requests) [
      | none ↦ db
      | some r ↦ record db {
        requests =
            v.request_repo.save
              (record r {
                status = failed;
                recovery_action = some (of_recovery dto.recovery_type dto.action_taken);
                recovery_cost = some (or_else dto.cost_incurred 0);
              })
              db.requests;
      }
    ]

unfoldable pub create_recovery_log :
    Services → CreateServiceRecoveryLogDto → ServicesDb → ServiceRecoveryLog × ServicesDb
create_recovery_log v dto db =
    let log : ServiceRecoveryLog = record {
      id = v.recovery_repo.next_id db.recoveries;
      service_request_id = dto.service_request_id;
      booking_id = dto.booking_id;
      reported_by = dto.reported_by;
      approved_by = none;
      recovery_type = dto.recovery_type;
      reason = dto.reason;
      action_taken = dto.action_taken;
      cost_incurred = or_else dto.cost_incurred 0;
      approved_at = none;
      status = RecoveryStatus.pending;
    } in
    (
      log,
      fail_request v dto dto.service_request_id
          (record db { recoveries = v.recovery_repo.insert log db.recoveries }),
    )

-- `approves` says that the decision is APPROVED.
unfoldable pub approve_recovery_log :
    Services → ℕ → ℕ → Bool → ServicesDb → Result ServiceError (ServiceRecoveryLog × ServicesDb)
approve_recovery_log v id approver approves db =
    or_throw (v.recovery_repo.find_one (λ l. l.id == id) db.recoveries) recovery_not_found >>= λ l.
    let l' = record l {
      approved_by = some approver;
      status = if approves then approved else rejected;
    } in
    ok (l', record db { recoveries = v.recovery_repo.save l' db.recoveries })
