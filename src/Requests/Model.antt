-- ===== src/Requests/Model.antt =====
-- backend/src/services/entities and backend/src/services/dto, and what
-- backend/src/services/services.service.ts takes from outside. A date of a DTO is the moment that it says.
use cg_traveleke_service.Base.{ℕ, Bool, Option, none, some, List, String, if◌then◌else◌}
use cg_traveleke_service.Database.Repo.{Repo}
use cg_traveleke_service.Catalogue.Offers.{RoomService, ServiceType, ServiceStatus}
use text.Mathlib.Text.{◌==◌ as str_eq}

pub record ServiceCategory : Type 0 where
  pub id : ℕ
  pub code : String
  pub name : String
  pub description : Option String
  pub icon : Option String
  pub sort_order : ℕ
  pub status : ServiceStatus

pub data ServiceRequestStatus : Type 0 where
  pending accepted assigned in_progress completed confirmed failed cancelled : ServiceRequestStatus

pub data RecoveryType : Type 0 where
  complimentary waive upgrade compensation apology : RecoveryType

-- What a request says was done: a text, or the text that a recovery composes.
pub data RecoveryAction : Type 0 where
  typed : String → RecoveryAction
  of_recovery : RecoveryType → String → RecoveryAction

pub record ServiceRequest : Type 0 where
  pub id : ℕ
  pub booking_id : ℕ
  pub service_id : ℕ
  pub assigned_to : Option ℕ
  pub service_name : String
  pub unit_price : ℕ
  pub quantity : ℕ
  pub total_price : ℕ
  pub note : Option String
  pub scheduled_at : Option ℕ
  pub sla_due_at : Option ℕ
  pub is_sla_breached : Bool
  pub accepted_at : Option ℕ
  pub started_at : Option ℕ
  pub completed_at : Option ℕ
  pub confirmed_at : Option ℕ
  pub failure_reason : Option String
  pub recovery_action : Option RecoveryAction
  pub recovery_approved_by : Option ℕ
  pub recovery_cost : Option ℕ
  pub status : ServiceRequestStatus

pub data SnapshotStatus : Type 0 where
  active waived forfeited : SnapshotStatus

pub record BookingServiceSnapshot : Type 0 where
  pub id : ℕ
  pub booking_id : ℕ
  pub service_id : ℕ
  pub service_name : String
  pub service_type : ServiceType
  pub category_name : Option String
  pub unit : String
  pub base_price : ℕ
  pub is_complimentary : Bool
  pub quota_included : ℕ
  pub quota_used : ℕ
  pub quota_per_night : Option ℕ
  pub status : SnapshotStatus
  pub note : Option String

pub data RecoveryStatus : Type 0 where
  pending approved rejected : RecoveryStatus

pub record ServiceRecoveryLog : Type 0 where
  pub id : ℕ
  pub service_request_id : Option ℕ
  pub booking_id : ℕ
  pub reported_by : ℕ
  pub approved_by : Option ℕ
  pub recovery_type : RecoveryType
  pub reason : String
  pub action_taken : String
  pub cost_incurred : ℕ
  pub approved_at : Option ℕ
  pub status : RecoveryStatus

pub record ServicesDb : Type 0 where
  pub categories : List ServiceCategory
  pub offers : List RoomService
  pub requests : List ServiceRequest
  pub snapshots : List BookingServiceSnapshot
  pub recoveries : List ServiceRecoveryLog

pub record Services : Type 0 where
  pub category_repo : Repo ServiceCategory (λ c. c.id)
  pub offer_repo : Repo RoomService (λ s. s.id)
  pub request_repo : Repo ServiceRequest (λ r. r.id)
  pub snapshot_repo : Repo BookingServiceSnapshot (λ s. s.id)
  pub recovery_repo : Repo ServiceRecoveryLog (λ l. l.id)
  -- `code.toUpperCase().replace(/\s+/g, '_')`
  pub to_code : String → String

pub data ServiceError : Type 0 where
  category_not_found offer_not_found request_not_found recovery_not_found : ServiceError

-- `if (text) row.field = text`
abbrev pub if_text : Option String → Option String → Option String
if_text none old = old
if_text (some t) old = if str_eq t "" then old else some t

-- `if (field !== undefined) row.field = field`
abbrev pub if_given : {A : Type 0} → Option A → Option A → Option A
if_given none old = old
if_given (some a) old = some a
