-- ===== src/Catalogue/Offers.antt =====
-- backend/src/services/entities/room-service.entity.ts: what a hotel offers with its rooms. The relations
-- and the times of the row are left out.
use cg_traveleke_service.Base.{ℕ, Bool, Option, String}

pub data ServiceType : Type 0 where
  included add_on quota minibar operational : ServiceType

pub data ServiceStatus : Type 0 where
  active inactive : ServiceStatus

pub record RoomService : Type 0 where
  pub id : ℕ
  pub category_id : ℕ
  pub hotel_id : Option ℕ
  pub room_type_id : Option ℕ
  pub name : String
  pub description : Option String
  pub unit : String
  pub base_price : ℕ
  pub is_complimentary : Bool
  pub service_type : ServiceType
  pub quota_per_booking : Option ℕ
  pub quota_per_night : Option ℕ
  pub max_quantity : Option ℕ
  pub sla_minutes : Option ℕ
  pub capacity_per_hour : Option ℕ
  pub lead_time_hours : ℕ
  pub requires_approval : Bool
  pub department_owner : Option String
  pub status : ServiceStatus
