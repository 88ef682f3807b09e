-- ===== src/Requests/Offered.antt =====
-- backend/src/services/services.service.ts: the categories and the services that are offered.
use cg_traveleke_service.Base.{
  ℕ, ◌==◌, Bool, true, false, Option, some, List, String, Result, ok, or_else, or_throw, ◌>>=◌,
}
use cg_traveleke_service.Catalogue.Offers.{RoomService, ServiceType, add_on, ServiceStatus, active}
use cg_traveleke_service.Requests.Model.{
  ServiceCategory, ServiceRequestStatus, pending, completed, ServicesDb, Services, ServiceError,
  category_not_found, offer_not_found, if_given,
}

pub record CreateServiceCategoryDto : Type 0 where
  pub code : String
  pub name : String
  pub description : Option String
  pub icon : Option String
  pub sort_order : Option ℕ

pub record UpdateServiceCategoryDto : Type 0 where
  pub name : Option String
  pub description : Option String
  pub icon : Option String
  pub sort_order : Option ℕ
  pub status : Option ServiceStatus

pub record CreateRoomServiceDto : Type 0 where
  pub category_id : ℕ
  pub hotel_id : Option ℕ
  pub room_type_id : Option ℕ
  pub name : String
  pub description : Option String
  pub unit : Option String
  pub base_price : Option ℕ
  pub is_complimentary : Option Bool
  pub service_type : Option ServiceType
  pub quota_per_booking : Option ℕ
  pub quota_per_night : Option ℕ
  pub max_quantity : Option ℕ
  pub sla_minutes : Option ℕ
  pub capacity_per_hour : Option ℕ
  pub lead_time_hours : Option ℕ
  pub requires_approval : Option Bool
  pub department_owner : Option String

pub record UpdateRoomServiceDto : Type 0 where
  pub name : Option String
  pub description : Option String
  pub unit : Option String
  pub base_price : Option ℕ
  pub is_complimentary : Option Bool
  pub service_type : Option ServiceType
  pub quota_per_booking : Option ℕ
  pub quota_per_night : Option ℕ
  pub max_quantity : Option ℕ
  pub sla_minutes : Option ℕ
  pub capacity_per_hour : Option ℕ
  pub lead_time_hours : Option ℕ
  pub requires_approval : Option Bool
  pub department_owner : Option String
  pub status : Option ServiceStatus

unfoldable pub get_category : Services → ℕ → ServicesDb → Result ServiceError ServiceCategory
get_category v id db =
    or_throw (v.category_repo.find_one (λ c. c.id == id) db.categories) category_not_found

unfoldable pub create_category :
    Services → CreateServiceCategoryDto → ServicesDb → ServiceCategory × ServicesDb
create_category v dto db =
    let c : ServiceCategory = record {
      id = v.category_repo.next_id db.categories;
      code = v.to_code dto.code;
      name = dto.name;
      description = dto.description;
      icon = dto.icon;
      sort_order = or_else dto.sort_order 0;
      status = active;
    } in
    (c, record db { categories = v.category_repo.insert c db.categories })

-- `Object.assign(cat, dto)`, of the fields that the request gives.
abbrev pub changed_category : UpdateServiceCategoryDto → ServiceCategory → ServiceCategory
changed_category dto c = record c {
  name = or_else dto.name c.name;
  description = if_given dto.description c.description;
  icon = if_given dto.icon c.icon;
  sort_order = or_else dto.sort_order c.sort_order;
  status = or_else dto.status c.status;
}

unfoldable pub update_category :
    Services
    → ℕ
    → UpdateServiceCategoryDto
    → ServicesDb
    → Result ServiceError (ServiceCategory × ServicesDb)
unfolding get_category
update_category v id dto db = get_category v id db >>= λ c.
    let c' = changed_category dto c in
    ok (c', record db { categories = v.category_repo.save c' db.categories })

unfoldable pub delete_category : Services → ℕ → ServicesDb → Result ServiceError ServicesDb
unfolding get_category
delete_category v id db = get_category v id db >>= λ c.
    ok (record db { categories = v.category_repo.delete (λ x. x.id == c.id) db.categories })

unfoldable pub get_room_service : Services → ℕ → ServicesDb → Result ServiceError RoomService
get_room_service v id db =
    or_throw (v.offer_repo.find_one (λ s. s.id == id) db.offers) offer_not_found

unfoldable pub new_room_service : Services → CreateRoomServiceDto → List RoomService → RoomService
new_room_service v dto offers = record {
  id = v.offer_repo.next_id offers;
  category_id = dto.category_id;
  hotel_id = dto.hotel_id;
  room_type_id = dto.room_type_id;
  name = dto.name;
  description = dto.description;
  unit = or_else dto.unit "lần";
  base_price = or_else dto.base_price 0;
  is_complimentary = or_else dto.is_complimentary false;
  service_type = or_else dto.service_type add_on;
  quota_per_booking = dto.quota_per_booking;
  quota_per_night = dto.quota_per_night;
  max_quantity = dto.max_quantity;
  sla_minutes = some (or_else dto.sla_minutes 30);
  capacity_per_hour = dto.capacity_per_hour;
  lead_time_hours = or_else dto.lead_time_hours 0;
  requires_approval = or_else dto.requires_approval false;
  department_owner = dto.department_owner;
  status = active;
}

unfoldable pub create_room_service :
    Services → CreateRoomServiceDto → ServicesDb → RoomService × ServicesDb
unfolding new_room_service
create_room_service v dto db =
    let s = new_room_service v dto db.offers in
    (s, record db { offers = v.offer_repo.insert s db.offers })

abbrev pub changed_room_service : UpdateRoomServiceDto → RoomService → RoomService
changed_room_service dto s = record s {
  name = or_else dto.name s.name;
  description = if_given dto.description s.description;
  unit = or_else dto.unit s.unit;
  base_price = or_else dto.base_price s.base_price;
  is_complimentary = or_else dto.is_complimentary s.is_complimentary;
  service_type = or_else dto.service_type s.service_type;
  quota_per_booking = if_given dto.quota_per_booking s.quota_per_booking;
  quota_per_night = if_given dto.quota_per_night s.quota_per_night;
  max_quantity = if_given dto.max_quantity s.max_quantity;
  sla_minutes = if_given dto.sla_minutes s.sla_minutes;
  capacity_per_hour = if_given dto.capacity_per_hour s.capacity_per_hour;
  lead_time_hours = or_else dto.lead_time_hours s.lead_time_hours;
  requires_approval = or_else dto.requires_approval s.requires_approval;
  department_owner = if_given dto.department_owner s.department_owner;
  status = or_else dto.status s.status;
}

unfoldable pub update_room_service :
    Services
    → ℕ
    → UpdateRoomServiceDto
    → ServicesDb
    → Result ServiceError (RoomService × ServicesDb)
unfolding get_room_service
update_room_service v id dto db = get_room_service v id db >>= λ s.
    let s' = changed_room_service dto s in
    ok (s', record db { offers = v.offer_repo.save s' db.offers })

unfoldable pub delete_room_service : Services → ℕ → ServicesDb → Result ServiceError ServicesDb
unfolding get_room_service
delete_room_service v id db = get_room_service v id db >>= λ s.
    ok (record db { offers = v.offer_repo.delete (λ x. x.id == s.id) db.offers })

pub record ServiceStats : Type 0 where
  pub total_categories : ℕ
  pub total_services : ℕ
  pub total_requests : ℕ
  pub pending_requests : ℕ
  pub completed_requests : ℕ
  pub breached_sla_requests : ℕ

abbrev pub is_active : ServiceStatus → Bool
is_active active = true
is_active _ = false

abbrev pub is_pending : ServiceRequestStatus → Bool
is_pending pending = true
is_pending _ = false

abbrev pub is_completed : ServiceRequestStatus → Bool
is_completed completed = true
is_completed _ = false

unfoldable pub get_service_stats : Services → ServicesDb → ServiceStats
get_service_stats v db = record {
  total_categories = v.category_repo.count_rows (λ c. is_active c.status) db.categories;
  total_services = v.offer_repo.count_rows (λ s. is_active s.status) db.offers;
  total_requests = v.request_repo.count_rows (λ r. true) db.requests;
  pending_requests = v.request_repo.count_rows (λ r. is_pending r.status) db.requests;
  completed_requests = v.request_repo.count_rows (λ r. is_completed r.status) db.requests;
  breached_sla_requests = v.request_repo.count_rows (λ r. r.is_sla_breached) db.requests;
}
