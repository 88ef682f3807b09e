-- ===== src/Booking/Model.antt =====
-- backend/src/bookings/entities, backend/src/rooms/entities/room.entity.ts and the DTOs of a booking:
-- the rows that the booking service reads and writes, and how a transaction runs over them.
use cg_traveleke_service.Base.{ℕ, Bool, Option, List, String, Result, ok, err}
use cg_traveleke_service.Database.Errors.{DatabaseError}
use cg_traveleke_service.Database.Repo.{Repo, list_repo}

pub data BookingStatus : Type 0 where
  pending confirmed rejected checked_in completed cancelled : BookingStatus

unfoldable pub BookingStatus-discrete : Discrete BookingStatus
BookingStatus-discrete = hlevel

-- What `Number(…)` makes of a decimal column: NaN, a negative amount, or an amount of hundredths.
pub data Price : Type 0 where
  nan : Price
  negative : ℕ → Price
  cents : ℕ → Price

-- The texts that the service composes, by what it puts into them.
pub data Note : Type 0 where
  given : String → Note
  assigned_vip : String → String → ℕ → ℕ → ℕ → Note
  assigned_standard : String → String → ℕ → Note
  reassigned_to : String → Note
  reassigned : Option ℕ → String → ℕ → Option String → Note

pub data AssignmentType : Type 0 where
  automatic manual : AssignmentType

pub data RoomStatus : Type 0 where
  available unavailable maintenance : RoomStatus

-- A rating is a number of hundredths, a time of day its text, and a slug the list of its code points.
pub record Room : Type 0 where
  pub id : ℕ
  pub hotel_id : ℕ
  pub name : String
  pub slug : List ℕ
  pub description : Option String
  pub price_per_night : Price
  pub check_in_time : String
  pub check_out_time : String
  pub max_adults : ℕ
  pub max_children : ℕ
  pub total_rooms : ℕ
  pub available_rooms : ℕ
  pub bed_count : ℕ
  pub bed_type : String
  pub room_size : Option ℕ
  pub rating : ℕ
  pub review_count : ℕ
  pub cover_image_url : Option String
  pub status : RoomStatus
  pub deleted : Bool

pub record Booking : Type 0 where
  pub id : ℕ
  pub booking_code : String
  pub user_id : ℕ
  pub hotel_id : ℕ
  pub trip_plan_id : Option ℕ
  pub handled_by : Option ℕ
  pub assignment_type : AssignmentType
  pub assignment_note : Option Note
  pub reassigned_at : Option ℕ
  pub reassigned_by : Option ℕ
  pub contact_name : String
  pub contact_email : String
  pub contact_phone : String
  pub check_in_at : ℕ
  pub check_out_at : ℕ
  pub total_guests : ℕ
  pub requested_room_count : ℕ
  pub estimated_total : ℕ
  pub status : BookingStatus
  pub special_request : Option String
  pub confirmed_at : Option ℕ
  pub rejected_at : Option ℕ
  pub cancelled_at : Option ℕ

pub record BookingRoom : Type 0 where
  pub id : ℕ
  pub booking_id : ℕ
  pub room_id : ℕ
  pub quantity : ℕ
  pub price_per_night : ℕ
  pub nights : ℕ
  pub subtotal : ℕ

pub record BookingStatusLog : Type 0 where
  pub id : ℕ
  pub booking_id : ℕ
  pub changed_by : ℕ
  pub old_status : Option BookingStatus
  pub new_status : BookingStatus
  pub note : Option Note

pub record CreateBookingDto : Type 0 where
  pub room_id : ℕ
  pub user_id : ℕ
  pub check_in_at : String
  pub check_out_at : String
  pub total_guests : ℕ
  pub room_count : ℕ
  pub contact_name : String
  pub contact_email : String
  pub contact_phone : String
  pub special_request : Option String
  pub idempotency_key : Option String

pub record Db : Type 0 where
  pub rooms : List Room
  pub bookings : List Booking
  pub booking_rooms : List BookingRoom
  pub status_logs : List BookingStatusLog

-- What the service throws.
pub data BookingError : Type 0 where
  room_not_found : BookingError
  invalid_dates : BookingError
  check_out_not_after_check_in : BookingError
  too_few_nights : BookingError
  only_left : ℕ → BookingError
  invalid_price : BookingError
  sold_out : String → BookingError
  booking_not_found : BookingError
  bad_transition : BookingStatus → BookingStatus → BookingError
  guest_checked_in : BookingError
  booking_closed : BookingStatus → BookingError
  staff_not_found : BookingError
  customer_as_staff : BookingError
  database : DatabaseError → BookingError

-- The repositories of the tables.
pub record Orm : Type 0 where
  pub room_repo : Repo Room (λ r. r.id)
  pub booking_repo : Repo Booking (λ b. b.id)
  pub booking_room_repo : Repo BookingRoom (λ b. b.id)
  pub status_log_repo : Repo BookingStatusLog (λ l. l.id)

abbrev pub list_orm : Orm
list_orm = record {
  room_repo = list_repo (λ r. r.id);
  booking_repo = list_repo (λ b. b.id);
  booking_room_repo = list_repo (λ b. b.id);
  status_log_repo = list_repo (λ l. l.id);
}

-- A transaction's callback over the tables; what it leaves after a throw is rolled back.
abbrev pub Tx : Type 0 → Type 0
Tx A = Db → Result BookingError A × Db

abbrev pub pure : {A : Type 0} → A → Tx A
pure a db = (ok a, db)

abbrev pub throw : {A : Type 0} → BookingError → Tx A
throw e db = (err e, db)

abbrev pub continue :
    {A B : Type 0} → Result BookingError A × Db → (A → Tx B) → Result BookingError B × Db
continue (ok a, db) f = f a db
continue (err e, db) f = (err e, db)

infixl 5 ◌>>=◌ ◌>>◌
abbrev pub ◌>>=◌ : {A B : Type 0} → Tx A → (A → Tx B) → Tx B
◌>>=◌ m f db = continue (m db) f

abbrev pub ◌>>◌ : {B : Type 0} → Tx (Unit {0}) → Tx B → Tx B
m >> k = m >>= λ _. k

-- Read, and write, the tables.
abbrev pub get : Tx Db
get db = (ok db, db)

abbrev pub put : Db → Tx (Unit {0})
put db' db = (ok tt, db')
