-- ===== src/Catalogue/Rooms/Model.antt =====
-- The DTOs of backend/src/rooms/dto, backend/src/rooms/entities/room-service-assignment.entity.ts and what
-- backend/src/rooms/rooms.service.ts takes from outside. The entity of a room is that of the bookings.
use cg_traveleke_service.Base.{ℕ, ◌==◌, Bool, Option, List, String, if◌then◌else◌, refl}
use cg_traveleke_service.Database.Repo.{Repo}
use cg_traveleke_service.Booking.Model.{Room, RoomStatus, Price}
use cg_traveleke_service.Catalogue.Fields.{Field}
use cg_traveleke_service.Catalogue.Offers.{RoomService}
use cg_traveleke_service.Catalogue.Album.{Image, AlbumError, Owner, Gallery, AlbumServices}
use cg_traveleke_service.Catalogue.Hotels.Model.{
  SaveFailure, query_failed, other, HotelError, HotelServices, HotelDb,
}

-- `rating` is the number of hundredths that `toFixed(2)` writes.
pub record CreateRoomDto : Type 0 where
  pub hotel_id : ℕ
  pub name : String
  pub slug : Option String
  pub description : Field String
  pub price_per_night : Price
  pub check_in_time : Option String
  pub check_out_time : Option String
  pub max_adults : Option ℕ
  pub max_children : Option ℕ
  pub total_rooms : Option ℕ
  pub available_rooms : Option ℕ
  pub bed_count : Option ℕ
  pub bed_type : Option String
  pub room_size : Field ℕ
  pub rating : Option ℕ
  pub review_count : Option ℕ
  pub cover_image_url : Field String
  pub status : Option RoomStatus
  pub service_ids : Option (List ℕ)

pub record UpdateRoomDto : Type 0 where
  pub hotel_id : Option ℕ
  pub name : Option String
  pub slug : Option String
  pub description : Field String
  pub price_per_night : Option Price
  pub check_in_time : Option String
  pub check_out_time : Option String
  pub max_adults : Option ℕ
  pub max_children : Option ℕ
  pub total_rooms : Option ℕ
  pub available_rooms : Option ℕ
  pub bed_count : Option ℕ
  pub bed_type : Option String
  pub room_size : Field ℕ
  pub rating : Option ℕ
  pub review_count : Option ℕ
  pub cover_image_url : Field String
  pub status : Option RoomStatus
  pub service_ids : Option (List ℕ)

-- The columns that the service writes.
pub record RoomServiceAssignment : Type 0 where
  pub id : ℕ
  pub room_id : ℕ
  pub service_id : ℕ
  pub is_complimentary : Bool

pub data RoomError : Type 0 where
  hotel : HotelError → RoomError
  album : AlbumError → RoomError
  no_room_slug slug_search_endless too_many_available unknown_hotel duplicate_room : RoomError
  failed : SaveFailure → RoomError

-- `rethrowDatabaseError`
unfoldable pub rethrow_database_error : SaveFailure → RoomError
rethrow_database_error other = failed other
rethrow_database_error (query_failed n) =
    if n == 1452
    then unknown_hotel
    else if n == 1062
    then duplicate_room
    else failed (query_failed n)

-- `MAX_ROOM_IMAGES`
abbrev pub max_room_images : ℕ
max_room_images = 5

-- The room as the owner of its album.
abbrev pub room_owner : Owner Room
room_owner = record {
  id = λ r. r.id;
  deleted = λ r. r.deleted;
  cover = λ r. r.cover_image_url;
  set_cover = λ c r. record r { cover_image_url = c };
  id_lem = λ c r. refl;
  deleted_lem = λ c r. refl;
  cover_lem = λ c r. refl;
}

pub record RoomServices : Type 0 where
  -- what the hotels' service uses; the texts are handled alike
  pub hotels : HotelServices
  pub room_repo : Repo Room (λ r. r.id)
  pub image_repo : Repo Image (λ i. i.id)
  pub assignment_repo : Repo RoomServiceAssignment (λ a. a.id)
  pub offer_repo : Repo RoomService (λ s. s.id)
  -- whether the database refuses a row, or the assignment of services
  pub refuses : Room → List Room → Option SaveFailure
  pub refuses_services : List ℕ → Option SaveFailure

abbrev pub room_album : RoomServices → AlbumServices Room
room_album v = record {
  owner = room_owner;
  owner_repo = v.room_repo;
  image_repo = v.image_repo;
  trim = v.hotels.trim;
  max_images = max_room_images;
}

pub record RoomDb : Type 0 where
  pub gallery : Gallery Room
  pub assignments : List RoomServiceAssignment
  pub offers : List RoomService
  pub hotels : HotelDb
