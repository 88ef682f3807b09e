-- ===== src/Catalogue/Hotels/Model.antt =====
-- backend/src/hotels/entities/hotel.entity.ts, the DTOs of backend/src/hotels/dto and what
-- backend/src/hotels/hotels.service.ts takes from outside. A coordinate is the text of a number.
use cg_traveleke_service.Base.{ℕ, ◌==◌, Bool, Option, List, String, if◌then◌else◌, refl}
use cg_traveleke_service.Database.Repo.{Repo}
use cg_traveleke_service.Catalogue.Fields.{Field}
use cg_traveleke_service.Catalogue.Album.{Image, AlbumError, Owner, Gallery, AlbumServices}

pub data HotelStatus : Type 0 where
  draft active inactive : HotelStatus

pub record Hotel : Type 0 where
  pub id : ℕ
  pub hotel_type_id : ℕ
  pub location_id : ℕ
  pub created_by : Option ℕ
  pub name : String
  pub slug : List ℕ
  pub description : Option String
  pub star_rating : Option ℕ
  pub address : String
  pub latitude : Option String
  pub longitude : Option String
  pub phone : Option String
  pub email : Option String
  pub check_in_time : String
  pub check_out_time : String
  pub cover_image_url : Option String
  pub status : HotelStatus
  pub deleted : Bool

pub record CreateHotelDto : Type 0 where
  pub hotel_type_id : ℕ
  pub location_id : ℕ
  pub name : String
  pub slug : Option String
  pub description : Field String
  pub star_rating : Field ℕ
  pub address : String
  pub latitude : Field String
  pub longitude : Field String
  pub phone : Field String
  pub email : Field String
  pub check_in_time : Option String
  pub check_out_time : Option String
  pub cover_image_url : Field String
  pub status : Option HotelStatus

pub record UpdateHotelDto : Type 0 where
  pub hotel_type_id : Option ℕ
  pub location_id : Option ℕ
  pub name : Option String
  pub slug : Option String
  pub description : Field String
  pub star_rating : Field ℕ
  pub address : Option String
  pub latitude : Field String
  pub longitude : Field String
  pub phone : Field String
  pub email : Field String
  pub check_in_time : Option String
  pub check_out_time : Option String
  pub cover_image_url : Field String
  pub status : Option HotelStatus

-- What a failed query says: its `errno`; another exception is passed on.
pub data SaveFailure : Type 0 where
  query_failed : ℕ → SaveFailure
  other : SaveFailure

pub data HotelError : Type 0 where
  album : AlbumError → HotelError
  no_hotel_slug : HotelError
  slug_search_endless : HotelError
  unknown_type_or_location : HotelError
  duplicate_hotel : HotelError
  failed : SaveFailure → HotelError

-- `rethrowDatabaseError`
unfoldable pub rethrow_database_error : SaveFailure → HotelError
rethrow_database_error other = failed other
rethrow_database_error (query_failed n) =
    if n == 1452
    then unknown_type_or_location
    else if n == 1062
    then duplicate_hotel
    else failed (query_failed n)

-- `MAX_HOTEL_IMAGES`
abbrev pub max_hotel_images : ℕ
max_hotel_images = 6

-- The hotel as the owner of its album.
abbrev pub hotel_owner : Owner Hotel
hotel_owner = record {
  id = λ h. h.id;
  deleted = λ h. h.deleted;
  cover = λ h. h.cover_image_url;
  set_cover = λ c h. record h { cover_image_url = c };
  id_lem = λ c h. refl;
  deleted_lem = λ c h. refl;
  cover_lem = λ c h. refl;
}

pub record HotelServices : Type 0 where
  pub hotel_repo : Repo Hotel (λ h. h.id)
  pub image_repo : Repo Image (λ i. i.id)
  pub trim : String → String
  pub to_lower : String → String
  -- see `normalize_slug`
  pub plain : List ℕ → List ℕ
  pub number_text : ℕ → List ℕ
  -- the collation of the column
  pub same_slug : List ℕ → List ℕ → Bool
  -- whether the database refuses a row
  pub refuses : Hotel → List Hotel → Option SaveFailure

abbrev pub hotel_album : HotelServices → AlbumServices Hotel
hotel_album v = record {
  owner = hotel_owner;
  owner_repo = v.hotel_repo;
  image_repo = v.image_repo;
  trim = v.trim;
  max_images = max_hotel_images;
}

abbrev pub HotelDb : Type 0
HotelDb = Gallery Hotel
