-- ===== src/Catalogue/Fixtures.antt =====
-- A hotel with a room, for the tests of the catalogue.
use cg_traveleke_service.Base.{
  ℕ, zero, suc, ◌==◌, Bool, true, false, ◌&&◌, none, some, List, [], ◌∷◌,
}
use cg_traveleke_service.Database.Repo.{list_repo}
use cg_traveleke_service.Booking.Model.{cents}
use cg_traveleke_service.Booking.Fixtures.{suite}
use cg_traveleke_service.Catalogue.Fields.{missing, given}
use cg_traveleke_service.Catalogue.Offers.{RoomService, add_on, active}
use cg_traveleke_service.Catalogue.Album.{AddImageDto}
use cg_traveleke_service.Catalogue.Hotels.Model.{
  Hotel, draft, CreateHotelDto, HotelServices, HotelDb,
}
use cg_traveleke_service.Catalogue.Rooms.Model.{CreateRoomDto, UpdateRoomDto, RoomServices, RoomDb}

abbrev pub same_codes : List ℕ → List ℕ → Bool
same_codes [] [] = true
same_codes [] (d ∷ ds) = false
same_codes (c ∷ cs) [] = false
same_codes (c ∷ cs) (d ∷ ds) = c == d && same_codes cs ds

-- The text of a number, as that many ones.
abbrev pub ones : ℕ → List ℕ
ones zero = []
ones (suc n) = b'1' ∷ ones n

abbrev pub hotel_services : HotelServices
hotel_services = record {
  hotel_repo = list_repo (λ h. h.id);
  image_repo = list_repo (λ i. i.id);
  trim = λ s. s;
  to_lower = λ s. s;
  plain = λ cs. cs;
  number_text = ones;
  same_slug = same_codes;
  refuses = λ h hs. none;
}

abbrev pub room_services : RoomServices
room_services = record {
  hotels = hotel_services;
  room_repo = list_repo (λ r. r.id);
  image_repo = list_repo (λ i. i.id);
  assignment_repo = list_repo (λ a. a.id);
  offer_repo = list_repo (λ s. s.id);
  refuses = λ r rs. none;
  refuses_services = λ ids. none;
}

abbrev pub hotel_dto : CreateHotelDto
hotel_dto = record {
  hotel_type_id = 1;
  location_id = 2;
  name = "lotus";
  slug = none;
  description = missing;
  star_rating = given 4;
  address = "Hue";
  latitude = missing;
  longitude = missing;
  phone = missing;
  email = missing;
  check_in_time = none;
  check_out_time = none;
  cover_image_url = given "a.png";
  status = none;
}

abbrev pub lotus : Hotel
lotus = record {
  id = 1;
  hotel_type_id = 1;
  location_id = 2;
  created_by = none;
  name = "lotus";
  slug = b'l' ∷ [];
  description = none;
  star_rating = some 4;
  address = "Hue";
  latitude = none;
  longitude = none;
  phone = none;
  email = none;
  check_in_time = "14:00:00";
  check_out_time = "12:00:00";
  cover_image_url = none;
  status = draft;
  deleted = false;
}

abbrev pub hotels : HotelDb
hotels = record { owners = lotus ∷ []; images = [] }

abbrev pub breakfast : RoomService
breakfast = record {
  id = 3;
  category_id = 1;
  hotel_id = none;
  room_type_id = none;
  name = "breakfast";
  description = none;
  unit = "person";
  base_price = 0;
  is_complimentary = true;
  service_type = add_on;
  quota_per_booking = none;
  quota_per_night = none;
  max_quantity = none;
  sla_minutes = some 30;
  capacity_per_hour = none;
  lead_time_hours = 0;
  requires_approval = false;
  department_owner = none;
  status = active;
}

abbrev pub rooms_db : RoomDb
rooms_db = record {
  gallery = record { owners = suite ∷ []; images = [] };
  assignments = [];
  offers = breakfast ∷ [];
  hotels = hotels;
}

abbrev pub room_dto : CreateRoomDto
room_dto = record {
  hotel_id = 1;
  name = "twin";
  slug = none;
  description = missing;
  price_per_night = cents 500;
  check_in_time = none;
  check_out_time = none;
  max_adults = none;
  max_children = none;
  total_rooms = some 4;
  available_rooms = none;
  bed_count = none;
  bed_type = none;
  room_size = missing;
  rating = none;
  review_count = none;
  cover_image_url = given "twin.png";
  status = none;
  service_ids = none;
}

abbrev pub rename : UpdateRoomDto
rename = record {
  hotel_id = none;
  name = some "Garden suite";
  slug = none;
  description = missing;
  price_per_night = none;
  check_in_time = none;
  check_out_time = none;
  max_adults = none;
  max_children = none;
  total_rooms = none;
  available_rooms = none;
  bed_count = none;
  bed_type = none;
  room_size = missing;
  rating = none;
  review_count = none;
  cover_image_url = missing;
  status = none;
  service_ids = none;
}

abbrev pub photo : AddImageDto
photo = record { image_url = "b.png"; caption = none; sort_order = none; is_primary = true }
