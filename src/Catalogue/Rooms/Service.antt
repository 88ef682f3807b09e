-- ===== src/Catalogue/Rooms/Service.antt =====
-- backend/src/rooms/rooms.service.ts: `RoomsService`. The writes of a call are no transaction: what stands
-- before a throw stays.
use cg_traveleke_service.Base.{
  ℕ, zero, suc, ◌==◌, leb, Bool, true, false, not, ◌&&◌, Option, none, some, List, [], ◌∷◌, String,
  Result, ok, err, or_else, length, codes, map, throw_if, ◌>>=◌, ◌>>◌,
}
use cg_traveleke_service.Booking.Model.{Room, available}
use cg_traveleke_service.Catalogue.Fields.{or_null, tidy}
use cg_traveleke_service.Catalogue.Slug.{
  SlugResult, no_slug, endless, unique, normalize_slug, build_unique_slug,
}
use cg_traveleke_service.Catalogue.Slug.Unique.{any}
use cg_traveleke_service.Catalogue.Offers.{ServiceStatus, active, inactive}
use cg_traveleke_service.Catalogue.Album.{IdText, zero_text, digits, AlbumError, add_cover}
use cg_traveleke_service.Catalogue.Hotels.Model.{HotelError}
use cg_traveleke_service.Catalogue.Hotels.Service.{find_hotel}
use cg_traveleke_service.Catalogue.Rooms.Model.{
  CreateRoomDto, RoomServiceAssignment, RoomError, hotel, album, no_room_slug, slug_search_endless,
  too_many_available, rethrow_database_error, RoomServices, room_album, RoomDb,
}

-- `String(id)` of a number
abbrev pub id_text : ℕ → IdText
id_text zero = zero_text
id_text (suc n) = digits (suc n)

abbrev pub hotel_result : {A : Type 0} → Result HotelError A → Result RoomError A
hotel_result (ok a) = ok a
hotel_result (err e) = err (hotel e)

abbrev pub album_result : {A : Type 0} → Result AlbumError A → Result RoomError A
album_result (ok a) = ok a
album_result (err e) = err (album e)

-- The query of `buildUniqueSlug`: within one hotel, the deleted rooms too.
abbrev pub ignored : Option ℕ → Room → Bool
ignored none r = false
ignored (some i) r = r.id == i

abbrev pub has_room_slug : RoomServices → ℕ → Option ℕ → List ℕ → Room → Bool
has_room_slug v hotel_id ignore s r =
    r.hotel_id == hotel_id && v.hotels.same_slug r.slug s && not (ignored ignore r)

abbrev pub or_slug_error : SlugResult → Result RoomError (List ℕ)
or_slug_error no_slug = err no_room_slug
or_slug_error endless = err slug_search_endless
or_slug_error (unique s) = ok s

unfoldable pub room_slug :
    RoomServices → String → ℕ → Option ℕ → List Room → Result RoomError (List ℕ)
unfolding normalize_slug build_unique_slug
room_slug v value hotel_id ignore rooms = or_slug_error (
    build_unique_slug (λ s. any (has_room_slug v hotel_id ignore s) rooms) v.hotels.number_text
      (length rooms) (normalize_slug v.hotels.plain 170 (codes value)))

abbrev pub new_total : CreateRoomDto → ℕ
new_total dto = or_else dto.total_rooms 1

abbrev pub new_available : CreateRoomDto → ℕ
new_available dto = or_else dto.available_rooms (new_total dto)

unfoldable pub new_room : RoomServices → CreateRoomDto → List ℕ → List Room → Room
new_room v dto slug rooms = record {
  id = v.room_repo.next_id rooms;
  hotel_id = dto.hotel_id;
  name = v.hotels.trim dto.name;
  slug = slug;
  description = tidy v.hotels.trim dto.description;
  price_per_night = dto.price_per_night;
  check_in_time = or_else dto.check_in_time "14:00:00";
  check_out_time = or_else dto.check_out_time "12:00:00";
  max_adults = or_else dto.max_adults 2;
  max_children = or_else dto.max_children 0;
  total_rooms = new_total dto;
  available_rooms = new_available dto;
  bed_count = or_else dto.bed_count 1;
  bed_type = elim dto.bed_type [ none ↦ "Giường Đôi" | some b ↦ v.hotels.trim b ];
  room_size = or_null dto.room_size;
  rating = or_else dto.rating 500;
  review_count = or_else dto.review_count 0;
  cover_image_url = tidy v.hotels.trim dto.cover_image_url;
  status = or_else dto.status available;
  deleted = false;
}

-- The part of `create` before the first write.
unfoldable pub checked_room : RoomServices → CreateRoomDto → RoomDb → Result RoomError Room
unfolding find_hotel room_slug new_room
checked_room v dto db = hotel_result (find_hotel v.hotels (id_text dto.hotel_id) db.hotels) >>= λ _.
    room_slug v (or_else dto.slug dto.name) dto.hotel_id none db.gallery.owners >>= λ slug.
    throw_if (not (leb (new_available dto) (new_total dto))) too_many_available
    >> ok (new_room v dto slug db.gallery.owners)

abbrev pub is_active : ServiceStatus → Bool
is_active active = true
is_active inactive = false

-- The services to assign: those that are chosen, or else all that are free and active.
unfoldable pub services_to_assign : RoomServices → Option (List ℕ) → RoomDb → List ℕ
services_to_assign v (some (s ∷ ss)) db = s ∷ ss
services_to_assign v (some []) db =
    map (λ s. s.id) (v.offer_repo.find (λ s. s.is_complimentary && is_active s.status) db.offers)
services_to_assign v none db =
    map (λ s. s.id) (v.offer_repo.find (λ s. s.is_complimentary && is_active s.status) db.offers)

-- `rsaRepository.save(assignments)`, row by row.
unfoldable pub save_assignments :
    RoomServices → ℕ → List ℕ → List RoomServiceAssignment → List RoomServiceAssignment
save_assignments v room_id [] rows = rows
save_assignments v room_id (s ∷ ss) rows = save_assignments v room_id ss (
    v.assignment_repo.insert
      (record {
        id = v.assignment_repo.next_id rows;
        room_id = room_id;
        service_id = s;
        is_complimentary = true;
      })
      rows)

-- What is thrown if the database refuses the assignment; no service is assigned without a query.
abbrev pub services_refused : RoomServices → List ℕ → Option RoomError
services_refused v [] = none
services_refused v (s ∷ ss) = elim (v.refuses_services (s ∷ ss)) [
  | none ↦ none
  | some f ↦ some (rethrow_database_error f)
]

-- The part of `create` that writes.
unfoldable pub store_room :
    RoomServices → Option (List ℕ) → Room → RoomDb → Result RoomError Room × RoomDb
unfolding add_cover services_to_assign save_assignments rethrow_database_error
store_room v chosen r db = elim (v.refuses r db.gallery.owners) [
  | some f ↦ (err (rethrow_database_error f), db)
  | none ↦
      let inserted = record db.gallery { owners = v.room_repo.insert r db.gallery.owners } in
      let stored = record db {
        gallery = add_cover (room_album v) "Ảnh đại diện phòng" r inserted;
      } in
      let ids = services_to_assign v chosen stored in
      elim (services_refused v ids) [
        | some e ↦ (err e, stored)
        | none ↦
            (ok r, record stored { assignments = save_assignments v r.id ids stored.assignments })
      ]
]

unfoldable pub create_room : RoomServices → CreateRoomDto → RoomDb → Result RoomError Room × RoomDb
unfolding checked_room store_room
create_room v dto db = elim (checked_room v dto db) [
  | err e ↦ (err e, db)
  | ok r ↦ store_room v dto.service_ids r db
]
