-- ===== src/Catalogue/Rooms/Changes.antt =====
-- backend/src/rooms/rooms.service.ts: `update`, `remove` and the album of a room.
use cg_traveleke_service.Base.{
  ℕ, ◌==◌, leb, Bool, true, not, Option, none, some, List, [], ◌∷◌, String, Result, ok, err,
  throw_if, ◌>>=◌, ◌>>◌,
}
use cg_traveleke_service.Booking.Model.{Room}
use cg_traveleke_service.Catalogue.Fields.{assign, replace}
use cg_traveleke_service.Catalogue.Album.{
  Image, AddImageDto, IdText, AlbumError, Gallery, find_owner, add_images, get_images,
  set_primary_image, delete_image,
}
use cg_traveleke_service.Catalogue.Hotels.Service.{find_hotel}
use cg_traveleke_service.Catalogue.Rooms.Model.{
  UpdateRoomDto, RoomServiceAssignment, RoomError, too_many_available, failed,
  rethrow_database_error, RoomServices, room_album, RoomDb,
}
use cg_traveleke_service.Catalogue.Rooms.Service.{
  id_text, hotel_result, album_result, room_slug, save_assignments,
}

-- `findOne`; the pictures and services that it adds are not read.
unfoldable pub find_room : RoomServices → IdText → RoomDb → Result RoomError Room
unfolding find_owner
find_room v id db = album_result (find_owner (room_album v) id db.gallery)

-- The hotel after an update, which must exist if one is given.
abbrev pub hotel_after : RoomServices → Option ℕ → Room → RoomDb → Result RoomError ℕ
hotel_after v none r db = ok r.hotel_id
hotel_after v (some h) r db = hotel_result (find_hotel v.hotels (id_text h) db.hotels) >>= λ _. ok h

-- The slug after an update, looked for in the new hotel.
abbrev pub slug_after : RoomServices → Option String → ℕ → Room → RoomDb → Result RoomError (List ℕ)
slug_after v none hotel_id r db = ok r.slug
slug_after v (some s) hotel_id r db = room_slug v s hotel_id (some r.id) db.gallery.owners

unfoldable pub changed_room : RoomServices → UpdateRoomDto → ℕ → List ℕ → Room → Room
changed_room v dto hotel_id slug r = record {
  id = r.id;
  hotel_id = hotel_id;
  name = replace v.hotels.trim dto.name r.name;
  slug = slug;
  description = assign v.hotels.trim dto.description r.description;
  price_per_night = replace (λ p. p) dto.price_per_night r.price_per_night;
  check_in_time = replace (λ t. t) dto.check_in_time r.check_in_time;
  check_out_time = replace (λ t. t) dto.check_out_time r.check_out_time;
  max_adults = replace (λ n. n) dto.max_adults r.max_adults;
  max_children = replace (λ n. n) dto.max_children r.max_children;
  total_rooms = replace (λ n. n) dto.total_rooms r.total_rooms;
  available_rooms = replace (λ n. n) dto.available_rooms r.available_rooms;
  bed_count = replace (λ n. n) dto.bed_count r.bed_count;
  bed_type = replace v.hotels.trim dto.bed_type r.bed_type;
  room_size = assign (λ n. n) dto.room_size r.room_size;
  rating = replace (λ n. n) dto.rating r.rating;
  review_count = replace (λ n. n) dto.review_count r.review_count;
  cover_image_url = assign v.hotels.trim dto.cover_image_url r.cover_image_url;
  status = replace (λ s. s) dto.status r.status;
  deleted = r.deleted;
}

-- The part of `update` before the first write.
unfoldable pub checked_change :
    RoomServices → IdText → UpdateRoomDto → RoomDb → Result RoomError Room
unfolding find_room find_hotel room_slug changed_room
checked_change v id dto db = find_room v id db >>= λ r.
    hotel_after v dto.hotel_id r db >>= λ hotel_id. slug_after v dto.slug hotel_id r db >>= λ slug.
    let r' = changed_room v dto hotel_id slug r in
    throw_if (not (leb r'.available_rooms r'.total_rooms)) too_many_available >> ok r'

abbrev pub of_room : ℕ → RoomServiceAssignment → Bool
of_room i a = a.room_id == i

-- The old services go, and the given ones come, if the database takes them. A refusal is thrown as it is.
unfoldable pub assign_services :
    RoomServices → Option (List ℕ) → ℕ → RoomDb → Result RoomError (Unit {0}) × RoomDb
unfolding save_assignments
assign_services v none room_id db = (ok tt, db)
assign_services v (some []) room_id db =
    (ok tt, record db { assignments = v.assignment_repo.delete (of_room room_id) db.assignments })
assign_services v (some (s ∷ ss)) room_id db =
    let left = v.assignment_repo.delete (of_room room_id) db.assignments in
    elim (v.refuses_services (s ∷ ss)) [
      | some f ↦ (err (failed f), record db { assignments = left })
      | none ↦ (ok tt, record db { assignments = save_assignments v room_id (s ∷ ss) left })
    ]

-- The room is saved last, as it was read and changed.
abbrev pub save_room :
    RoomServices → Room → Result RoomError (Unit {0}) × RoomDb → Result RoomError Room × RoomDb
save_room v r (err e, db) = (err e, db)
save_room v r (ok _, db) = elim (v.refuses r db.gallery.owners) [
  | some f ↦ (err (rethrow_database_error f), db)
  | none ↦ (
    ok r,
    record db { gallery = record db.gallery { owners = v.room_repo.save r db.gallery.owners } },
  )
]

-- The writes of `update`, of a room that was read earlier.
unfoldable pub store_change :
    RoomServices → Option (List ℕ) → Room → RoomDb → Result RoomError Room × RoomDb
unfolding assign_services rethrow_database_error
store_change v services r db = save_room v r (assign_services v services r.id db)

unfoldable pub update_room :
    RoomServices → IdText → UpdateRoomDto → RoomDb → Result RoomError Room × RoomDb
unfolding checked_change store_change
update_room v id dto db = elim (checked_change v id dto db) [
  | err e ↦ (err e, db)
  | ok r ↦ store_change v dto.service_ids r db
]

-- `remove`, a soft deletion.
unfoldable pub remove_room : RoomServices → IdText → RoomDb → Result RoomError RoomDb
unfolding find_room
remove_room v id db = find_room v id db >>= λ r. ok (record db {
  gallery = record db.gallery {
    owners =
        v.room_repo.update (λ x. x.id == r.id) (λ x. record x { deleted = true }) db.gallery.owners;
  };
})

-- The album of a room.
unfoldable pub add_room_images :
    RoomServices
    → IdText
    → List AddImageDto
    → Gallery Room
    → Result AlbumError (Unit {0}) × Gallery Room
unfolding add_images
add_room_images v = add_images (room_album v)

unfoldable pub get_room_images :
    RoomServices → IdText → Gallery Room → Result AlbumError (List Image × Gallery Room)
unfolding get_images
get_room_images v = get_images (room_album v)

unfoldable pub set_primary_room_image :
    RoomServices → IdText → ℕ → Gallery Room → Result AlbumError (Gallery Room)
unfolding set_primary_image
set_primary_room_image v = set_primary_image (room_album v)

unfoldable pub delete_room_image :
    RoomServices → IdText → ℕ → Gallery Room → Result AlbumError (Gallery Room)
unfolding delete_image
delete_room_image v = delete_image (room_album v)
