-- ===== src/Catalogue/Hotels/Service.antt =====
-- backend/src/hotels/hotels.service.ts: `HotelsService`.
use cg_traveleke_service.Base.{
  ℕ, ◌==◌, Bool, true, false, not, ◌&&◌, Option, none, some, List, String, Result, ok, err, or_else,
  length, codes, ◌>>=◌,
}
use cg_traveleke_service.Catalogue.Fields.{or_null, assign, replace, tidy}
use cg_traveleke_service.Catalogue.Slug.{
  SlugResult, no_slug, endless, unique, normalize_slug, build_unique_slug,
}
use cg_traveleke_service.Catalogue.Slug.Unique.{any}
use cg_traveleke_service.Catalogue.Album.{
  Image, AddImageDto, IdText, AlbumError, find_owner, add_cover, add_images, get_images,
  set_primary_image, delete_image,
}
use cg_traveleke_service.Catalogue.Hotels.Model.{
  draft, Hotel, CreateHotelDto, UpdateHotelDto, HotelError, album, no_hotel_slug,
  slug_search_endless, rethrow_database_error, HotelServices, hotel_album, HotelDb,
}

-- `slug = :slug`, with `id <> :ignoreId` if there is one to ignore.
abbrev pub ignored : Option ℕ → Hotel → Bool
ignored none h = false
ignored (some i) h = h.id == i

abbrev pub has_hotel_slug : HotelServices → Option ℕ → List ℕ → Hotel → Bool
has_hotel_slug v ignore s h = v.same_slug h.slug s && not (ignored ignore h)

abbrev pub or_slug_error : SlugResult → Result HotelError (List ℕ)
or_slug_error no_slug = err no_hotel_slug
or_slug_error endless = err slug_search_endless
or_slug_error (unique s) = ok s

-- `buildUniqueSlug`, which asks for the deleted rows too.
unfoldable pub hotel_slug : HotelServices → String → Option ℕ → HotelDb → Result HotelError (List ℕ)
unfolding normalize_slug build_unique_slug
hotel_slug v value ignore db = or_slug_error (
    build_unique_slug (λ s. any (has_hotel_slug v ignore s) db.owners) v.number_text
      (length db.owners) (normalize_slug v.plain 210 (codes value)))

unfoldable pub new_hotel : HotelServices → CreateHotelDto → List ℕ → List Hotel → Hotel
new_hotel v dto slug hotels = record {
  id = v.hotel_repo.next_id hotels;
  hotel_type_id = dto.hotel_type_id;
  location_id = dto.location_id;
  created_by = none;
  name = v.trim dto.name;
  slug = slug;
  description = tidy v.trim dto.description;
  star_rating = or_null dto.star_rating;
  address = v.trim dto.address;
  latitude = or_null dto.latitude;
  longitude = or_null dto.longitude;
  phone = tidy v.trim dto.phone;
  email = tidy (λ e. v.to_lower (v.trim e)) dto.email;
  check_in_time = or_else dto.check_in_time "14:00:00";
  check_out_time = or_else dto.check_out_time "12:00:00";
  cover_image_url = tidy v.trim dto.cover_image_url;
  status = or_else dto.status draft;
  deleted = false;
}

unfoldable pub create_hotel :
    HotelServices → CreateHotelDto → HotelDb → Result HotelError (Hotel × HotelDb)
unfolding hotel_slug new_hotel add_cover rethrow_database_error
create_hotel v dto db = hotel_slug v (or_else dto.slug dto.name) none db >>= λ slug.
    let h = new_hotel v dto slug db.owners in
    elim (v.refuses h db.owners) [
      | some f ↦ err (rethrow_database_error f)
      | none ↦ ok (
        h,
        add_cover (hotel_album v) "Ảnh đại diện chính" h
            (record db { owners = v.hotel_repo.insert h db.owners }),
      )
    ]

abbrev pub album_result : {A : Type 0} → Result AlbumError A → Result HotelError A
album_result (ok a) = ok a
album_result (err e) = err (album e)

-- `findOne`; the pictures that it adds are those of `get_images`.
unfoldable pub find_hotel : HotelServices → IdText → HotelDb → Result HotelError Hotel
unfolding find_owner
find_hotel v id db = album_result (find_owner (hotel_album v) id db)

-- The slug after an update, built only if one is given.
abbrev pub slug_after : HotelServices → Option String → Hotel → HotelDb → Result HotelError (List ℕ)
slug_after v none h db = ok h.slug
slug_after v (some s) h db = hotel_slug v s (some h.id) db

unfoldable pub changed_hotel : HotelServices → UpdateHotelDto → List ℕ → Hotel → Hotel
changed_hotel v dto slug h = record {
  id = h.id;
  hotel_type_id = replace (λ n. n) dto.hotel_type_id h.hotel_type_id;
  location_id = replace (λ n. n) dto.location_id h.location_id;
  created_by = h.created_by;
  name = replace v.trim dto.name h.name;
  slug = slug;
  description = assign v.trim dto.description h.description;
  star_rating = assign (λ n. n) dto.star_rating h.star_rating;
  address = replace v.trim dto.address h.address;
  latitude = assign (λ n. n) dto.latitude h.latitude;
  longitude = assign (λ n. n) dto.longitude h.longitude;
  phone = assign v.trim dto.phone h.phone;
  email = assign (λ e. v.to_lower (v.trim e)) dto.email h.email;
  check_in_time = replace (λ n. n) dto.check_in_time h.check_in_time;
  check_out_time = replace (λ n. n) dto.check_out_time h.check_out_time;
  cover_image_url = assign v.trim dto.cover_image_url h.cover_image_url;
  status = replace (λ n. n) dto.status h.status;
  deleted = h.deleted;
}

unfoldable pub update_hotel :
    HotelServices → IdText → UpdateHotelDto → HotelDb → Result HotelError (Hotel × HotelDb)
unfolding hotel_slug find_hotel changed_hotel rethrow_database_error
update_hotel v id dto db = find_hotel v id db >>= λ h. slug_after v dto.slug h db >>= λ slug.
    let h' = changed_hotel v dto slug h in
    elim (v.refuses h' db.owners) [
      | some f ↦ err (rethrow_database_error f)
      | none ↦ ok (h', record db { owners = v.hotel_repo.save h' db.owners })
    ]

-- `remove`, a soft deletion.
unfoldable pub remove_hotel : HotelServices → IdText → HotelDb → Result HotelError HotelDb
unfolding find_hotel
remove_hotel v id db = find_hotel v id db >>= λ h. ok (record db {
  owners = v.hotel_repo.update (λ x. x.id == h.id) (λ x. record x { deleted = true }) db.owners;
})

-- The album of a hotel.
unfoldable pub add_hotel_images :
    HotelServices → IdText → List AddImageDto → HotelDb → Result AlbumError (Unit {0}) × HotelDb
unfolding add_images
add_hotel_images v = add_images (hotel_album v)

unfoldable pub get_hotel_images :
    HotelServices → IdText → HotelDb → Result AlbumError (List Image × HotelDb)
unfolding get_images
get_hotel_images v = get_images (hotel_album v)

unfoldable pub set_primary_hotel_image :
    HotelServices → IdText → ℕ → HotelDb → Result AlbumError HotelDb
unfolding set_primary_image
set_primary_hotel_image v = set_primary_image (hotel_album v)

unfoldable pub delete_hotel_image : HotelServices → IdText → ℕ → HotelDb → Result AlbumError HotelDb
unfolding delete_image
delete_hotel_image v = delete_image (hotel_album v)
