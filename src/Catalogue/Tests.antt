-- ===== src/Catalogue/Tests.antt =====
-- Runs of the services of hotels and rooms on a hotel with a room.
use cg_traveleke_service.Base.{
  Perm, Ascending, select, some, ◌↔◌, ℕ, zero, suc, ◌+◌, ◌≤◌, ◌≡◌, refl, sym, ap, ◌∙◌, arith, none,
  List, [], ◌∷◌, true, false, sort, includes, fold_case, Result, ok, err, length, count, is_ok,
}
use cg_traveleke_service.Booking.Model.{list_orm, Room}
use cg_traveleke_service.Booking.Fixtures.{suite, empty_db, empty-IsConsistent}
use cg_traveleke_service.Booking.Placed.{placed, placed_db}
use cg_traveleke_service.Booking.Create.{place_booking}
use cg_traveleke_service.Booking.Assign.{auto_assign_hotel_staff, is_vip_room, standard_score}
use cg_traveleke_service.Booking.Inventory.{has_id, stock, held}
use cg_traveleke_service.Catalogue.Rooms.Model.{RoomError, RoomDb}
use cg_traveleke_service.Catalogue.Rooms.Stale.{overtaken_update-oversells}
use cg_traveleke_service.Catalogue.Slug.{build_unique_slug, unique}
use cg_traveleke_service.Catalogue.Slug.Unique.{
  any, candidate, IsFirstFree, build_unique_slug-IsFirstFree,
}
use cg_traveleke_service.Catalogue.Album.{AlbumError, orphaned_picture, digits, add_images}
use cg_traveleke_service.Catalogue.Album.History.{
  AlbumCall, answer, Serves, run_album, adds, chooses, deletes, run_album-Serves,
}
use cg_traveleke_service.Catalogue.Hotels.Model.{Hotel, HotelError, hotel_album, HotelDb}
use cg_traveleke_service.Catalogue.Hotels.Service.{has_hotel_slug, create_hotel}
use cg_traveleke_service.Catalogue.Hotels.Created.{create_hotel-Serves}
use cg_traveleke_service.Catalogue.Rooms.Service.{create_room}
use cg_traveleke_service.Catalogue.Rooms.Changes.{checked_change, store_change}
use cg_traveleke_service.Catalogue.Rooms.Kept.{
  AllInStock, creates, updates, pictures, run_rooms, run_rooms-InStock,
}
use text.Mathlib.Text.{◌==◌ as str_eq}
use cg_traveleke_service.Database.Repo.{list_repo}
use cg_traveleke_service.Pagination.Pages.{newer, pages_from}
use cg_traveleke_service.Catalogue.Search.{SearchServices, SearchHotelDto, hotel_wanted}
use cg_traveleke_service.Catalogue.Listed.{Wanted, hotel_page, search_hotels-Perm}
use cg_traveleke_service.Catalogue.Fixtures.{
  same_codes, ones, hotel_services, room_services, hotel_dto, lotus, hotels, rooms_db, room_dto,
  rename, photo,
}

same_codes-same : (a b : List ℕ) → same_codes a b ≡ true → a ≡ b
same_codes-same [] [] h = refl
same_codes-same [] (d ∷ ds) h = absurd (ground arith)
same_codes-same (c ∷ cs) [] h = absurd (ground arith)
same_codes-same (c ∷ cs) (d ∷ ds) h =
    let first : c ≡ d = ground arith in
    let later = same_codes-same cs ds (ground arith) in
    ap (λ x. x ∷ cs) first ∙ ap (λ xs. d ∷ xs) later

length-ones : (n : ℕ) → length (ones n) ≡ n
length-ones zero = refl
length-ones (suc n) = ap suc (length-ones n)

abbrev base : List ℕ
base = b'l' ∷ []

candidate_same : (i j : ℕ) → length (candidate ones base i) ≡ length (candidate ones base j) → i ≡ j
candidate_same zero zero h = refl
candidate_same zero (suc j) h = absurd (omega arith)
candidate_same (suc i) zero h = absurd (omega arith)
candidate_same (suc i) (suc j) h = omega (arith, length-ones (i + 2), length-ones (j + 2))

abbrev slugs : List (List ℕ)
slugs = base ∷ []

build_unique_slug-IsFirstFree_example :
    (s : List ℕ) × (build_unique_slug (λ c. any (same_codes c) slugs) ones (length slugs) base
      ≡ unique s)
    × IsFirstFree ones base (λ c. any (same_codes c) slugs) s
build_unique_slug-IsFirstFree_example =
    build_unique_slug-IsFirstFree ones base same_codes slugs
      (λ h. absurd (ground (arith, ap length h)))
      (λ r i j h k. candidate_same i j (
        ap length (same_codes-same (candidate ones base i) r h)
        ∙ sym (ap length (same_codes-same (candidate ones base j) r k))))

abbrev creating : Result HotelError (Hotel × HotelDb)
creating = create_hotel hotel_services hotel_dto hotels

abbrev the_created : Result HotelError (Hotel × HotelDb) → Hotel × HotelDb
the_created (ok a) = a
the_created (err e) = (lotus, hotels)

creating_lem : creating ≡ ok (the_created creating)
unfolding create_hotel
creating_lem = refl

create_hotel-Serves_example :
    Serves
      (hotel_album hotel_services)
      (digits (the_created creating).0.id)
      (the_created creating).1
    × (count (has_hotel_slug hotel_services none (the_created creating).0.slug) hotels.owners ≡ 0)
create_hotel-Serves_example =
    create_hotel-Serves hotel_services hotel_dto hotels (λ i. omega arith) refl
      (the_created creating).0 (the_created creating).1 creating_lem

abbrev filled : HotelDb
filled = (the_created creating).1

filled-Serves : Serves (hotel_album hotel_services) (digits 2) filled
unfolding create_hotel
filled-Serves = create_hotel-Serves_example.0

-- A first picture marked as the main one, and another behind it.
abbrev run_of_calls : List AlbumCall
run_of_calls = adds (photo ∷ record photo { is_primary = false } ∷ []) ∷ chooses 0 ∷ deletes 2 ∷ []

run_album-Serves_example :
    Serves
      (hotel_album hotel_services)
      (digits 2)
      (run_album (hotel_album hotel_services) (digits 2) run_of_calls filled)
run_album-Serves_example =
    run_album-Serves (hotel_album hotel_services) (digits 2) run_of_calls filled
      ((refl, tt), (tt, (tt, tt))) filled-Serves

-- A second picture that is marked as the main one: the call throws, and no picture is the main one.
abbrev two_marked : Result AlbumError (Unit {0}) × HotelDb
two_marked = answer (hotel_album hotel_services) (digits 2) (adds (photo ∷ photo ∷ [])) filled

two_marked_throws : two_marked.0 ≡ err orphaned_picture
unfolding answer add_images create_hotel
two_marked_throws = refl

two_marked_main : count (λ im. im.is_primary) two_marked.1.images ≡ 0
unfolding answer add_images create_hotel
two_marked_main = refl

creates_room : is_ok (create_room room_services room_dto rooms_db).0 ≡ true
unfolding create_room
creates_room = refl

run_rooms-InStock_example : AllInStock (
    run_rooms room_services
      (creates room_dto ∷ updates (digits 7) rename ∷ pictures (digits 8) (adds (photo ∷ [])) ∷ [])
      rooms_db)
run_rooms-InStock_example =
    run_rooms-InStock room_services
      (creates room_dto ∷ updates (digits 7) rename ∷ pictures (digits 8) (adds (photo ∷ [])) ∷ [])
      rooms_db (omega arith, tt)

-- The room is renamed while two of its three rooms are booked.
abbrev renamed : Room
renamed = record suite { name = "Garden suite" }

checked_rename : checked_change room_services (digits 7) rename rooms_db ≡ ok renamed
unfolding checked_change
checked_rename = refl

placed_row : 1 ≤ count (has_id 7) placed_db.rooms
unfolding place_booking auto_assign_hotel_staff sort is_vip_room includes fold_case standard_score
placed_row = omega arith

abbrev after_booking : RoomDb
after_booking = record rooms_db { gallery = record { owners = placed_db.rooms; images = [] } }

abbrev saving : Result RoomError Room × RoomDb
saving = store_change room_services none renamed after_booking

saving_lem : saving ≡ (ok renamed, saving.1)
unfolding store_change
saving_lem = refl

overtaken_update-oversells_example :
    stock 7 (record placed_db { rooms = saving.1.gallery.owners }) + held 7 empty_db
    ≡ stock 7 empty_db + held 7 placed_db
overtaken_update-oversells_example =
    overtaken_update-oversells room_services rename refl list_orm (digits 7) empty_db placed_db
      rooms_db after_booking saving.1 renamed renamed empty-IsConsistent refl checked_rename placed
      refl placed_row saving_lem

abbrev searching : SearchServices
searching = record {
  room_repo = list_repo (λ r. r.id);
  hotel_repo = list_repo (λ h. h.id);
  trim = λ s. s;
  like = λ t k. str_eq t k;
}

abbrev lotus_in_hue : SearchHotelDto
lotus_in_hue = record {
  keyword = some "lotus";
  location_id = some 2;
  hotel_type_id = none;
  star_rating = some 4;
  status = none;
  page = none;
  per_page = some 1;
}

-- Two hotels that pass, one that is deleted and one that is elsewhere.
abbrev searched : List Hotel
searched =
    lotus
    ∷ record lotus { id = 5; deleted = true }
    ∷ record lotus { id = 9 }
    ∷ record lotus { id = 10; location_id = 3 }
    ∷ []

search_hotels-Perm_example :
    Perm
      (pages_from (hotel_page searching lotus_in_hue searched) 2 0)
      (select (hotel_wanted searching lotus_in_hue) searched)
    × Ascending (newer (λ r. r.id)) (pages_from (hotel_page searching lotus_in_hue searched) 2 0)
    × ((h : Hotel)
        → (hotel_wanted searching lotus_in_hue h ≡ true) ↔ Wanted searching lotus_in_hue h)
search_hotels-Perm_example =
    search_hotels-Perm searching lotus_in_hue searched 0 refl (omega arith) 2 (omega arith)

two_found : length (select (hotel_wanted searching lotus_in_hue) searched) ≡ 2
two_found = refl
