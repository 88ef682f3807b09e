-- ===== src/Catalogue/Rooms/Created.antt =====
-- backend/src/rooms/rooms.service.ts: how `create` ends.
use cg_traveleke_service.Base.{map, ◌++◌, select, ℕ, false, none, List, ◌≡◌, Result, ok, err, count}
use cg_traveleke_service.Booking.Model.{Room}
use cg_traveleke_service.Catalogue.Album.{digits, add_cover}
use cg_traveleke_service.Catalogue.Album.History.{Serves}
use cg_traveleke_service.Catalogue.Rooms.Model.{
  CreateRoomDto, RoomServiceAssignment, RoomError, RoomServices, room_album, RoomDb,
}
use cg_traveleke_service.Catalogue.Rooms.Service.{
  has_room_slug, new_total, new_available, services_to_assign,
}
use cg_traveleke_service.Catalogue.Rooms.Changes.{of_room}
use cg_traveleke_service.Catalogue.Rooms.Kept.{InStock}

-- The services of the rows of a room, in the order of the rows.
abbrev pub services_of : ℕ → List RoomServiceAssignment → List ℕ
services_of i rows = map (λ a. a.service_id) (select (of_room i) rows)

module _ (v : RoomServices) (dto : CreateRoomDto) (db : RoomDb) where
  -- What `create` knows of the room when it saves it.
  pub record IsNew (r : Room) : Type 0 where
    pub in_stock : InStock r
    pub free_slug : count (has_room_slug v r.hotel_id none r.slug) db.gallery.owners ≡ 0
    pub fresh_id : r.id ≡ v.room_repo.next_id db.gallery.owners
    pub kept : r.deleted ≡ false
    pub its_hotel : r.hotel_id ≡ dto.hotel_id
    pub its_name : r.name ≡ v.hotels.trim dto.name
    pub its_price : r.price_per_night ≡ dto.price_per_night
    pub its_total : r.total_rooms ≡ new_total dto
    pub its_offer : r.available_rooms ≡ new_available dto

  abbrev with_cover : Room → RoomDb
  with_cover r = record db {
    gallery =
        add_cover (room_album v) "Ảnh đại diện phòng" r
          (record db.gallery { owners = v.room_repo.insert r db.gallery.owners });
  }

  -- The room is there and has an album.
  abbrev pub IsStored : Room → RoomDb → Type 0
  IsStored r db' = IsNew r × Serves (room_album v) (digits r.id) db'.gallery

  pub data Ended : Result RoomError Room × RoomDb → Type 0 where
    refused : (e : RoomError) → Ended (err e, db)
    without_services :
        (e : RoomError) (r : Room) (db' : RoomDb)
        → IsStored r db'
        → db'.assignments ≡ db.assignments
        → Ended (err e, db')
    created :
        (r : Room) (db' : RoomDb)
        → IsStored r db'
        → services_of r.id db'.assignments
          ≡ services_of r.id db.assignments ++ services_to_assign v dto.service_ids db
        → Ended (ok r, db')
