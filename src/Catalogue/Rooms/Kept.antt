-- ===== src/Catalogue/Rooms/Kept.antt =====
-- backend/src/rooms/rooms.service.ts: no call offers more rooms of a type than there are.
use cg_traveleke_service.Base.{
  ℕ, ◌≤◌, ◌==◌, leb, true, Option, none, some, List, [], ◌∷◌, ◌≡◌, refl, arith, String, Result, ok,
  err, or_else, All, All-append, All-map_where, Bool-cases, Option-cases, Result-cases, inl, inr,
  Yields, Yields-bind, Yields-ok,
}
use cg_traveleke_service.Booking.Model.{Room}
use cg_traveleke_service.Catalogue.Album.{IdText, Gallery, add_cover}
use cg_traveleke_service.Catalogue.Album.History.{AlbumCall, answer}
use cg_traveleke_service.Catalogue.Album.Owners.{answer-All, get_images-All}
use cg_traveleke_service.Catalogue.Hotels.Service.{find_hotel}
use cg_traveleke_service.Catalogue.Rooms.Model.{
  CreateRoomDto, UpdateRoomDto, RoomError, RoomServices, room_album, RoomDb,
}
use cg_traveleke_service.Catalogue.Rooms.Service.{
  id_text, hotel_result, room_slug, new_total, new_available, checked_room, services_refused,
  services_to_assign, store_room, create_room, new_room,
}
use cg_traveleke_service.Catalogue.Rooms.Changes.{
  hotel_after, slug_after, find_room, changed_room, checked_change, assign_services, save_room,
  store_change, update_room, remove_room, get_room_images,
}

abbrev pub InStock : Room → Type 0
InStock r = r.available_rooms ≤ r.total_rooms

abbrev pub AllInStock : RoomDb → Type 0
AllInStock db = All InStock db.gallery.owners

-- A call of the service. `findOne`, `findAll` and `search` write nothing.
pub data RoomCall : Type 0 where
  creates : CreateRoomDto → RoomCall
  updates : IdText → UpdateRoomDto → RoomCall
  removes : IdText → RoomCall
  pictures : IdText → AlbumCall → RoomCall
  lists : IdText → RoomCall

module _ (v : RoomServices) where
  checked_room-InStock :
      (dto : CreateRoomDto) (db : RoomDb) → Yields InStock (checked_room v dto db)
  unfolding checked_room new_room
  checked_room-InStock dto db =
      Yields-bind InStock (hotel_result (find_hotel v.hotels (id_text dto.hotel_id) db.hotels)) _
        (λ _ _.
          Yields-bind InStock
            (room_slug v (or_else dto.slug dto.name) dto.hotel_id none db.gallery.owners) _
            (λ slug _. elim (Bool-cases (leb (new_available dto) (new_total dto))) [
              | inl few ↦ rw few (ground (arith, few))
              | inr few ↦ rw few tt
            ]))

  checked_change-InStock :
      (id : IdText) (dto : UpdateRoomDto) (db : RoomDb)
      → Yields InStock (checked_change v id dto db)
  unfolding checked_change
  checked_change-InStock id dto db = Yields-bind InStock (find_room v id db) _ (λ r _.
      Yields-bind InStock (hotel_after v dto.hotel_id r db) _ (λ hotel_id _.
        Yields-bind InStock (slug_after v dto.slug hotel_id r db) _ (λ slug _.
          let r' = changed_room v dto hotel_id slug r in
          elim (Bool-cases (leb r'.available_rooms r'.total_rooms)) [
            | inl few ↦ rw few (ground (arith, few))
            | inr few ↦ rw few tt
          ])))

  add_cover-owners :
      (caption : String) (r : Room) (g : Gallery Room)
      → (add_cover (room_album v) caption r g).owners ≡ g.owners
  unfolding add_cover
  add_cover-owners caption r g = ground arith

  inserted-InStock :
      (r : Room) (rooms : List Room)
      → InStock r
      → All InStock rooms
      → All InStock (v.room_repo.insert r rooms)
  inserted-InStock r rooms p h =
      rw v.room_repo.insert_lem (All-append InStock rooms (r ∷ []) h (p, tt))

  store_room-InStock :
      (chosen : Option (List ℕ)) (r : Room) (db : RoomDb)
      → InStock r
      → AllInStock db
      → AllInStock (store_room v chosen r db).1
  unfolding store_room
  store_room-InStock chosen r db p h = elim (Option-cases (v.refuses r db.gallery.owners)) [
    | inr (f, e) ↦ rw (store_room, e) h
    | inl e ↦
        let inserted = record db.gallery { owners = v.room_repo.insert r db.gallery.owners } in
        let stored = record db {
          gallery = add_cover (room_album v) "Ảnh đại diện phòng" r inserted;
        } in
        let kept : AllInStock stored =
          rw (add_cover-owners "Ảnh đại diện phòng" r inserted)
            (inserted-InStock r db.gallery.owners p h) in
        elim (Option-cases (services_refused v (services_to_assign v chosen stored))) [
          | inl s ↦ rw (store_room, e, s) kept
          | inr (x, s) ↦ rw (store_room, e, s) kept
        ]
  ]

  create_room-InStock :
      (dto : CreateRoomDto) (db : RoomDb) → AllInStock db → AllInStock (create_room v dto db).1
  unfolding create_room
  create_room-InStock dto db h = elim (Result-cases (checked_room v dto db)) [
    | inl (r, e) ↦
        rw (create_room, e)
          (store_room-InStock dto.service_ids r db
            (Yields-ok InStock _ r e (checked_room-InStock dto db)) h)
    | inr (x, e) ↦ rw (create_room, e) h
  ]

  pub assign_services-gallery :
      (services : Option (List ℕ)) (i : ℕ) (db : RoomDb)
      → (assign_services v services i db).1.gallery ≡ db.gallery
  unfolding assign_services
  assign_services-gallery none i db = refl
  assign_services-gallery (some []) i db = refl
  assign_services-gallery (some (s ∷ ss)) i db = ground arith

  save_room-InStock :
      (r : Room) (step : Result RoomError (Unit {0}) × RoomDb)
      → InStock r
      → AllInStock step.1
      → AllInStock (save_room v r step).1
  save_room-InStock r (err e, db) p h = h
  save_room-InStock r (ok u, db) p h = elim (Option-cases (v.refuses r db.gallery.owners)) [
    | inr (f, e) ↦ rw (save_room, e) h
    | inl e ↦
        rw (save_room, e, v.room_repo.save_lem)
          (All-map_where InStock (λ x. x.id == r.id) (λ _. r) db.gallery.owners (λ _ _. p) h)
  ]

  update_room-InStock :
      (id : IdText) (dto : UpdateRoomDto) (db : RoomDb)
      → AllInStock db
      → AllInStock (update_room v id dto db).1
  unfolding update_room store_change
  update_room-InStock id dto db h = elim (Result-cases (checked_change v id dto db)) [
    | inl (r, e) ↦
        rw (update_room, e)
          (save_room-InStock r (assign_services v dto.service_ids r.id db)
            (Yields-ok InStock _ r e (checked_change-InStock id dto db))
            (rw (assign_services-gallery dto.service_ids r.id db) h))
    | inr (x, e) ↦ rw (update_room, e) h
  ]

  remove_room-InStock :
      (id : IdText) (db : RoomDb) → AllInStock db → Yields AllInStock (remove_room v id db)
  unfolding remove_room
  remove_room-InStock id db h = Yields-bind AllInStock (find_room v id db) _ (λ r _.
      rw v.room_repo.update_lem (
        All-map_where InStock (λ x. x.id == r.id) (λ x. record x { deleted = true })
          db.gallery.owners (λ _ p. p) h))

  answer-InStock :
      (id : IdText) (c : AlbumCall) (db : RoomDb)
      → AllInStock db
      → All InStock (answer (room_album v) id c db.gallery).1.owners
  answer-InStock id c db h = answer-All (room_album v) InStock (λ _ _ p. p) id db.gallery h c

  lists-InStock :
      (id : IdText) (db : RoomDb)
      → AllInStock db
      → Yields (λ r. All InStock r.1.owners) (get_room_images v id db.gallery)
  unfolding get_room_images
  lists-InStock id db h = get_images-All (room_album v) InStock (λ _ _ p. p) id db.gallery h

  -- What a call leaves; one that is refused may have written.
  unfoldable pub after_call : RoomCall → RoomDb → RoomDb
  unfolding create_room update_room remove_room answer get_room_images
  after_call (creates dto) db = (create_room v dto db).1
  after_call (updates id dto) db = (update_room v id dto db).1
  after_call (removes id) db = elim (remove_room v id db) [ ok db' ↦ db' | err e ↦ db ]
  after_call (pictures id c) db = record db { gallery = (answer (room_album v) id c db.gallery).1 }
  after_call (lists id) db = elim (get_room_images v id db.gallery) [
    | ok (images, g) ↦ record db { gallery = g }
    | err e ↦ db
  ]

  unfoldable pub run_rooms : List RoomCall → RoomDb → RoomDb
  unfolding after_call
  run_rooms [] db = db
  run_rooms (c ∷ cs) db = run_rooms cs (after_call c db)

  after_call-InStock : (c : RoomCall) (db : RoomDb) → AllInStock db → AllInStock (after_call c db)
  unfolding after_call
  after_call-InStock (creates dto) db h = create_room-InStock dto db h
  after_call-InStock (updates id dto) db h = update_room-InStock id dto db h
  after_call-InStock (removes id) db h = elim (Result-cases (remove_room v id db)) [
    | inl (db', e) ↦ rw (after_call, e) (Yields-ok AllInStock _ db' e (remove_room-InStock id db h))
    | inr (x, e) ↦ rw (after_call, e) h
  ]
  after_call-InStock (pictures id c) db h = answer-InStock id c db h
  after_call-InStock (lists id) db h = elim (Result-cases (get_room_images v id db.gallery)) [
    | inl (r, e) ↦
        rw (after_call, e) (Yields-ok (λ x. All InStock x.1.owners) _ r e (lists-InStock id db h))
    | inr (x, e) ↦ rw (after_call, e) h
  ]

  -- If no row of `rooms` offers more rooms than it has, then after any sequence of `create`, `update`,
  -- `remove` and calls on albums, refused ones included, no row does.
  pub run_rooms-InStock :
      (cs : List RoomCall) (db : RoomDb) → AllInStock db → AllInStock (run_rooms cs db)
  unfolding run_rooms
  run_rooms-InStock [] db h = h
  run_rooms-InStock (c ∷ cs) db h =
      run_rooms-InStock cs (after_call c db) (after_call-InStock c db h)
