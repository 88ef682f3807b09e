-- ===== src/Catalogue/Rooms/Stale.antt =====
-- backend/src/rooms/rooms.service.ts beside backend/src/bookings/bookings.service.ts: an `update` that is
-- overtaken by bookings.
use cg_traveleke_service.Base.{
  ℕ, ◌+◌, ◌*◌, ◌≤◌, leb, Option, none, some, List, [], ◌∷◌, ◌≡◌, refl, sym, ◌∙◌, ap, arith, subst,
  Result, ok, err, All, All-mono, All-found, Bool-cases, Option-cases, Result-cases, inl, inr,
  ==_refl, Yields, Yields-bind, Yields-ok, is_ok, count, first, map_where,
}
use cg_traveleke_service.Booking.Model.{Room, Db, Orm}
use cg_traveleke_service.Booking.Inventory.{has_id, available, held, stock, IsConsistent}
use cg_traveleke_service.Booking.History.{Reach, Reach-Keeps}
use cg_traveleke_service.Catalogue.Album.{IdText, find_owner}
use cg_traveleke_service.Catalogue.Album.Owners.{find_owner-All}
use cg_traveleke_service.Catalogue.Rooms.Model.{
  UpdateRoomDto, RoomError, RoomServices, room_album, RoomDb,
}
use cg_traveleke_service.Catalogue.Rooms.Kept.{assign_services-gallery}
use cg_traveleke_service.Catalogue.Rooms.Changes.{
  hotel_after, slug_after, find_room, changed_room, checked_change, assign_services, save_room,
  store_change,
}

available-none : (i : ℕ) (rooms : List Room) → count (has_id i) rooms ≡ 0 → available i rooms ≡ 0
available-none i [] h = refl
available-none i (x ∷ xs) h = ground (arith, available-none i xs)

available-found :
    (i : ℕ) (rooms : List Room) (r : Room)
    → first (has_id i) rooms ≡ some r
    → count (has_id i) rooms ≤ 1
    → available i rooms ≡ r.available_rooms
available-found i [] r e h = absurd (ground arith)
available-found i (x ∷ xs) r e h = elim (Bool-cases (has_id i x)) [
  | inl m ↦
      let none_left : count (has_id i) xs ≡ 0 = ground arith in
      let same : x.available_rooms ≡ r.available_rooms =
        ap (λ o. elim o [ none ↦ 0 | some y ↦ y.available_rooms ]) (rw m at e) in
      rw m (ground (arith, available-none i xs none_left))
  | inr m ↦ rw m (omega (arith, available-found i xs r (rw m at e) (rw m at h)))
]

available-saved :
    (r : Room) (rooms : List Room)
    → available r.id (map_where (has_id r.id) (λ _. r) rooms)
      ≡ r.available_rooms * count (has_id r.id) rooms
available-saved r [] = omega arith
available-saved r (x ∷ xs) = elim (Bool-cases (has_id r.id x)) [
  | inl m ↦ rw (m, ==_refl r.id) (omega (arith, available-saved r xs))
  | inr m ↦ rw m (ground (arith, m, available-saved r xs))
]

-- The row tells how many rooms of its type are available.
abbrev Tells : List Room → Room → Type 0
Tells rooms r = available r.id rooms ≡ r.available_rooms

All-Tells : (rooms : List Room) → ((i : ℕ) → count (has_id i) rooms ≤ 1) → All (Tells rooms) rooms
All-Tells rooms h =
    All-mono (λ y. first (has_id y.id) rooms ≡ some y) (Tells rooms)
      (λ y e. available-found y.id rooms y e (h y.id)) rooms
      (All-found has_id (λ y. y.id) (λ y. ==_refl y.id) rooms h)

module _ (v : RoomServices) (dto : UpdateRoomDto) (keeps : dto.available_rooms ≡ none) where
  find_room-Tells :
      (id : IdText) (db : RoomDb)
      → All (Tells db.gallery.owners) db.gallery.owners
      → Yields (Tells db.gallery.owners) (find_room v id db)
  unfolding find_room
  find_room-Tells id db h = elim (Result-cases (find_owner (room_album v) id db.gallery)) [
    | inl (r, e) ↦
        rw (find_room, e)
          (find_owner-All (room_album v) (Tells db.gallery.owners) (λ _ _ p. p) id db.gallery r e h)
    | inr (x, e) ↦ rw (find_room, e) tt
  ]

  checked_change-Tells :
      (id : IdText) (db : RoomDb)
      → ((i : ℕ) → count (has_id i) db.gallery.owners ≤ 1)
      → Yields (Tells db.gallery.owners) (checked_change v id dto db)
  unfolding checked_change changed_room
  checked_change-Tells id db unique =
      let P = Tells db.gallery.owners in
      Yields-bind P (find_room v id db) _ (λ r found.
        Yields-bind P (hotel_after v dto.hotel_id r db) _ (λ hotel_id _.
          Yields-bind P (slug_after v dto.slug hotel_id r db) _ (λ slug _.
            let r' = changed_room v dto hotel_id slug r in
            let told =
              Yields-ok P (find_room v id db) r found
                (find_room-Tells id db (All-Tells db.gallery.owners unique)) in
            elim (Bool-cases (leb r'.available_rooms r'.total_rooms)) [
              | inl few ↦ rw few (rw keeps told)
              | inr few ↦ rw few tt
            ])))

  saved-owners :
      (r x : Room) (step : Result RoomError (Unit {0}) × RoomDb) (db' : RoomDb)
      → save_room v r step ≡ (ok x, db')
      → db'.gallery.owners ≡ v.room_repo.save r step.1.gallery.owners
  saved-owners r x (err e, db) db' run = absurd (ground (arith, ap (λ p. is_ok p.0) run))
  saved-owners r x (ok u, db) db' run = elim (Option-cases (v.refuses r db.gallery.owners)) [
    | inr (f, e) ↦
        let wrong = ap (λ p. is_ok p.0) (rw (save_room, e) at run) in absurd (ground arith)
    | inl e ↦ sym (ap (λ p. p.1.gallery.owners) (rw (save_room, e) at run))
  ]

  stored-owners :
      (services : Option (List ℕ)) (r x : Room) (db db' : RoomDb)
      → store_change v services r db ≡ (ok x, db')
      → db'.gallery.owners ≡ v.room_repo.save r db.gallery.owners
  unfolding store_change
  stored-owners services r x db db' run =
      saved-owners r x (assign_services v services r.id db) db' run
      ∙ ap (λ g. v.room_repo.save r g.owners) (assign_services-gallery v services r.id db)

  -- If `update` reads a room, other clients then book and change statuses, and `update`, which
  -- gives no number of available rooms, succeeds in saving the room where its id has one row: the
  -- available rooms and those that bookings hold add up to the stock that there was plus what the
  -- bookings hold now, less what they held. So the rooms booked meanwhile can be sold again.
  pub overtaken_update-oversells :
      (orm : Orm) (id : IdText) (before after : Db) (db db' db'' : RoomDb) (r x : Room)
      → IsConsistent before
      → db.gallery.owners ≡ before.rooms
      → checked_change v id dto db ≡ ok r
      → Reach orm before after
      → db'.gallery.owners ≡ after.rooms
      → 1 ≤ count (has_id r.id) after.rooms
      → store_change v dto.service_ids r db' ≡ (ok x, db'')
      → stock r.id (record after { rooms = db''.gallery.owners }) + held r.id before
        ≡ stock r.id before + held r.id after
  overtaken_update-oversells orm id before after db db' db'' r x valid read checked meanwhile now
        there run =
      let told = Yields-ok (Tells db.gallery.owners) _ r checked (
        checked_change-Tells id db
          (subst (λ t. (i : ℕ) → count (has_id i) t ≤ 1) (sym read) valid.unique_rooms)) in
      let (same, valid') = Reach-Keeps valid meanwhile in
      let once : count (has_id r.id) after.rooms ≡ 1 =
        omega (arith, there, valid'.unique_rooms r.id) in
      let saved =
        stored-owners dto.service_ids r x db' db'' run
        ∙ v.room_repo.save_lem r db'.gallery.owners
        ∙ ap (map_where (has_id r.id) (λ _. r)) now in
      let left : available r.id db''.gallery.owners ≡ r.available_rooms =
        rw saved (available-saved r after.rooms ∙ rw once (omega arith)) in
      omega (arith, rw read at told, left, same r.id)
