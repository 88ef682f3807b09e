-- ===== src/Catalogue/Album/Calls.antt =====
-- backend/src/hotels/hotels.service.ts and backend/src/rooms/rooms.service.ts: the operations of an
-- album keep it one.
use cg_traveleke_service.Base.{
  ap, zero, ltb, ◌⊎◌, All, ℕ, suc, ◌+◌, ◌≤◌, ◌==◌, leb, Bool, true, false, ◌&&◌, ◌||◌, List, [],
  ◌∷◌, ◌≡◌, refl, ◌∙◌, arith, length, count, Bool-cases, inl, inr, ok,
}
use cg_traveleke_service.Catalogue.Album.{
  AddImageDto, Gallery, AlbumServices, IdText, of_owner, find_owner, write_image, add_one, add_each,
  add_images,
}
use cg_traveleke_service.Catalogue.Album.Main.{
  IsAlbum, main-IsAlbum, main-grown, plain-IsAlbum, plain-grown,
}

-- Only the first picture of a call may be marked as the main one.
abbrev pub MarksFirst : List AddImageDto → Type 0
MarksFirst [] = Unit
MarksFirst (dto ∷ dtos) = All (λ d. d.is_primary ≡ false) dtos

module _ {O : Type 0} (v : AlbumServices O) where
  write_image-id :
      (b : Bool) (order : ℕ) (dto : AddImageDto) (w : O) (db : Gallery O)
      → v.owner.id (write_image v b order dto w db).0 ≡ v.owner.id w
  unfolding write_image
  write_image-id true order dto w db = v.owner.id_lem _ w
  write_image-id false order dto w db = refl

  late :
      (dto : AddImageDto) (i current : ℕ)
      → (1 ≤ i → dto.is_primary ≡ false)
      → (ltb 0 i && (dto.is_primary || (current == 0 && i == 0))) ≡ false
  late dto zero current h = refl
  late dto (suc i) current h = let plain = h (omega arith) in ground arith

  All-tail : (dtos : List AddImageDto) → All (λ d. d.is_primary ≡ false) dtos → MarksFirst dtos
  All-tail [] h = tt
  All-tail (dto ∷ dtos) h = h.1

  -- The album after a call, and how many pictures it has.
  abbrev pub Becomes : O → ℕ → Gallery O → Type 0
  Becomes w n db' =
      (w' : O) × IsAlbum v w' db'
      × (v.owner.id w' ≡ v.owner.id w)
      × (count (of_owner (v.owner.id w)) db'.images ≡ n)

  grows :
      (b : Bool) (order : ℕ) (dto : AddImageDto) (w : O) (db : Gallery O)
      → IsAlbum v w db
      → suc (count (of_owner (v.owner.id w)) db.images) ≤ v.max_images
      → (b ≡ false → 1 ≤ count (of_owner (v.owner.id w)) db.images)
      → IsAlbum v (write_image v b order dto w db).0 (write_image v b order dto w db).1
        × (count (of_owner (v.owner.id w)) (write_image v b order dto w db).1.images
            ≡ suc (count (of_owner (v.owner.id w)) db.images))
  grows true order dto w db h room left =
      (main-IsAlbum v order dto w db h room, main-grown v order dto w db h room)
  grows false order dto w db h room left =
      (plain-IsAlbum v order dto w db h room (left refl), plain-grown v order dto w db h room)

  add_one-stores :
      (added b : Bool) (order : ℕ) (dto : AddImageDto) (w : O) (db : Gallery O)
      → (added && b) ≡ false
      → add_one v added b order dto w db
        ≡ (ok (write_image v b order dto w db).0, (write_image v b order dto w db).1)
  unfolding add_one
  add_one-stores added b order dto w db h = rw h

  -- The round `i` and those that follow, of which each but the first is plain.
  add_each-Becomes :
      (dtos : List AddImageDto) (current i : ℕ) (w : O) (db : Gallery O)
      → IsAlbum v w db
      → count (of_owner (v.owner.id w)) db.images ≡ current + i
      → current + i + length dtos ≤ v.max_images
      → (1 ≤ i → All (λ d. d.is_primary ≡ false) dtos)
      → MarksFirst dtos
      → ((add_each v current i dtos w db).0 ≡ ok tt)
        × Becomes w (current + i + length dtos) (add_each v current i dtos w db).1
  unfolding add_each
  add_each-Becomes [] current i w db h n few plain first = (refl, (w, h, refl, omega (arith, n)))
  add_each-Becomes (dto ∷ dtos) current i w db h n few plain first =
      let b = dto.is_primary || (current == 0 && i == 0) in
      let stores =
        add_one-stores (ltb 0 i) b (current + i) dto w db (late dto i current (λ k. (plain k).0)) in
      let (album, grown) = grows b (current + i) dto w db h (omega arith) (λ e. ground arith) in
      let same = write_image-id b (current + i) dto w db in
      let (fine, (w', done, id, total)) =
        add_each-Becomes dtos current (suc i) (write_image v b (current + i) dto w db).0
          (write_image v b (current + i) dto w db).1 album (rw same (omega (arith, grown)))
          (omega arith) (λ _. first) (All-tail dtos first) in
      rw (add_each, ap (λ p. p.0) stores, ap (λ p. p.1) stores)
        (fine, (w', done, id ∙ same, rw same at total ∙ omega arith))

  -- A call that finds the owner.
  module _ (id : IdText) (w : O) (db : Gallery O) (found : find_owner v id db ≡ ok w)
      (h : IsAlbum v w db) where
    added :
        (dtos : List AddImageDto)
        → count (of_owner (v.owner.id w)) db.images + length dtos ≤ v.max_images
        → MarksFirst dtos
        → Becomes w
            (count (of_owner (v.owner.id w)) db.images + length dtos)
            (add_each v (v.image_repo.count_rows (of_owner (v.owner.id w)) db.images) 0 dtos w db).1
    added dtos few first =
        let current = v.image_repo.count_rows_lem (of_owner (v.owner.id w)) db.images in
        let (fine, (w', done, same, total)) =
          add_each-Becomes dtos (v.image_repo.count_rows (of_owner (v.owner.id w)) db.images) 0 w db
            h (omega (arith, current)) (omega (arith, current)) (λ k. absurd (omega arith)) first in
        (w', done, same, omega (arith, total, current))

    -- A call that marks no picture after its first leaves an album with all the new pictures in it, or has
    -- written nothing.
    pub add_images-Becomes :
        (dtos : List AddImageDto)
        → MarksFirst dtos
        → (Becomes w
            (count (of_owner (v.owner.id w)) db.images + length dtos)
            (add_images v id dtos db).1)
          ⊎ ((add_images v id dtos db).1 ≡ db)
    unfolding add_images
    add_images-Becomes [] first = inr refl
    add_images-Becomes (dto ∷ dtos) first =
        let current = v.image_repo.count_rows (of_owner (v.owner.id w)) db.images in
        let same = v.image_repo.count_rows_lem (of_owner (v.owner.id w)) db.images in
        elim (Bool-cases (leb (current + length (dto ∷ dtos)) v.max_images)) [
          | inr e ↦ rw (add_images, found, e) (inr refl)
          | inl e ↦
              rw (add_images, found, e) (inl (added (dto ∷ dtos) (ground (arith, same)) first))
        ]
