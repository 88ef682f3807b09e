-- ===== src/Catalogue/Album/Owners.antt =====
-- backend/src/hotels/hotels.service.ts and backend/src/rooms/rooms.service.ts: what the calls on albums
-- write of the owners is a cover.
use cg_traveleke_service.Base.{
  Result, err, ltb, Result-cases, ℕ, suc, ◌+◌, ◌==◌, leb, Bool, true, false, ◌&&◌, ◌||◌, Option,
  none, some, List, [], ◌∷◌, ◌≡◌, refl, sym, ◌∙◌, String, ok, length, sort, All, All-map_where,
  All-first, Option-cases, Bool-cases, inl, inr, Yields, Yields-bind, Yields-ok,
}
use cg_traveleke_service.Catalogue.Album.{
  Image, AddImageDto, IdText, Gallery, AlbumServices, owner_is, has_image_id, of_owner, after,
  find_owner, AlbumError, write_image, add_one, add_each, add_images, set_primary_image,
  promote_next, delete_image, assert_valid_id, get_images, cover_of, no_number, zero_text, digits,
}
use cg_traveleke_service.Catalogue.Album.History.{
  AlbumCall, adds, chooses, deletes, answer, nothing_written,
}

-- A property of rows that a new cover does not touch.
module _ {O : Type 0} (v : AlbumServices O) (P : O → Type 0)
    (stable : (c : Option String) (o : O) → P o → P (v.owner.set_cover c o)) where
  pub find_owner-All :
      (id : IdText) (db : Gallery O) (w : O) → find_owner v id db ≡ ok w → All P db.owners → P w
  unfolding find_owner
  find_owner-All id db w e h = Yields-ok P _ w e (
      Yields-bind P (assert_valid_id id) _ (λ n _.
        elim (Option-cases (v.owner_repo.find_one (owner_is v n) db.owners)) [
          | inl none_found ↦ rw none_found tt
          | inr (x, found) ↦ rw found (
              All-first P (owner_is v n) db.owners x (sym (v.owner_repo.find_one_lem _ _) ∙ found)
                h)
        ]))

  save-All : (w : O) (owners : List O) → P w → All P owners → All P (v.owner_repo.save w owners)
  save-All w owners p h = rw v.owner_repo.save_lem (All-map_where P _ _ owners (λ _ _. p) h)

  write_image-All :
      (b : Bool) (order : ℕ) (dto : AddImageDto) (w : O) (db : Gallery O)
      → P w
      → All P db.owners
      → P (write_image v b order dto w db).0 × All P (write_image v b order dto w db).1.owners
  unfolding write_image
  write_image-All true order dto w db p h = (stable _ w p, save-All _ db.owners (stable _ w p) h)
  write_image-All false order dto w db p h = (p, h)

  add_one-All :
      (added b : Bool) (order : ℕ) (dto : AddImageDto) (w : O) (db : Gallery O)
      → P w
      → All P db.owners
      → Yields P (add_one v added b order dto w db).0
        × All P (add_one v added b order dto w db).1.owners
  unfolding add_one
  add_one-All added b order dto w db p h = elim (Bool-cases (added && b)) [
    | inl e ↦ rw (add_one, e) (tt, h)
    | inr e ↦ rw (add_one, e) (write_image-All b order dto w db p h)
  ]

  -- After the round, whether it has thrown or not.
  rest-All :
      (dtos : List AddImageDto) (current i : ℕ) (r : Result AlbumError O) (db : Gallery O)
      → Yields P r
      → All P db.owners
      → All P
          (elim r as (λ _. Result AlbumError (Unit {0}) × Gallery O) [
            | err e ↦ (err e, db)
            | ok w ↦ add_each v current i dtos w db
          ]).1.owners
  unfolding add_each
  rest-All dtos current i (err e) db p h = h
  rest-All [] current i (ok w) db p h = h
  rest-All (dto ∷ dtos) current i (ok w) db p h =
      let (p', h') =
        add_one-All (ltb 0 i) (dto.is_primary || (current == 0 && i == 0)) (current + i) dto w db p
          h in
      rest-All dtos current (suc i) _ _ p' h'

  promote_next-All :
      (w : O) (db : Gallery O) (next : List Image)
      → sort after (v.image_repo.find (of_owner (v.owner.id w)) db.images) ≡ next
      → P w
      → All P db.owners
      → All P (promote_next v w db).owners
  unfolding promote_next
  promote_next-All w db [] e p h = rw (promote_next, e) (save-All _ db.owners (stable _ w p) h)
  promote_next-All w db (n ∷ later) e p h =
      rw (promote_next, e) (save-All _ db.owners (stable _ w p) h)

  module _ (id : IdText) (db : Gallery O) (h : All P db.owners) where
    Kept : Gallery O → Type 0
    Kept db' = All P db'.owners

    add_images-All : (dtos : List AddImageDto) → All P (add_images v id dtos db).1.owners
    unfolding add_images
    add_images-All [] = h
    add_images-All (dto ∷ dtos) = elim (Result-cases (find_owner v id db)) [
      | inr (x, e) ↦ rw (add_images, e) h
      | inl (w, e) ↦
          let current = v.image_repo.count_rows (of_owner (v.owner.id w)) db.images in
          elim (Bool-cases (leb (current + length (dto ∷ dtos)) v.max_images)) [
            | inl few ↦
                rw (add_images, e, few)
                  (rest-All (dto ∷ dtos) current 0 (ok w) db (find_owner-All id db w e h) h)
            | inr few ↦ rw (add_images, e, few) h
          ]
    ]

    set_primary-All : (i : ℕ) → Yields Kept (set_primary_image v id i db)
    unfolding set_primary_image Kept
    set_primary-All i = Yields-bind Kept (find_owner v id db) _ (λ w e.
        elim (Option-cases (
          v.image_repo.find_one (λ im. has_image_id i im && of_owner (v.owner.id w) im)
            db.images)) [
              | inl gone ↦ rw gone tt
              | inr (im, here) ↦ rw here (
                  save-All (v.owner.set_cover (some im.image_url) w) db.owners
                    (stable (some im.image_url) w (find_owner-All id db w e h)) h)
            ])

    delete-All : (i : ℕ) → Yields Kept (delete_image v id i db)
    unfolding delete_image Kept
    delete-All i = Yields-bind Kept (find_owner v id db) _ (λ w e.
        elim (Option-cases (
          v.image_repo.find_one (λ im. has_image_id i im && of_owner (v.owner.id w) im)
            db.images)) [
              | inl gone ↦ rw gone tt
              | inr (im, here) ↦
                  let left = record db {
                    images = v.image_repo.delete (has_image_id im.id) db.images;
                  } in
                  elim (Bool-cases im.is_primary) [
                    | inl m ↦
                        rw (here, m) (promote_next-All w left _ refl (find_owner-All id db w e h) h)
                    | inr m ↦ rw (here, m) h
                  ]
            ])

    nothing_written-All :
        (r : Result AlbumError (Gallery O)) → Yields Kept r → All P (nothing_written db r).1.owners
    unfolding Kept
    nothing_written-All (ok db') k = k
    nothing_written-All (err e) k = h

    pub answer-All : (c : AlbumCall) → All P (answer v id c db).1.owners
    unfolding answer
    answer-All (adds dtos) = add_images-All dtos
    answer-All (chooses i) = nothing_written-All (set_primary_image v id i db) (set_primary-All i)
    answer-All (deletes i) = nothing_written-All (delete_image v id i db) (delete-All i)

    listed :
        (n : ℕ) (images : List Image) (cover : Option (O × String))
        → sort after (v.image_repo.find (of_owner n) db.images) ≡ images
        → cover_of v (v.owner_repo.find_one (owner_is v n) db.owners) ≡ cover
        → Yields (λ r. All P r.1.owners) (get_images v (digits n) db)
    unfolding get_images
    listed n (im ∷ later) c e f = rw (get_images, e) h
    listed n [] none e f = rw (get_images, e, f) h
    listed n [] (some (w, c)) e f = rw (get_images, e, f) h

    pub get_images-All : Yields (λ r. All P r.1.owners) (get_images v id db)
    unfolding get_images
    get_images-All = elim id as (λ i. Yields (λ r. All P r.1.owners) (get_images v i db)) [
      | no_number ↦ tt
      | zero_text ↦ tt
      | digits n ↦ listed n _ _ refl refl
    ]
