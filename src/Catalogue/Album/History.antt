-- ===== src/Catalogue/Album/History.antt =====
-- backend/src/hotels/hotels.service.ts and backend/src/rooms/rooms.service.ts: any sequence of calls on
-- one album.
use cg_traveleke_service.Base.{
  All, ℕ, List, [], ◌∷◌, ◌≡◌, refl, sym, ap, ◌∙◌, subst, arith, first-passes, Option-cases, inl,
  inr, Result, ok, err, ok_same,
}
use cg_traveleke_service.Catalogue.Album.{
  AddImageDto, Gallery, AlbumServices, IdText, no_number, zero_text, digits, AlbumError, owner_is,
  assert_valid_id, find_owner, add_images, set_primary_image, delete_image,
}
use cg_traveleke_service.Catalogue.Album.Main.{IsAlbum}
use cg_traveleke_service.Catalogue.Album.Calls.{Becomes, MarksFirst, add_images-Becomes}
use cg_traveleke_service.Catalogue.Album.Chosen.{set_primary-Becomes}
use cg_traveleke_service.Catalogue.Album.Deleted.{delete_image-Becomes}

pub data AlbumCall : Type 0 where
  adds : List AddImageDto → AlbumCall
  chooses deletes : ℕ → AlbumCall

found-id :
    {O : Type 0} (v : AlbumServices O) (id : IdText) (w : O) (db : Gallery O)
    → find_owner v id db ≡ ok w
    → assert_valid_id id ≡ ok (v.owner.id w)
unfolding find_owner
found-id v no_number w db h = absurd (ground arith)
found-id v zero_text w db h = absurd (ground arith)
found-id v (digits n) w db h =
    elim (Option-cases (v.owner_repo.find_one (owner_is v n) db.owners)) [
      | inl e ↦ let wrong = rw e at h in absurd (ground arith)
      | inr (x, e) ↦
          let same : x ≡ w = ok_same (rw e at h) in
          let here =
            first-passes (owner_is v n) db.owners x (sym (v.owner_repo.find_one_lem _ _) ∙ e) in
          ap ok (subst (λ y. n ≡ v.owner.id y) same (ground arith))
    ]

-- A call that throws before it writes.
abbrev pub nothing_written :
    {O : Type 0}
    → Gallery O
    → Result AlbumError (Gallery O)
    → Result AlbumError (Unit {0}) × Gallery O
nothing_written db (ok db') = (ok tt, db')
nothing_written db (err e) = (err e, db)

-- A call of `addImages` marks no picture after its first as the main one.
abbrev pub MarksFirstOnly : AlbumCall → Type 0
MarksFirstOnly (adds dtos) = MarksFirst dtos
MarksFirstOnly (chooses i) = Unit
MarksFirstOnly (deletes i) = Unit

module _ {O : Type 0} (v : AlbumServices O) (id : IdText) where
  -- What a call answers, and what it leaves; `addImages` may have written where it throws.
  unfoldable pub answer : AlbumCall → Gallery O → Result AlbumError (Unit {0}) × Gallery O
  unfolding add_images set_primary_image delete_image
  answer (adds dtos) db = add_images v id dtos db
  answer (chooses i) db = nothing_written db (set_primary_image v id i db)
  answer (deletes i) db = nothing_written db (delete_image v id i db)

  unfoldable pub run_album : List AlbumCall → Gallery O → Gallery O
  unfolding answer
  run_album [] db = db
  run_album (c ∷ cs) db = run_album cs (answer c db).1

  -- The owner that the id finds, with its album.
  abbrev pub Serves : Gallery O → Type 0
  Serves db = (w : O) × (find_owner v id db ≡ ok w) × IsAlbum v w db

  Serves-again :
      (w : O) (db : Gallery O) (n : ℕ) (db' : Gallery O)
      → find_owner v id db ≡ ok w
      → Becomes v w n db'
      → Serves db'
  unfolding find_owner
  Serves-again w db n db' h (w', album, same, total) =
      (w', rw (found-id v id w db h, sym same, v.owner_repo.find_one_lem, album.found) refl, album)

  nothing_written-Serves :
      (db : Gallery O) (r : Result AlbumError (Gallery O))
      → Serves db
      → ((db' : Gallery O) → r ≡ ok db' → Serves db')
      → Serves (nothing_written db r).1
  nothing_written-Serves db (ok db') h k = k db' refl
  nothing_written-Serves db (err e) h k = h

  answer-Serves :
      (c : AlbumCall) (db : Gallery O) → MarksFirstOnly c → Serves db → Serves (answer c db).1
  unfolding answer
  answer-Serves (adds dtos) db first (w, h, album) =
      elim (add_images-Becomes v id w db h album dtos first) [
        | inl done ↦ Serves-again w db _ (add_images v id dtos db).1 h done
        | inr same ↦ subst Serves (sym same) (w, h, album)
      ]
  answer-Serves (chooses i) db first (w, h, album) =
      nothing_written-Serves db (set_primary_image v id i db) (w, h, album)
        (λ db' run. Serves-again w db _ db' h (set_primary-Becomes v id w db db' h album i run))
  answer-Serves (deletes i) db first (w, h, album) =
      nothing_written-Serves db (delete_image v id i db) (w, h, album)
        (λ db' run. Serves-again w db _ db' h (delete_image-Becomes v id w db db' h album i run))

  -- From an album, any sequence of `addImages`, `setPrimaryImage` and `deleteImage` on it, in which no
  -- `addImages` marks a picture after its first as the main one, leaves an album: if it has a picture it
  -- has exactly one main picture, which the owner shows as its cover, and it has no more pictures than
  -- the limit.
  pub run_album-Serves :
      (cs : List AlbumCall) (db : Gallery O)
      → All MarksFirstOnly cs
      → Serves db
      → Serves (run_album cs db)
  unfolding run_album
  run_album-Serves [] db first h = h
  run_album-Serves (c ∷ cs) db first h =
      run_album-Serves cs (answer c db).1 first.1 (answer-Serves c db first.0 h)
