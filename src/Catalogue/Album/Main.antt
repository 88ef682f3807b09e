-- ===== src/Catalogue/Album/Main.antt =====
-- backend/src/hotels/hotels.service.ts and backend/src/rooms/rooms.service.ts: an album has one main
-- picture as soon as it has a picture, and the owner shows it.
use cg_traveleke_service.Base.{
  ℕ, suc, ◌+◌, ◌≤◌, ◌==◌, Bool, true, false, ◌&&◌, Option, some, List, [], ◌∷◌, ◌++◌, ◌≡◌, refl,
  sym, ap, ◌∙◌, String, or_else, arith, if◌then◌else◌, count, first, map_where, ==_refl,
  count-append, count-map_where, first-append_none, first-append_some, first-passes,
  first-save_finer,
}
use cg_traveleke_service.Catalogue.Album.{
  Image, AddImageDto, Gallery, AlbumServices, of_owner, owner_is, has_image_id, set_main, new_image,
  write_image,
}

-- The main pictures of an owner.
abbrev pub main_of : ℕ → Image → Bool
main_of o im = of_owner o im && im.is_primary

-- What is asked of the pictures alone.
pub record IsPictureSet (o max : ℕ) (images : List Image) : Type 0 where
  pub unique : (i : ℕ) → count (has_image_id i) images ≤ 1
  pub one_main : count (main_of o) images ≡ (if count (of_owner o) images == 0 then 0 else 1)
  pub few : count (of_owner o) images ≤ max

pub some_same : {A : Type 0} {a b : A} → some a ≡ some b → a ≡ b
some_same {a} h = ap (λ o. or_else o a) h

module _ {O : Type 0} (v : AlbumServices O) where
  -- The owner shows the picture.
  abbrev pub Shows : O → Image → Type 0
  Shows w im = (c : String) × (v.owner.cover w ≡ some c) × (v.trim c ≡ v.trim im.image_url)

  -- The album of the owner that `findOne` finds.
  pub record IsAlbum (w : O) (db : Gallery O) : Type 0 where
    pub found : first (owner_is v (v.owner.id w)) db.owners ≡ some w
    pub pictures : IsPictureSet (v.owner.id w) v.max_images db.images
    pub shown : (im : Image) → first (main_of (v.owner.id w)) db.images ≡ some im → Shows w im

  pub cleared_none :
      (o : ℕ) (xs : List Image) → count (main_of o) (map_where (of_owner o) (set_main false) xs) ≡ 0
  cleared_none o [] = refl
  cleared_none o (x ∷ xs) = ground (arith, cleared_none o xs)

  pub owner-saved :
      (w : O) (c : Option String) (owners : List O)
      → first (owner_is v (v.owner.id w)) owners ≡ some w
      → first
          (owner_is v (v.owner.id (v.owner.set_cover c w)))
          (v.owner_repo.save (v.owner.set_cover c w) owners)
        ≡ some (v.owner.set_cover c w)
  owner-saved w c owners h =
      let here = first-passes (owner_is v (v.owner.id w)) owners w h in
      rw (v.owner_repo.save_lem, v.owner.id_lem c w)
        (first-save_finer (owner_is v (v.owner.id w)) (λ x. v.owner.id x == v.owner.id w)
          (v.owner.set_cover c w) w owners (λ x m. ground arith) h
          (rw (v.owner.id_lem c w, v.owner.deleted_lem c w) here))

  -- A new picture that is the main one if it is said to be so, after pictures that have one less.
  pub appended :
      (o max : ℕ) (im : Image) (xs : List Image)
      → ((i : ℕ) → count (has_image_id i) xs ≤ 1)
      → count (has_image_id im.id) xs ≡ 0
      → im.owner_id ≡ o
      → count (main_of o) xs + (if im.is_primary then 1 else 0) ≡ 1
      → suc (count (of_owner o) xs) ≤ max
      → IsPictureSet o max (xs ++ im ∷ [])
  appended o max im xs unique new own one few = record {
    unique = λ i. ground (arith, count-append (has_image_id i) xs (im ∷ []), unique i);
    one_main =
        ground
          (arith, count-append (main_of o) xs (im ∷ []), count-append (of_owner o) xs (im ∷ []));
    few = ground (arith, count-append (of_owner o) xs (im ∷ []));
  }

  module _ (order : ℕ) (dto : AddImageDto) (w : O) (db : Gallery O) (h : IsAlbum w db)
      (room : suc (count (of_owner (v.owner.id w)) db.images) ≤ v.max_images) where
    abbrev cleared : List Image
    cleared = map_where (of_owner (v.owner.id w)) (set_main false) db.images

    abbrev as_main : Image
    as_main = new_image v (v.owner.id w) order true dto cleared

    main-IsPictureSet : IsPictureSet (v.owner.id w) v.max_images (cleared ++ as_main ∷ [])
    unfolding new_image
    main-IsPictureSet =
        appended (v.owner.id w) v.max_images as_main cleared
          (λ i.
            rw
              (count-map_where (has_image_id i) (of_owner (v.owner.id w)) (set_main false) db.images
                (λ x _. refl))
              (h.pictures.unique i))
          (v.image_repo.next_id_fresh cleared) refl
          (rw (cleared_none (v.owner.id w) db.images) (omega arith))
          (rw
            (count-map_where (of_owner (v.owner.id w)) (of_owner (v.owner.id w)) (set_main false)
              db.images (λ x _. refl))
            room)

    main_shown :
        (im : Image)
        → first (main_of (v.owner.id w)) (cleared ++ as_main ∷ []) ≡ some im
        → Shows (v.owner.set_cover (some (v.trim dto.image_url)) w) im
    unfolding new_image
    main_shown im e =
        let all =
          rw
            (
              first-append_none (main_of (v.owner.id w)) cleared (as_main ∷ [])
                  (cleared_none (v.owner.id w) db.images),
              ==_refl (v.owner.id w),
            )
            at e in
        let same : as_main ≡ im = some_same all in
        (v.trim dto.image_url, v.owner.cover_lem _ w, ap (λ x. v.trim x.image_url) same)

    abbrev pub step : O × Gallery O
    step = write_image v true order dto w db

    pub main-IsAlbum : IsAlbum step.0 step.1
    unfolding write_image
    main-IsAlbum = record {
      found = owner-saved w (some (v.trim dto.image_url)) db.owners h.found;
      pictures =
          rw (v.owner.id_lem, v.image_repo.update_lem, v.image_repo.insert_lem) main-IsPictureSet;
      shown = λ im e.
          main_shown im
            (rw (v.owner.id_lem, v.image_repo.update_lem, v.image_repo.insert_lem) at e);
    }

    pub main-grown :
        count (of_owner (v.owner.id w)) step.1.images
        ≡ suc (count (of_owner (v.owner.id w)) db.images)
    unfolding write_image new_image
    main-grown =
        rw
          (
            v.image_repo.update_lem,
            v.image_repo.insert_lem,
            count-append (of_owner (v.owner.id w)),
            count-map_where (of_owner (v.owner.id w)) (of_owner (v.owner.id w)) (set_main false)
                db.images (λ x _. refl),
            ==_refl (v.owner.id w),
          )
          (omega arith)

    abbrev plain : Image
    plain = new_image v (v.owner.id w) order false dto db.images

    abbrev pub next : O × Gallery O
    next = write_image v false order dto w db

    module _ (some_left : 1 ≤ count (of_owner (v.owner.id w)) db.images) where
      has_main : count (main_of (v.owner.id w)) db.images ≡ 1
      has_main = ground (arith, h.pictures.one_main)

      plain-IsPictureSet : IsPictureSet (v.owner.id w) v.max_images (db.images ++ plain ∷ [])
      unfolding new_image
      plain-IsPictureSet =
          appended (v.owner.id w) v.max_images plain db.images h.pictures.unique
            (v.image_repo.next_id_fresh db.images) refl (omega (arith, has_main)) room

      pub plain-IsAlbum : IsAlbum next.0 next.1
      unfolding write_image
      plain-IsAlbum = record {
        found = h.found;
        pictures = rw v.image_repo.insert_lem plain-IsPictureSet;
        shown = λ im e. h.shown im (
            sym (
              first-append_some (main_of (v.owner.id w)) db.images (plain ∷ [])
                (omega (arith, has_main)))
            ∙ (rw v.image_repo.insert_lem at e));
      }

    pub plain-grown :
        count (of_owner (v.owner.id w)) next.1.images
        ≡ suc (count (of_owner (v.owner.id w)) db.images)
    unfolding write_image new_image
    plain-grown =
        rw (v.image_repo.insert_lem, count-append (of_owner (v.owner.id w)), ==_refl (v.owner.id w))
          (omega arith)
