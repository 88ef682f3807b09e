-- ===== src/Catalogue/Album/Chosen.antt =====
-- backend/src/hotels/hotels.service.ts and backend/src/rooms/rooms.service.ts: the choice of
-- another main picture keeps the album one.
use cg_traveleke_service.Base.{
  ℕ, ◌+◌, ◌≤◌, Bool, true, false, ◌&&◌, some, List, ◌≡◌, refl, sym, ap, ◌∙◌, subst, arith,
  if◌then◌else◌, count, first, first_by, passes-counted, map_where, Option-cases, inl, inr, ==_refl,
  ok, ok_same, first-map_where_image, count-map_where, first-passes, count-save, first-save,
}
use cg_traveleke_service.Catalogue.Album.{
  Image, Gallery, AlbumServices, IdText, of_owner, has_image_id, set_main, find_owner, clear_main,
  set_primary_image,
}
use cg_traveleke_service.Catalogue.Album.Calls.{Becomes}
use cg_traveleke_service.Catalogue.Album.Main.{
  main_of, IsPictureSet, Shows, IsAlbum, cleared_none, owner-saved, some_same,
}

module _ {O : Type 0} (v : AlbumServices O) (id : IdText) (w : O) (db db' : Gallery O)
    (found : find_owner v id db ≡ ok w) (h : IsAlbum v w db) where
  module _ (image_id : ℕ) (im : Image)
      (mine : first (λ x. has_image_id image_id x && of_owner (v.owner.id w) x) db.images
        ≡ some im) where
    abbrev o : ℕ
    o = v.owner.id w

    abbrev cleared : List Image
    cleared = map_where (of_owner o) (set_main false) db.images

    im-passes : (has_image_id image_id im && of_owner o im) ≡ true
    im-passes = first-passes (λ x. has_image_id image_id x && of_owner o x) db.images im mine

    im-found : first (has_image_id im.id) db.images ≡ some im
    im-found =
        first_by (λ x. has_image_id image_id x && of_owner o x) (has_image_id im.id) db.images im
          mine (==_refl im.id) (h.pictures.unique im.id)

    in-cleared : first (has_image_id im.id) cleared ≡ some (set_main false im)
    in-cleared =
        first-map_where_image (has_image_id im.id) (of_owner o) (set_main false) db.images im
          (λ x. refl) (ground (arith, im-passes)) im-found

    abbrev saved : List Image
    saved = map_where (has_image_id im.id) (λ x. set_main true im) cleared

    cleared_unique : (i : ℕ) → count (has_image_id i) cleared ≤ 1
    cleared_unique i =
        rw (count-map_where (has_image_id i) (of_owner o) (set_main false) db.images (λ x _. refl))
          (h.pictures.unique i)

    saved-counts :
        (q : Image → Bool)
        → count q saved + (if q (set_main false im) then 1 else 0)
          ≡ count q cleared + (if q (set_main true im) then 1 else 0)
    saved-counts q =
        count-save q (has_image_id im.id) (set_main true im) (set_main false im) cleared in-cleared
          (cleared_unique im.id)

    saved-mine : count (of_owner o) saved ≡ count (of_owner o) db.images
    saved-mine = omega (
      arith,
      saved-counts (of_owner o),
      count-map_where (of_owner o) (of_owner o) (set_main false) db.images (λ x _. refl),
    )

    saved-main : count (main_of o) saved ≡ 1
    saved-main = ground (arith, im-passes, saved-counts (main_of o), cleared_none v o db.images)

    some_mine : 1 ≤ count (of_owner o) db.images
    some_mine =
        passes-counted (λ x. has_image_id image_id x && of_owner o x) (of_owner o) db.images im mine
          (ground (arith, im-passes))

    saved-IsPictureSet : IsPictureSet o v.max_images saved
    saved-IsPictureSet = record {
      unique = λ i. ground (arith, saved-counts (has_image_id i), cleared_unique i);
      one_main = ground (arith, saved-main, saved-mine, some_mine);
      few = rw saved-mine h.pictures.few;
    }

    abbrev chosen : Gallery O
    chosen = record {
      owners = v.owner_repo.save (v.owner.set_cover (some im.image_url) w) db.owners;
      images = v.image_repo.save (set_main true im) (clear_main v o db.images);
    }

    chosen-images : chosen.images ≡ saved
    chosen-images =
        v.image_repo.save_lem _ _
        ∙ ap (map_where (has_image_id im.id) (λ x. set_main true im))
            (v.image_repo.update_lem _ _ _)

    saved-shown :
        (x : Image)
        → first (main_of o) saved ≡ some x
        → Shows v (v.owner.set_cover (some im.image_url) w) x
    saved-shown x e =
        let main : main_of o (set_main true im) ≡ true = ground (arith, im-passes) in
        let now =
          first-save (main_of o) (has_image_id im.id) (set_main true im) (set_main false im) cleared
            in-cleared (cleared_none v o db.images) main in
        (
          im.image_url,
          v.owner.cover_lem _ w,
          ap (λ y. v.trim y.image_url) (some_same (sym now ∙ e)),
        )

    chosen-Becomes : Becomes v w (count (of_owner (v.owner.id w)) db.images) chosen
    chosen-Becomes = (
      v.owner.set_cover (some im.image_url) w,
      record {
        found = owner-saved v w (some im.image_url) db.owners h.found;
        pictures = rw (v.owner.id_lem, chosen-images) saved-IsPictureSet;
        shown = λ x e. saved-shown x (rw (v.owner.id_lem, chosen-images) at e);
      },
      v.owner.id_lem _ w,
      rw chosen-images saved-mine,
    )

  -- If the album was one, `setPrimaryImage` leaves one, with the same number of pictures.
  pub set_primary-Becomes :
      (image_id : ℕ)
      → set_primary_image v id image_id db ≡ ok db'
      → Becomes v w (count (of_owner (v.owner.id w)) db.images) db'
  unfolding set_primary_image
  set_primary-Becomes image_id run =
      elim (Option-cases (
        v.image_repo.find_one (λ im. has_image_id image_id im && of_owner (v.owner.id w) im)
          db.images)) [
            | inl n ↦ let wrong = rw (found, n) at run in absurd (ground arith)
            | inr (im, n) ↦
                let mine = sym (v.image_repo.find_one_lem _ _) ∙ n in
                subst (Becomes v w (count (of_owner (v.owner.id w)) db.images))
                  (ok_same (rw (found, n) at run)) (chosen-Becomes image_id im mine)
          ]
