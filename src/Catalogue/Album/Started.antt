-- ===== src/Catalogue/Album/Started.antt =====
-- backend/src/hotels/hotels.service.ts and backend/src/rooms/rooms.service.ts: a new hotel or room has an
-- album.
use text.Mathlib.Text.{◌==◌ as str_eq}
use cg_traveleke_service.Base.{
  ℕ, ◌≤◌, ◌==◌, true, false, some, [], ◌∷◌, ◌≡◌, refl, ap, arith, count, first, Bool-cases,
  Option-cases, inl, inr, String, ==_refl, count_mono, count_of_first, first-append_none,
}
use cg_traveleke_service.Catalogue.Album.{
  Image, Gallery, AlbumServices, digits, of_owner, owner_is, has_image_id, find_owner, add_cover,
}
use cg_traveleke_service.Catalogue.Album.Main.{main_of, IsAlbum, appended, some_same}
use cg_traveleke_service.Catalogue.Album.History.{Serves}

module _ {O : Type 0} (v : AlbumServices O) (caption : String) (w : O) (db : Gallery O)
    (some_room : 1 ≤ v.max_images) (unique : (i : ℕ) → count (has_image_id i) db.images ≤ 1)
    (no_images : count (of_owner (v.owner.id w)) db.images ≡ 0)
    (new : count (λ x. v.owner.id x == v.owner.id w) db.owners ≡ 0)
    (kept : v.owner.deleted w ≡ false) where
  abbrev inserted : Gallery O
  inserted = record db { owners = v.owner_repo.insert w db.owners }

  w-found : first (owner_is v (v.owner.id w)) inserted.owners ≡ some w
  w-found =
      let none_yet : count (owner_is v (v.owner.id w)) db.owners ≡ 0 = omega (
        arith,
        new,
        count_mono (owner_is v (v.owner.id w)) (λ x. v.owner.id x == v.owner.id w) db.owners
            (λ x m. ground arith),
      ) in
      rw
        (
          v.owner_repo.insert_lem,
          first-append_none (owner_is v (v.owner.id w)) db.owners (w ∷ []) none_yet,
          kept,
          ==_refl (v.owner.id w),
        )
        refl

  no_main : count (main_of (v.owner.id w)) db.images ≡ 0
  no_main = omega (
    arith,
    no_images,
    count_mono (main_of (v.owner.id w)) (of_owner (v.owner.id w)) db.images (λ x m. ground arith),
  )

  empty-IsAlbum : IsAlbum v w inserted
  empty-IsAlbum = record {
    found = w-found;
    pictures = record {
      unique = unique;
      one_main = rw (no_main, no_images) refl;
      few = omega (arith, no_images);
    };
    shown = λ im e.
        let some_main = count_of_first (main_of (v.owner.id w)) db.images im e in
        absurd (omega (arith, no_main, some_main));
  }

  module _ (c : String) (covers : v.owner.cover w ≡ some c) where
    abbrev picture : Image
    picture = record {
      id = v.image_repo.next_id db.images;
      owner_id = v.owner.id w;
      image_url = c;
      caption = some caption;
      sort_order = 0;
      is_primary = true;
    }

    covered-IsAlbum :
        IsAlbum v w (record inserted { images = v.image_repo.insert picture db.images })
    covered-IsAlbum = record {
      found = w-found;
      pictures = rw v.image_repo.insert_lem (
          appended v (v.owner.id w) v.max_images picture db.images unique
            (v.image_repo.next_id_fresh db.images) refl (omega (arith, no_main))
            (omega (arith, no_images)));
      shown = λ im e.
          let all =
            rw
              (
                v.image_repo.insert_lem,
                first-append_none (main_of (v.owner.id w)) db.images (picture ∷ []) no_main,
                ==_refl (v.owner.id w),
              )
              at e in
          (c, covers, ap (λ x. v.trim x.image_url) (some_same all));
    }

  add_cover-IsAlbum : IsAlbum v w (add_cover v caption w inserted)
  unfolding add_cover
  add_cover-IsAlbum = elim (Option-cases (v.owner.cover w)) [
    | inl e ↦ rw (e, add_cover) empty-IsAlbum
    | inr (c, e) ↦ elim (Bool-cases (str_eq c "")) [
      | inl s ↦ rw (e, add_cover, s) empty-IsAlbum
      | inr s ↦ rw (e, add_cover, s) (covered-IsAlbum c e)
    ]
  ]

  add_cover-owners : (add_cover v caption w inserted).owners ≡ inserted.owners
  unfolding add_cover
  add_cover-owners = elim (Option-cases (v.owner.cover w)) [
    | inl e ↦ rw (e, add_cover) refl
    | inr (c, e) ↦ elim (Bool-cases (str_eq c "")) [
      | inl s ↦ rw (e, add_cover, s) refl
      | inr s ↦ rw (e, add_cover, s) refl
    ]
  ]

  -- The new owner is found by its id, and has an album.
  pub add_cover-Serves : Serves v (digits (v.owner.id w)) (add_cover v caption w inserted)
  unfolding find_owner
  add_cover-Serves =
      (w, rw (v.owner_repo.find_one_lem, add_cover-owners, w-found) refl, add_cover-IsAlbum)
