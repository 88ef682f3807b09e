-- ===== src/Catalogue/Album/Deleted.antt =====
-- backend/src/hotels/hotels.service.ts and backend/src/rooms/rooms.service.ts: the deletion of a
-- picture keeps the album one.
use cg_traveleke_service.Base.{
  ℕ, suc, ◌+◌, ◌-◌, ◌≤◌, Bool, true, false, not, ◌&&◌, none, some, List, [], ◌∷◌, ◌≡◌, refl, sym,
  ap, ◌∙◌, subst, arith, if◌then◌else◌, count, first, count_mono, count_of_first, none-selected,
  All-of-sort, All-both, first_by, passes-counted, map_where, select, sort, Bool-cases,
  Option-cases, inl, inr, ==_refl, All, All-sort, All-select, ok, ok_same, first-passes, count-save,
  count-delete, first-delete, first-save, All-found, select-passes,
}
use cg_traveleke_service.Catalogue.Album.{
  Image, Gallery, AlbumServices, IdText, of_owner, has_image_id, after, set_main, find_owner,
  promote_next, delete_image,
}
use cg_traveleke_service.Catalogue.Album.Calls.{Becomes}
use cg_traveleke_service.Catalogue.Album.Main.{
  main_of, IsPictureSet, Shows, IsAlbum, owner-saved, some_same,
}

module _ {O : Type 0} (v : AlbumServices O) (id : IdText) (w : O) (db db' : Gallery O)
    (found : find_owner v id db ≡ ok w) (h : IsAlbum v w db) where
  module _ (image_id : ℕ) (im : Image)
      (mine : first (λ x. has_image_id image_id x && of_owner (v.owner.id w) x) db.images
        ≡ some im) where
    abbrev o : ℕ
    o = v.owner.id w

    abbrev left : List Image
    left = select (λ x. not (has_image_id im.id x)) db.images

    im-passes : (has_image_id image_id im && of_owner o im) ≡ true
    im-passes = first-passes (λ x. has_image_id image_id x && of_owner o x) db.images im mine

    im-found : first (has_image_id im.id) db.images ≡ some im
    im-found =
        first_by (λ x. has_image_id image_id x && of_owner o x) (has_image_id im.id) db.images im
          mine (==_refl im.id) (h.pictures.unique im.id)

    left-counts : (q : Image → Bool) → count q left + (if q im then 1 else 0) ≡ count q db.images
    left-counts q =
        count-delete q (has_image_id im.id) im db.images im-found (h.pictures.unique im.id)

    left_unique : (i : ℕ) → count (has_image_id i) left ≤ 1
    left_unique i = omega (arith, left-counts (has_image_id i), h.pictures.unique i)

    left-mine : suc (count (of_owner o) left) ≡ count (of_owner o) db.images
    left-mine = ground (arith, im-passes, left-counts (of_owner o))

    -- The picture was not the main one.
    module _ (plain : im.is_primary ≡ false) where
      left-main : count (main_of o) left ≡ 1
      left-main = ground (arith, left-counts (main_of o), left-mine, h.pictures.one_main)

      left-some : count (main_of o) left ≤ count (of_owner o) left
      left-some = count_mono (main_of o) (of_owner o) left (λ x m. ground arith)

      left-IsPictureSet : IsPictureSet o v.max_images left
      left-IsPictureSet = record {
        unique = left_unique;
        one_main = ground (arith, left-main, left-some);
        few = omega (arith, left-mine, h.pictures.few);
      }

      left-IsAlbum : IsAlbum v w (record db { images = left })
      left-IsAlbum = record {
        found = h.found;
        pictures = left-IsPictureSet;
        shown = λ x e. h.shown x (
            sym (
              first-delete (main_of o) (has_image_id im.id) im db.images im-found
                (h.pictures.unique im.id) (ground arith))
            ∙ e);
      }

    -- The picture was the main one.
    module _ (main : im.is_primary ≡ true) where
      left-none : count (main_of o) left ≡ 0
      left-none = ground (arith, im-passes, left-counts (main_of o), left-mine, h.pictures.one_main)

      abbrev Candidate : Image → Type 0
      Candidate y = (first (has_image_id y.id) left ≡ some y) × (of_owner o y ≡ true)

      candidates : All Candidate (sort after (select (of_owner o) left))
      candidates = All-sort after Candidate (select (of_owner o) left) (
          All-both (λ y. first (has_image_id y.id) left ≡ some y) (λ y. of_owner o y ≡ true)
            (select (of_owner o) left)
            (All-select (λ y. first (has_image_id y.id) left ≡ some y) (of_owner o) left
              (All-found has_image_id (λ y. y.id) (λ y. ==_refl y.id) left left_unique))
            (select-passes (of_owner o) left))

      no_candidate : sort after (select (of_owner o) left) ≡ [] → count (of_owner o) left ≡ 0
      no_candidate e =
          none-selected (of_owner o) left
            (All-of-sort after (λ y. of_owner o y ≡ false) (select (of_owner o) left) (rw e tt))

      -- The last picture is gone, and the owner shows none.
      emptied :
          count (of_owner o) left ≡ 0
          → Becomes v w (count (of_owner o) left) (record {
            owners = v.owner_repo.save (v.owner.set_cover none w) db.owners;
            images = left;
          })
      emptied e = (
        v.owner.set_cover none w,
        record {
          found = owner-saved v w none db.owners h.found;
          pictures = rw v.owner.id_lem (record {
            unique = left_unique;
            one_main = rw (left-none, e) refl;
            few = omega (arith, left-mine, h.pictures.few);
          });
          shown = λ x k.
              let some_main = count_of_first (main_of o) left x (rw v.owner.id_lem at k) in
              absurd (omega (arith, left-none, some_main));
        },
        v.owner.id_lem _ w,
        refl,
      )

      module _ (y : Image) (y-found : first (has_image_id y.id) left ≡ some y)
          (y-mine : of_owner o y ≡ true) where
        abbrev saved : List Image
        saved = map_where (has_image_id y.id) (λ x. set_main true y) left

        saved-counts :
            (q : Image → Bool)
            → count q saved + (if q y then 1 else 0)
              ≡ count q left + (if q (set_main true y) then 1 else 0)
        saved-counts q =
            count-save q (has_image_id y.id) (set_main true y) y left y-found (left_unique y.id)

        saved-mine : count (of_owner o) saved ≡ count (of_owner o) left
        saved-mine = omega (arith, saved-counts (of_owner o))

        y-plain : main_of o y ≡ false
        y-plain = elim (Bool-cases (main_of o y)) [
          | inr e ↦ e
          | inl e ↦ absurd (
              omega
                (arith, left-none, passes-counted (has_image_id y.id) (main_of o) left y y-found e))
        ]

        saved-IsPictureSet : IsPictureSet o v.max_images saved
        saved-IsPictureSet = record {
          unique = λ i. ground (arith, saved-counts (has_image_id i), left_unique i);
          one_main = ground (
            arith,
            y-mine,
            y-plain,
            saved-counts (main_of o),
            left-none,
            saved-mine,
            passes-counted (has_image_id y.id) (of_owner o) left y y-found y-mine,
          );
          few = omega (arith, saved-mine, left-mine, h.pictures.few);
        }

        saved-shown :
            (x : Image)
            → first (main_of o) saved ≡ some x
            → Shows v (v.owner.set_cover (some y.image_url) w) x
        saved-shown x e =
            let main : main_of o (set_main true y) ≡ true = ground (arith, y-mine) in
            let now =
              first-save (main_of o) (has_image_id y.id) (set_main true y) y left y-found left-none
                main in
            (
              y.image_url,
              v.owner.cover_lem _ w,
              ap (λ z. v.trim z.image_url) (some_same (sym now ∙ e)),
            )

        promoted : Becomes v w (count (of_owner o) left) (record {
          owners = v.owner_repo.save (v.owner.set_cover (some y.image_url) w) db.owners;
          images = v.image_repo.save (set_main true y) left;
        })
        promoted = (
          v.owner.set_cover (some y.image_url) w,
          record {
            found = owner-saved v w (some y.image_url) db.owners h.found;
            pictures = rw (v.owner.id_lem, v.image_repo.save_lem) saved-IsPictureSet;
            shown = λ x e. saved-shown x (rw (v.owner.id_lem, v.image_repo.save_lem) at e);
          },
          v.owner.id_lem _ w,
          rw v.image_repo.save_lem saved-mine,
        )

      next_of :
          (ys : List Image)
          → v.image_repo.find (of_owner o) left ≡ select (of_owner o) left
          → sort after (select (of_owner o) left) ≡ ys
          → All Candidate ys
          → Becomes v w (count (of_owner o) left) (promote_next v w (record db { images = left }))
      unfolding promote_next
      next_of [] same e a = rw (same, e, promote_next) (emptied (no_candidate e))
      next_of (y ∷ ys) same e a = rw (same, e, promote_next) (promoted y a.0.0 a.0.1)

    abbrev remaining : Bool → Gallery O
    remaining b =
        if b then promote_next v w (record db { images = left }) else record db { images = left }

    deleted_with :
        (b : Bool) → im.is_primary ≡ b → Becomes v w (count (of_owner o) left) (remaining b)
    deleted_with true e = next_of e _ (v.image_repo.find_lem _ _) refl (candidates e)
    deleted_with false e = (w, left-IsAlbum e, refl, refl)

  -- If the album was one, `deleteImage` leaves one, with a picture less.
  pub delete_image-Becomes :
      (image_id : ℕ)
      → delete_image v id image_id db ≡ ok db'
      → Becomes v w (count (of_owner (v.owner.id w)) db.images - 1) db'
  unfolding delete_image
  delete_image-Becomes image_id run =
      elim (Option-cases (
        v.image_repo.find_one (λ im. has_image_id image_id im && of_owner (v.owner.id w) im)
          db.images)) [
            | inl e ↦ let wrong = rw (found, e) at run in absurd (ground arith)
            | inr (im, e) ↦
                let mine = sym (v.image_repo.find_one_lem _ _) ∙ e in
                subst (Becomes v w (count (of_owner (v.owner.id w)) db.images - 1))
                  (ok_same (rw (found, e, v.image_repo.delete_lem) at run))
                  (subst (λ k. Becomes v w k (remaining image_id im mine im.is_primary))
                    (omega (arith, left-mine image_id im mine))
                    (deleted_with image_id im mine im.is_primary refl))
          ]
