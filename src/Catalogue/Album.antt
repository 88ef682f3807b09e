-- ===== src/Catalogue/Album.antt =====
-- backend/src/hotels/hotels.service.ts, and the same in backend/src/rooms/rooms.service.ts: the album of
-- pictures of a hotel or of a room, its owner. The file on the disk is left out.
pub mod Main
pub mod Calls
pub mod Chosen
pub mod Deleted
pub mod History
pub mod Started
pub mod Owners
use text.Mathlib.Text.{◌==◌ as str_eq}
use cg_traveleke_service.Base.{
  ℕ, zero, suc, ◌+◌, ◌==◌, ltb, leb, Bool, true, false, not, ◌&&◌, ◌||◌, Option, none, some, List,
  [], ◌∷◌, ◌++◌, ◌≡◌, String, Result, ok, err, if◌then◌else◌, or_else, length, sort, throw_if,
  or_throw, ◌>>=◌, ◌>>◌,
}
use cg_traveleke_service.Database.Repo.{Repo}

pub record Image : Type 0 where
  pub id : ℕ
  pub owner_id : ℕ
  pub image_url : String
  pub caption : Option String
  pub sort_order : ℕ
  pub is_primary : Bool

pub record AddImageDto : Type 0 where
  pub image_url : String
  pub caption : Option String
  pub sort_order : Option ℕ
  pub is_primary : Bool

-- An id as the path of a request gives it: no number, the text 0, or another text of digits.
pub data IdText : Type 0 where
  no_number zero_text : IdText
  digits : ℕ → IdText

pub data AlbumError : Type 0 where
  invalid_id owner_not_found no_images too_many image_not_found orphaned_picture : AlbumError

-- `assertValidId`
unfoldable pub assert_valid_id : IdText → Result AlbumError ℕ
assert_valid_id no_number = err invalid_id
assert_valid_id zero_text = err invalid_id
assert_valid_id (digits n) = ok n

-- What an album needs of its owner, a hotel or a room.
pub record Owner (O : Type 0) : Type 0 where
  pub id : O → ℕ
  pub deleted : O → Bool
  pub cover : O → Option String
  pub set_cover : Option String → O → O
  pub id_lem : (c : Option String) (o : O) → id (set_cover c o) ≡ id o
  pub deleted_lem : (c : Option String) (o : O) → deleted (set_cover c o) ≡ deleted o
  pub cover_lem : (c : Option String) (o : O) → cover (set_cover c o) ≡ c

pub record Gallery (O : Type 0) : Type 0 where
  pub owners : List O
  pub images : List Image

pub record AlbumServices (O : Type 0) : Type 0 where
  pub owner : Owner O
  pub owner_repo : Repo O owner.id
  pub image_repo : Repo Image (λ i. i.id)
  -- `String.prototype.trim`
  pub trim : String → String
  pub max_images : ℕ

abbrev pub of_owner : ℕ → Image → Bool
of_owner o i = i.owner_id == o

abbrev pub owner_is : {O : Type 0} → AlbumServices O → ℕ → O → Bool
owner_is v o w = v.owner.id w == o && not (v.owner.deleted w)

abbrev pub has_image_id : ℕ → Image → Bool
has_image_id i im = im.id == i

-- `order: { sortOrder: 'ASC', id: 'ASC' }`
abbrev pub after : Image → Image → Bool
after a b = ltb b.sort_order a.sort_order || (a.sort_order == b.sort_order && ltb b.id a.id)

abbrev pub set_main : Bool → Image → Image
set_main b im = record im { is_primary = b }

module _ {O : Type 0} (v : AlbumServices O) where
  -- The row of the owner in `findOne`. The list of pictures that it carries matters in `add_one` only.
  unfoldable pub find_owner : IdText → Gallery O → Result AlbumError O
  unfolding assert_valid_id
  find_owner id db = assert_valid_id id >>= λ n.
      or_throw (v.owner_repo.find_one (owner_is v n) db.owners) owner_not_found

  abbrev pub clear_main : ℕ → List Image → List Image
  clear_main o images = v.image_repo.update (of_owner o) (set_main false) images

  unfoldable pub new_image : ℕ → ℕ → Bool → AddImageDto → List Image → Image
  new_image o order main dto images = record {
    id = v.image_repo.next_id images;
    owner_id = o;
    image_url = v.trim dto.image_url;
    caption = elim dto.caption [ none ↦ none | some c ↦ some (v.trim c) ];
    sort_order = or_else dto.sort_order order;
    is_primary = main;
  }

  -- What a round of the loop of `addImages` writes, with `isPrimary` as computed: the owner as it
  -- stands in memory, and the tables.
  unfoldable pub write_image : Bool → ℕ → AddImageDto → O → Gallery O → O × Gallery O
  unfolding new_image
  write_image main order dto w db =
      let o = v.owner.id w in
      let w' = v.owner.set_cover (some (v.trim dto.image_url)) w in
      let cleared = clear_main o db.images in
      elim main [
        | true ↦ (
          w',
          record {
            owners = v.owner_repo.save w' db.owners;
            images = v.image_repo.insert (new_image o order true dto cleared) cleared;
          },
        )
        | false ↦ (
          w,
          record db {
            images = v.image_repo.insert (new_image o order false dto db.images) db.images;
          },
        )
      ]

  -- One round of the loop. `save` writes the list of pictures back that `findOne` has read. If a picture
  -- was `added` since, it is not in that list, and the ORM takes it from its owner, which the column does
  -- not admit: `save` throws, after the main picture has been cleared.
  unfoldable pub add_one :
      Bool → Bool → ℕ → AddImageDto → O → Gallery O → Result AlbumError O × Gallery O
  unfolding write_image
  add_one added main order dto w db =
      if added && main
      then (err orphaned_picture, record db { images = clear_main (v.owner.id w) db.images })
      else (let (w', db') = write_image main order dto w db in (ok w', db'))

  unfoldable pub add_each :
      ℕ → ℕ → List AddImageDto → O → Gallery O → Result AlbumError (Unit {0}) × Gallery O
  unfolding add_one
  add_each current i [] w db = (ok tt, db)
  add_each current i (dto ∷ dtos) w db =
      let (r, db') =
        add_one (ltb 0 i) (dto.is_primary || (current == 0 && i == 0)) (current + i) dto w db in
      elim r [ err e ↦ (err e, db') | ok w' ↦ add_each current (suc i) dtos w' db' ]

  unfoldable pub add_images :
      IdText → List AddImageDto → Gallery O → Result AlbumError (Unit {0}) × Gallery O
  unfolding find_owner add_each
  add_images id [] db = (err no_images, db)
  add_images id (dto ∷ dtos) db = elim (find_owner id db) [
    | err e ↦ (err e, db)
    | ok w ↦
        let current = v.image_repo.count_rows (of_owner (v.owner.id w)) db.images in
        elim (leb (current + length (dto ∷ dtos)) v.max_images) [
          | true ↦ add_each current 0 (dto ∷ dtos) w db
          | false ↦ (err too_many, db)
        ]
  ]

  unfoldable pub set_primary_image : IdText → ℕ → Gallery O → Result AlbumError (Gallery O)
  unfolding find_owner
  set_primary_image id image_id db = find_owner id db >>= λ w.
      or_throw
        (v.image_repo.find_one (λ im. has_image_id image_id im && of_owner (v.owner.id w) im)
          db.images)
        image_not_found
      >>= λ im. ok (record {
        owners = v.owner_repo.save (v.owner.set_cover (some im.image_url) w) db.owners;
        images = v.image_repo.save (set_main true im) (clear_main (v.owner.id w) db.images);
      })

  -- The picture that follows, once the main one is gone.
  unfoldable pub promote_next : O → Gallery O → Gallery O
  promote_next w db = elim (sort after (v.image_repo.find (of_owner (v.owner.id w)) db.images)) [
    | [] ↦ record db { owners = v.owner_repo.save (v.owner.set_cover none w) db.owners }
    | next ∷ later ↦ record {
      owners = v.owner_repo.save (v.owner.set_cover (some next.image_url) w) db.owners;
      images = v.image_repo.save (set_main true next) db.images;
    }
  ]

  unfoldable pub delete_image : IdText → ℕ → Gallery O → Result AlbumError (Gallery O)
  unfolding find_owner promote_next
  delete_image id image_id db = find_owner id db >>= λ w.
      or_throw
        (v.image_repo.find_one (λ im. has_image_id image_id im && of_owner (v.owner.id w) im)
          db.images)
        image_not_found
      >>= λ im.
          let left = record db { images = v.image_repo.delete (has_image_id im.id) db.images } in
          ok (if im.is_primary then promote_next w left else left)

  -- The picture that `getImages` adds to an empty album with a cover.
  abbrev pub initial_image : ℕ → String → List Image → Image
  initial_image o cover images = record {
    id = v.image_repo.next_id images;
    owner_id = o;
    image_url = v.trim cover;
    caption = some "Ảnh đại diện chính";
    sort_order = 0;
    is_primary = true;
  }

  -- `if (owner?.coverImageUrl && owner.coverImageUrl.trim())`
  abbrev pub cover_of : Option O → Option (O × String)
  cover_of none = none
  cover_of (some w) = elim (v.owner.cover w) [
    | none ↦ none
    | some c ↦ if str_eq c "" || str_eq (v.trim c) "" then none else some (w, c)
  ]

  unfoldable pub get_images : IdText → Gallery O → Result AlbumError (List Image × Gallery O)
  unfolding assert_valid_id
  get_images id db = assert_valid_id id >>= λ n.
      let images = sort after (v.image_repo.find (of_owner n) db.images) in
      ok (elim images [
        | im ∷ later ↦ (im ∷ later, db)
        | [] ↦ elim (cover_of (v.owner_repo.find_one (owner_is v n) db.owners)) [
          | none ↦ ([], db)
          | some (w, c) ↦
              let im = initial_image (v.owner.id w) c db.images in
              (im ∷ [], record db { images = v.image_repo.insert im db.images })
        ]
      ])

  -- In `create`: the first picture, if there is a cover that is not empty.
  unfoldable pub add_cover : String → O → Gallery O → Gallery O
  add_cover caption w db = elim (v.owner.cover w) [
    | none ↦ db
    | some c ↦ if str_eq c "" then db else record db {
      images =
          v.image_repo.insert
            (record {
              id = v.image_repo.next_id db.images;
              owner_id = v.owner.id w;
              image_url = c;
              caption = some caption;
              sort_order = 0;
              is_primary = true;
            })
            db.images;
    }
  ]
