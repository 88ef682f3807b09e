-- ===== src/Catalogue/Hotels/Created.antt =====
-- backend/src/hotels/hotels.service.ts: what `create` leaves.
use cg_traveleke_service.Base.{
  ℕ, ◌≤◌, none, List, ◌≡◌, refl, ap, arith, count, subst, Option-cases, Result-cases, inl, inr, ok,
  or_else, codes, length, ok_same,
}
use cg_traveleke_service.Catalogue.Slug.{SlugResult, no_slug, endless, unique, normalize_slug}
use cg_traveleke_service.Catalogue.Slug.Unique.{any, any-none, build_unique_slug-free}
use cg_traveleke_service.Catalogue.Album.{digits, of_owner, has_image_id}
use cg_traveleke_service.Catalogue.Album.History.{Serves}
use cg_traveleke_service.Catalogue.Album.Started.{add_cover-Serves}
use cg_traveleke_service.Catalogue.Hotels.Model.{
  Hotel, CreateHotelDto, HotelServices, hotel_album, HotelDb,
}
use cg_traveleke_service.Catalogue.Hotels.Service.{
  has_hotel_slug, or_slug_error, hotel_slug, new_hotel, create_hotel,
}

module _ (v : HotelServices) (dto : CreateHotelDto) (db : HotelDb)
    (unique_ids : (i : ℕ) → count (has_image_id i) db.images ≤ 1)
    (no_images : count (of_owner (v.hotel_repo.next_id db.owners)) db.images ≡ 0) where
  slug_unique : (r : SlugResult) (s : List ℕ) → or_slug_error r ≡ ok s → r ≡ unique s
  slug_unique no_slug s h = absurd (ground arith)
  slug_unique endless s h = absurd (ground arith)
  slug_unique (unique x) s h = ap unique (ok_same h)

  -- If no two pictures have one id and none belongs to the id that is generated, the hotel that `create`
  -- answers is found by its id with an album, to which the calls of an album apply, and no hotel
  -- had its slug.
  pub create_hotel-Serves :
      (h : Hotel) (db' : HotelDb)
      → create_hotel v dto db ≡ ok (h, db')
      → Serves (hotel_album v) (digits h.id) db'
        × (count (has_hotel_slug v none h.slug) db.owners ≡ 0)
  unfolding create_hotel new_hotel hotel_slug
  create_hotel-Serves h db' run =
      elim (Result-cases (hotel_slug v (or_else dto.slug dto.name) none db)) [
        | inr (x, e) ↦ let wrong = rw e at run in absurd (ground arith)
        | inl (s, e) ↦ elim (Option-cases (v.refuses (new_hotel v dto s db.owners) db.owners)) [
          | inr (f, n) ↦ let wrong = rw (e, n) at run in absurd (ground arith)
          | inl n ↦
              let made = new_hotel v dto s db.owners in
              let serves =
                add_cover-Serves (hotel_album v) "Ảnh đại diện chính" made db (omega arith)
                  unique_ids no_images (v.hotel_repo.next_id_fresh db.owners) refl in
              let free = any-none (has_hotel_slug v none s) db.owners (
                build_unique_slug-free (λ x. any (has_hotel_slug v none x) db.owners) v.number_text
                  (length db.owners)
                  (normalize_slug v.plain 210 (codes (or_else dto.slug dto.name))) s
                  (slug_unique _ s e)) in
              subst
                (λ x.
                  Serves (hotel_album v) (digits x.0.id) x.1
                  × (count (has_hotel_slug v none x.0.slug) db.owners ≡ 0))
                (ok_same (rw (e, n) at run)) (serves, free)
        ]
      ]
