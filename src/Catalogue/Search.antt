-- ===== src/Catalogue/Search.antt =====
-- backend/src/rooms/rooms.service.ts: `findAll`; backend/src/hotels/hotels.service.ts: `findAll` and `search`.
-- The queries leave the deleted rows out. `like` says that a column LIKE %keyword%. The `search` of rooms is
-- left out: it joins pictures and orders by them, and the ORM then pages over pairs of a room and an order.
use text.Mathlib.Text.{◌==◌ as str_eq}
use cg_traveleke_service.Base.{
  ℕ, zero, suc, ◌==◌, leb, Bool, true, false, not, ◌&&◌, ◌||◌, Option, none, some, List, String,
  if◌then◌else◌,
}
use cg_traveleke_service.Database.Repo.{Repo}
use cg_traveleke_service.Pagination.{Number, num, PaginationMeta, normalize_pagination}
use cg_traveleke_service.Pagination.Pages.{page_rows}
use cg_traveleke_service.Booking.Model.{
  Room, RoomStatus, available, unavailable, maintenance, Price, nan, negative, cents,
}
use cg_traveleke_service.Catalogue.Hotels.Model.{Hotel, HotelStatus, draft, active, inactive}

pub record SearchServices : Type 0 where
  pub room_repo : Repo Room (λ r. r.id)
  pub hotel_repo : Repo Hotel (λ h. h.id)
  pub trim : String → String
  pub like : String → String → Bool

pub record QueryRoomDto : Type 0 where
  pub page : Option ℕ
  pub per_page : Option ℕ
  pub hotel_id : Option ℕ
  pub search : Option String
  pub status : Option RoomStatus
  pub min_price : Option ℕ
  pub max_price : Option ℕ
  pub adults : Option ℕ
  pub children : Option ℕ

pub record QueryHotelDto : Type 0 where
  pub page : Option ℕ
  pub per_page : Option ℕ
  pub search : Option String
  pub status : Option HotelStatus
  pub hotel_type_id : Option ℕ
  pub location_id : Option ℕ

-- `location_id` and `hotel_type_id` are texts here: none stands for the empty text too.
pub record SearchHotelDto : Type 0 where
  pub keyword : Option String
  pub location_id : Option ℕ
  pub hotel_type_id : Option ℕ
  pub star_rating : Option ℕ
  pub status : Option HotelStatus
  pub page : Option ℕ
  pub per_page : Option ℕ

-- A test that is made if a value is given.
abbrev pub given : {A : Type 0} → Option A → (A → Bool) → Bool
given none p = true
given (some a) p = p a

-- `if (id)`, of a number.
abbrev pub given_id : Option ℕ → (ℕ → Bool) → Bool
given_id none p = true
given_id (some zero) p = true
given_id (some (suc n)) p = p (suc n)

-- `if (text?.trim())`
abbrev pub given_text : SearchServices → Option String → (String → Bool) → Bool
given_text v none p = true
given_text v (some t) p = if str_eq (v.trim t) "" then true else p (v.trim t)

-- A column that may be null.
abbrev pub like_null : SearchServices → Option String → String → Bool
like_null v none k = false
like_null v (some t) k = v.like t k

abbrev pub same_room_status : RoomStatus → RoomStatus → Bool
same_room_status available available = true
same_room_status unavailable unavailable = true
same_room_status maintenance maintenance = true
same_room_status a b = false

abbrev pub same_hotel_status : HotelStatus → HotelStatus → Bool
same_hotel_status draft draft = true
same_hotel_status active active = true
same_hotel_status inactive inactive = true
same_hotel_status a b = false

-- `price_per_night >= :minPrice` and `price_per_night <= :maxPrice`; a column holds no NaN.
abbrev pub at_least : Price → ℕ → Bool
at_least nan n = false
at_least (negative m) n = false
at_least (cents m) n = leb n m

abbrev pub at_most : Price → ℕ → Bool
at_most nan n = false
at_most (negative m) n = true
at_most (cents m) n = leb m n

abbrev pub whole : Option ℕ → Option Number
whole none = none
whole (some n) = some (num n false)

-- The tests of `findAll`.
abbrev pub room_listed : SearchServices → QueryRoomDto → Room → Bool
room_listed v q r =
    not r.deleted
    && given_id q.hotel_id (λ h. r.hotel_id == h)
    && given_text v q.search (λ k. v.like r.name k)
    && given q.status (same_room_status r.status)
    && given q.min_price (at_least r.price_per_night)
    && given q.max_price (at_most r.price_per_night)
    && given q.adults (λ n. leb n r.max_adults)
    && given q.children (λ n. leb n r.max_children)

unfoldable pub find_all_rooms :
    SearchServices → QueryRoomDto → List Room → List Room × PaginationMeta
unfolding normalize_pagination page_rows
find_all_rooms v q rooms =
    page_rows (λ r. r.id)
      (normalize_pagination
        (record { page = whole q.page; per_page = whole q.per_page; limit = none }) 20 100)
      (v.room_repo.find (room_listed v q) rooms)

abbrev pub hotel_listed : SearchServices → QueryHotelDto → Hotel → Bool
hotel_listed v q h =
    not h.deleted
    && given_text v q.search (λ k. v.like h.name k || v.like h.address k || like_null v h.email k)
    && given q.status (same_hotel_status h.status)
    && given_id q.hotel_type_id (λ t. h.hotel_type_id == t)
    && given_id q.location_id (λ l. h.location_id == l)

unfoldable pub find_all_hotels :
    SearchServices → QueryHotelDto → List Hotel → List Hotel × PaginationMeta
unfolding normalize_pagination page_rows
find_all_hotels v q hotels =
    page_rows (λ h. h.id)
      (normalize_pagination
        (record { page = whole q.page; per_page = whole q.per_page; limit = none }) 20 100)
      (v.hotel_repo.find (hotel_listed v q) hotels)

abbrev pub star_is : Option ℕ → ℕ → Bool
star_is none n = false
star_is (some s) n = s == n

abbrev pub hotel_wanted : SearchServices → SearchHotelDto → Hotel → Bool
hotel_wanted v q h =
    not h.deleted
    && given_text v q.keyword (λ k.
      v.like h.name k || v.like h.address k || like_null v h.description k || like_null v h.email k)
    && given q.location_id (λ l. h.location_id == l)
    && given q.hotel_type_id (λ t. h.hotel_type_id == t)
    && given_id q.star_rating (star_is h.star_rating)
    && given q.status (same_hotel_status h.status)

unfoldable pub search_hotels :
    SearchServices → SearchHotelDto → List Hotel → List Hotel × PaginationMeta
unfolding normalize_pagination page_rows
search_hotels v q hotels =
    page_rows (λ h. h.id)
      (normalize_pagination
        (record { page = whole q.page; per_page = whole q.per_page; limit = none }) 10 100)
      (v.hotel_repo.find (hotel_wanted v q) hotels)
