-- ===== src/Booking/Fixtures.antt =====
-- A hotel with one room type, for the tests of the booking service.
use cg_traveleke_service.Base.{
  ℕ, ◌<◌, true, false, Option, none, some, [], ◌∷◌, String, ◌≡◌, refl, arith, subst, ap, or_else,
  if◌then◌else◌,
}
use text.Mathlib.TextPositions.{eq_refl}
use text.Mathlib.Text.{◌==◌ as str_eq}
use cg_traveleke_service.Database.Retry.Serial.{serial}
use cg_traveleke_service.Booking.Model.{Db, Room, available, CreateBookingDto, cents, list_orm}
use cg_traveleke_service.Booking.Assign.{StaffQueries, Candidate, manager, other}
use cg_traveleke_service.Booking.Create.{CacheClient, Services}
use cg_traveleke_service.Booking.Inventory.{IsConsistent}

abbrev pub suite : Room
suite = record {
  id = 7;
  hotel_id = 1;
  name = "Garden";
  slug = [];
  description = none;
  check_in_time = "14:00:00";
  check_out_time = "12:00:00";
  max_adults = 2;
  max_children = 0;
  total_rooms = 3;
  bed_count = 1;
  bed_type = "double";
  room_size = none;
  rating = 500;
  review_count = 0;
  cover_image_url = none;
  status = available;
  price_per_night = cents 90000000;
  available_rooms = 3;
  deleted = false;
}

abbrev pub empty_db : Db
empty_db = record { rooms = suite ∷ []; bookings = []; booking_rooms = []; status_logs = [] }

abbrev pub dto : CreateBookingDto
dto = record {
  room_id = 7;
  user_id = 4;
  check_in_at = "in";
  check_out_at = "out";
  total_guests = 2;
  room_count = 2;
  contact_name = "An";
  contact_email = "an@example.com";
  contact_phone = "0900";
  special_request = none;
  idempotency_key = some "k1";
}

-- Two days and an hour.
abbrev pub new_date : String → Option ℕ
new_date s = if str_eq s "in" then some 0 else some 176400000

abbrev pub anna : Candidate
anna = record {
  staff_user_id = 11;
  staff_name = "Anna";
  staff_role = manager;
  max_skill_level = 5;
  max_years_exp = 25;
  completed_count = 9;
  active_load = 1;
}

abbrev pub binh : Candidate
binh = record {
  staff_user_id = 12;
  staff_name = "Binh";
  staff_role = other;
  max_skill_level = 2;
  max_years_exp = 10;
  completed_count = 0;
  active_load = 0;
}

abbrev pub staff : StaffQueries
staff = record {
  staff_of_hotel = λ db hotel. some (anna ∷ binh ∷ []);
  staff_fallback = λ db. some [];
  save_fails = λ b db. none;
  log_fails = λ l db. none;
}

-- A Redis that keeps the last entry.
abbrev pub one_entry_read : String → Option (String × String) → Option (Option String)
one_entry_read k none = some none
one_entry_read k (some (j, v)) = some (if str_eq j k then some v else none)

pub str_eq_refl : (k : String) → str_eq k k ≡ true
str_eq_refl k = eq_refl k

pub one_entry-read_write :
    (k v : String) (c c' : Option (String × String))
    → some (some (k, v)) ≡ some c'
    → one_entry_read k c' ≡ some (some v)
one_entry-read_write k v c c' h =
    subst (λ d. one_entry_read k d ≡ some (some v)) (ap (λ o. or_else o c) h) (rw (str_eq_refl k))

abbrev pub redis : CacheClient (Option (String × String))
redis = record {
  read = one_entry_read;
  write = λ k v c. some (some (k, v));
  read-write = λ k v c c'. one_entry-read_write k v c c';
}

abbrev pub services : Services (Option (String × String))
services = record {
  orm = list_orm;
  staff = staff;
  cache = some redis;
  to_json = λ r. "{}";
  parses = λ t. str_eq t "{}";
  to_json_parses = λ r. refl;
  new_date = new_date;
  generate_code = "BK-20260924-A8F2";
  is_transient = λ e. false;
  random = λ n b. 0;
  transactions = serial;
}

pub random-lt : (n b : ℕ) → 0 < b → services.random n b < b
random-lt n b h = h

pub empty-IsConsistent : IsConsistent empty_db
empty-IsConsistent = record {
  unique_rooms = λ i. ground arith;
  unique_bookings = λ i. omega arith;
  rooms_exist = tt;
  bookings_exist = tt;
}
