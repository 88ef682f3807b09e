-- ===== src/Booking/Quote.antt =====
-- backend/src/bookings/bookings.service.ts: `create` up to its transaction, which checks the request
-- and computes the nights and the price. Amounts are hundredths, times are milliseconds.
pub mod Laws
use cg_traveleke_service.Base.{
  ℕ, ◌+◌, ◌-◌, ◌*◌, ◌/◌, ltb, leb, Bool, Option, none, some, String, Result, ok, err, ◌>>=◌, ◌>>◌,
  throw_if, or_throw,
}
use cg_traveleke_service.Booking.Model.{
  Room, CreateBookingDto, Price, nan, negative, cents, BookingError, room_not_found, invalid_dates,
  check_out_not_after_check_in, too_few_nights, only_left, invalid_price,
}

pub record Quote : Type 0 where
  pub check_in : ℕ
  pub check_out : ℕ
  pub nights : ℕ
  pub price_per_night : ℕ
  pub subtotal : ℕ

-- `1000 * 60 * 60 * 24`
abbrev pub day_ms : ℕ
day_ms = 86400000

-- `Math.ceil(diff / day)`
abbrev pub nights_of : ℕ → ℕ
nights_of diff = (diff + (day_ms - 1)) / day_ms

-- `Number.isNaN(price) || price < 0` is an error.
abbrev valid_price : Price → Result BookingError ℕ
valid_price nan = err invalid_price
valid_price (negative n) = err invalid_price
valid_price (cents n) = ok n

-- `new_date s` is the time of `new Date(s)`, `none` for NaN.
unfoldable pub quote : (String → Option ℕ) → CreateBookingDto → Room → Result BookingError Quote
quote new_date dto room = do
  check_in ← or_throw (new_date dto.check_in_at) invalid_dates
  check_out ← or_throw (new_date dto.check_out_at) invalid_dates
  throw_if (leb check_out check_in) check_out_not_after_check_in
  let nights = nights_of (check_out - check_in)
  throw_if (ltb nights 1) too_few_nights
  throw_if (ltb room.available_rooms dto.room_count) (only_left room.available_rooms)
  price_per_night ← valid_price room.price_per_night
  let subtotal = price_per_night * nights * dto.room_count
  ok (record {
    check_in = check_in;
    check_out = check_out;
    nights = nights;
    price_per_night = price_per_night;
    subtotal = subtotal;
  })
