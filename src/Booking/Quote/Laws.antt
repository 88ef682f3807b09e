-- ===== src/Booking/Quote/Laws.antt =====
-- backend/src/bookings/bookings.service.ts: what the checks of `create` guarantee of a quote.
use cg_traveleke_service.Base.{ℕ, ◌+◌, ◌-◌, ◌*◌, ◌≤◌, ◌<◌, Option, some, String, ok, ◌≡◌, arith}
use cg_traveleke_service.Booking.Model.{Room, CreateBookingDto, cents}
use cg_traveleke_service.Booking.Quote.{Quote, quote, day_ms}

-- A quote is for the dates of the request, the stay ends after it begins, the nights are the least number
-- of days that cover it, at least one, the rooms were in stock, and the subtotal is the room's price for
-- each room and each night.
pub record IsPriced (new_date : String → Option ℕ) (dto : CreateBookingDto) (room : Room)
    (q : Quote) : Type 0 where
  pub begins : new_date dto.check_in_at ≡ some q.check_in
  pub ends : new_date dto.check_out_at ≡ some q.check_out
  pub ordered : q.check_in < q.check_out
  pub one_night : 1 ≤ q.nights
  pub covered : q.check_out - q.check_in ≤ q.nights * day_ms
  pub least : q.nights * day_ms < q.check_out - q.check_in + day_ms
  pub in_stock : dto.room_count ≤ room.available_rooms
  pub priced : room.price_per_night ≡ cents q.price_per_night
  pub total : q.subtotal ≡ q.price_per_night * q.nights * dto.room_count

pub quote-IsPriced :
    (new_date : String → Option ℕ) (dto : CreateBookingDto) (room : Room) (q : Quote)
    → quote new_date dto room ≡ ok q
    → IsPriced new_date dto room q
unfolding quote
quote-IsPriced new_date dto room q h = ground arith
