-- ===== src/Booking/Placed.antt =====
-- A booking of the suite, for the tests of the services that share its rows.
use cg_traveleke_service.Base.{◌≡◌, refl, Result, ok, sort, includes, fold_case}
use cg_traveleke_service.Booking.Model.{Db, list_orm, BookingError}
use cg_traveleke_service.Booking.Quote.{quote, Quote}
use cg_traveleke_service.Booking.Assign.{standard_score, auto_assign_hotel_staff, is_vip_room}
use cg_traveleke_service.Booking.Create.{Created, place_booking}
use cg_traveleke_service.Booking.History.{Reach, Step}
use cg_traveleke_service.Booking.Fixtures.{suite, empty_db, dto, new_date, staff}

abbrev pub the_quote : Quote
the_quote = record {
  check_in = 0;
  check_out = 176400000;
  nights = 3;
  price_per_night = 90000000;
  subtotal = 540000000;
}

pub the_quote_lem : quote new_date dto suite ≡ ok the_quote
unfolding quote
the_quote_lem = refl

abbrev pub placing : Result BookingError Created × Db
placing = place_booking list_orm staff dto suite the_quote "BK-20260924-A8F2" empty_db

abbrev pub placed_db : Db
placed_db = placing.1

pub placing_lem : (c : Created) × (placing ≡ (ok c, placed_db))
unfolding place_booking auto_assign_hotel_staff sort is_vip_room includes fold_case standard_score
placing_lem = (_, refl)

pub placed : Reach list_orm empty_db placed_db
placed =
    Reach.next Reach.here
      (Step.books staff dto suite the_quote "BK-20260924-A8F2" placing_lem.0 placing_lem.1)
