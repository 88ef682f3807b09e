-- ===== src/Booking/CallTests.antt =====
-- Repeated calls of `create`, and a reassignment that comes too late.
use cg_traveleke_service.Base.{
  ℕ, ◌+◌, ◌≡◌, ◌↔◌, refl, Option, none, some, [], ◌∷◌, String, ok, true, first, sort, includes,
  fold_case,
}
use cg_traveleke_service.Database.Retry.{run_with_deadlock_retry}
use cg_traveleke_service.Booking.Model.{
  Db, Booking, BookingRoom, automatic, pending, cancelled, list_orm, assigned_standard,
  CreateBookingDto,
}
use cg_traveleke_service.Booking.Quote.{quote}
use cg_traveleke_service.Booking.Assign.{standard_score, auto_assign_hotel_staff, is_vip_room}
use cg_traveleke_service.Booking.Create.{Called, Created, created, replayed, create, place_booking}
use cg_traveleke_service.Booking.Create.Replay.{create-replays}
use cg_traveleke_service.Booking.Reassign.{
  TargetStaff, employee, can_reassign, check_status, reassigned_booking, write_reassign,
}
use cg_traveleke_service.Booking.Reassign.Stale.{can_reassign_iff, write_reassign-revives}
use cg_traveleke_service.Booking.Inventory.{has_booking_id, stock}
use cg_traveleke_service.Booking.Inventory.Changed.{booked}
use cg_traveleke_service.Booking.Fixtures.{suite, empty_db, dto, services, redis, random-lt}

abbrev the_booking : Booking
the_booking = record {
  id = 0;
  booking_code = "BK-20260924-A8F2";
  user_id = 4;
  hotel_id = 1;
  trip_plan_id = none;
  handled_by = some 12;
  assignment_type = automatic;
  assignment_note = some (assigned_standard "Garden" "Binh" 2);
  reassigned_at = none;
  reassigned_by = none;
  contact_name = "An";
  contact_email = "an@example.com";
  contact_phone = "0900";
  check_in_at = 0;
  check_out_at = 176400000;
  total_guests = 2;
  requested_room_count = 2;
  estimated_total = 540000000;
  status = pending;
  special_request = none;
  confirmed_at = none;
  rejected_at = none;
  cancelled_at = none;
}

abbrev the_row : BookingRoom
the_row = record {
  id = 0;
  booking_id = 0;
  room_id = 7;
  quantity = 2;
  price_per_night = 90000000;
  nights = 3;
  subtotal = 540000000;
}

abbrev answer : Created
answer = record { booking = the_booking; room_id = 7; room_name = "Garden"; booking_room = the_row }

-- The tables after the call, without the log.
abbrev busy_db : Db
busy_db = record {
  rooms = record suite { available_rooms = 1 } ∷ [];
  bookings = the_booking ∷ [];
  booking_rooms = the_row ∷ [];
  status_logs = [];
}

abbrev first_call : Called (Option (String × String))
first_call = record {
  response = ok (created answer);
  db = record busy_db {
    status_logs =
        record {
          id = 0;
          booking_id = 0;
          changed_by = 12;
          old_status = none;
          new_status = pending;
          note = some (assigned_standard "Garden" "Binh" 2);
        }
        ∷ [];
  };
  cache = some ("k1", "{}");
  emitted = some answer;
}

first_call_lem : create services dto empty_db none ≡ some first_call
unfolding create quote run_with_deadlock_retry place_booking auto_assign_hotel_staff sort
    is_vip_room includes fold_case standard_score
first_call_lem = refl

-- Another request under the same key, for a sold-out hotel.
abbrev second_dto : CreateBookingDto
second_dto = record dto { room_count = 3 }

create-replays_example :
    create services second_dto busy_db first_call.cache
    ≡ some (record {
      response = ok (replayed "{}");
      db = busy_db;
      cache = first_call.cache;
      emitted = none;
    })
create-replays_example =
    create-replays services redis "k1" dto empty_db none (some ("k1", "{}")) answer first_call
      random-lt refl refl refl first_call_lem refl second_dto busy_db refl

can_reassign_iff_example : (can_reassign pending ≡ true) ↔ (check_status pending ≡ ok tt)
can_reassign_iff_example = can_reassign_iff pending

-- The booking was cancelled, and its two rooms were given back, after the reassignment had read it.
abbrev cancelled_booking : Booking
cancelled_booking = record the_booking { status = cancelled; cancelled_at = some 8 }

abbrev freed_db : Db
freed_db = record busy_db { rooms = suite ∷ []; bookings = cancelled_booking ∷ [] }

abbrev chi : TargetStaff
chi = record { id = 13; full_name = "Chi"; role = employee }

abbrev late_db : Db
late_db = (write_reassign list_orm the_booking chi 13 1 none 9 freed_db).1

write_reassign-revives_example :
    (first (has_booking_id 0) late_db.bookings
      ≡ some (reassigned_booking the_booking chi 13 1 none 9))
    × ((reassigned_booking the_booking chi 13 1 none 9).status ≡ pending)
    × ((r : ℕ) → stock r late_db ≡ stock r freed_db + booked r 0 freed_db)
write_reassign-revives_example =
    write_reassign-revives list_orm the_booking chi 13 1 none 9 freed_db cancelled_booking refl refl
      refl

-- Five rooms, of three.
late_stock : stock 7 late_db ≡ 5
unfolding write_reassign
late_stock = refl
