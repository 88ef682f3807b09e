-- ===== src/Booking/Tests.antt =====
-- Runs of the booking service on a hotel with one room type.
use mathlib.Core.List.{Mem}
use cg_traveleke_service.Base.{
  ℕ, ◌+◌, ◌≤◌, ◌≡◌, refl, Option, none, some, [], ◌∷◌, String, Result, ok, Bool, true, false, is_ok,
  All, sort, includes, fold_case,
}
use cg_traveleke_service.Database.LockOrder.{SortKey, deterministic_sort}
use cg_traveleke_service.Booking.Model.{
  Db, pending, confirmed, cancelled, list_orm, BookingStatus-discrete, BookingError,
}
use cg_traveleke_service.Booking.Quote.Laws.{IsPriced, quote-IsPriced}
use cg_traveleke_service.Booking.Assign.{
  best_candidate, vip_score, standard_score, auto_assign_hotel_staff, is_vip_room,
}
use cg_traveleke_service.Booking.Assign.Best.{Suits, best_candidate-Suits}
use cg_traveleke_service.Booking.Create.{Called, create, place_booking}
use cg_traveleke_service.Booking.Create.Ends.{Ended, create-Ended}
use cg_traveleke_service.Booking.Status.{
  UpdateBookingStatusDto, update_status, StatusChange, includes_status, valid_status_transitions,
}
use cg_traveleke_service.Booking.Status.Lifecycle.{Lifecycle, Lifecycle-le}
use cg_traveleke_service.Booking.Status.Refund.{update_status-guard}
use cg_traveleke_service.Booking.Inventory.{available, held, stock, IsConsistent}
use cg_traveleke_service.Booking.Inventory.Created.{place_booking-Keeps}
use cg_traveleke_service.Booking.Inventory.Changed.{booked, update_status-Keeps}
use cg_traveleke_service.Booking.History.{create-never_oversold, Reach, Step, Reach-never_oversold}
use cg_traveleke_service.Booking.Placed.{the_quote, the_quote_lem, placed_db, placing_lem}
use cg_traveleke_service.Booking.Fixtures.{
  suite, empty_db, dto, new_date, staff, services, random-lt, empty-IsConsistent, anna, binh,
}

quote-IsPriced_example : IsPriced new_date dto suite the_quote
quote-IsPriced_example = quote-IsPriced new_date dto suite the_quote the_quote_lem

best_is_anna : best_candidate true (binh ∷ anna ∷ []) ≡ some anna
unfolding best_candidate vip_score sort
best_is_anna = refl

best_candidate-Suits_example :
    All (λ d. Suits true anna d) (binh ∷ anna ∷ []) × Mem anna (binh ∷ anna ∷ [])
best_candidate-Suits_example = best_candidate-Suits true (binh ∷ anna ∷ []) anna best_is_anna

-- Booked, and then cancelled.
abbrev cancel : UpdateBookingStatusDto
cancel = record { status = cancelled; note = none }

abbrev no_order : SortKey → SortKey → Bool
no_order a b = false

abbrev cancelling : Result BookingError StatusChange × Db
cancelling = update_status list_orm (λ i. "7") no_order 0 cancel 4 5 placed_db

abbrev cancelled_db : Db
cancelled_db = cancelling.1

cancelling_lem : (c : StatusChange) × (cancelling ≡ (ok c, cancelled_db))
unfolding place_booking auto_assign_hotel_staff sort is_vip_room includes fold_case standard_score
    update_status BookingStatus-discrete deterministic_sort
cancelling_lem = (_, refl)

placed_stock : (available 7 placed_db.rooms ≡ 1) × (held 7 placed_db ≡ 2)
unfolding place_booking auto_assign_hotel_staff sort is_vip_room includes fold_case standard_score
placed_stock = (refl, refl)

cancelled_stock : (available 7 cancelled_db.rooms ≡ 3) × (held 7 cancelled_db ≡ 0)
unfolding place_booking auto_assign_hotel_staff sort is_vip_room includes fold_case standard_score
    update_status BookingStatus-discrete deterministic_sort
cancelled_stock = (refl, refl)

history : Reach list_orm empty_db cancelled_db
history =
    Reach.next
      (Reach.next Reach.here
        (Step.books staff dto suite the_quote "BK-20260924-A8F2" placing_lem.0 placing_lem.1))
      (Step.changes (λ i. "7") no_order 0 cancel 4 5 cancelling_lem.0 cancelling_lem.1)

Reach-never_oversold_example :
    (available 7 cancelled_db.rooms + held 7 cancelled_db ≡ stock 7 empty_db)
    × (held 7 cancelled_db ≤ stock 7 empty_db)
Reach-never_oversold_example = Reach-never_oversold empty-IsConsistent history 7

create-never_oversold_example :
    (out : Called (Option (String × String))) × (create services dto empty_db none ≡ some out)
    × IsConsistent out.db
    × ((r : ℕ)
        → (available r out.db.rooms + held r out.db ≡ stock r empty_db)
          × (held r out.db ≤ stock r empty_db))
create-never_oversold_example =
    create-never_oversold services dto empty_db none random-lt (λ m u. Reach.here)
      empty-IsConsistent

create-Ended_example :
    (out : Called (Option (String × String))) × (create services dto empty_db none ≡ some out)
    × Ended services dto empty_db none out
create-Ended_example = create-Ended services dto empty_db none random-lt

placed-IsConsistent : IsConsistent placed_db
placed-IsConsistent =
    (place_booking-Keeps list_orm staff dto suite the_quote "BK-20260924-A8F2" empty_db
      placing_lem.0 placed_db empty-IsConsistent placing_lem.1).1

update_status-Keeps_example :
    ((r : ℕ) → stock r cancelled_db ≡ stock r placed_db)
    × ((r : ℕ)
        → available r cancelled_db.rooms ≡ available r placed_db.rooms + booked r 0 placed_db)
    × IsConsistent cancelled_db
update_status-Keeps_example =
    update_status-Keeps list_orm (λ i. "7") no_order placed_db placed-IsConsistent 0 cancel 4 5
      cancelling_lem.0 cancelled_db cancelling_lem.1

update_status-guard_example :
    (is_ok cancelling.0 ≡ true) × (is_ok cancelling.0 ≡ false → cancelling.1 ≡ placed_db)
unfolding place_booking auto_assign_hotel_staff sort is_vip_room includes fold_case standard_score
    includes_status valid_status_transitions BookingStatus-discrete
update_status-guard_example =
    update_status-guard list_orm (λ i. "7") no_order 0 cancel 4 5 placed_db

Lifecycle-le_example : 2 ≤ 3
unfolding includes_status valid_status_transitions BookingStatus-discrete
Lifecycle-le_example =
    Lifecycle-le {s = cancelled} {n = 2}
      (Lifecycle.change (Lifecycle.change {s = pending} {t = confirmed} Lifecycle.start refl) refl)
