-- ===== src/Requests/Snapshots.antt =====
-- backend/src/services/services.service.ts: `createBookingSnapshots`, what a booking is entitled to.
use cg_traveleke_service.Base.{
  ℕ, zero, suc, ◌==◌, Bool, true, false, ◌&&◌, Option, none, some, List, [], ◌∷◌, String, or_else,
}
use cg_traveleke_service.Catalogue.Offers.{RoomService, ServiceType, included, quota}
use cg_traveleke_service.Requests.Offered.{is_active}
use cg_traveleke_service.Requests.Model.{
  ServiceCategory, BookingServiceSnapshot, SnapshotStatus, ServicesDb, Services,
}

-- `IN (INCLUDED, QUOTA)`
abbrev pub is_entitled : ServiceType → Bool
is_entitled included = true
is_entitled quota = true
is_entitled _ = false

abbrev pub equals_or_null : Option ℕ → ℕ → Bool
equals_or_null none n = true
equals_or_null (some m) n = m == n

-- `if (id) … (column = :id OR column IS NULL)`
abbrev pub for_id : Option ℕ → Option ℕ → Bool
for_id none column = true
for_id (some zero) column = true
for_id (some (suc n)) column = equals_or_null column (suc n)

abbrev pub grants : Option ℕ → Option ℕ → RoomService → Bool
grants room_type hotel s =
    is_active s.status
    && is_entitled s.service_type
    && for_id room_type s.room_type_id
    && for_id hotel s.hotel_id

abbrev pub is_snapshot : ℕ → ℕ → BookingServiceSnapshot → Bool
is_snapshot booking service s = s.booking_id == booking && s.service_id == service

-- `svc.category?.name ?? null`
abbrev pub category_name : Option ServiceCategory → Option String
category_name none = none
category_name (some c) = some c.name

unfoldable pub new_snapshot : Services → ℕ → RoomService → ServicesDb → BookingServiceSnapshot
new_snapshot v booking s db = record {
  id = v.snapshot_repo.next_id db.snapshots;
  booking_id = booking;
  service_id = s.id;
  service_name = s.name;
  service_type = s.service_type;
  category_name =
      category_name (v.category_repo.find_one (λ c. c.id == s.category_id) db.categories);
  unit = s.unit;
  base_price = s.base_price;
  is_complimentary = s.is_complimentary;
  quota_included = or_else s.quota_per_booking 0;
  quota_used = 0;
  quota_per_night = s.quota_per_night;
  status = SnapshotStatus.active;
  note = none;
}

-- One round of the loop.
unfoldable pub add_snapshot : Services → ℕ → RoomService → ServicesDb → ServicesDb
unfolding new_snapshot
add_snapshot v booking s db =
    elim (v.snapshot_repo.find_one (is_snapshot booking s.id) db.snapshots) [
      | some x ↦ db
      | none ↦ record db {
        snapshots = v.snapshot_repo.insert (new_snapshot v booking s db) db.snapshots;
      }
    ]

unfoldable pub add_snapshots : Services → ℕ → List RoomService → ServicesDb → ServicesDb
unfolding add_snapshot
add_snapshots v booking [] db = db
add_snapshots v booking (s ∷ ss) db = add_snapshots v booking ss (add_snapshot v booking s db)

-- What the call leaves; it answers with the snapshots that are new.
unfoldable pub create_booking_snapshots :
    Services → ℕ → Option ℕ → Option ℕ → ServicesDb → ServicesDb
unfolding add_snapshots
create_booking_snapshots v booking room_type hotel db =
    add_snapshots v booking (v.offer_repo.find (grants room_type hotel) db.offers) db
