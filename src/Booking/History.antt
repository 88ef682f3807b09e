-- ===== src/Booking/History.antt =====
-- backend/src/bookings/bookings.service.ts: histories of bookings and status changes, and calls of
-- `create` among them.
use cg_traveleke_service.Base.{
  ℕ, zero, suc, ◌+◌, ◌≤◌, ◌<◌, ◌≡◌, refl, sym, ◌∙◌, some, String, ok, arith, subst, Bool,
}
use cg_traveleke_service.Database.LockOrder.{SortKey}
use cg_traveleke_service.Database.Retry.{Transactions}
use cg_traveleke_service.Database.Retry.Laws.{drift}
use cg_traveleke_service.Booking.Model.{Db, Room, CreateBookingDto, Orm, BookingError}
use cg_traveleke_service.Booking.Quote.{Quote}
use cg_traveleke_service.Booking.Assign.{StaffQueries}
use cg_traveleke_service.Booking.Status.{UpdateBookingStatusDto, StatusChange, update_status}
use cg_traveleke_service.Booking.Create.{Created, Services, Called, place_booking, create}
use cg_traveleke_service.Booking.Create.Ends.{Ended, create-Ended}
use cg_traveleke_service.Booking.Inventory.{held, stock, available, IsConsistent}
use cg_traveleke_service.Booking.Inventory.Created.{place_booking-Keeps}
use cg_traveleke_service.Booking.Inventory.Changed.{update_status-Keeps}

-- A transaction that commits: a new booking, or a change of status.
pub data Step (orm : Orm) (db db' : Db) : Type 0 where
  books :
      (staff : StaffQueries) (dto : CreateBookingDto) (room : Room) (q : Quote) (code : String)
      (c : Created)
      → place_booking orm staff dto room q code db ≡ (ok c, db')
      → Step orm db db'
  changes :
      (id_text : ℕ → String) (locale_gt : SortKey → SortKey → Bool) (booking_id : ℕ)
      (dto : UpdateBookingStatusDto) (user now : ℕ) (c : StatusChange)
      → update_status orm id_text locale_gt booking_id dto user now db ≡ (ok c, db')
      → Step orm db db'

pub data Reach (orm : Orm) (s : Db) : Db → Type 0 where
  here : Reach orm s s
  next : {t u : Db} → Reach orm s t → Step orm t u → Reach orm s u

Step-Keeps :
    {orm : Orm} {s t : Db}
    → Step orm s t
    → IsConsistent s
    → ((r : ℕ) → stock r t ≡ stock r s) × IsConsistent t
Step-Keeps {orm} {s} {t} (Step.books staff dto room q code c e) v =
    place_booking-Keeps orm staff dto room q code s c t v e
Step-Keeps {orm} {s} {t} (Step.changes id_text locale_gt booking_id dto user now c e) v =
    let (same, _, valid) =
      update_status-Keeps orm id_text locale_gt s v booking_id dto user now c t e in
    (same, valid)

pub Reach-Keeps :
    {orm : Orm} {s t : Db}
    → IsConsistent s
    → Reach orm s t
    → ((r : ℕ) → stock r t ≡ stock r s) × IsConsistent t
Reach-Keeps v Reach.here = ((λ r. refl), v)
Reach-Keeps v (Reach.next h st) =
    let (same, valid) = Reach-Keeps v h in
    let (same', valid') = Step-Keeps st valid in ((λ r. same' r ∙ same r), valid')

-- Whatever is booked, confirmed, cancelled or rejected, in any order: the rooms of a type that bookings
-- hold and those that are available add up to what they were, so no room is sold twice.
pub Reach-never_oversold :
    {orm : Orm} {s t : Db}
    → IsConsistent s
    → Reach orm s t
    → (r : ℕ) → (available r t.rooms + held r t ≡ stock r s) × (held r t ≤ stock r s)
Reach-never_oversold v h r = let (same, _) = Reach-Keeps v h in (same r, omega (arith, same r))

Reach-trans : {orm : Orm} {s t u : Db} → Reach orm s t → Reach orm t u → Reach orm s u
Reach-trans h Reach.here = h
Reach-trans h (Reach.next k st) = Reach.next (Reach-trans h k) st

drift-Reach :
    {orm : Orm} {A : Type 0} (tx : Transactions Db BookingError A) (k n : ℕ) (s : Db)
    → ((m : ℕ) (u : Db) → Reach orm u (tx.others m u))
    → Reach orm s (drift tx k n s)
drift-Reach tx zero n s h = Reach.here
drift-Reach tx (suc k) n s h = Reach-trans (h n s) (drift-Reach tx k (suc n) (tx.others n s) h)

Ended-Reach :
    {C : Type 0} (v : Services C) (dto : CreateBookingDto) (db : Db) (c : C) (out : Called C)
    → ((m : ℕ) (u : Db) → Reach v.orm u (v.transactions.others m u))
    → Ended v dto db c out
    → Reach v.orm db out.db
Ended-Reach v dto db c out h (Ended.answered _ _ _ e) =
    subst (λ o. Reach v.orm db o.db) (sym e) Reach.here
Ended-Reach v dto db c out h (Ended.no_room _ _ e) =
    subst (λ o. Reach v.orm db o.db) (sym e) Reach.here
Ended-Reach v dto db c out h (Ended.bad_request _ _ _ _ _ e) =
    subst (λ o. Reach v.orm db o.db) (sym e) Reach.here
Ended-Reach v dto db c out h (Ended.failed _ _ _ k _ _ _ _ e) =
    subst (λ o. Reach v.orm db o.db) (sym e) (drift-Reach v.transactions k 0 db h)
Ended-Reach v dto db c out h (Ended.booked r k room q _ _ _ e _ _) =
    Reach.next (drift-Reach v.transactions k 0 db h)
      (Step.books v.staff dto room q v.generate_code r e)
Ended-Reach v dto db c out h (Ended.lost r k room q _ _ _ e _ _) =
    Reach.next (drift-Reach v.transactions k 0 db h)
      (Step.books v.staff dto room q v.generate_code r e)

-- A call of `create` returns, whatever conflicts it meets; and where the other clients only book and change
-- statuses meanwhile, no room is sold twice by it, on any of its ends.
pub create-never_oversold :
    {C : Type 0} (v : Services C) (dto : CreateBookingDto) (db : Db) (c : C)
    → ((n b : ℕ) → 0 < b → v.random n b < b)
    → ((m : ℕ) (u : Db) → Reach v.orm u (v.transactions.others m u))
    → IsConsistent db
    → (out : Called C) × (create v dto db c ≡ some out)
      × IsConsistent out.db
      × ((r : ℕ)
          → (available r out.db.rooms + held r out.db ≡ stock r db) × (held r out.db ≤ stock r db))
create-never_oversold v dto db c random-lt others valid =
    let (out, call, ended) = create-Ended v dto db c random-lt in
    let reach = Ended-Reach v dto db c out others ended in
    (out, call, (Reach-Keeps valid reach).1, Reach-never_oversold valid reach)
