-- ===== src/Booking/Status.antt =====
-- backend/src/bookings/bookings.service.ts: `VALID_STATUS_TRANSITIONS` and `updateStatus`.
pub mod Refund
pub mod Lifecycle
use cg_traveleke_service.Base.{
  ℕ, ◌+◌, ◌==◌, Bool, true, false, Option, none, some, List, [], ◌∷◌, String, Result, ok, err,
  if◌then◌else◌, ◌||◌,
}
use cg_traveleke_service.Database.Repo.{Repo}
use cg_traveleke_service.Database.LockOrder.{SortKey, string, deterministic_sort}
use cg_traveleke_service.Database.Retry.{
  Transactions, Outcome, default_options, run_with_deadlock_retry,
}
use cg_traveleke_service.Booking.Model.{
  Db, Room, Booking, BookingRoom, BookingStatusLog, BookingStatus, pending, confirmed, rejected,
  checked_in, completed, cancelled, BookingStatus-discrete, Note, given, Orm, BookingError,
  booking_not_found, bad_transition, Tx, pure, throw, ◌>>=◌, ◌>>◌,
}

unfoldable pub valid_status_transitions : BookingStatus → List BookingStatus
valid_status_transitions pending = confirmed ∷ rejected ∷ cancelled ∷ []
valid_status_transitions confirmed = checked_in ∷ cancelled ∷ []
valid_status_transitions checked_in = completed ∷ []
valid_status_transitions rejected = []
valid_status_transitions completed = []
valid_status_transitions cancelled = []

-- `===` on statuses, and `includes` on a list of them.
abbrev pub same_status : BookingStatus → BookingStatus → Bool
same_status a b = elim (BookingStatus-discrete a b) [ yes e ↦ true | no e ↦ false ]

unfoldable pub includes_status : List BookingStatus → BookingStatus → Bool
unfolding BookingStatus-discrete
includes_status [] s = false
includes_status (t ∷ ts) s = same_status t s || includes_status ts s

pub record UpdateBookingStatusDto : Type 0 where
  pub status : BookingStatus
  pub note : Option String

abbrev pub gives_back : BookingStatus → Bool
gives_back cancelled = true
gives_back rejected = true
gives_back _ = false

abbrev pub is_room : BookingRoom → Room → Bool
is_room br r = r.id == br.room_id

abbrev pub add_stock : ℕ → Room → Room
add_stock n r = record r { available_rooms = r.available_rooms + n }

-- The loop of updates `available_rooms = available_rooms + :qty`.
unfoldable pub refund_all : Orm → List BookingRoom → List Room → List Room
refund_all orm [] rooms = rooms
refund_all orm (br ∷ brs) rooms =
    refund_all orm brs (orm.room_repo.update (is_room br) (add_stock br.quantity) rooms)

-- The rooms of the booking come back, in the order of their ids as texts. `id_text` is the text of an
-- id, `locale_gt` the comparison.
unfoldable pub refund_rooms :
    Orm → (ℕ → String) → (SortKey → SortKey → Bool) → BookingStatus → Booking → Db → Db
unfolding refund_all
refund_rooms orm id_text locale_gt status booking db =
    let found = orm.booking_room_repo.find (λ br. br.booking_id == booking.id) db.booking_rooms in
    let sorted = deterministic_sort locale_gt (λ br. string (id_text br.room_id)) found in
    if gives_back status then record db { rooms = refund_all orm sorted db.rooms } else db

-- The `switch` that stamps the time.
abbrev stamp : BookingStatus → ℕ → Booking → Booking
stamp confirmed now b = record b { confirmed_at = some now }
stamp rejected now b = record b { rejected_at = some now }
stamp cancelled now b = record b { cancelled_at = some now }
stamp _ now b = b

-- `if (!booking.handledBy) booking.handledBy = changedBy`
abbrev or_handler : Option ℕ → ℕ → Option ℕ
or_handler none u = some u
or_handler (some h) u = some h

unfoldable pub updated_booking : UpdateBookingStatusDto → ℕ → ℕ → Booking → Booking
updated_booking dto user now b =
    stamp dto.status now
      (record b { status = dto.status; handled_by = or_handler b.handled_by user })

abbrev note_of : Option String → Option Note
note_of none = none
note_of (some s) = some (given s)

pub record StatusChange : Type 0 where
  pub saved_booking : Booking
  pub current_status : BookingStatus
  pub new_status : BookingStatus
  pub now : ℕ

unfoldable pub status_log : Orm → Db → UpdateBookingStatusDto → ℕ → Booking → BookingStatusLog
status_log orm db dto user b = record {
  id = orm.status_log_repo.next_id db.status_logs;
  booking_id = b.id;
  changed_by = user;
  old_status = some b.status;
  new_status = dto.status;
  note = note_of dto.note;
}

-- The writes, after the checks.
unfoldable pub apply_status :
    Orm
    → (ℕ → String)
    → (SortKey → SortKey → Bool)
    → UpdateBookingStatusDto
    → ℕ
    → ℕ
    → Booking
    → Tx StatusChange
unfolding refund_rooms status_log updated_booking
apply_status orm id_text locale_gt dto user now b db =
    let db1 = refund_rooms orm id_text locale_gt dto.status b db in
    let saved = updated_booking dto user now b in
    let db2 = record db1 { bookings = orm.booking_repo.save saved db1.bookings } in
    let db3 = record db2 {
      status_logs = orm.status_log_repo.insert (status_log orm db2 dto user b) db2.status_logs;
    } in
    pure
      (record {
        saved_booking = saved;
        current_status = b.status;
        new_status = dto.status;
        now = now;
      })
      db3

-- The transaction's callback.
unfoldable pub update_status :
    Orm
    → (ℕ → String)
    → (SortKey → SortKey → Bool)
    → ℕ
    → UpdateBookingStatusDto
    → ℕ
    → ℕ
    → Tx StatusChange
unfolding apply_status includes_status valid_status_transitions
update_status orm id_text locale_gt booking_id dto user now db =
    elim (orm.booking_repo.find_one (λ b. b.id == booking_id) db.bookings) [
      | none ↦ throw booking_not_found db
      | some b ↦
          if includes_status (valid_status_transitions b.status) dto.status
          then apply_status orm id_text locale_gt dto user now b db
          else throw (bad_transition b.status dto.status) db
    ]
