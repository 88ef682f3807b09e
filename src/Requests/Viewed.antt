-- ===== src/Requests/Viewed.antt =====
-- backend/src/services/services.service.ts: what `updateServiceRequestStatus` leaves in a request is a view of
-- the changes that it went through.
use cg_traveleke_service.Base.{
  ℕ, Bool, true, false, not, ◌&&◌, ◌||◌, Option, some, List, [], ◌∷◌, ◌≡◌, refl, sym, ap, ◌∙◌,
  arith, ok, err, if◌then◌else◌, first, map_where, first-map_where_const, first-passes,
}
use cg_traveleke_service.Requests.Model.{
  ServiceRequest, ServiceRequestStatus, pending, accepted, assigned, in_progress, completed,
  confirmed, failed, cancelled, ServicesDb, Services,
}
use cg_traveleke_service.Requests.Service.{
  Payload, past_due, has_request_id, moved_request, update_service_request_status,
}

-- A call on one request.
pub record Move : Type 0 where
  pub target : ServiceRequestStatus
  pub payload : Payload
  pub now : ℕ

abbrev pub to_accepted : ServiceRequestStatus → Bool
to_accepted accepted = true
to_accepted _ = false

abbrev pub to_in_progress : ServiceRequestStatus → Bool
to_in_progress in_progress = true
to_in_progress _ = false

abbrev pub to_completed : ServiceRequestStatus → Bool
to_completed completed = true
to_completed _ = false

abbrev pub to_confirmed : ServiceRequestStatus → Bool
to_confirmed confirmed = true
to_confirmed _ = false

-- The moment of the last change to such a status.
abbrev pub last_time : (ServiceRequestStatus → Bool) → List Move → Option ℕ → Option ℕ
last_time p [] old = old
last_time p (m ∷ ms) old = last_time p ms (if p m.target then some m.now else old)

abbrev pub last_target : List Move → ServiceRequestStatus → ServiceRequestStatus
last_target [] old = old
last_target (m ∷ ms) old = last_target ms m.target

-- A change after the due moment, a confirmation excepted.
abbrev pub any_late : Option ℕ → List Move → Bool
any_late due [] = false
any_late due (m ∷ ms) = (past_due due m.now && not (to_confirmed m.target)) || any_late due ms

-- The request as a view of its changes.
pub record IsView (r : ServiceRequest) (ms : List Move) (r' : ServiceRequest) : Type 0 where
  pub due : r'.sla_due_at ≡ r.sla_due_at
  pub price : r'.total_price ≡ r.total_price
  pub status : r'.status ≡ last_target ms r.status
  pub accepted : r'.accepted_at ≡ last_time to_accepted ms r.accepted_at
  pub started : r'.started_at ≡ last_time to_in_progress ms r.started_at
  pub completed : r'.completed_at ≡ last_time to_completed ms r.completed_at
  pub confirmed : r'.confirmed_at ≡ last_time to_confirmed ms r.confirmed_at
  pub breached : r'.is_sla_breached ≡ (r.is_sla_breached || any_late r.sla_due_at ms)

or_and_true : (b c : Bool) → (b || (c && true)) ≡ (b || ((c && true) || false))
or_and_true true c = refl
or_and_true false true = refl
or_and_true false false = refl

or_completed : (b c : Bool) → ((b || (c && false)) || c) ≡ (b || ((c && true) || false))
or_completed true c = refl
or_completed false true = refl
or_completed false false = refl

or_confirmed : (b c : Bool) → (b || (c && false)) ≡ (b || ((c && false) || false))
or_confirmed true c = refl
or_confirmed false true = refl
or_confirmed false false = refl

moved : ServiceRequest → Move → ServiceRequest
moved r m = moved_request m.target m.payload m.now r

one_breached :
    (t : ServiceRequestStatus) (p : Payload) (now : ℕ) (r : ServiceRequest)
    → (moved_request t p now r).is_sla_breached
      ≡ (r.is_sla_breached || ((past_due r.sla_due_at now && not (to_confirmed t)) || false))
unfolding moved_request
one_breached pending p now r = or_and_true r.is_sla_breached (past_due r.sla_due_at now)
one_breached accepted p now r = or_and_true r.is_sla_breached (past_due r.sla_due_at now)
one_breached assigned p now r = or_and_true r.is_sla_breached (past_due r.sla_due_at now)
one_breached in_progress p now r = or_and_true r.is_sla_breached (past_due r.sla_due_at now)
one_breached completed p now r = or_completed r.is_sla_breached (past_due r.sla_due_at now)
one_breached confirmed p now r = or_confirmed r.is_sla_breached (past_due r.sla_due_at now)
one_breached failed p now r = or_and_true r.is_sla_breached (past_due r.sla_due_at now)
one_breached cancelled p now r = or_and_true r.is_sla_breached (past_due r.sla_due_at now)

-- The other fields after one change.
one_id :
    (t : ServiceRequestStatus) (p : Payload) (now : ℕ) (r : ServiceRequest)
    → (moved_request t p now r).id ≡ r.id
unfolding moved_request
one_id pending p now r = refl
one_id accepted p now r = refl
one_id assigned p now r = refl
one_id in_progress p now r = refl
one_id completed p now r = refl
one_id confirmed p now r = refl
one_id failed p now r = refl
one_id cancelled p now r = refl

one_IsView :
    (t : ServiceRequestStatus) (p : Payload) (now : ℕ) (r : ServiceRequest)
    → ((moved_request t p now r).sla_due_at ≡ r.sla_due_at)
      × ((moved_request t p now r).total_price ≡ r.total_price)
      × ((moved_request t p now r).status ≡ t)
      × ((moved_request t p now r).accepted_at
          ≡ (if to_accepted t then some now else r.accepted_at))
      × ((moved_request t p now r).started_at
          ≡ (if to_in_progress t then some now else r.started_at))
      × ((moved_request t p now r).completed_at
          ≡ (if to_completed t then some now else r.completed_at))
      × ((moved_request t p now r).confirmed_at
          ≡ (if to_confirmed t then some now else r.confirmed_at))
unfolding moved_request
one_IsView pending p now r = (refl, refl, refl, refl, refl, refl, refl)
one_IsView accepted p now r = (refl, refl, refl, refl, refl, refl, refl)
one_IsView assigned p now r = (refl, refl, refl, refl, refl, refl, refl)
one_IsView in_progress p now r = (refl, refl, refl, refl, refl, refl, refl)
one_IsView completed p now r = (refl, refl, refl, refl, refl, refl, refl)
one_IsView confirmed p now r = (refl, refl, refl, refl, refl, refl, refl)
one_IsView failed p now r = (refl, refl, refl, refl, refl, refl, refl)
one_IsView cancelled p now r = (refl, refl, refl, refl, refl, refl, refl)

or_assoc : (a b c d : Bool) → (a || (b || false)) ≡ c → (c || d) ≡ (a || (b || d))
or_assoc true b c d h = ground arith
or_assoc false true c d h = ground arith
or_assoc false false c d h = ground arith

-- One change more, in front.
IsView-cons :
    (m : Move) (ms : List Move) (r r' : ServiceRequest)
    → IsView (moved r m) ms r'
    → IsView r (m ∷ ms) r'
unfolding moved
IsView-cons m ms r r' h =
    let (due, price, now_status, at_accepted, at_started, at_completed, at_confirmed) =
      one_IsView m.target m.payload m.now r in
    record {
      due = h.due ∙ due;
      price = h.price ∙ price;
      status = h.status ∙ ap (last_target ms) now_status;
      accepted = h.accepted ∙ ap (last_time to_accepted ms) at_accepted;
      started = h.started ∙ ap (last_time to_in_progress ms) at_started;
      completed = h.completed ∙ ap (last_time to_completed ms) at_completed;
      confirmed = h.confirmed ∙ ap (last_time to_confirmed ms) at_confirmed;
      breached =
          h.breached
          ∙ ap (λ d. (moved r m).is_sla_breached || any_late d ms) due
          ∙ or_assoc r.is_sla_breached (past_due r.sla_due_at m.now && not (to_confirmed m.target))
              _ (any_late r.sla_due_at ms) (sym (one_breached m.target m.payload m.now r));
    }

module _ (v : Services) (id : ℕ) where
  -- The calls on the request, one after the other; a call that is refused has written nothing.
  unfoldable pub run_moves : List Move → ServicesDb → ServicesDb
  unfolding update_service_request_status
  run_moves [] db = db
  run_moves (m ∷ ms) db =
      run_moves ms (elim (update_service_request_status v id m.target m.payload m.now db) [
        | ok r ↦ r.1
        | err e ↦ db
      ])

  saved_found :
      (db : ServicesDb) (r r' : ServiceRequest)
      → first (has_request_id id) db.requests ≡ some r
      → r'.id ≡ r.id
      → first (has_request_id id) (v.request_repo.save r' db.requests) ≡ some r'
  saved_found db r r' found same =
      let here = first-passes (has_request_id id) db.requests r found in
      let number : r'.id ≡ id = same ∙ ground (arith, here) in
      ap (first (has_request_id id)) (
        v.request_repo.save_lem r' db.requests
        ∙ ap (λ k. map_where (has_request_id k) (λ _. r') db.requests) number)
      ∙ first-map_where_const (has_request_id id) r' db.requests (ground (arith, number)) found

  -- If the table has a request with the id: after any sequence of `updateServiceRequestStatus` it still
  -- has it, and the row is a view of the changes: its status is the last one that was asked for,
  -- whatever the one before; the moments of acceptance, start, completion and confirmation are those of
  -- the last such change; the flag of the deadline is set if it was, or if a change other than a
  -- confirmation came after it, and only then; and the deadline and the price stay.
  pub run_moves-IsView :
      (ms : List Move) (db : ServicesDb) (r : ServiceRequest)
      → first (has_request_id id) db.requests ≡ some r
      → (r' : ServiceRequest) × (first (has_request_id id) (run_moves ms db).requests ≡ some r')
        × IsView r ms r'
  unfolding run_moves update_service_request_status moved
  run_moves-IsView [] db r found = (
    r,
    found,
    record {
      due = refl;
      price = refl;
      status = refl;
      accepted = refl;
      started = refl;
      completed = refl;
      confirmed = refl;
      breached = ground arith;
    },
  )
  run_moves-IsView (m ∷ ms) db r found =
      let one = v.request_repo.find_one_lem (has_request_id id) db.requests ∙ found in
      let db' = record db { requests = v.request_repo.save (moved r m) db.requests } in
      let (r', last, view) =
        run_moves-IsView ms db' (moved r m)
          (saved_found db r (moved r m) found (one_id m.target m.payload m.now r)) in
      (r', rw (run_moves, update_service_request_status, one) last, IsView-cons m ms r r' view)
