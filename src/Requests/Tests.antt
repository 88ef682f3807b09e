-- ===== src/Requests/Tests.antt =====
-- Runs of the service requests of a booking with breakfast.
use cg_traveleke_service.Base.{
  ℕ, ◌≤◌, ◌≡◌, refl, arith, none, some, List, [], ◌∷◌, false, first, select, All,
}
use cg_traveleke_service.Database.Repo.{list_repo}
use cg_traveleke_service.Catalogue.Offers.{included}
use cg_traveleke_service.Catalogue.Fixtures.{breakfast}
use cg_traveleke_service.Requests.Model.{
  ServiceRequest, accepted, completed, confirmed, ServicesDb, Services, ServiceRequestStatus,
}
use cg_traveleke_service.Requests.Service.{Payload, has_request_id}
use cg_traveleke_service.Requests.Snapshots.{grants, create_booking_snapshots}
use cg_traveleke_service.Requests.Entitled.{snapshots_of, create_booking_snapshots_complete}
use cg_traveleke_service.Requests.Viewed.{Move, IsView, run_moves, run_moves-IsView}

abbrev services : Services
services = record {
  category_repo = list_repo (λ c. c.id);
  offer_repo = list_repo (λ s. s.id);
  request_repo = list_repo (λ r. r.id);
  snapshot_repo = list_repo (λ s. s.id);
  recovery_repo = list_repo (λ l. l.id);
  to_code = λ s. s;
}

abbrev asked : ServiceRequest
asked = record {
  id = 5;
  booking_id = 9;
  service_id = 3;
  assigned_to = none;
  service_name = "breakfast";
  unit_price = 0;
  quantity = 1;
  total_price = 0;
  note = none;
  scheduled_at = none;
  sla_due_at = some 50;
  is_sla_breached = false;
  accepted_at = none;
  started_at = none;
  completed_at = none;
  confirmed_at = none;
  failure_reason = none;
  recovery_action = none;
  recovery_approved_by = none;
  recovery_cost = none;
  status = ServiceRequestStatus.pending;
}

abbrev db : ServicesDb
db = record {
  categories = [];
  offers = record breakfast { service_type = included } ∷ [];
  requests = asked ∷ [];
  snapshots = [];
  recoveries = [];
}

abbrev silent : Payload
silent = record { assigned_to = none; failure_reason = none; note = none }

-- Confirmed before it is accepted, and completed too late.
abbrev moves : List Move
moves =
    record { target = confirmed; payload = silent; now = 10 }
    ∷ record { target = accepted; payload = silent; now = 20 }
    ∷ record { target = completed; payload = silent; now = 60 }
    ∷ []

run_moves-IsView_example :
    (r' : ServiceRequest) × (first (has_request_id 5) (run_moves services 5 moves db).requests
      ≡ some r')
    × IsView asked moves r'
run_moves-IsView_example = run_moves-IsView services 5 moves db asked refl

create_booking_snapshots_complete_example :
    ((b t : ℕ) → snapshots_of b t (create_booking_snapshots services 9 none (some 1) db) ≤ 1)
    × All
        (λ s. snapshots_of 9 s.id (create_booking_snapshots services 9 none (some 1) db) ≡ 1)
        (select (grants none (some 1)) db.offers)
    × (create_booking_snapshots services 9 none
          (some 1)
          (create_booking_snapshots services 9 none (some 1) db)
        ≡ create_booking_snapshots services 9 none (some 1) db)
create_booking_snapshots_complete_example =
    create_booking_snapshots_complete services 9 none (some 1) db (λ b t. omega arith)
