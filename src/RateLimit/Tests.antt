-- ===== src/RateLimit/Tests.antt =====
-- Requests to a route that lets one request through in a second.
use cg_traveleke_service.Base.{◌≤◌, ◌<◌, true, false, none, [], ◌∷◌, ◌≡◌, ◌↔◌, refl, arith, count}
use cg_traveleke_service.RateLimit.Window.{WindowKey, list_set, sliding_window}
use cg_traveleke_service.RateLimit.Allowed.{
  recent, ask, Requests, sliding_window-allowed, sliding_window-limit,
}

abbrev empty_key : WindowKey
empty_key = record { entries = []; expires_at = none }

abbrev key1 : WindowKey
key1 = (ask list_set 1000 1 5000 1 empty_key).key

abbrev key2 : WindowKey
key2 = (ask list_set 1000 1 5900 2 key1).key

-- The second request is refused; the window of the first has passed at 6000.
refused : (ask list_set 1000 1 5900 2 key1).allowed ≡ false
unfolding sliding_window
refused = refl

passed : (ask list_set 1000 1 6000 3 key2).allowed ≡ true
unfolding sliding_window
passed = refl

requests : Requests list_set 1000 1 (5000 ∷ []) key2 5900
unfolding sliding_window
requests =
    Requests.then_one (5000 ∷ []) key1 5000 5900 2
      (Requests.then_one [] empty_key 4000 5000 1 (Requests.none_yet 4000) (omega arith) refl)
      (omega arith) refl

sliding_window-allowed_example :
    ((ask list_set 1000 1 6000 3 key2).allowed ≡ true) ↔ (count (recent 1000 6000) (5000 ∷ []) < 1)
sliding_window-allowed_example =
    sliding_window-allowed list_set 1000 1 (5000 ∷ []) key2 5900 6000 3 requests (omega arith)

sliding_window-limit_example : count (recent 1000 5950) (5000 ∷ []) ≤ 1
sliding_window-limit_example =
    sliding_window-limit list_set 1000 1 (5000 ∷ []) key2 5900 5950 requests (omega arith)
