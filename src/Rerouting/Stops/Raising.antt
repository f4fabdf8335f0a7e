-- ===== src/Rerouting/Stops/Raising.antt =====
-- What the operations on delivery routes do with stops.
use sfa_routing.Prelude.{ℕ, ◌≡◌, All, true, false, some, List, [], ◌∷◌, ◌++◌, ◌==◌}
use sfa_routing.Rerouting.{Service, DeliveryRoute, DeliveryOrder, order_added, stop_added}
use sfa_routing.Rerouting.Stops.{Outcome}

abbrev pub ids_of : List DeliveryRoute → List ℕ
ids_of [] = []
ids_of (r ∷ rs) = r.id ∷ ids_of rs

-- No route has the identifier.
abbrev pub IsFresh : ℕ → List ℕ → Type 0
IsFresh id ids = All (λ (k : ℕ). (k == id) ≡ false) ids

-- The identifiers are a primary key.
unfoldable pub AreKeys : List ℕ → Type 0
AreKeys [] = Unit {0}
AreKeys (id ∷ ids) = IsFresh id ids × AreKeys ids

-- The announcement of an order at the first place.
abbrev pub announced : DeliveryRoute → DeliveryOrder → Service → Outcome
announced r o s = (
  record s { sent = s.sent ++ stop_added r.id o.id 1 ∷ [] },
  some (record {
    success = true;
    route_id = some r.id;
    message = order_added 1;
    stops_reordered = 1;
    distance_saved_m = 0;
    time_saved_s = 0;
    new_route_order = [];
  }),
)
