-- ===== src/Rerouting/Stops.antt =====
-- `reroute_delivery_route` and `add_urgent_stop` of `ReroutingService`, on the stops of
-- backend/app/models/delivery_route.py. These have no `status`, `latitude` and `longitude`: reading one
-- raises an AttributeError, which is `none` here. No exception is caught.
pub mod Raising
pub mod Samples
use mathlib.Core.Option
use sfa_routing.Prelude.{
  ℕ, zero, suc, ◌+◌, Bool, true, false, ◌&&◌, Option, none, some, List, [], ◌∷◌, ◌++◌, ltb, leb,
  ◌==◌, if◌then◌else◌, length,
}
use sfa_routing.Prelude.Int.{ℤ, pos, ltb_ℤ}
use sfa_routing.Rerouting.{
  Service, DeliveryRoute, DeliveryOrder, Stop, StopStatus, pending, assigned, other, RerouteResult,
  refused, route_not_found, not_enough_stops, route_or_order_not_found, no_client_location,
  order_added, stop_added, InsertPosition, optimal, next, last,
}

pub find_route : ℕ → List DeliveryRoute → Option DeliveryRoute
find_route id [] = none
find_route id (r ∷ rs) = let rest = find_route id rs in if r.id == id then some r else rest

pub find_order : ℕ → List DeliveryOrder → Option DeliveryOrder
find_order id [] = none
find_order id (o ∷ os) = let rest = find_order id os in if o.id == id then some o else rest

-- The route with new stops takes the place of the old one.
pub replace_route : DeliveryRoute → List DeliveryRoute → List DeliveryRoute
replace_route r [] = []
replace_route r (q ∷ qs) = (if q.id == r.id then r else q) ∷ replace_route r qs

-- `stop.status`
pub status_of : Stop → Option StopStatus
status_of t = none

-- `[s for s in route.stops if s.status in …]`
pub with_status : (StopStatus → Bool) → List Stop → Option (List Stop)
unfolding status_of
with_status wanted [] = some []
with_status wanted (t ∷ ts) =
    let rest = with_status wanted ts in
    elim (status_of t) [
      | none ↦ none
      | some status ↦ Option.map (λ us. if wanted status then t ∷ us else us) rest
    ]

abbrev pub is_open : StopStatus → Bool
is_open other = false
is_open _ = true

abbrev pub is_pending : StopStatus → Bool
is_pending pending = true
is_pending _ = false

-- The service after a call, and its result or `none` for the exception.
abbrev pub Outcome : Type 0
Outcome = Service × Option RerouteResult

-- `optimize_stops` is the rest of the method, for two open stops or more.
module _ (optimize_stops : DeliveryRoute → List Stop → Service → Outcome) where
  pub reroute_delivery_route : ℕ → Service → Outcome
  unfolding with_status
  reroute_delivery_route route_id s = elim (find_route route_id s.routes) [
    | none ↦ (s, some (refused none route_not_found))
    | some r ↦ elim (with_status is_open r.stops) [
      | none ↦ (s, none)
      | some stops ↦
          if ltb (length stops) 2
          then (s, some (refused (some route_id) not_enough_stops))
          else optimize_stops r stops s
    ]
  ]

pub insert_stop : Stop → List Stop → List Stop
insert_stop t [] = t ∷ []
insert_stop t (u ∷ us) =
    let rest = insert_stop t us in
    if leb t.sequence_number u.sequence_number then t ∷ u ∷ us else u ∷ rest

pub sort_stops : List Stop → List Stop
sort_stops [] = []
sort_stops (t ∷ ts) = insert_stop t (sort_stops ts)

-- `_calculate_insertion_cost`: every other branch reads a coordinate of a stop, or `stops[-1]` of an
-- empty list.
pub insertion_cost : List Stop → ℕ → Option ℤ
insertion_cost [] zero = some (pos 0)
insertion_cost [] (suc i) = none
insertion_cost (t ∷ ts) i = none

abbrev pub cheaper : ℤ → Option (ℕ × ℤ) → Bool
cheaper cost none = true
cheaper cost (some (_, best)) = ltb_ℤ cost best

-- `for i in range(len(pending_stops) + 1)`, from `i` on.
pub best_position : List Stop → ℕ → ℕ → Option (ℕ × ℤ) → Option (Option (ℕ × ℤ))
unfolding insertion_cost
best_position stops zero i best = some best
best_position stops (suc left) i best = elim (insertion_cost stops i) [
  | none ↦ none
  | some cost ↦
      best_position stops left (suc i) (if cheaper cost best then some (i + 1, cost) else best)
]

abbrev pub position_of : ℕ → Option (ℕ × ℤ) → ℕ
position_of default none = default
position_of default (some (position, _)) = position

pub insert_at : InsertPosition → List Stop → Option ℕ
unfolding best_position
insert_at next stops = some 1
insert_at last stops = some (length stops + 1)
insert_at optimal stops =
    Option.map (position_of (length stops + 1)) (best_position stops (length stops + 1) 0 none)

pub holds_stop : ℕ → List Stop → Bool
holds_stop id [] = false
holds_stop id (t ∷ ts) = if t.id == id then true else holds_stop id ts

-- `stop.sequence_number += 1` for the given stops at the position or behind it.
pub shift_stops : ℕ → List Stop → List Stop → List Stop
unfolding holds_stop
shift_stops position stops [] = []
shift_stops position stops (t ∷ ts) =
    (if holds_stop t.id stops && leb position t.sequence_number
      then record t { sequence_number = t.sequence_number + 1 }
      else t)
    ∷ shift_stops position stops ts

pub add_at : DeliveryRoute → DeliveryOrder → List Stop → Service → ℕ → Outcome
unfolding shift_stops replace_route
add_at r o stops s position = (
  record s {
    routes = replace_route (record r { stops = shift_stops position stops r.stops }) s.routes;
    sent = s.sent ++ stop_added r.id o.id position ∷ [];
  },
  some (record {
    success = true;
    route_id = some r.id;
    message = order_added position;
    stops_reordered = length stops + 1;
    distance_saved_m = 0;
    time_saved_s = 0;
    new_route_order = [];
  }),
)

-- What follows once the route, the order and its client are found.
pub add_stop : DeliveryRoute → DeliveryOrder → InsertPosition → Service → Outcome
unfolding with_status sort_stops insert_at add_at
add_stop r o where_to s = elim (with_status is_pending r.stops) [
  | none ↦ (s, none)
  | some found ↦
      let stops = sort_stops found in
      elim (insert_at where_to stops) [
        | none ↦ (s, none)
        | some position ↦ add_at r o stops s position
      ]
]

pub add_urgent_stop : ℕ → ℕ → InsertPosition → Service → Outcome
unfolding find_route find_order
add_urgent_stop route_id order_id where_to s = elim (find_route route_id s.routes) [
  | none ↦ (s, some (refused (some route_id) route_or_order_not_found))
  | some r ↦ elim (find_order order_id s.orders) [
    | none ↦ (s, some (refused (some route_id) route_or_order_not_found))
    | some o ↦ elim o.client [
      | none ↦ (s, some (refused (some route_id) no_client_location))
      | some c ↦ add_stop r o where_to s
    ]
  ]
]
