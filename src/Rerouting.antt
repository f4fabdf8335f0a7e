-- ===== src/Rerouting.antt =====
-- `ReroutingService` of backend/app/services/planning/rerouting.py.
-- The database is its lists of visits and of delivery routes; `commit` is the new lists. Coordinates
-- are signed micro-degrees. `distance` is `_calculate_distance` (OSRM, or the haversine formula where
-- it fails) in millimetres, and `solve_tsp` is the OR-Tools solver from index 0 on for an open tour,
-- or `none` where it raises. A message is a constructor for its text. Clocks count seconds and days; a client's window ends at a second of the day.
pub mod Stops
pub mod Cooldown
pub mod Renumber
pub mod Orders
use sfa_routing.Prelude.{
  ℕ, zero, suc, ◌+◌, ◌-◌, ◌*◌, ◌/◌, ◌≤◌, Bool, true, false, not, ◌&&◌, ◌||◌, Option, none, some,
  List, [], ◌∷◌, ◌++◌, map, ltb, leb, ◌==◌, if◌then◌else◌, length, get_elem?,
}
use sfa_routing.Prelude.Int.{ℤ, pos, sub_ℕ, ltb_ℤ}

pub record Client : Type 0 where
  pub id : ℕ
  pub latitude : ℤ
  pub longitude : ℤ
  pub visit_duration_minutes : ℕ
  pub time_window_end : ℕ

pub data VisitStatus : Type 0 where
  planned in_progress completed skipped cancelled : VisitStatus

pub record VisitPlan : Type 0 where
  pub id : ℕ
  pub agent_id : ℕ
  pub planned_date : ℕ
  pub status : VisitStatus
  pub sequence_number : ℕ
  pub client : Option Client

pub data StopStatus : Type 0 where
  pending assigned other : StopStatus

-- `DeliveryRouteStop`, which has no status and no coordinates.
pub record Stop : Type 0 where
  pub id : ℕ
  pub order_id : ℕ
  pub sequence_number : ℕ

pub record DeliveryRoute : Type 0 where
  pub id : ℕ
  pub stops : List Stop

pub record DeliveryOrder : Type 0 where
  pub id : ℕ
  pub client : Option Client

pub data Reason : Type 0 where
  manual gps_deviation new_order order_cancelled proactive_optimization : Reason

pub data Message : Type 0 where
  not_enough_visits not_enough_locations not_enough_stops : Message
  route_not_found position_required route_or_order_not_found no_client_location : Message
  optimization_failed : Message
  route_optimized delivery_route_optimized order_added : ℕ → Message

pub record RerouteResult : Type 0 where
  pub success : Bool
  pub route_id : Option ℕ
  pub message : Message
  pub stops_reordered : ℕ
  pub distance_saved_m : ℕ
  pub time_saved_s : ℕ
  pub new_route_order : List ℕ

pub data Broadcast : Type 0 where
  agent_route_updated : ℕ → Reason → RerouteResult → Broadcast
  your_route_updated : ℕ → Reason → RerouteResult → Broadcast
  route_updated : ℕ → Reason → ℕ → List ℕ → Broadcast
  stop_added : ℕ → ℕ → ℕ → Broadcast

-- The service with its dictionary, the database, and the broadcasts so far.
pub record Service : Type 0 where
  pub last_reroute : ℕ → Option ℕ
  pub visits : List VisitPlan
  pub routes : List DeliveryRoute
  pub orders : List DeliveryOrder
  pub sent : List Broadcast

pub data InsertPosition : Type 0 where
  optimal next last : InsertPosition

abbrev pub gps_deviation_threshold_m : ℕ
gps_deviation_threshold_m = 500

abbrev pub min_reroute_interval_s : ℕ
min_reroute_interval_s = 300

abbrev pub refused : Option ℕ → Message → RerouteResult
refused route_id message = record {
  success = false;
  route_id = route_id;
  message = message;
  stops_reordered = 0;
  distance_saved_m = 0;
  time_saved_s = 0;
  new_route_order = [];
}

-- `_can_reroute`
pub can_reroute : Service → ℕ → ℕ → Bool
can_reroute s now entity = elim (s.last_reroute entity) [
  | none ↦ true
  | some before ↦ leb min_reroute_interval_s (now - before)
]

abbrev pub is_planned : VisitStatus → Bool
is_planned planned = true
is_planned _ = false

abbrev pub is_selected : ℕ → ℕ → VisitPlan → Bool
is_selected agent today v = v.agent_id == agent && (v.planned_date == today && is_planned v.status)

unfoldable pub insert_visit : VisitPlan → List VisitPlan → List VisitPlan
insert_visit v [] = v ∷ []
insert_visit v (w ∷ ws) =
    let rest = insert_visit v ws in
    if leb v.sequence_number w.sequence_number then v ∷ w ∷ ws else w ∷ rest

-- The planned visits of the agent today, ordered by their numbers.
unfoldable pub remaining_visits : ℕ → ℕ → List VisitPlan → List VisitPlan
remaining_visits agent today [] = []
remaining_visits agent today (v ∷ vs) =
    let rest = remaining_visits agent today vs in
    if is_selected agent today v then insert_visit v rest else rest

abbrev pub Place : Type 0
Place = ℤ × ℤ

abbrev pub place_of : Client → Place
place_of c = (c.latitude, c.longitude)

-- The locations of the visits that have a client.
pub client_places : List VisitPlan → List Place
client_places [] = []
client_places (v ∷ vs) = elim v.client [
  | none ↦ client_places vs
  | some c ↦ place_of c ∷ client_places vs
]

-- `visit_map`: the visits are counted from 1, and those without a client have no entry.
pub visit_map : List VisitPlan → ℕ → Option VisitPlan
visit_map vs zero = none
visit_map vs (suc i) = elim (get_elem? vs i) [
  | none ↦ none
  | some v ↦ elim v.client [ none ↦ none | some c ↦ some v ]
]

-- `[i for i in optimal_order if i > 0]`
pub without_start : List ℕ → List ℕ
without_start [] = []
without_start (i ∷ is) = let rest = without_start is in if ltb 0 i then i ∷ rest else rest

-- `visit.sequence_number = new_seq`
pub set_sequence : ℕ → ℕ → List VisitPlan → List VisitPlan
set_sequence id n [] = []
set_sequence id n (v ∷ vs) =
    (if v.id == id then record v { sequence_number = n } else v) ∷ set_sequence id n vs

-- `enumerate(optimal_order, start=1)`: the renumbered visits and the new order.
pub renumber_visits : (ℕ → Option VisitPlan) → ℕ → List ℕ → List VisitPlan → List VisitPlan × List ℕ
renumber_visits entry n [] vs = (vs, [])
renumber_visits entry n (i ∷ is) vs = elim (entry i) [
  | none ↦ renumber_visits entry (suc n) is vs
  | some v ↦
      let rest = renumber_visits entry (suc n) is (set_sequence v.id n vs) in
      (rest.0, v.id ∷ (rest.1))
]

-- The places of the entries in the new order.
pub mapped_places : (ℕ → Option VisitPlan) → List ℕ → List Place
mapped_places entry [] = []
mapped_places entry (i ∷ is) = elim (entry i) [
  | none ↦ mapped_places entry is
  | some v ↦ elim v.client [
    | none ↦ mapped_places entry is
    | some c ↦ place_of c ∷ mapped_places entry is
  ]
]

abbrev pub update : (ℕ → Option ℕ) → ℕ → ℕ → ℕ → Option ℕ
update f k v j = if j == k then some v else f j

-- `_broadcast_route_update`
abbrev pub broadcast_route_update : ℕ → RerouteResult → Reason → Service → Service
broadcast_route_update agent result reason s = record s {
  sent =
      s.sent
      ++ agent_route_updated agent reason result ∷ your_route_updated agent reason result ∷ [];
}

module _ (distance : Place → Place → ℕ) where
  -- `_calculate_route_distance`
  pub route_distance : List Place → ℕ
  route_distance [] = 0
  route_distance (p ∷ []) = 0
  route_distance (p ∷ q ∷ rest) = distance p q + route_distance (q ∷ rest)

  module _ (solve_tsp : List Place → Option (List ℕ)) where
    -- What follows the answer of the solver.
    pub apply_visit_order :
        ℕ → Place → List VisitPlan → Reason → List ℕ → Service → Service × RerouteResult
    apply_visit_order agent here remaining reason order s =
        let entry = visit_map remaining in
        let old_distance = route_distance (here ∷ client_places remaining) in
        let new_distance = route_distance (here ∷ mapped_places entry order) in
        let saved = old_distance - new_distance in
        let (visits, ids) = renumber_visits entry 1 order s.visits in
        let result : RerouteResult = record {
          success = true;
          route_id = none;
          message = route_optimized (length order);
          stops_reordered = length order;
          distance_saved_m = saved / 1000;
          time_saved_s = saved / 8330;
          new_route_order = ids;
        } in
        (broadcast_route_update agent result reason (record s { visits = visits }), result)

    -- `reroute_agent_visits` with the remaining visits given.
    pub reroute_visits : ℕ → ℕ → Place → List VisitPlan → Reason → Service → Service × RerouteResult
    reroute_visits now agent here remaining reason s =
        let marked = record s { last_reroute = update s.last_reroute agent now } in
        let locations = here ∷ client_places remaining in
        if ltb (length remaining) 2
        then (marked, refused none not_enough_visits)
        else if ltb (length locations) 3
        then (marked, refused none not_enough_locations)
        else elim (solve_tsp locations) [
          | none ↦ (marked, refused none optimization_failed)
          | some order ↦ apply_visit_order agent here remaining reason (without_start order) marked
        ]

    pub reroute_agent_visits : ℕ → ℕ → ℕ → Place → Reason → Service → Service × RerouteResult
    reroute_agent_visits now today agent here reason s =
        reroute_visits now agent here (remaining_visits agent today s.visits) reason s

    -- The place of the next visit, if its client is there.
    abbrev pub next_place : List VisitPlan → Option Place
    next_place [] = none
    next_place (v ∷ vs) = elim v.client [ none ↦ none | some c ↦ some (place_of c) ]

    pub check_and_reroute_agent : ℕ → ℕ → ℕ → Place → Service → Service × Option RerouteResult
    check_and_reroute_agent now today agent here s =
        let remaining = remaining_visits agent today s.visits in
        if not (can_reroute s now agent)
        then (s, none)
        else if ltb (length remaining) 2
        then (s, none)
        else elim (next_place remaining) [
          | none ↦ (s, none)
          | some expected ↦
              let r = reroute_visits now agent here remaining gps_deviation s in
              if ltb (distance here expected) (gps_deviation_threshold_m * 1000)
              then (s, none)
              else (r.0, some (r.1))
        ]
