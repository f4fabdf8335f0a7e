-- ===== src/Rerouting/Stops/Samples.antt =====
-- Inputs and tests of `ReroutingService`. Places are points of a line.
use mathlib.Core.List.Perm
use sfa_routing.Prelude.{
  ℕ, ◌+◌, ◌-◌, ◌*◌, ◌≡◌, refl, Option, none, some, List, [], ◌∷◌, Perm, arith,
}
use sfa_routing.Prelude.Int.{pos, pos_part}
use sfa_routing.Genetic.Cuts.{range-Nodup}
use sfa_routing.Rerouting.{
  Place, Client, VisitPlan, planned, Stop, DeliveryRoute, DeliveryOrder, Service, manual, last,
  stop_added, reroute_agent_visits, reroute_visits, apply_visit_order, remaining_visits,
  insert_visit, client_places, without_start, renumber_visits, set_sequence, visit_map,
  mapped_places, route_distance, can_reroute, check_and_reroute_agent,
}
use sfa_routing.Rerouting.Stops.{
  Outcome, add_urgent_stop, find_route, find_order, add_stop, add_at, with_status, sort_stops,
  insert_at,
}
use sfa_routing.Rerouting.Renumber.{ids_of, Numbered}
use sfa_routing.Rerouting.Orders.{apply_visit_order-Numbered}
use sfa_routing.Rerouting.Cooldown.{check_after_reroute}

abbrev walk : Place → Place → ℕ
walk (a, _) (c, _) = (pos_part a - pos_part c + (pos_part c - pos_part a)) * 1000

abbrev by_hand : List Place → Option (List ℕ)
by_hand places = some (0 ∷ 2 ∷ 1 ∷ 3 ∷ [])

abbrev home : Place
home = (pos 0, pos 0)

abbrev client : ℕ → ℕ → Client
client id x = record {
  id = id;
  latitude = pos x;
  longitude = pos 0;
  visit_duration_minutes = 15;
  time_window_end = 64800;
}

abbrev visit : ℕ → ℕ → ℕ → VisitPlan
visit id n x = record {
  id = id;
  agent_id = 7;
  planned_date = 1;
  status = planned;
  sequence_number = n;
  client = some (client (10 + id) x);
}

abbrev empty_route : DeliveryRoute
empty_route = record { id = 5; stops = [] }

abbrev driven_route : DeliveryRoute
driven_route = record {
  id = 6;
  stops =
      record { id = 61; order_id = 1; sequence_number = 1 }
      ∷ record { id = 62; order_id = 2; sequence_number = 2 }
      ∷ [];
}

abbrev urgent : DeliveryOrder
urgent = record { id = 9; client = some (client 19 20) }

abbrev service : Service
service = record {
  last_reroute = λ i. none;
  visits = visit 1 1 3000 ∷ visit 2 2 1000 ∷ visit 3 3 4000 ∷ [];
  routes = empty_route ∷ driven_route ∷ [];
  orders = urgent ∷ [];
  sent = [];
}

-- The walk 3000, 1000, 4000 costs 8000 and the walk 1000, 3000, 4000 costs 4000.
reroutes :
    (reroute_agent_visits walk by_hand 100 1 7 home manual service).1.new_route_order
    ≡ 2 ∷ 1 ∷ 3 ∷ []
unfolding reroute_agent_visits reroute_visits apply_visit_order remaining_visits insert_visit
    client_places without_start renumber_visits set_sequence visit_map
reroutes = refl

saves : (reroute_agent_visits walk by_hand 100 1 7 home manual service).1.distance_saved_m ≡ 4000
unfolding reroute_agent_visits reroute_visits apply_visit_order remaining_visits insert_visit
    client_places without_start mapped_places visit_map route_distance
saves = refl

announced : (add_urgent_stop 5 9 last service).0.sent ≡ stop_added 5 9 1 ∷ []
unfolding add_urgent_stop find_route find_order add_stop add_at with_status sort_stops insert_at
announced = refl

apply_visit_order-Numbered_example :
    (Perm
      (apply_visit_order walk by_hand 7 home
        (remaining_visits 7 1 service.visits)
        manual
        (2 ∷ 1 ∷ 3 ∷ [])
        service).1.new_route_order
      (ids_of (remaining_visits 7 1 service.visits)))
    × Numbered 1
        (apply_visit_order walk by_hand 7 home
          (remaining_visits 7 1 service.visits)
          manual
          (2 ∷ 1 ∷ 3 ∷ [])
          service).1.new_route_order
        (apply_visit_order walk by_hand 7 home
          (remaining_visits 7 1 service.visits)
          manual
          (2 ∷ 1 ∷ 3 ∷ [])
          service).0.visits
unfolding remaining_visits insert_visit
apply_visit_order-Numbered_example =
    apply_visit_order-Numbered walk by_hand 7 1 home manual (2 ∷ 1 ∷ 3 ∷ []) service
      (range-Nodup 1 3) ((λ e. ground arith), ((λ e. ground arith), ((λ e. ground arith), tt)))
      (Perm.swap 1 2 (3 ∷ []))

check_after_reroute_example :
    (check_and_reroute_agent walk by_hand 399 1 7 home
        (reroute_visits walk by_hand 100 7 home service.visits manual service).0
      ≡ ((reroute_visits walk by_hand 100 7 home service.visits manual service).0, none))
    × (can_reroute (reroute_visits walk by_hand 100 7 home service.visits manual service).0 399 8
        ≡ can_reroute service 399 8)
check_after_reroute_example =
    check_after_reroute walk by_hand 100 399 1 7 8 home home service.visits manual service
      (omega arith) (λ e. ground arith)

abbrev unreached : DeliveryRoute → List Stop → Service → Outcome
unreached r stops s = (s, none)
