-- ===== src/FieldRouting/Vrpc.antt =====
-- `VRPCService` of backend/app/services/planning/field_routing.py. Point 0 is the depot, and the
-- set `unassigned` is the list of its numbers in ascending order, in which Python runs through it.
-- The haversine distance is the parameter `haversine`, in micrometres, and times count
-- microseconds. A loop and the totals keep their sums until the answer, which rounds them.
pub mod Nearest
pub mod Loops
pub mod Drives
pub mod Vehicles
pub mod Answers
pub mod Refusals
pub mod Samples
use sfa_routing.Prelude.{
  range, ℕ, zero, suc, ◌+◌, ◌-◌, ◌*◌, ◌/◌, ◌%◌, Bool, true, false, not, ◌&&◌, Option, none, some,
  List, [], ◌∷◌, ◌++◌, map, ltb, leb, ◌==◌, if◌then◌else◌, length, get_elem?, String,
}
use sfa_routing.Prelude.Int.{ℤ}
use sfa_routing.Prelude.Perms.{sum_by}
use sfa_routing.Greedy.{closer}
use sfa_routing.FieldRouting.{
  VehicleType, car, truck, walking, cycling, VrpcUrls, VrpcPoint, VrpcVehicle, VrpcRequest,
  VrpcLoop, VrpcResponse, success, url_not_found_for_vehicle, weight_exceeds_capacity,
  no_solution_found,
}

-- The state of the inner loop. The points of `route` are counted from 1.
pub record LoopState : Type 0 where
  pub route : List ℕ
  pub distance : ℕ
  pub duration : ℕ
  pub capacity : ℕ
  pub current : ℕ
  pub unassigned : List ℕ

-- `unassigned.remove(point)`
abbrev pub remove : ℕ → List ℕ → List ℕ
remove p [] = []
remove p (x ∷ xs) = let rest = remove p xs in if x == p then xs else x ∷ rest

-- `max_distance = request.max_cycle_distance or float("inf")`; `none` is infinity.
pub max_distance : Option ℕ → Option ℕ
max_distance none = none
max_distance (some m) = if m == 0 then none else some m

abbrev pub beyond : ℕ → Option ℕ → Bool
beyond d none = false
beyond d (some m) = ltb m d

abbrev pub start_loop : ℕ → List ℕ → LoopState
start_loop capacity unassigned = record {
  route = [];
  distance = 0;
  duration = 0;
  capacity = capacity;
  current = 0;
  unassigned = unassigned;
}

-- The state of the loops around it: the loops of the vehicle, and the totals.
pub record Drive : Type 0 where
  pub loops : List VrpcLoop
  pub unassigned : List ℕ
  pub total_distance : ℕ
  pub total_duration : ℕ

pub record Fleet : Type 0 where
  pub vehicle_routes : List (List VrpcLoop)
  pub unassigned : List ℕ
  pub total_distance : ℕ
  pub total_duration : ℕ

-- `distances`, `durations` and `point_weights` as functions of the point.
module _ (distances durations : ℕ → ℕ → ℕ) (weight : ℕ → ℕ) (limit : Option ℕ) where
  -- One round of `for point in unassigned`.
  pub consider : LoopState → ℕ → Option (ℕ × ℕ) → Option (ℕ × ℕ)
  consider s point best =
      if ltb s.capacity (weight point)
      then best
      else if beyond (s.distance + distances s.current point + distances point 0) limit
      then best
      else if closer (distances s.current point) best
      then some (point, distances s.current point)
      else best

  pub scan : LoopState → List ℕ → Option (ℕ × ℕ) → Option (ℕ × ℕ)
  scan s [] best = best
  scan s (p ∷ ps) best = scan s ps (consider s p best)

  pub take_point : LoopState → ℕ → LoopState
  take_point s p = record {
    route = s.route ++ p ∷ [];
    distance = s.distance + distances s.current p;
    duration = s.duration + durations s.current p;
    capacity = s.capacity - weight p;
    current = p;
    unassigned = remove p s.unassigned;
  }

  -- The inner `while True`, on fuel: each round takes one point away.
  pub fill_loop : ℕ → LoopState → LoopState
  fill_loop zero s = s
  fill_loop (suc fuel) s = elim (scan s s.unassigned none) [
    | none ↦ s
    | some (p, _) ↦ fill_loop fuel (take_point s p)
  ]

  -- The way back to the depot; the points are stored by their index.
  pub close_loop : LoopState → Drive → Drive
  close_loop l s =
      let distance = l.distance + distances l.current 0 in
      let duration = l.duration + durations l.current 0 in
      record {
        loops =
            s.loops
            ++ record { route = map (λ p. p - 1) l.route; distance = distance; duration = duration }
              ∷ [];
        unassigned = l.unassigned;
        total_distance = s.total_distance + distance;
        total_duration = s.total_duration + duration;
      }

  -- `while unassigned`, on fuel: each loop that is kept takes a point away.
  pub drive_loops : ℕ → ℕ → Drive → Drive
  drive_loops zero capacity s = s
  drive_loops (suc fuel) capacity s =
      let l = fill_loop (length s.unassigned) (start_loop capacity s.unassigned) in
      let rest = drive_loops fuel capacity (close_loop l s) in
      if length s.unassigned == 0 then s else if length l.route == 0 then s else rest

  pub serve_vehicle : VrpcVehicle → Fleet → Fleet
  serve_vehicle v f =
      let s = drive_loops (length f.unassigned) v.capacity (record {
        loops = [];
        unassigned = f.unassigned;
        total_distance = f.total_distance;
        total_duration = f.total_duration;
      }) in
      record {
        vehicle_routes = f.vehicle_routes ++ s.loops ∷ [];
        unassigned = s.unassigned;
        total_distance = s.total_distance;
        total_duration = s.total_duration;
      }

  -- `for vehicle in request.vehicles`, which ends when no point is left.
  pub serve_vehicles : List VrpcVehicle → Fleet → Fleet
  serve_vehicles [] f = f
  serve_vehicles (v ∷ vs) f =
      let g = serve_vehicle v f in
      let rest = serve_vehicles vs g in if length g.unassigned == 0 then g else rest

abbrev pub failed : ℕ → VrpcResponse
failed code = record { code = code; vehicles = none; total_distance = none; total_duration = none }

abbrev pub no_routes : ℕ → Fleet
no_routes n = record {
  vehicle_routes = [];
  unassigned = range 1 n;
  total_distance = 0;
  total_duration = 0;
}

-- `point_weights[point]`
pub point_weight : List VrpcPoint → ℕ → ℕ
point_weight points p = elim (get_elem? points (p - 1)) [ none ↦ 0 | some q ↦ q.weight ]

-- `round(x, 2)`: the multiple of a hundredth next to it, and the even one of two.
pub round_2 : ℕ → ℕ
round_2 x =
    let q = x / 10000 in
    let rest = x % 10000 in
    (if ltb rest 5000 then q else if ltb 5000 rest then q + 1 else q + q % 2) * 10000

pub round_loop : VrpcLoop → VrpcLoop
unfolding round_2
round_loop l = record l { distance = round_2 l.distance; duration = round_2 l.duration }

abbrev pub round_routes : List (List VrpcLoop) → List (List VrpcLoop)
round_routes routes = map (λ (loops : List VrpcLoop). map round_loop loops) routes

pub to_response : Fleet → VrpcResponse
unfolding round_loop round_2
to_response f =
    if length f.unassigned == 0
    then record {
      code = success;
      vehicles = some (round_routes f.vehicle_routes);
      total_distance = some (round_2 f.total_distance);
      total_duration = some (round_2 f.total_duration);
    }
    else failed no_solution_found

pub solve_greedy : VrpcRequest → (ℕ → ℕ → ℕ) → (ℕ → ℕ → ℕ) → VrpcResponse
solve_greedy r durations distances = to_response (
    serve_vehicles distances durations (point_weight r.points) (max_distance r.max_cycle_distance)
      r.vehicles (no_routes (length r.points)))

-- `getattr(request.urls, vehicle.type.value, None)`, where an empty text counts as none.
pub url_of : VrpcUrls → VehicleType → Option String
url_of u car = u.car_url
url_of u truck = u.truck_url
url_of u walking = u.walking_url
url_of u cycling = u.cycling_url

pub all_urls : VrpcUrls → List VrpcVehicle → Bool
all_urls u [] = true
all_urls u (v ∷ vs) =
    let rest = all_urls u vs in elim (url_of u v.type) [ none ↦ false | some url ↦ rest ]

module _ (haversine : ℤ → ℤ → ℤ → ℤ → ℕ) where
  -- The coordinates of a point, and of the depot for 0.
  pub coords : VrpcRequest → ℕ → ℤ × ℤ
  coords r zero = (r.depot.lat, r.depot.lng)
  coords r (suc i) = elim (get_elem? r.points i) [
    | none ↦ (r.depot.lat, r.depot.lng)
    | some q ↦ (q.lat, q.lng)
  ]

  pub distance_matrix : VrpcRequest → ℕ → ℕ → ℕ
  unfolding coords
  distance_matrix r i j =
      let a = coords r i in
      let b = coords r j in if i == j then 0 else haversine (a.0) (a.1) (b.0) (b.1)

  -- At 30 km/h a metre takes 0.12 seconds, rounded down for each pair.
  pub duration_matrix : VrpcRequest → ℕ → ℕ → ℕ
  unfolding distance_matrix
  duration_matrix r i j = distance_matrix r i j * 3 / 25

  pub solve : VrpcRequest → VrpcResponse
  unfolding all_urls url_of
  solve r =
      if not (all_urls r.urls r.vehicles)
      then failed url_not_found_for_vehicle
      else if ltb (sum_by (λ v. v.capacity) r.vehicles) (sum_by (λ p. p.weight) r.points)
      then failed weight_exceeds_capacity
      else solve_greedy r (duration_matrix r) (distance_matrix r)
