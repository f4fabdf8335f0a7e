-- ===== src/Greedy.antt =====
-- `GreedySolver` of backend/app/services/solvers/greedy_solver.py: nearest neighbour per vehicle.
-- The great-circle distance (floating-point trigonometry) is the parameter `calculate_distance`,
-- in millimetres, and `clock k` is the time that `datetime.now()` gives for the k-th vehicle.
-- A set of job indices is a list that is asked only by `contains`.

pub mod Nearest
pub mod Remaining
pub mod Routes
pub mod Solve
pub mod Samples
use mathlib.Core.Option
use sfa_routing.Prelude.{
  ℕ, zero, suc, ◌+◌, ◌-◌, ◌*◌, ◌/◌, ◌%◌, Bool, true, false, Option, none, some, List, [], ◌∷◌, ◌++◌,
  ltb, leb, ◌==◌, ◌||◌, if◌then◌else◌, length, get_elem?,
}
use sfa_routing.Problem.{
  Location, Job, VehicleConfig, RouteStep, Route, SolutionResult, RoutingProblem, StepType, start,
  job, end, auto,
}

unfoldable pub contains : List ℕ → ℕ → Bool
contains [] i = false
contains (x ∷ xs) i = x == i || contains xs i

-- `now.replace(hour=…, minute=…)` keeps the day and the seconds.
replace_time : ℕ → ℕ → ℕ → ℕ
replace_time now hour minute = now - now % 86400 + hour * 3600 + minute * 60 + now % 60

-- `math.inf` is `none`.
abbrev pub closer : ℕ → Option (ℕ × ℕ) → Bool
closer d none = true
closer d (some (_, best)) = ltb d best

-- The variables of the loop in `_build_route_for_vehicle`; `total_distance` is in millimetres.
pub record Build : Type 0 where
  pub steps : List RouteStep
  pub current_location : Location
  pub current_load : ℕ
  pub total_distance : ℕ
  pub route_assigned : List ℕ
  pub now : ℕ

-- `[problem.jobs[i].id for i in range(len(problem.jobs)) if i not in assigned]`, from index `i` on.
pub unassigned_from : List ℕ → ℕ → List Job → List ℕ
unassigned_from assigned i [] = []
unassigned_from assigned i (j ∷ js) =
    let rest = unassigned_from assigned (suc i) js in
    if contains assigned i then rest else j.id ∷ rest

vehicle_start : List VehicleConfig → Option Location
vehicle_start [] = none
vehicle_start (v ∷ vs) = v.start_location

first_job_location : List Job → Option Location
first_job_location [] = none
first_job_location (j ∷ js) = some j.location

-- `none` is the IndexError of `problem.jobs[0]`.
pub get_depot : RoutingProblem → Option Location
unfolding vehicle_start first_job_location
get_depot p = elim p.depot_location [
  | some d ↦ some d
  | none ↦ elim (vehicle_start p.vehicles) [ some d ↦ some d | none ↦ first_job_location p.jobs ]
]

abbrev start_step : Location → ℕ → RouteStep
start_step here now = record {
  job_id = none;
  location = here;
  arrival_time = now;
  departure_time = now;
  distance_from_previous_m = 0;
  duration_from_previous_s = 0;
  load_after = 0;
  step_type = start;
}

start_location : VehicleConfig → Location → Location
start_location v depot = elim v.start_location [ some l ↦ l | none ↦ depot ]

pub begin : VehicleConfig → Location → ℕ → Build
unfolding start_location replace_time
begin v depot clock =
    let here = start_location v depot in
    let now = replace_time clock v.work_start.hour v.work_start.minute in
    record {
      steps = start_step here now ∷ [];
      current_location = here;
      current_load = 0;
      total_distance = 0;
      route_assigned = [];
      now = now;
    }

pub to_route : VehicleConfig → Build → Route
to_route v s = record {
  vehicle_id = some v.id;
  vehicle_name = v.name;
  steps = s.steps;
  total_distance_m = s.total_distance / 1000;
  total_duration_s = s.total_distance / 8330;
  total_load = s.current_load;
}

-- The `for vehicle` loop: the routes so far, the assigned indices and the distance in metres.
pub record Assignment : Type 0 where
  pub routes : List Route
  pub assigned_jobs : List ℕ
  pub total_distance : ℕ

pub keep_route : Assignment → Route × ℕ × List ℕ → Assignment
keep_route a (route, distance, taken) =
    if ltb 2 (length route.steps)
    then record {
      routes = a.routes ++ route ∷ [];
      assigned_jobs = taken ++ a.assigned_jobs;
      total_distance = a.total_distance + distance;
    }
    else a

abbrev pub no_routes : Assignment
no_routes = record { routes = []; assigned_jobs = []; total_distance = 0 }

pub to_solution : List Job → Assignment → SolutionResult
to_solution jobs a = record {
  routes = a.routes;
  unassigned_jobs = unassigned_from a.assigned_jobs 0 jobs;
  total_distance_m = a.total_distance;
  total_duration_s = a.total_distance * 100 / 833;
  computation_time_ms = 0;
  solver_used = auto;
}

pub no_solution : SolutionResult
no_solution = record {
  routes = [];
  unassigned_jobs = [];
  total_distance_m = 0;
  total_duration_s = 0;
  computation_time_ms = 0;
  solver_used = auto;
}

module _ (calculate_distance : Location → Location → ℕ) where
  -- One round of the `for` loop.
  consider : Location → List ℕ → ℕ → ℕ → ℕ → Job → Option (ℕ × ℕ) → Option (ℕ × ℕ)
  consider current assigned load capacity idx j best =
      if contains assigned idx
      then best
      else if ltb capacity (load + j.demand_kg)
      then best
      else if closer (calculate_distance current j.location) best
      then some (idx, calculate_distance current j.location)
      else best

  scan : Location → List ℕ → ℕ → ℕ → ℕ → List Job → Option (ℕ × ℕ) → Option (ℕ × ℕ)
  scan current assigned load capacity idx [] best = best
  scan current assigned load capacity idx (j ∷ js) best =
      scan current assigned load capacity (suc idx) js
        (consider current assigned load capacity idx j best)

  pub find_nearest_feasible_job : Location → List Job → List ℕ → ℕ → ℕ → Option ℕ
  find_nearest_feasible_job current jobs assigned load capacity =
      Option.map (λ r. r.0) (scan current assigned load capacity 0 jobs none)

  -- The body of `while True` once the nearest job is known.
  pub visit : Build → ℕ → Job → Build
  visit s idx j =
      let distance = calculate_distance s.current_location j.location in
      let travel_time = distance / 8330 in
      let arrival = s.now + travel_time in
      let departure = arrival + j.location.service_time_minutes * 60 in
      record {
        steps =
            s.steps
            ++ record {
              job_id = some j.id;
              location = j.location;
              arrival_time = arrival;
              departure_time = departure;
              distance_from_previous_m = distance / 1000;
              duration_from_previous_s = travel_time;
              load_after = s.current_load + j.demand_kg;
              step_type = job;
            }
              ∷ [];
        current_location = j.location;
        current_load = s.current_load + j.demand_kg;
        total_distance = s.total_distance + distance;
        route_assigned = idx ∷ s.route_assigned;
        now = departure;
      }

  -- The `while True` loop, on fuel. Each round takes one more job, so as many rounds as there are
  -- jobs are enough. The second `none` is the IndexError of `jobs[nearest_idx]`.
  pub extend : ℕ → List Job → List ℕ → ℕ → Build → Build
  extend zero jobs assigned capacity s = s
  extend (suc fuel) jobs assigned capacity s =
      elim (find_nearest_feasible_job s.current_location jobs (s.route_assigned ++ assigned)
        s.current_load capacity) [
          | none ↦ s
          | some idx ↦ elim (get_elem? jobs idx) [
            | none ↦ s
            | some j ↦ extend fuel jobs assigned capacity (visit s idx j)
          ]
        ]

  -- `int(return_distance)` drops the millimetres of the way back.
  pub return_to_depot : Location → Build → Build
  return_to_depot depot s =
      let return_distance = calculate_distance s.current_location depot in
      let arrival = s.now + return_distance / 8330 in
      if ltb 1 (length s.steps)
      then record s {
        total_distance = s.total_distance + return_distance / 1000 * 1000;
        steps =
            s.steps
            ++ record {
              job_id = none;
              location = depot;
              arrival_time = arrival;
              departure_time = arrival;
              distance_from_previous_m = return_distance / 1000;
              duration_from_previous_s = 0;
              load_after = 0;
              step_type = end;
            }
              ∷ [];
      }
      else s

  pub build_route_for_vehicle :
      VehicleConfig → List Job → List ℕ → Location → ℕ → Route × ℕ × List ℕ
  build_route_for_vehicle v jobs assigned depot clock =
      let s =
        return_to_depot depot
          (extend (length jobs) jobs assigned v.capacity_kg (begin v depot clock)) in
      (to_route v s, s.total_distance / 1000, s.route_assigned)

  module _ (clock : ℕ → ℕ) where
    pub assign_vehicles : List Job → Location → ℕ → List VehicleConfig → Assignment → Assignment
    assign_vehicles jobs depot k [] a = a
    assign_vehicles jobs depot k (v ∷ vs) a =
        assign_vehicles jobs depot (suc k) vs
          (keep_route a (build_route_for_vehicle v jobs a.assigned_jobs depot (clock k)))

    pub solve_jobs : RoutingProblem → List Job → Option SolutionResult
    unfolding no_solution
    solve_jobs p [] = some no_solution
    solve_jobs p jobs =
        Option.map (λ depot. to_solution jobs (assign_vehicles jobs depot 0 p.vehicles no_routes))
          (get_depot p)

    pub solve : RoutingProblem → Option SolutionResult
    unfolding solve_jobs
    solve p = solve_jobs p p.jobs
