-- ===== src/WeeklyPlanner/Routes.antt =====
-- `optimize_day_route`, `_create_fallback_plan` and `generate_weekly_plan` of `WeeklyPlanner`.
-- The identifiers that `uuid4` draws are the parameter `uuid4`; what a solver does with a problem is
-- the parameter `attempt`, and `solvers` are the registered ones. A job's location has the defaults
-- of the class `Location` where the planner gives nothing.
pub mod Required
pub mod Coverage
pub mod Samples
pub mod Visits
pub mod Fallback
use sfa_routing.Prelude.{
  ℕ, zero, suc, ◌+◌, ◌-◌, ◌*◌, ◌/◌, ◌%◌, Bool, true, false, not, ◌&&◌, ◌||◌, Option, none, some,
  List, [], ◌∷◌, ◌++◌, ltb, leb, ◌==◌, if◌then◌else◌, length, get_or, String,
}
use sfa_routing.Prelude.Int.{ℤ}
use sfa_routing.Prelude.Dates.{Date, add_days, ordinal, weekday}
use sfa_routing.Problem.{
  Time, ClientCategory, a, b, c, SolverType, vroom, Location, VehicleConfig, Break, Job,
  RoutingProblem, RouteStep, SolutionResult, Route, RegionalConstraints, RegionalConfig, uzbekistan,
  kazakhstan, default, regular, car,
}
use sfa_routing.Factory.{
  Attempt, Outcome, returned, all_failed, no_solvers_available, solve_with_fallback, is_job,
}
use sfa_routing.WeeklyPlanner.{
  Client, Agent, Clock, PlannedVisit, DailyPlan, WeeklyPlan, Planner, Signals,
  get_adjusted_work_start, calculate_client_priority, calculate_required_visits, clients_to_visit,
  seconds_to_time, add_minutes, clock,
}
use sfa_routing.WeeklyPlanner.Assignment.{assign_to_days}

abbrev pub is_uzbekistan : RegionalConfig → Bool
is_uzbekistan uzbekistan = true
is_uzbekistan _ = false

-- The lunch break, and in Uzbekistan on Fridays the prayer.
pub day_breaks : Planner → Date → List Break
day_breaks w d =
    let lunch : Break = record {
      id = 1;
      start = some w.constraints.lunch_break_start;
      end = some w.constraints.lunch_break_end;
      description = "Lunch Break";
      duration_minutes = 60;
    } in
    let prayer : Break = record {
      id = 2;
      start = w.constraints.friday_prayer_start;
      end = w.constraints.friday_prayer_end;
      description = "Friday Prayer";
      duration_minutes = 90;
    } in
    lunch
    ∷ (if weekday d == 4 && is_uzbekistan w.region
        then elim w.constraints.friday_prayer_start [ none ↦ [] | some t ↦ prayer ∷ [] ]
        else [])

abbrev pub place : ℕ → String → ℤ × ℤ → ℕ → Location
place id name (latitude, longitude) service = record {
  id = id;
  name = name;
  latitude = latitude;
  longitude = longitude;
  service_time_minutes = service;
  time_window_start = none;
  time_window_end = none;
  client_category = b;
  has_loading_dock = false;
  requires_appointment = false;
  delivery_day_restrictions = [];
}

-- `datetime.combine`
abbrev pub combine : Date → Time → ℕ
combine d t = ordinal d * 86400 + (t.hour * 60 + t.minute) * 60

abbrev pub or_else : Option Time → Time → Time
or_else none t = t
or_else (some s) t = s

-- `client_priorities.get(id, missing)`, where an empty dictionary counts as none.
pub priority_of : List (ℕ × ℕ) → ℕ → ℕ → ℕ
priority_of [] id missing = missing
priority_of ((k, score) ∷ rest) id missing = if k == id then score else priority_of rest id missing

pub find_client : ℕ → List Client → Option Client
find_client id [] = none
find_client id (x ∷ xs) = let rest = find_client id xs in if x.id == id then some x else rest

-- The visit of a job's step.
pub planned_visit : Planner → List (ℕ × ℕ) → ℕ → Client → RouteStep → PlannedVisit
planned_visit w priorities sequence client step =
    let arrival = step.arrival_time % 86400 in
    let lunch_start =
      (w.constraints.lunch_break_start.hour * 60 + w.constraints.lunch_break_start.minute) * 60 in
    let lunch_end =
      (w.constraints.lunch_break_end.hour * 60 + w.constraints.lunch_break_end.minute) * 60 in
    record {
      client_id = client.id;
      client_name = client.name;
      sequence_number = sequence;
      planned_time = seconds_to_time step.arrival_time;
      estimated_arrival = seconds_to_time step.arrival_time;
      estimated_departure = seconds_to_time step.departure_time;
      distance_from_previous = step.distance_from_previous_m;
      duration_from_previous_minutes = step.duration_from_previous_s / 60;
      latitude = client.latitude;
      longitude = client.longitude;
      priority_score = priority_of priorities client.id 0;
      is_during_lunch = leb lunch_start arrival && leb arrival lunch_end;
      client_category = client.category;
    }

-- The client of a step: a job whose client is there.
abbrev pub step_client : List Client → RouteStep → Option Client
step_client clients step =
    if is_job step.step_type
    then (elim step.job_id as (λ o. Option Client) [
      | none ↦ none
      | some id ↦ find_client id clients
    ])
    else none

pub read_steps : Planner → List Client → List (ℕ × ℕ) → ℕ → List RouteStep → List PlannedVisit
read_steps w clients priorities sequence [] = []
read_steps w clients priorities sequence (step ∷ steps) = elim (step_client clients step) [
  | none ↦ read_steps w clients priorities sequence steps
  | some client ↦
      planned_visit w priorities (sequence + 1) client step
      ∷ read_steps w clients priorities (sequence + 1) steps
]

abbrev pub empty_plan : Date → DailyPlan
empty_plan d = record { date = d; visits = []; total_distance = 0; total_duration_minutes = 0 }

pub read_solution : Planner → List Client → List (ℕ × ℕ) → Date → SolutionResult → DailyPlan
read_solution w clients priorities d solution = elim solution.routes [
  | [] ↦ empty_plan d
  | r ∷ rs ↦ record {
    date = d;
    visits = read_steps w clients priorities 0 r.steps;
    total_distance = solution.total_distance_m;
    total_duration_minutes = solution.total_duration_s / 60;
  }
]

-- The visits of `_create_fallback_plan`, from a time and a number on.
pub fallback_visits : Clock → ℕ → List Client → List PlannedVisit
fallback_visits now sequence [] = []
fallback_visits now sequence (client ∷ clients) =
    record {
      client_id = client.id;
      client_name = client.name;
      sequence_number = sequence;
      planned_time = now;
      estimated_arrival = now;
      estimated_departure = add_minutes now client.visit_duration_minutes;
      distance_from_previous = 0;
      duration_from_previous_minutes = 0;
      latitude = client.latitude;
      longitude = client.longitude;
      priority_score = 0;
      is_during_lunch = false;
      client_category = b;
    }
    ∷ fallback_visits (add_minutes now (client.visit_duration_minutes + 15)) (suc sequence) clients

pub create_fallback_plan : Agent → List Client → Date → DailyPlan
create_fallback_plan agent clients d = record {
  date = d;
  visits = fallback_visits (clock agent.work_start) 1 clients;
  total_distance = 0;
  total_duration_minutes = 0;
}

-- The priorities of the clients of a day.
pub day_priorities : Planner → Signals → Date → List Client → List (ℕ × ℕ)
day_priorities w s d [] = []
day_priorities w s d (x ∷ xs) = (x.id, calculate_client_priority w s x d) ∷ day_priorities w s d xs

pub count_visits : List DailyPlan → ℕ
count_visits [] = 0
count_visits (p ∷ ps) = length p.visits + count_visits ps

pub sum_distance : List DailyPlan → ℕ
sum_distance [] = 0
sum_distance (p ∷ ps) = p.total_distance + sum_distance ps

pub sum_duration : List DailyPlan → ℕ
sum_duration [] = 0
sum_duration (p ∷ ps) = p.total_duration_minutes + sum_duration ps

pub sum_required : List (ℕ × ℕ) → ℕ
sum_required [] = 0
sum_required ((id, n) ∷ rest) = n + sum_required rest

-- `total_visits / total_required if total_required > 0 else 1.0`
pub rate : ℕ → ℕ → ℕ × ℕ
rate visits required = if ltb 0 required then (visits, required) else (1, 1)

module _ (uuid4 : ℕ → ℕ) where
  pub day_vehicle : Planner → Agent → Date → VehicleConfig
  day_vehicle w agent d = record {
    id = agent.id;
    name = agent.name;
    capacity_kg = 1000000;
    capacity_volume = none;
    start_location = some (place (uuid4 0) "Depot" agent.start 15);
    end_location = elim agent.end [ none ↦ none | some e ↦ some (place (uuid4 1) "End" e 15) ];
    work_start = get_adjusted_work_start w agent d;
    work_end = agent.work_end;
    breaks = day_breaks w d;
  }

  pub day_job : Planner → Agent → Date → List (ℕ × ℕ) → ℕ → Client → Job
  day_job w agent d priorities idx client =
      let start = get_adjusted_work_start w agent d in
      record {
        id = client.id;
        location =
            place (uuid4 (idx + 2)) client.name (client.latitude, client.longitude)
              client.visit_duration_minutes;
        demand_kg = 0;
        demand_volume = 0;
        priority = priority_of priorities client.id 50;
        time_window_start = some (combine d (or_else client.time_window_start start));
        time_window_end = some (combine d (or_else client.time_window_end agent.work_end));
        visit_purpose = regular;
        stock_days_remaining = none;
        outstanding_debt = 0;
        expected_order_value = 0;
        order_probability = 50;
        is_new_client = false;
        has_active_promo = false;
        churn_risk_score = 0;
      }

  pub day_jobs : Planner → Agent → Date → List (ℕ × ℕ) → ℕ → List Client → List Job
  day_jobs w agent d priorities idx [] = []
  day_jobs w agent d priorities idx (client ∷ clients) =
      day_job w agent d priorities idx client ∷ day_jobs w agent d priorities (suc idx) clients

  pub day_problem : Planner → Agent → List Client → Date → List (ℕ × ℕ) → RoutingProblem
  day_problem w agent clients d priorities = record {
    jobs = day_jobs w agent d priorities 0 clients;
    vehicles = day_vehicle w agent d ∷ [];
    depot_location = none;
    transport_mode = car;
    has_time_windows = false;
    has_pickup_delivery = false;
    has_multi_depot = false;
    regional_constraints = some w.constraints;
    planning_date = some d.day;
    respect_lunch_break = true;
    respect_friday_prayer = false;
    is_payday_period = false;
  }

  module _ (attempt : RoutingProblem → SolverType → Attempt) (solvers : List SolverType) where
    -- `optimize_day_route` for at least one client, after the answer of `solve_with_fallback`.
    pub read_outcome : Planner → Agent → List Client → Date → List (ℕ × ℕ) → Outcome → DailyPlan
    read_outcome w agent clients d priorities (returned solution) =
        read_solution w clients priorities d solution
    read_outcome w agent clients d priorities all_failed = create_fallback_plan agent clients d
    read_outcome w agent clients d priorities no_solvers_available =
        create_fallback_plan agent clients d

    pub optimize_day_route : Planner → Agent → List Client → Date → List (ℕ × ℕ) → DailyPlan
    optimize_day_route w agent [] d priorities = empty_plan d
    optimize_day_route w agent (x ∷ xs) d priorities =
        let problem = day_problem w agent (x ∷ xs) d priorities in
        read_outcome w agent (x ∷ xs) d priorities
          (solve_with_fallback (attempt problem) solvers problem vroom)

    -- The plans of `n` days, from the day `offset` on.
    pub plan_days : Planner → Signals → Agent → Date → List (List Client) → ℕ → ℕ → List DailyPlan
    plan_days w s agent week_start days offset zero = []
    plan_days w s agent week_start days offset (suc n) =
        let d = add_days week_start offset in
        let clients = get_or days offset [] in
        optimize_day_route w agent clients d (day_priorities w s d clients)
        ∷ plan_days w s agent week_start days (suc offset) n

    module _ (osrm_clusters : List Client → ℕ → Option (List (ℕ × List ℕ)))
        (kmeans_labels : List Client → ℕ → List ℕ) where
      pub generate_weekly_plan : Planner → Signals → Agent → List Client → Date → ℕ → WeeklyPlan
      generate_weekly_plan w s agent clients week_start week_number =
          let needed = calculate_required_visits week_number clients in
          let days =
            assign_to_days osrm_clusters kmeans_labels 5 agent.max_visits_per_day
              (clients_to_visit needed clients) in
          let plans = plan_days w s agent week_start days 0 5 in
          let required = sum_required needed in
          record {
            agent_id = agent.id;
            week_start = week_start;
            daily_plans = plans;
            total_visits = count_visits plans;
            total_distance = sum_distance plans;
            total_duration_minutes = sum_duration plans;
            coverage_rate = rate (count_visits plans) required;
          }
