-- ===== src/WeeklyPlanner.antt =====
-- `WeeklyPlanner` of backend/app/services/planning/weekly_planner.py.
-- Identifiers are numbers, distances millimetres, durations seconds, a moment is a number of seconds
-- from the day before the year 1 on. A score is a number of points. An agent's coordinates are
-- signed micro-degrees.
pub mod Assignment
pub mod Routes
pub mod Times
use sfa_routing.Prelude.{
  ℕ, ◌+◌, ◌*◌, ◌/◌, ◌%◌, Bool, true, false, Option, none, some, List, [], ◌∷◌, min, ltb, leb, ◌==◌,
  ◌||◌, if◌then◌else◌, String,
}
use sfa_routing.Prelude.Int.{ℤ}
use sfa_routing.Prelude.Dates.{Date}
use sfa_routing.Problem.{
  Time, ClientCategory, a, b, c, RegionalConfig, uzbekistan, kazakhstan, default,
  RegionalConstraints,
}
use sfa_routing.Problem.Calendar.{for_uzbekistan, for_kazakhstan, near_payday}

pub record Client : Type 0 where
  pub id : ℕ
  pub name : String
  pub category : ClientCategory
  pub latitude : ℤ
  pub longitude : ℤ
  pub visit_duration_minutes : ℕ
  pub time_window_start : Option Time
  pub time_window_end : Option Time

-- The end is there if both of its coordinates are true as conditions.
pub record Agent : Type 0 where
  pub id : ℕ
  pub name : String
  pub start : ℤ × ℤ
  pub end : Option (ℤ × ℤ)
  pub work_start : Time
  pub work_end : Time
  pub max_visits_per_day : ℕ

-- `datetime.time` with its seconds.
pub record Clock : Type 0 where
  pub hour : ℕ
  pub minute : ℕ
  pub second : ℕ

pub record PlannedVisit : Type 0 where
  pub client_id : ℕ
  pub client_name : String
  pub sequence_number : ℕ
  pub planned_time : Clock
  pub estimated_arrival : Clock
  pub estimated_departure : Clock
  pub distance_from_previous : ℕ
  pub duration_from_previous_minutes : ℕ
  pub latitude : ℤ
  pub longitude : ℤ
  pub priority_score : ℕ
  pub is_during_lunch : Bool
  pub client_category : ClientCategory

-- Without the geometry.
pub record DailyPlan : Type 0 where
  pub date : Date
  pub visits : List PlannedVisit
  pub total_distance : ℕ
  pub total_duration_minutes : ℕ

-- `coverage_rate` is a fraction. The indicators of `calculate_kpis` are left out.
pub record WeeklyPlan : Type 0 where
  pub agent_id : ℕ
  pub week_start : Date
  pub daily_plans : List DailyPlan
  pub total_visits : ℕ
  pub total_distance : ℕ
  pub total_duration_minutes : ℕ
  pub coverage_rate : ℕ × ℕ

pub record Planner : Type 0 where
  pub region : RegionalConfig
  pub constraints : RegionalConstraints

-- `_get_regional_constraints`, where `otherwise` is `RegionalConstraints()`.
pub get_regional_constraints : RegionalConstraints → RegionalConfig → RegionalConstraints
get_regional_constraints otherwise uzbekistan = for_uzbekistan
get_regional_constraints otherwise kazakhstan = for_kazakhstan
get_regional_constraints otherwise default = otherwise

pub is_payday_period : Planner → Date → Bool
is_payday_period w d = near_payday w.constraints.payday_dates d.day

pub is_summer_period : Date → Bool
is_summer_period d = d.month == 6 || d.month == 7 || d.month == 8

pub get_adjusted_work_start : Planner → Agent → Date → Time
get_adjusted_work_start w agent d =
    if is_summer_period d
    then if w.constraints.summer_early_start
      then record { hour = 7; minute = 0 }
      else agent.work_start
    else agent.work_start

-- The optional arguments: an empty dictionary counts as a missing one.
pub record Signals : Type 0 where
  pub stock_levels : ℕ → Option ℕ
  pub debts : ℕ → Option ℕ
  pub active_promos : ℕ → Bool

abbrev pub category_points : ClientCategory → ℕ
category_points a = 20
category_points b = 10
category_points c = 0

abbrev pub stock_points : Option ℕ → ℕ
stock_points none = 0
stock_points (some days) = if ltb days 3 then 30 else if ltb days 7 then 15 else 0

abbrev pub debt_points : Bool → Option ℕ → ℕ
debt_points payday none = 0
debt_points payday (some debt) = if ltb 0 debt then if payday then 25 else 10 else 0

pub calculate_client_priority : Planner → Signals → Client → Date → ℕ
calculate_client_priority w s client d =
    min
      (category_points client.category
        + stock_points (s.stock_levels client.id)
        + debt_points (is_payday_period w d) (s.debts client.id)
        + (if s.active_promos client.id then 15 else 0))
      100

-- The visits that `calculate_required_visits` enters for a client.
pub required_visits : ℕ → ClientCategory → ℕ
required_visits week_number a = 2
required_visits week_number b = 1
required_visits week_number c = if week_number % 2 == 1 then 1 else 0

-- `visits_needed`, in the order of the clients.
pub calculate_required_visits : ℕ → List Client → List (ℕ × ℕ)
calculate_required_visits week_number [] = []
calculate_required_visits week_number (client ∷ clients) =
    (client.id, required_visits week_number client.category)
    ∷ calculate_required_visits week_number clients

-- `visits_needed.get(id, 0)`. Clients with one identifier are one client, so the first entry is as
-- good as the last.
pub visits_of : ℕ → List (ℕ × ℕ) → ℕ
visits_of id [] = 0
visits_of id ((k, n) ∷ rest) = if k == id then n else visits_of id rest

pub clients_to_visit : List (ℕ × ℕ) → List Client → List Client
clients_to_visit needed [] = []
clients_to_visit needed (client ∷ clients) =
    let rest = clients_to_visit needed clients in
    if ltb 0 (visits_of client.id needed) then client ∷ rest else rest

-- `_time_to_seconds`
pub time_to_seconds : Clock → ℕ
time_to_seconds t = t.hour * 3600 + t.minute * 60 + t.second

-- `_seconds_to_time`
pub seconds_to_time : ℕ → Clock
seconds_to_time n =
    let seconds = n % 86400 in
    record { hour = seconds / 3600; minute = (seconds % 3600) / 60; second = seconds % 60 }

-- `_add_minutes`, which drops the seconds.
pub add_minutes : Clock → ℕ → Clock
add_minutes t minutes =
    let total = t.hour * 60 + t.minute + minutes in
    record { hour = (total / 60) % 24; minute = total % 60; second = 0 }

abbrev pub clock : Time → Clock
clock t = record { hour = t.hour; minute = t.minute; second = 0 }
