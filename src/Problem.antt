-- ===== src/Problem.antt =====
-- The data model of backend/app/services/solvers/solver_interface.py.
-- Identifiers (UUID) and time of day in minutes are natural numbers, and a datetime is a number
-- of seconds. A weight is a number of grams and a distance a number of millimetres, so that the
-- source's `int(…)` of a float in kilograms or metres is a division. Coordinates are signed
-- numbers of micro-degrees. Money is counted in whole units, and a probability in percent.
pub mod Priority
pub mod Urgency
pub mod Calendar
pub mod Payday
pub mod Samples
pub mod Checks
use sfa_routing.Prelude.{ℕ, Bool, Option, none, List, [], String}
use sfa_routing.Prelude.Int.{ℤ}

pub data SolverType : Type 0 where
  vroom ortools greedy genetic auto : SolverType

pub data ClientCategory : Type 0 where
  a b c : ClientCategory

pub data VisitPurpose : Type 0 where
  regular promo audit collection onboarding problem : VisitPurpose

pub data RegionalConfig : Type 0 where
  uzbekistan kazakhstan default : RegionalConfig

pub data TransportMode : Type 0 where
  car pedestrian bicycle : TransportMode

-- A `datetime.time`, without its seconds.
pub record Time : Type 0 where
  pub hour : ℕ
  pub minute : ℕ

pub record Break : Type 0 where
  pub id : ℕ
  pub start : Option Time
  pub end : Option Time
  pub description : String
  pub duration_minutes : ℕ

pub record RegionalConstraints : Type 0 where
  pub lunch_break_start : Time
  pub lunch_break_end : Time
  pub friday_prayer_start : Option Time
  pub friday_prayer_end : Option Time
  pub morning_peak_start : Time
  pub morning_peak_end : Time
  pub evening_peak_start : Time
  pub evening_peak_end : Time
  pub summer_early_start : Bool
  pub ramadan_adjusted_hours : Bool
  pub payday_dates : List ℕ

pub record Location : Type 0 where
  pub id : ℕ
  pub name : String
  pub latitude : ℤ
  pub longitude : ℤ
  pub service_time_minutes : ℕ
  pub time_window_start : Option Time
  pub time_window_end : Option Time
  pub client_category : ClientCategory
  pub has_loading_dock : Bool
  pub requires_appointment : Bool
  pub delivery_day_restrictions : List ℕ

pub record VehicleConfig : Type 0 where
  pub id : ℕ
  pub name : String
  pub capacity_kg : ℕ
  pub capacity_volume : Option ℕ
  pub start_location : Option Location
  pub end_location : Option Location
  pub work_start : Time
  pub work_end : Time
  pub breaks : List Break

pub record Job : Type 0 where
  pub id : ℕ
  pub location : Location
  pub demand_kg : ℕ
  pub demand_volume : ℕ
  pub priority : ℕ
  pub time_window_start : Option ℕ
  pub time_window_end : Option ℕ
  pub visit_purpose : VisitPurpose
  pub stock_days_remaining : Option ℕ
  pub outstanding_debt : ℕ
  pub expected_order_value : ℕ
  pub order_probability : ℕ
  pub is_new_client : Bool
  pub has_active_promo : Bool
  pub churn_risk_score : ℕ

pub data StepType : Type 0 where
  start job end : StepType

pub record RouteStep : Type 0 where
  pub job_id : Option ℕ
  pub location : Location
  pub arrival_time : ℕ
  pub departure_time : ℕ
  pub distance_from_previous_m : ℕ
  pub duration_from_previous_s : ℕ
  pub load_after : ℕ
  pub step_type : StepType

pub record Route : Type 0 where
  pub vehicle_id : Option ℕ
  pub vehicle_name : String
  pub steps : List RouteStep
  pub total_distance_m : ℕ
  pub total_duration_s : ℕ
  pub total_load : ℕ

-- Without the KPI fields, which `calculate_kpis` fills for reports.
pub record SolutionResult : Type 0 where
  pub routes : List Route
  pub unassigned_jobs : List ℕ
  pub total_distance_m : ℕ
  pub total_duration_s : ℕ
  pub computation_time_ms : ℕ
  pub solver_used : SolverType

pub record RoutingProblem : Type 0 where
  pub jobs : List Job
  pub vehicles : List VehicleConfig
  pub depot_location : Option Location
  pub transport_mode : TransportMode
  pub has_time_windows : Bool
  pub has_pickup_delivery : Bool
  pub has_multi_depot : Bool
  pub regional_constraints : Option RegionalConstraints
  pub planning_date : Option ℕ
  pub respect_lunch_break : Bool
  pub respect_friday_prayer : Bool
  pub is_payday_period : Bool
