-- ===== src/Problem/Samples.antt =====
-- Test data: places along a line, jobs and vehicles.
use sfa_routing.Prelude.{ℕ, ◌+◌, ◌-◌, none, some, false, List, [], ◌∷◌}
use sfa_routing.Prelude.Int.{pos, pos_part}
use sfa_routing.Problem.{Location, VehicleConfig, Job, RoutingProblem, regular, car, b}

abbrev pub place : ℕ → ℕ → Location
place id x = record {
  id = id;
  name = "place";
  latitude = pos x;
  longitude = pos 0;
  service_time_minutes = 15;
  time_window_start = none;
  time_window_end = none;
  client_category = b;
  has_loading_dock = false;
  requires_appointment = false;
  delivery_day_restrictions = [];
}

abbrev pub job_at : ℕ → ℕ → ℕ → Job
job_at id x demand = record {
  id = id;
  location = place id x;
  demand_kg = demand;
  demand_volume = 0;
  priority = 1;
  time_window_start = none;
  time_window_end = none;
  visit_purpose = regular;
  stock_days_remaining = none;
  outstanding_debt = 0;
  expected_order_value = 0;
  order_probability = 50;
  is_new_client = false;
  has_active_promo = false;
  churn_risk_score = 0;
}

abbrev pub van : ℕ → ℕ → VehicleConfig
van id capacity = record {
  id = id;
  name = "van";
  capacity_kg = capacity;
  capacity_volume = none;
  start_location = some (place 0 0);
  end_location = none;
  work_start = record { hour = 8; minute = 0 };
  work_end = record { hour = 20; minute = 0 };
  breaks = [];
}

abbrev pub problem : List Job → List VehicleConfig → RoutingProblem
problem jobs vehicles = record {
  jobs = jobs;
  vehicles = vehicles;
  depot_location = none;
  transport_mode = car;
  has_time_windows = false;
  has_pickup_delivery = false;
  has_multi_depot = false;
  regional_constraints = none;
  planning_date = none;
  respect_lunch_break = false;
  respect_friday_prayer = false;
  is_payday_period = false;
}

-- Five jobs of 4 kg or more, and two vans of 10 kg and 5 kg.
abbrev pub jobs : List Job
jobs =
    job_at 11 9000000 4000
    ∷ job_at 12 2000000 4000
    ∷ job_at 13 3000000 6000
    ∷ job_at 14 1000000 5000
    ∷ job_at 15 7000000 9000
    ∷ []

abbrev pub vans : List VehicleConfig
vans = van 1 10000 ∷ van 2 5000 ∷ []

-- Along the line, in millimetres.
abbrev pub along : Location → Location → ℕ
along p q =
    (pos_part p.latitude - pos_part q.latitude) + (pos_part q.latitude - pos_part p.latitude)
