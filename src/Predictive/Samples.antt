-- ===== src/Predictive/Samples.antt =====
-- Inputs and tests of `PredictiveReroutingEngine`. Places are points of a line.
use mathlib.Core.List.{Mem}
use sfa_routing.Prelude.{
  ℕ, ◌+◌, ◌-◌, ◌*◌, ◌/◌, ◌≡◌, refl, Option, none, some, List, [], ◌∷◌, length,
}
use sfa_routing.Prelude.Int.{pos, pos_part}
use sfa_routing.Rerouting.{
  Place, VisitPlan, planned, proactive_optimization, remaining_visits, insert_visit,
  reroute_agent_visits,
}
use sfa_routing.Predictive.{
  Engine, monitor_closely, risk, note_risk, travel_seconds, simulate, finish_check,
  check_schedule_feasibility, enter_alert, check_and_trigger_proactive_reroute,
}
use sfa_routing.Predictive.Delays.{IsConsistent, check_and_trigger_twenty}

-- Ten metres in a second.
abbrev ride : Place → Place → ℕ → ℕ
ride (x, _) (y, _) time = (pos_part x - pos_part y + (pos_part y - pos_part x)) / 10

abbrev apart : Place → Place → ℕ
apart (x, _) (y, _) = (pos_part x - pos_part y + (pos_part y - pos_part x)) * 1000

abbrev in_turn : List Place → Option (List ℕ)
in_turn places = some (0 ∷ 1 ∷ 2 ∷ [])

abbrev home : Place
home = (pos 0, pos 0)

abbrev visit : ℕ → ℕ → ℕ → VisitPlan
visit id x window_end = record {
  id = id;
  agent_id = 7;
  planned_date = 1;
  status = planned;
  sequence_number = id;
  client = some (record {
    id = 10 + id;
    latitude = pos x;
    longitude = pos 0;
    visit_duration_minutes = 0;
    time_window_end = window_end;
  });
}

-- The first visit is in time, the second one is 20 minutes late.
abbrev engine : Engine
engine = record {
  alerts = [];
  service = record {
    last_reroute = λ i. none;
    visits = visit 1 6000 40000 ∷ visit 2 12000 36900 ∷ [];
    routes = [];
    orders = [];
    sent = [];
  };
}

delay_runs :
    (check_schedule_feasibility ride 36000 1 7 none (some home) engine.service).predicted_delays
    ≡ (2, 20) ∷ []
unfolding check_schedule_feasibility remaining_visits insert_visit simulate travel_seconds risk
    note_risk finish_check
delay_runs = refl

check_and_trigger_twenty_example :
    let check = check_schedule_feasibility ride 36000 1 7 none (some home) engine.service in
    let r =
      reroute_agent_visits apart in_turn 18000 1 7 home proactive_optimization
        (enter_alert ride check engine).service in
    IsConsistent ride check
    × Mem (monitor_closely (length check.at_risk_visits)) check.recommendations
    × (check_and_trigger_proactive_reroute ride apart in_turn 18000 1 36000 1 7 none
          (some home)
          engine
        ≡ (record (enter_alert ride check engine) { service = r.0 }, some (r.1)))
unfolding check_schedule_feasibility remaining_visits insert_visit simulate travel_seconds risk
    note_risk finish_check
check_and_trigger_twenty_example =
    check_and_trigger_twenty ride apart in_turn 18000 1 36000 1 7 none (some home) home engine refl
      refl
