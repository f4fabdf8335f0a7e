-- ===== src/Predictive/Monitoring/Samples.antt =====
-- Rounds over an agent with two visits on a line; a second agent has none.
use sfa_routing.Prelude.{
  ℕ, ◌+◌, ◌-◌, ◌*◌, ◌/◌, ◌≡◌, refl, Option, none, some, List, [], ◌∷◌, length,
}
use sfa_routing.Prelude.Int.{pos, pos_part}
use sfa_routing.Rerouting.{Place, VisitPlan, planned, remaining_visits, insert_visit}
use sfa_routing.Predictive.{
  Agent, Engine, risk, note_risk, travel_seconds, simulate, finish_check,
  check_schedule_feasibility, enter_alert, reroute_if_late, check_and_trigger_proactive_reroute,
}
use sfa_routing.Predictive.Monitoring.{
  Instant, has_remaining, find_agent, monitor_all_agents, trigger, trigger_late, monitoring_round,
}

-- Ten metres in a second.
abbrev ride : Place → Place → ℕ → ℕ
ride (x, _) (y, _) time = (pos_part x - pos_part y + (pos_part y - pos_part x)) / 10

abbrev apart : Place → Place → ℕ
apart (x, _) (y, _) = (pos_part x - pos_part y + (pos_part y - pos_part x)) * 1000

abbrev in_turn : List Place → Option (List ℕ)
in_turn places = some (0 ∷ 1 ∷ 2 ∷ [])

abbrev visit : ℕ → ℕ → ℕ → VisitPlan
visit id x window_end = record {
  id = id;
  agent_id = 7;
  planned_date = 1;
  status = planned;
  sequence_number = id;
  client = some (record {
    id = 10 + id;
    latitude = pos x;
    longitude = pos 0;
    visit_duration_minutes = 10;
    time_window_end = window_end;
  });
}

abbrev agents : List Agent
agents =
    record { id = 7; work_end = none; current = none }
    ∷ record { id = 8; work_end = none; current = none }
    ∷ []

abbrev noon : Instant
noon = record { utc_now = 18000; utc_today = 1; now = 36000; today = 1 }

-- The second visit, which is reached at 37200, is late by 17 minutes.
abbrev engine : Engine
engine = record {
  alerts = [];
  service = record {
    last_reroute = λ i. none;
    visits = visit 1 0 40000 ∷ visit 2 6000 36180 ∷ [];
    routes = [];
    orders = [];
    sent = [];
  };
}

delay_runs :
    (check_schedule_feasibility ride 36000 1 7
      (find_agent 7 agents)
      none
      engine.service).predicted_delays
    ≡ (2, 17) ∷ []
unfolding check_schedule_feasibility remaining_visits insert_visit simulate travel_seconds risk
    note_risk finish_check find_agent
delay_runs = refl

-- The round passes over the 17 minutes.
quiet_runs : monitoring_round ride apart in_turn agents noon engine ≡ engine
unfolding monitoring_round trigger_late monitor_all_agents has_remaining check_schedule_feasibility
    remaining_visits insert_visit simulate travel_seconds risk note_risk finish_check find_agent
quiet_runs = refl

alert_runs : length (trigger ride apart in_turn agents noon 7 engine).alerts ≡ 1
unfolding check_and_trigger_proactive_reroute enter_alert reroute_if_late check_schedule_feasibility
    remaining_visits insert_visit simulate travel_seconds risk note_risk finish_check find_agent
alert_runs = refl
