-- ===== src/Predictive/Monitoring.antt =====
-- The monitoring of `PredictiveReroutingEngine` in
-- backend/app/services/planning/predictive_rerouting.py: the checks of all agents and the loop over the
-- rounds. `agents` is what the query for the active agents yields, and a round reads the clock once.
-- The loop goes on until it is stopped, so its rounds are a list of instants; their log is left out.

pub mod Alerts
pub mod Samples
use sfa_routing.Prelude.{
  ℕ, Bool, true, false, Option, none, some, List, [], ◌∷◌, leb, ◌==◌, if◌then◌else◌,
}
use sfa_routing.Rerouting.{VisitPlan, Place, is_selected}
use sfa_routing.Predictive.{
  Agent, ScheduleFeasibilityCheck, Engine, proactive_reroute_threshold, check_schedule_feasibility,
  check_and_trigger_proactive_reroute,
}

-- The clock in UTC and in local time, with the dates.
pub record Instant : Type 0 where
  pub utc_now : ℕ
  pub utc_today : ℕ
  pub now : ℕ
  pub today : ℕ

pub has_remaining : ℕ → ℕ → List VisitPlan → Bool
has_remaining id today [] = false
has_remaining id today (v ∷ vs) = if is_selected id today v then true else has_remaining id today vs

pub find_agent : ℕ → List Agent → Option Agent
find_agent id [] = none
find_agent id (a ∷ agents) = if a.id == id then some a else find_agent id agents

module _ (travel : Place → Place → ℕ → ℕ) where
  pub monitor_all_agents : Instant → List Agent → Engine → List ScheduleFeasibilityCheck
  monitor_all_agents t [] e = []
  monitor_all_agents t (a ∷ agents) e =
      let rest = monitor_all_agents t agents e in
      if has_remaining a.id t.today e.service.visits
      then check_schedule_feasibility travel t.now t.today a.id (some a) none e.service ∷ rest
      else rest

  module _ (distance : Place → Place → ℕ) (solve_tsp : List Place → Option (List ℕ))
      (agents : List Agent) where
    abbrev pub trigger : Instant → ℕ → Engine → Engine
    trigger t id e =
        (check_and_trigger_proactive_reroute travel distance solve_tsp t.utc_now t.utc_today t.now
          t.today id (find_agent id agents) none e).0

    -- The reroutings of a round, where the checks ask for them.
    pub trigger_late : Instant → List ScheduleFeasibilityCheck → Engine → Engine
    trigger_late t [] e = e
    trigger_late t (check ∷ checks) e = trigger_late t checks (
        if leb proactive_reroute_threshold check.total_predicted_delay_minutes
        then trigger t check.agent_id e
        else e)

    pub monitoring_round : Instant → Engine → Engine
    monitoring_round t e = trigger_late t (monitor_all_agents t agents e) e

    pub start_monitoring : List Instant → Engine → Engine
    start_monitoring [] e = e
    start_monitoring (t ∷ instants) e = start_monitoring instants (monitoring_round t e)
