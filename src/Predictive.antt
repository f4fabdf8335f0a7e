-- ===== src/Predictive.antt =====
-- `PredictiveReroutingEngine` of backend/app/services/planning/predictive_rerouting.py, over the
-- database of the rerouting service. Times count the seconds from the midnight of today on. `travel`
-- is `_estimate_travel_time` (OSRM, the traffic factors and the learned calibration), in seconds, from
-- a place to a place at a time. The messages are constructors, and alerts are in the order of their
-- entry; the monitoring loop is in Monitoring.
pub mod Delays
pub mod Fleet
pub mod Monitoring
pub mod Samples
use sfa_routing.Prelude.{
  ℕ, zero, suc, ◌+◌, ◌-◌, ◌*◌, ◌/◌, Bool, true, false, not, Option, none, some, List, [], ◌∷◌, ◌++◌,
  ltb, leb, ◌==◌, if◌then◌else◌, length,
}
use sfa_routing.Prelude.Int.{pos}
use sfa_routing.Rerouting.{
  Client, VisitPlan, Place, place_of, Service, RerouteResult, proactive_optimization,
  remaining_visits, reroute_agent_visits,
}

abbrev pub delay_warning_threshold : ℕ
delay_warning_threshold = 15

abbrev pub delay_critical_threshold : ℕ
delay_critical_threshold = 30

abbrev pub proactive_reroute_threshold : ℕ
proactive_reroute_threshold = 20

abbrev pub time_window_buffer : ℕ
time_window_buffer = 10

pub record Agent : Type 0 where
  pub id : ℕ
  pub work_end : Option ℕ
  pub current : Option Place

pub data Recommendation : Type 0 where
  overtime reoptimize monitor_closely : ℕ → Recommendation

pub record ScheduleFeasibilityCheck : Type 0 where
  pub agent_id : ℕ
  pub is_feasible : Bool
  pub at_risk_visits : List ℕ
  pub predicted_delays : List (ℕ × ℕ)
  pub recommendations : List Recommendation
  pub total_predicted_delay_minutes : ℕ

pub data Severity : Type 0 where
  warning critical : Severity

pub record PredictiveAlert : Type 0 where
  pub agent_id : ℕ
  pub severity : Severity
  pub affected_visits : List ℕ
  pub predicted_delay_minutes : ℕ
  pub recommendation : Option Recommendation

-- The alerts of the engine with the rerouting service; each alert is broadcast as it is entered.
pub record Engine : Type 0 where
  pub alerts : List PredictiveAlert
  pub service : Service

-- The lists and the total of the loop over the visits, with the simulated time.
pub record Progress : Type 0 where
  pub simulated_time : ℕ
  pub at_risk : List ℕ
  pub delays : List (ℕ × ℕ)
  pub total_delay : ℕ

-- The delay in minutes of an arrival, or `none` where the visit is not at risk.
pub risk : ℕ → ℕ → Option ℕ
risk arrival window_end =
    if ltb window_end arrival
    then some ((arrival - window_end) / 60)
    else if ltb window_end (arrival + time_window_buffer * 60)
    then some 0
    else none

pub note_risk : ℕ → Option ℕ → Progress → Progress
note_risk id none p = p
note_risk id (some delay) p = record p {
  at_risk = p.at_risk ++ id ∷ [];
  delays = p.delays ++ (id, delay) ∷ [];
  total_delay = p.total_delay + delay;
}

abbrev pub or_default : ℕ → ℕ
or_default n = if n == 0 then 15 else n

abbrev pub place_of_visit : VisitPlan → Option Place
place_of_visit v = elim v.client [ none ↦ none | some c ↦ some (place_of c) ]

-- Where the simulation starts: the given location, the first client, or the origin.
abbrev pub start_place : Option Place → List VisitPlan → Place
start_place (some here) vs = here
start_place none [] = (pos 0, pos 0)
start_place none (v ∷ vs) = elim v.client [ none ↦ (pos 0, pos 0) | some c ↦ place_of c ]

abbrev pub total_recommendation : List ℕ → ℕ → List Recommendation
total_recommendation [] total = []
total_recommendation (v ∷ vs) total =
    (if ltb proactive_reroute_threshold total
      then reoptimize total
      else monitor_closely (length (v ∷ vs)))
    ∷ []

abbrev pub overtime_recommendation : Option Agent → ℕ → List Recommendation
overtime_recommendation none time = []
overtime_recommendation (some agent) time = elim agent.work_end [
  | none ↦ []
  | some work_end ↦ if ltb work_end time then overtime ((time - work_end) / 60) ∷ [] else []
]

abbrev pub feasible_check : ℕ → ScheduleFeasibilityCheck
feasible_check agent = record {
  agent_id = agent;
  is_feasible = true;
  at_risk_visits = [];
  predicted_delays = [];
  recommendations = [];
  total_predicted_delay_minutes = 0;
}

module _ (travel : Place → Place → ℕ → ℕ) where
  -- The seconds to a client; `previous` is the place before, or none if its visit has no client.
  pub travel_seconds : Option Place → Client → ℕ → ℕ
  travel_seconds none c time = 900
  travel_seconds (some from) c time = travel from (place_of c) time

  -- The loop over the visits.
  pub simulate : Option Place → List VisitPlan → Progress → Progress
  simulate previous [] p = p
  simulate previous (v ∷ vs) p = elim v.client [
    | none ↦ simulate none vs p
    | some c ↦
        let arrival = p.simulated_time + travel_seconds previous c p.simulated_time in
        simulate (some (place_of c)) vs
          (record (note_risk v.id (risk arrival c.time_window_end) p) {
            simulated_time = arrival + or_default c.visit_duration_minutes * 60;
          })
  ]

  pub finish_check : ℕ → Option Agent → Progress → ScheduleFeasibilityCheck
  finish_check id agent p = record {
    agent_id = id;
    is_feasible = ltb p.total_delay delay_warning_threshold;
    at_risk_visits = p.at_risk;
    predicted_delays = p.delays;
    recommendations =
        overtime_recommendation agent p.simulated_time
        ++ total_recommendation p.at_risk p.total_delay;
    total_predicted_delay_minutes = p.total_delay;
  }

  abbrev pub check_visits :
      ℕ → ℕ → Option Agent → Option Place → List VisitPlan → ScheduleFeasibilityCheck
  check_visits now id agent location [] = feasible_check id
  check_visits now id agent location (v ∷ vs) = finish_check id agent (
      simulate (some (start_place location (v ∷ vs))) (v ∷ vs)
        (record { simulated_time = now; at_risk = []; delays = []; total_delay = 0 }))

  pub check_schedule_feasibility :
      ℕ → ℕ → ℕ → Option Agent → Option Place → Service → ScheduleFeasibilityCheck
  check_schedule_feasibility now today id agent location s =
      check_visits now id agent location (remaining_visits id today s.visits)

  abbrev pub first_recommendation : List Recommendation → Option Recommendation
  first_recommendation [] = none
  first_recommendation (r ∷ rs) = some r

  -- `_alerts` and `_broadcast_alert`
  pub enter_alert : ScheduleFeasibilityCheck → Engine → Engine
  enter_alert check e =
      if leb delay_warning_threshold check.total_predicted_delay_minutes
      then record e {
        alerts =
            e.alerts
            ++ record {
              agent_id = check.agent_id;
              severity =
                  if leb delay_critical_threshold check.total_predicted_delay_minutes
                  then critical
                  else warning;
              affected_visits = check.at_risk_visits;
              predicted_delay_minutes = check.total_predicted_delay_minutes;
              recommendation = first_recommendation check.recommendations;
            }
              ∷ [];
      }
      else e

  abbrev pub known_place : Option Place → Option Agent → Option Place
  known_place (some here) agent = some here
  known_place none none = none
  known_place none (some agent) = agent.current

  module _ (distance : Place → Place → ℕ) (solve_tsp : List Place → Option (List ℕ)) where
    -- What follows the alert.
    pub reroute_if_late :
        ℕ → ℕ → ScheduleFeasibilityCheck → Option Place → Engine → Engine × Option RerouteResult
    reroute_if_late now today check location e =
        if leb proactive_reroute_threshold check.total_predicted_delay_minutes
        then elim location as (λ o. Engine × Option RerouteResult) [
          | none ↦ (e, none)
          | some here ↦
              let r =
                reroute_agent_visits distance solve_tsp now today check.agent_id here
                  proactive_optimization e.service in
              (record e { service = r.0 }, some (r.1))
        ]
        else (e, none)

    -- The check takes the local time and date, the rerouting those of UTC.
    pub check_and_trigger_proactive_reroute :
        ℕ → ℕ → ℕ → ℕ → ℕ → Option Agent → Option Place → Engine → Engine × Option RerouteResult
    check_and_trigger_proactive_reroute utc_now utc_today now today id agent location e =
        let check = check_schedule_feasibility now today id agent location e.service in
        reroute_if_late utc_now utc_today check (known_place location agent) (enter_alert check e)

-- The counts of `get_fleet_status`.
pub record FleetStatus : Type 0 where
  pub total_agents : ℕ
  pub on_track : ℕ
  pub at_risk : ℕ
  pub critical_agents : ℕ
  pub total_delay : ℕ

pub count_check : FleetStatus → ScheduleFeasibilityCheck → FleetStatus
count_check f check =
    let minutes = check.total_predicted_delay_minutes in
    let g = record f { total_delay = f.total_delay + minutes } in
    if check.is_feasible
    then record g { on_track = g.on_track + 1 }
    else if leb delay_critical_threshold minutes
    then record g { critical_agents = g.critical_agents + 1 }
    else record g { at_risk = g.at_risk + 1 }

pub count_checks : FleetStatus → List ScheduleFeasibilityCheck → FleetStatus
count_checks f [] = f
count_checks f (check ∷ checks) = count_checks (count_check f check) checks

pub fleet_status : List ScheduleFeasibilityCheck → FleetStatus
fleet_status checks =
    count_checks
      (record {
        total_agents = length checks;
        on_track = 0;
        at_risk = 0;
        critical_agents = 0;
        total_delay = 0;
      })
      checks
