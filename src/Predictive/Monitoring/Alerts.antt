-- ===== src/Predictive/Monitoring/Alerts.antt =====
-- The alerts that monitoring enters.
use mathlib.Core.List.{append_assoc, append-nil}
use sfa_routing.Prelude.{
  ℕ, ◌+◌, ◌≤◌, ◌<◌, ◌≡◌, refl, ap, ◌∙◌, sym, true, false, Option, none, List, [], ◌∷◌, ◌++◌, arith,
  leb, if◌then◌else◌, All, All-append, length, length-append, inl, inr, Bool-cases, Option-cases,
}
use sfa_routing.Rerouting.{Place}
use sfa_routing.Predictive.{
  Agent, ScheduleFeasibilityCheck, PredictiveAlert, warning, critical, Engine,
  delay_warning_threshold, proactive_reroute_threshold, enter_alert, check_schedule_feasibility,
  known_place, reroute_if_late, check_and_trigger_proactive_reroute,
}
use sfa_routing.Predictive.Monitoring.{
  Instant, find_agent, monitor_all_agents, trigger, trigger_late, monitoring_round,
  start_monitoring,
}

-- At least 15 minutes, and critical from 30 minutes on.
abbrev pub IsAlert : PredictiveAlert → Type 0
IsAlert a =
    (15 ≤ a.predicted_delay_minutes)
    × (a.severity ≡ (if leb 30 a.predicted_delay_minutes then critical else warning))

-- The alerts of one engine are those of another one, followed by more of them.
pub record Extends (old new : Engine) : Type 0 where
  pub more : List PredictiveAlert
  pub alerts : new.alerts ≡ old.alerts ++ more
  pub valid : All IsAlert more

Extends-refl : (e : Engine) → Extends e e
Extends-refl e = record { more = []; alerts = sym (append-nil e.alerts); valid = tt }

Extends-trans : (e f g : Engine) → Extends e f → Extends f g → Extends e g
Extends-trans e f g h k = record {
  more = h.more ++ k.more;
  alerts = k.alerts ∙ (ap (λ l. l ++ k.more) h.alerts ∙ append_assoc e.alerts h.more k.more);
  valid = All-append IsAlert h.more k.more h.valid k.valid;
}

module _ (travel : Place → Place → ℕ → ℕ) where
  enter_alert-Extends :
      (check : ScheduleFeasibilityCheck) (e : Engine) → Extends e (enter_alert travel check e)
  unfolding enter_alert
  enter_alert-Extends check e =
      elim (Bool-cases (leb delay_warning_threshold check.total_predicted_delay_minutes)) [
        | inl late ↦
            rw late (record { more = _; alerts = refl; valid = ((ground arith, refl), tt) })
        | inr fine ↦ rw fine (Extends-refl e)
      ]

  module _ (distance : Place → Place → ℕ) (solve_tsp : List Place → Option (List ℕ))
      (agents : List Agent) where
    reroute_if_late-alerts :
        (now today : ℕ) (check : ScheduleFeasibilityCheck) (place : Option Place) (e : Engine)
        → (reroute_if_late travel distance solve_tsp now today check place e).0.alerts ≡ e.alerts
    unfolding reroute_if_late
    reroute_if_late-alerts now today check place e =
        elim (Bool-cases (leb proactive_reroute_threshold check.total_predicted_delay_minutes)) [
          | inl late ↦ elim (Option-cases place) [
            | inl lost ↦ rw (late, lost) refl
            | inr (here, there) ↦ rw (late, there) refl
          ]
          | inr fine ↦ rw fine refl
        ]

    abbrev check_of : Instant → ℕ → Engine → ScheduleFeasibilityCheck
    check_of t id e =
        check_schedule_feasibility travel t.now t.today id (find_agent id agents) none e.service

    -- A rerouting enters no alert of its own.
    trigger-alerts :
        (t : Instant) (id : ℕ) (e : Engine)
        → (trigger travel distance solve_tsp agents t id e).alerts
          ≡ (enter_alert travel (check_of t id e) e).alerts
    unfolding check_and_trigger_proactive_reroute
    trigger-alerts t id e =
        reroute_if_late-alerts t.utc_now t.utc_today (check_of t id e)
          (known_place travel none (find_agent id agents)) (enter_alert travel (check_of t id e) e)

    trigger-Extends :
        (t : Instant) (id : ℕ) (e : Engine)
        → Extends e (trigger travel distance solve_tsp agents t id e)
    trigger-Extends t id e =
        let h = enter_alert-Extends (check_of t id e) e in
        record { more = h.more; alerts = trigger-alerts t id e ∙ h.alerts; valid = h.valid }

    trigger_late-Extends :
        (t : Instant) (checks : List ScheduleFeasibilityCheck) (e : Engine)
        → Extends e (trigger_late travel distance solve_tsp agents t checks e)
    unfolding trigger_late
    trigger_late-Extends t [] e = Extends-refl e
    trigger_late-Extends t (check ∷ checks) e =
        elim (Bool-cases (leb proactive_reroute_threshold check.total_predicted_delay_minutes)) [
          | inl late ↦
              let f = trigger travel distance solve_tsp agents t check.agent_id e in
              rw late (
                Extends-trans e f (trigger_late travel distance solve_tsp agents t checks f)
                  (trigger-Extends t check.agent_id e) (trigger_late-Extends t checks f))
          | inr fine ↦ rw fine (trigger_late-Extends t checks e)
        ]

    -- Monitoring, for any number of rounds, keeps the alerts there are in their order and enters
    -- behind them only alerts of at least 15 minutes, which are critical from 30 minutes on and
    -- warnings otherwise.
    pub start_monitoring-Extends :
        (instants : List Instant) (e : Engine)
        → Extends e (start_monitoring travel distance solve_tsp agents instants e)
    unfolding start_monitoring monitoring_round
    start_monitoring-Extends [] e = Extends-refl e
    start_monitoring-Extends (t ∷ instants) e =
        let f = monitoring_round travel distance solve_tsp agents t e in
        Extends-trans e f (start_monitoring travel distance solve_tsp agents instants f)
          (trigger_late-Extends t (monitor_all_agents travel t agents e) e)
          (start_monitoring-Extends instants f)

    -- Below the threshold of the rerouting.
    abbrev pub IsQuiet : ScheduleFeasibilityCheck → Type 0
    IsQuiet check = check.total_predicted_delay_minutes < 20

    trigger_late-quiet :
        (t : Instant) (checks : List ScheduleFeasibilityCheck) (e : Engine)
        → All IsQuiet checks
        → trigger_late travel distance solve_tsp agents t checks e ≡ e
    unfolding trigger_late
    trigger_late-quiet t [] e h = refl
    trigger_late-quiet t (check ∷ checks) e h =
        let fine : leb proactive_reroute_threshold check.total_predicted_delay_minutes ≡ false =
          ground (arith, h.0) in
        rw fine (trigger_late-quiet t checks e (h.1))

    late_alerts :
        (check : ScheduleFeasibilityCheck) (e : Engine)
        → 15 ≤ check.total_predicted_delay_minutes
        → length (enter_alert travel check e).alerts ≡ length e.alerts + 1
    unfolding enter_alert
    late_alerts check e h =
        let late : leb delay_warning_threshold check.total_predicted_delay_minutes ≡ true =
          ground arith in
        rw late (length-append e.alerts (_ ∷ []))

    -- If every check of a round predicts less than 20 minutes, the round enters no alert and leaves the
    -- engine as it is; but an agent of whom 15 minutes or more are predicted gets an alert when the
    -- check with its trigger is made for that agent alone.
    pub monitoring_round_silent :
        (t : Instant) (id : ℕ) (e : Engine)
        → All IsQuiet (monitor_all_agents travel t agents e)
        → 15
          ≤ (check_schedule_feasibility travel t.now t.today id
              (find_agent id agents)
              none
              e.service).total_predicted_delay_minutes
        → (monitoring_round travel distance solve_tsp agents t e ≡ e)
          × (length (trigger travel distance solve_tsp agents t id e).alerts ≡ length e.alerts + 1)
    unfolding monitoring_round
    monitoring_round_silent t id e quiet h = (
      trigger_late-quiet t (monitor_all_agents travel t agents e) e quiet,
      ap (length {A = PredictiveAlert}) (trigger-alerts t id e) ∙ late_alerts (check_of t id e) e h,
    )
