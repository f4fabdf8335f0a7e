-- ===== src/Predictive/Delays.antt =====
-- The lists and the total of `check_schedule_feasibility`, and its thresholds.
use mathlib.Core.List.{Mem, mem-cons_self, mem-append_right}
use sfa_routing.Prelude.{
  ℕ, ◌+◌, ◌*◌, ◌<◌, ◌≡◌, refl, sym, ap, ◌∙◌, subst, Option, none, some, List, [], ◌∷◌, ◌++◌, map,
  arith, inl, inr, ltb, Option-cases, List-cases, length,
}
use sfa_routing.Prelude.Perms.{sum_by, sum_by-append}
use sfa_routing.Rerouting.{
  VisitPlan, Place, place_of, proactive_optimization, remaining_visits, reroute_agent_visits,
}
use sfa_routing.Predictive.{
  Agent, monitor_closely, ScheduleFeasibilityCheck, Engine, Progress, risk, note_risk, or_default,
  start_place, travel_seconds, simulate, finish_check, check_visits, check_schedule_feasibility,
  overtime_recommendation, total_recommendation, enter_alert, known_place, reroute_if_late,
  check_and_trigger_proactive_reroute,
}

abbrev pub second : ℕ × ℕ → ℕ
second (id, n) = n

abbrev pub first : ℕ × ℕ → ℕ
first (id, n) = id

-- The lists of the loop belong together, and its total is the sum of the delays.
abbrev IsTotal : Progress → Type 0
IsTotal p = (p.at_risk ≡ map first p.delays) × (p.total_delay ≡ sum_by second p.delays)

map_first-append : (xs ys : List (ℕ × ℕ)) → map first (xs ++ ys) ≡ map first xs ++ map first ys
map_first-append [] ys = refl
map_first-append (x ∷ xs) ys = ap (λ l. first x ∷ l) (map_first-append xs ys)

note_risk-IsTotal : (id : ℕ) (o : Option ℕ) (p : Progress) → IsTotal p → IsTotal (note_risk id o p)
unfolding note_risk
note_risk-IsTotal id none p h = h
note_risk-IsTotal id (some delay) p h = (
  ap (λ l. l ++ id ∷ []) h.0 ∙ sym (map_first-append p.delays ((id, delay) ∷ [])),
  omega (arith, h.1, sum_by-append second p.delays ((id, delay) ∷ [])),
)

module _ (travel : Place → Place → ℕ → ℕ) where
  simulate-IsTotal :
      (previous : Option Place) (vs : List VisitPlan) (p : Progress)
      → IsTotal p
      → IsTotal (simulate travel previous vs p)
  unfolding simulate
  simulate-IsTotal previous [] p h = h
  simulate-IsTotal previous (v ∷ vs) p h = elim (Option-cases v.client) [
    | inl gap ↦ simp (gap, simulate) (simulate-IsTotal none vs p h)
    | inr (c, e) ↦
        let arrival = p.simulated_time + travel_seconds travel previous c p.simulated_time in
        let noted = note_risk v.id (risk arrival c.time_window_end) p in
        simp (e, simulate)
          (simulate-IsTotal (some (place_of c)) vs
            (record noted { simulated_time = arrival + or_default c.visit_duration_minutes * 60 })
            (note_risk-IsTotal v.id (risk arrival c.time_window_end) p h))
  ]

  -- What a check reports of its visits.
  abbrev pub IsConsistent : ScheduleFeasibilityCheck → Type 0
  IsConsistent check =
      (check.at_risk_visits ≡ map first check.predicted_delays)
      × (check.total_predicted_delay_minutes ≡ sum_by second check.predicted_delays)
      × (check.is_feasible ≡ ltb check.total_predicted_delay_minutes 15)

  check_visits-agent :
      (now id : ℕ) (agent : Option Agent) (location : Option Place) (vs : List VisitPlan)
      → (check_visits travel now id agent location vs).agent_id ≡ id
  unfolding finish_check
  check_visits-agent now id agent location [] = refl
  check_visits-agent now id agent location (v ∷ vs) = refl

  abbrev run : ℕ → Option Place → VisitPlan → List VisitPlan → Progress
  run now location v vs =
      simulate travel (some (start_place location (v ∷ vs))) (v ∷ vs)
        (record { simulated_time = now; at_risk = []; delays = []; total_delay = 0 })

  run-IsTotal :
      (now : ℕ) (location : Option Place) (v : VisitPlan) (vs : List VisitPlan)
      → IsTotal (run now location v vs)
  run-IsTotal now location v vs =
      simulate-IsTotal (some (start_place location (v ∷ vs))) (v ∷ vs)
        (record { simulated_time = now; at_risk = []; delays = []; total_delay = 0 }) (refl, refl)

  check_visits-IsConsistent :
      (now id : ℕ) (agent : Option Agent) (location : Option Place) (vs : List VisitPlan)
      → IsConsistent (check_visits travel now id agent location vs)
  unfolding finish_check
  check_visits-IsConsistent now id agent location [] = (refl, refl, refl)
  check_visits-IsConsistent now id agent location (v ∷ vs) =
      let h = run-IsTotal now location v vs in (h.0, h.1, refl)

  some_risk :
      (p : Progress)
      → IsTotal p
      → 0 < p.total_delay
      → (x : ℕ) × (xs : List ℕ) × (p.at_risk ≡ x ∷ xs)
  some_risk p h late = elim (List-cases p.delays) [
    | inl none_late ↦ absurd (omega (arith, late, h.1, ap (sum_by second) none_late))
    | inr (d, ds, e) ↦ (first d, map first ds, h.0 ∙ ap (map first) e)
  ]

  recommends_waiting :
      (now id : ℕ) (agent : Option Agent) (location : Option Place) (vs : List VisitPlan)
      → (check_visits travel now id agent location vs).total_predicted_delay_minutes ≡ 20
      → Mem
          (monitor_closely (length (check_visits travel now id agent location vs).at_risk_visits))
          (check_visits travel now id agent location vs).recommendations
  unfolding finish_check
  recommends_waiting now id agent location [] twenty = absurd (omega (arith, twenty))
  recommends_waiting now id agent location (v ∷ vs) twenty =
      let p = run now location v vs in
      let (x, xs, e) = some_risk p (run-IsTotal now location v vs) (omega (arith, twenty)) in
      let advice : total_recommendation p.at_risk p.total_delay
          ≡ monitor_closely (length p.at_risk) ∷ [] =
        rw (e, twenty) refl in
      mem-append_right (overtime_recommendation agent p.simulated_time)
        (subst (Mem (monitor_closely (length p.at_risk))) (sym advice) mem-cons_self)

  module _ (distance : Place → Place → ℕ) (solve_tsp : List Place → Option (List ℕ)) where
    reroute_if_late_twenty :
        (utc_now utc_today id : ℕ) (check : ScheduleFeasibilityCheck) (location : Option Place)
        (here : Place) (e : Engine)
        → check.total_predicted_delay_minutes ≡ 20
        → location ≡ some here
        → check.agent_id ≡ id
        → let r =
            reroute_agent_visits distance solve_tsp utc_now utc_today id here proactive_optimization
              e.service in
          reroute_if_late travel distance solve_tsp utc_now utc_today check location e
          ≡ (record e { service = r.0 }, some (r.1))
    unfolding reroute_if_late
    reroute_if_late_twenty utc_now utc_today id check location here e twenty known same =
        rw (twenty, known, same) refl

    -- A predicted delay of exactly 20 minutes triggers a rerouting if the place of the agent is known,
    -- while the check recommends to monitor closely; the delay is the sum of the visits' delays.
    pub check_and_trigger_twenty :
        (utc_now utc_today now today id : ℕ) (agent : Option Agent) (location : Option Place)
        (here : Place) (e : Engine)
        → (check_schedule_feasibility travel now today id agent location
            e.service).total_predicted_delay_minutes
          ≡ 20
        → known_place travel location agent ≡ some here
        → let check = check_schedule_feasibility travel now today id agent location e.service in
          let r =
            reroute_agent_visits distance solve_tsp utc_now utc_today id here proactive_optimization
              (enter_alert travel check e).service in
          IsConsistent check
          × Mem (monitor_closely (length check.at_risk_visits)) check.recommendations
          × (check_and_trigger_proactive_reroute travel distance solve_tsp utc_now utc_today now
                today id agent location e
              ≡ (record (enter_alert travel check e) { service = r.0 }, some (r.1)))
    unfolding check_schedule_feasibility check_and_trigger_proactive_reroute reroute_if_late
        finish_check
    check_and_trigger_twenty utc_now utc_today now today id agent location here e twenty known =
        let vs = remaining_visits id today e.service.visits in
        (
          check_visits-IsConsistent now id agent location vs,
          recommends_waiting now id agent location vs twenty,
          reroute_if_late_twenty utc_now utc_today id (check_visits travel now id agent location vs)
              (known_place travel location agent) here
              (enter_alert travel (check_visits travel now id agent location vs) e) twenty known
              (check_visits-agent now id agent location vs),
        )
