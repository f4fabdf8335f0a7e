-- ===== src/Predictive/Fleet.antt =====
-- The counts of `get_fleet_status`.
use sfa_routing.Prelude.{
  ℕ, ◌+◌, ◌≡◌, refl, ◌∙◌, List, [], ◌∷◌, arith, inl, inr, leb, Bool-cases, length,
}
use sfa_routing.Prelude.Perms.{sum_by}
use sfa_routing.Predictive.{
  ScheduleFeasibilityCheck, FleetStatus, delay_critical_threshold, count_check, count_checks,
  fleet_status,
}

abbrev pub minutes : ScheduleFeasibilityCheck → ℕ
minutes check = check.total_predicted_delay_minutes

abbrev counted : FleetStatus → ℕ
counted f = f.on_track + f.at_risk + f.critical_agents

count_check_lem :
    (f : FleetStatus) (check : ScheduleFeasibilityCheck)
    → (counted (count_check f check) ≡ counted f + 1)
      × ((count_check f check).total_delay ≡ f.total_delay + minutes check)
      × ((count_check f check).total_agents ≡ f.total_agents)
unfolding count_check
count_check_lem f check = elim (Bool-cases check.is_feasible) [
  | inl fine ↦ rw fine (omega arith, refl, refl)
  | inr late ↦
      elim (Bool-cases (leb delay_critical_threshold check.total_predicted_delay_minutes)) [
        | inl very ↦ rw (late, very) (omega arith, refl, refl)
        | inr little ↦ rw (late, little) (omega arith, refl, refl)
      ]
]

count_checks_lem :
    (f : FleetStatus) (checks : List ScheduleFeasibilityCheck)
    → (counted (count_checks f checks) ≡ counted f + length checks)
      × ((count_checks f checks).total_delay ≡ f.total_delay + sum_by minutes checks)
      × ((count_checks f checks).total_agents ≡ f.total_agents)
unfolding count_checks
count_checks_lem f [] = (omega arith, omega arith, refl)
count_checks_lem f (check ∷ checks) =
    let here = count_check_lem f check in
    let rest = count_checks_lem (count_check f check) checks in
    (omega (arith, here.0, rest.0), omega (arith, here.1, rest.1), rest.2 ∙ here.2)

-- Each checked agent is counted once, as on track, at risk or critical, and the delays are added up.
pub fleet_status_counts :
    (checks : List ScheduleFeasibilityCheck)
    → let f = fleet_status checks in
      (f.on_track + f.at_risk + f.critical_agents ≡ f.total_agents)
      × (f.total_agents ≡ length checks)
      × (f.total_delay ≡ sum_by minutes checks)
unfolding fleet_status
fleet_status_counts checks =
    let h =
      count_checks_lem
        (record {
          total_agents = length checks;
          on_track = 0;
          at_risk = 0;
          critical_agents = 0;
          total_delay = 0;
        })
        checks in
    (omega (arith, h.0, h.2), h.2, omega (arith, h.1))
