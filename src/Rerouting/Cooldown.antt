-- ===== src/Rerouting/Cooldown.antt =====
-- The minimal interval between two reroutings of an agent.
use sfa_routing.Prelude.{
  ℕ, ◌+◌, ◌<◌, ◌≡◌, ◌≢◌, refl, false, Option, none, some, List, arith, inl, inr, ltb, Bool-cases,
  Option-cases, length, ◌∷◌, ap,
}
use sfa_routing.Rerouting.{
  Service, Place, VisitPlan, Reason, can_reroute, update, reroute_visits, apply_visit_order,
  min_reroute_interval_s, check_and_reroute_agent, client_places,
}

too_soon :
    (s : Service) (now later agent : ℕ)
    → s.last_reroute agent ≡ some now
    → later < now + min_reroute_interval_s
    → can_reroute s later agent ≡ false
unfolding can_reroute
too_soon s now later agent e soon = ground (arith, e)

same_answer :
    (s t : Service) (later other : ℕ)
    → t.last_reroute other ≡ s.last_reroute other
    → can_reroute t later other ≡ can_reroute s later other
unfolding can_reroute
same_answer s t later other e = ground (arith, e)

module _ (distance : Place → Place → ℕ) (solve_tsp : List Place → Option (List ℕ)) where
  -- Each branch leaves the time of the rerouting behind.
  reroute_visits-last :
      (now agent : ℕ) (here : Place) (remaining : List VisitPlan) (reason : Reason) (s : Service)
      → (reroute_visits distance solve_tsp now agent here remaining reason s).0.last_reroute
        ≡ update s.last_reroute agent now
  unfolding reroute_visits apply_visit_order
  reroute_visits-last now agent here remaining reason s =
      elim (Bool-cases (ltb (length remaining) 2)) [
        | inl few ↦ rw few refl
        | inr more ↦ elim (Bool-cases (ltb (length (here ∷ client_places remaining)) 3)) [
          | inl short ↦ rw (more, short) refl
          | inr long ↦ elim (Option-cases (solve_tsp (here ∷ client_places remaining))) [
            | inl failed ↦ rw (more, long, failed) refl
            | inr (order, e) ↦ rw (more, long, e) refl
          ]
        ]
      ]

  -- After a rerouting of an agent, successful or not, no position of the agent starts another one
  -- before 300 seconds have passed; whether another agent may be rerouted does not change.
  pub check_after_reroute :
      (now later today agent other : ℕ) (here there : Place) (remaining : List VisitPlan)
      (reason : Reason) (s : Service)
      → later < now + min_reroute_interval_s
      → other ≢ agent
      → (check_and_reroute_agent distance solve_tsp later today agent there
            (reroute_visits distance solve_tsp now agent here remaining reason s).0
          ≡ ((reroute_visits distance solve_tsp now agent here remaining reason s).0, none))
        × (can_reroute
              (reroute_visits distance solve_tsp now agent here remaining reason s).0
              later
              other
            ≡ can_reroute s later other)
  unfolding check_and_reroute_agent
  check_after_reroute now later today agent other here there remaining reason s soon ne =
      let after = (reroute_visits distance solve_tsp now agent here remaining reason s).0 in
      let last = reroute_visits-last now agent here remaining reason s in
      let this : after.last_reroute agent ≡ some now =
        ground (arith, ap (λ (f : ℕ → Option ℕ). f agent) last) in
      let that : after.last_reroute other ≡ s.last_reroute other =
        ground (arith, ap (λ (f : ℕ → Option ℕ). f other) last) in
      (rw (too_soon after now later agent this soon) refl, same_answer s after later other that)
