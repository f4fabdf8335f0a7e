-- ===== src/WeeklyPlanner/Routes/Visits.antt =====
-- The visits of a day's plan.
use mathlib.Core.Logic.{∥∥₁_elim}
use mathlib.Core.List.{Mem, mem-cons, mem-cons_self, mem-cons_of_mem, not-mem-nil}
use sfa_routing.Prelude.{
  ℕ, suc, ◌+◌, ◌≡◌, ◌≢◌, refl, sym, ap, ◌∙◌, subst, none, some, List, [], ◌∷◌, arith, inl, inr,
  ◌==◌, Bool-cases, Option-cases, List-cases,
}
use sfa_routing.Prelude.Dates.{Date}
use sfa_routing.Problem.{SolverType, vroom, RouteStep, SolutionResult, RoutingProblem}
use sfa_routing.Factory.{
  Attempt, Outcome, returned, all_failed, no_solvers_available, solve_with_fallback, is_job,
}
use sfa_routing.WeeklyPlanner.{Client, Agent, Clock, PlannedVisit, Planner, add_minutes, clock}
use sfa_routing.WeeklyPlanner.Routes.{
  find_client, planned_visit, step_client, read_steps, read_solution, read_outcome, fallback_visits,
  create_fallback_plan, day_problem, optimize_day_route,
}

-- The visits are numbered from `n` on, and each is a visit to one of the clients.
abbrev pub AreVisits : List Client → ℕ → List PlannedVisit → Type 0
AreVisits clients n [] = Unit {0}
AreVisits clients n (v ∷ vs) =
    (v.sequence_number ≡ n)
    × (find_client v.client_id clients ≢ none)
    × AreVisits clients (n + 1) vs

find_client-id :
    (id : ℕ) (clients : List Client) (x : Client) → find_client id clients ≡ some x → x.id ≡ id
unfolding find_client
find_client-id id [] x e = absurd (ground (arith, e))
find_client-id id (y ∷ ys) x e = elim (Bool-cases (y.id == id)) [
  | inl same ↦
      let found : some y ≡ some x = rw (same, find_client) at e in
      let at : y ≡ x = cc found in subst (λ (z : Client). z.id ≡ id) at (ground arith)
  | inr other ↦ find_client-id id ys x (rw (other, find_client) at e)
]

mem-find_client :
    (x : Client) (clients : List Client) → Mem x clients → find_client x.id clients ≢ none
unfolding find_client
mem-find_client x [] m e = absurd (not-mem-nil m)
mem-find_client x (y ∷ ys) m e = elim (Bool-cases (y.id == x.id)) [
  | inl same ↦ let bad : some y ≡ none = rw (same, find_client) at e in ground (arith, bad)
  | inr other ↦ ∥∥₁_elim (mem-cons.0 m) (hlevel) (λ c. elim c [
    | inl here ↦
        let at : y.id ≡ x.id = sym (ap (λ (z : Client). z.id) here) in ground (arith, other, at)
    | inr in_rest ↦ mem-find_client x ys in_rest (rw (other, find_client) at e)
  ])
]

step_client-known :
    (clients : List Client) (step : RouteStep) (x : Client)
    → step_client clients step ≡ some x
    → find_client x.id clients ≢ none
step_client-known clients step x e lost = elim (Bool-cases (is_job step.step_type)) [
  | inl job ↦ elim (Option-cases step.job_id) [
    | inl no_job ↦ let bad : none ≡ some x = rw (job, no_job) at e in absurd (ground (arith, bad))
    | inr (id, at) ↦
        let found : find_client id clients ≡ some x = rw (job, at) at e in
        let same = find_client-id id clients x found in
        let bad : none ≡ some x = sym lost ∙ (ap (λ k. find_client k clients) same ∙ found) in
        absurd (ground (arith, bad))
  ]
  | inr end ↦ let bad : none ≡ some x = rw end at e in absurd (ground (arith, bad))
]

module _ (w : Planner) (clients : List Client) where
  read_steps-AreVisits :
      (priorities : List (ℕ × ℕ)) (n : ℕ) (steps : List RouteStep)
      → AreVisits clients (n + 1) (read_steps w clients priorities n steps)
  unfolding read_steps planned_visit
  read_steps-AreVisits priorities n [] = tt
  read_steps-AreVisits priorities n (step ∷ steps) =
      elim (Option-cases (step_client clients step)) [
        | inl lost ↦ rw (lost, read_steps) (read_steps-AreVisits priorities n steps)
        | inr (x, e) ↦
            rw (e, read_steps)
              (
                refl,
                step_client-known clients step x e,
                read_steps-AreVisits priorities (n + 1) steps,
              )
      ]

  read_solution-AreVisits :
      (priorities : List (ℕ × ℕ)) (d : Date) (r : SolutionResult)
      → AreVisits clients 1 (read_solution w clients priorities d r).visits
  unfolding read_solution
  read_solution-AreVisits priorities d r = elim (List-cases r.routes) [
    | inl no_routes ↦ simp (no_routes, read_solution) tt
    | inr (route, rest, e) ↦ simp (e, read_solution) (read_steps-AreVisits priorities 0 route.steps)
  ]

  fallback_visits-AreVisits :
      (now : Clock) (n : ℕ) (xs : List Client)
      → ((x : Client) → Mem x xs → Mem x clients)
      → AreVisits clients n (fallback_visits now n xs)
  unfolding fallback_visits
  fallback_visits-AreVisits now n [] h = tt
  fallback_visits-AreVisits now n (x ∷ xs) h =
      let one : suc n ≡ n + 1 = omega arith in
      let later = add_minutes now (x.visit_duration_minutes + 15) in
      (
        refl,
        mem-find_client x clients (h x mem-cons_self),
        subst (λ k. AreVisits clients k (fallback_visits later (suc n) xs)) one
            (fallback_visits-AreVisits later (suc n) xs (λ y m. h y (mem-cons_of_mem x m))),
      )

module _ (uuid4 : ℕ → ℕ) (attempt : RoutingProblem → SolverType → Attempt)
    (solvers : List SolverType) (w : Planner) (agent : Agent) where
  read_outcome-AreVisits :
      (clients : List Client) (d : Date) (priorities : List (ℕ × ℕ)) (o : Outcome)
      → AreVisits clients 1
          (read_outcome uuid4 attempt solvers w agent clients d priorities o).visits
  unfolding read_outcome create_fallback_plan
  read_outcome-AreVisits clients d priorities (returned r) =
      read_solution-AreVisits w clients priorities d r
  read_outcome-AreVisits clients d priorities all_failed =
      fallback_visits-AreVisits w clients (clock agent.work_start) 1 clients (λ x m. m)
  read_outcome-AreVisits clients d priorities no_solvers_available =
      fallback_visits-AreVisits w clients (clock agent.work_start) 1 clients (λ x m. m)

  -- Whatever the solvers do, the visits of a day's plan are visits to clients of the day, and they
  -- are numbered from 1 on.
  pub optimize_day_route-AreVisits :
      (clients : List Client) (d : Date) (priorities : List (ℕ × ℕ))
      → AreVisits clients 1
          (optimize_day_route uuid4 attempt solvers w agent clients d priorities).visits
  unfolding optimize_day_route
  optimize_day_route-AreVisits [] d priorities = tt
  optimize_day_route-AreVisits (x ∷ xs) d priorities =
      let problem = day_problem uuid4 w agent (x ∷ xs) d priorities in
      read_outcome-AreVisits (x ∷ xs) d priorities
        (solve_with_fallback (attempt problem) solvers problem vroom)
