-- ===== src/WeeklyPlanner/Routes/Coverage.antt =====
-- The number of visits of a weekly plan, against the visits that are required.
use mathlib.Core.List.{Sublistᴰ}
use sfa_routing.Prelude.{
  ℕ, zero, suc, ◌+◌, ◌≤◌, ◌≡◌, refl, ap, Option, none, List, [], ◌∷◌, arith, inl, inr, ltb,
  Bool-cases, Option-cases, List-cases, length, length-append, get_or,
}
use sfa_routing.Prelude.Perms.{length-perm}
use sfa_routing.Prelude.Dates.{Date, add_days}
use sfa_routing.Problem.{SolverType, vroom, RouteStep, Route, SolutionResult, RoutingProblem}
use sfa_routing.Factory.{
  Attempt, solved, Outcome, returned, all_failed, no_solvers_available, solve_with_fallback, is_job,
  job_steps,
}
use sfa_routing.Factory.Fallback.{solve_with_fallback-IsAnswer}
use sfa_routing.WeeklyPlanner.{
  Client, Agent, Clock, Planner, Signals, calculate_required_visits, clients_to_visit, add_minutes,
  clock,
}
use sfa_routing.WeeklyPlanner.Assignment.{Days, load, assign_to_days}
use sfa_routing.WeeklyPlanner.Assignment.Placing.{all_visits}
use sfa_routing.WeeklyPlanner.Assignment.Weeks.{Partitions, Labels, assign_to_days-IsAssigned}
use sfa_routing.WeeklyPlanner.Routes.Required.{
  HaveIds, calculate_required_visits-Requires, visits-sum_required,
}
use sfa_routing.WeeklyPlanner.Routes.{
  step_client, read_steps, read_solution, read_outcome, fallback_visits, create_fallback_plan,
  day_problem, day_jobs, optimize_day_route, day_priorities, plan_days, count_visits, sum_required,
  rate, generate_weekly_plan,
}

length-Sublistᴰ : {xs ys : List Client} → Sublistᴰ xs ys → length xs ≤ length ys
length-Sublistᴰ Sublistᴰ.slnil = omega arith
length-Sublistᴰ (Sublistᴰ.cons s) = omega (arith, length-Sublistᴰ s)
length-Sublistᴰ (Sublistᴰ.cons-cons e s) = omega (arith, length-Sublistᴰ s)

length-read_steps :
    (w : Planner) (clients : List Client) (priorities : List (ℕ × ℕ)) (n : ℕ)
    (steps : List RouteStep)
    → length (read_steps w clients priorities n steps) ≤ job_steps steps
unfolding read_steps job_steps
length-read_steps w clients priorities n [] = omega arith
length-read_steps w clients priorities n (step ∷ steps) =
    elim (Bool-cases (is_job step.step_type)) [
      | inl job ↦ elim (Option-cases (step_client clients step)) [
        | inl lost ↦
            let rest = length-read_steps w clients priorities n steps in
            rw (read_steps, lost, job) (omega (arith, rest))
        | inr (x, e) ↦
            let rest = length-read_steps w clients priorities (n + 1) steps in
            rw (read_steps, e, job) (omega (arith, rest))
      ]
      | inr end ↦
          let lost : step_client clients step ≡ none = rw end refl in
          let rest = length-read_steps w clients priorities n steps in
          rw (read_steps, lost, end) (omega (arith, rest))
    ]

length-fallback_visits :
    (now : Clock) (n : ℕ) (clients : List Client)
    → length (fallback_visits now n clients) ≡ length clients
unfolding fallback_visits
length-fallback_visits now n [] = refl
length-fallback_visits now n (x ∷ xs) =
    ap suc (length-fallback_visits (add_minutes now (x.visit_duration_minutes + 15)) (suc n) xs)

-- The jobs in the first route of a solution.
abbrev pub first_jobs : SolutionResult → ℕ
first_jobs r = elim r.routes [ [] ↦ 0 | route ∷ rest ↦ job_steps route.steps ]

length-read_solution :
    (w : Planner) (clients : List Client) (priorities : List (ℕ × ℕ)) (d : Date)
    (r : SolutionResult)
    → length (read_solution w clients priorities d r).visits ≤ first_jobs r
unfolding read_solution
length-read_solution w clients priorities d r = elim (List-cases r.routes) [
  | inl no_routes ↦ simp (no_routes, read_solution) (omega arith)
  | inr (route, rest, e) ↦
      let jobs : first_jobs r ≡ job_steps route.steps =
        ap (λ (rs : List Route). elim rs as (λ l. ℕ) [ [] ↦ 0 | q ∷ qs ↦ job_steps q.steps ]) e in
      let steps = length-read_steps w clients priorities 0 route.steps in
      simp (e, read_solution) (omega (arith, steps, jobs))
]

-- What a solver returns has each job once at most.
abbrev pub AnswersJobs : (RoutingProblem → SolverType → Attempt) → Type 0
AnswersJobs attempt =
    (p : RoutingProblem) (t : SolverType) (r : SolutionResult)
    → attempt p t ≡ solved r
    → first_jobs r ≤ length p.jobs

module _ (uuid4 : ℕ → ℕ) (attempt : RoutingProblem → SolverType → Attempt)
    (solvers : List SolverType) (w : Planner) (agent : Agent) where
  length-day_jobs :
      (d : Date) (priorities : List (ℕ × ℕ)) (n : ℕ) (clients : List Client)
      → length (day_jobs uuid4 w agent d priorities n clients) ≡ length clients
  unfolding day_jobs
  length-day_jobs d priorities n [] = refl
  length-day_jobs d priorities n (x ∷ xs) = ap suc (length-day_jobs d priorities (suc n) xs)

  length-read_outcome :
      (clients : List Client) (d : Date) (priorities : List (ℕ × ℕ)) (o : Outcome)
      → ((r : SolutionResult) → o ≡ returned r → first_jobs r ≤ length clients)
      → length (read_outcome uuid4 attempt solvers w agent clients d priorities o).visits
        ≤ length clients
  unfolding read_outcome create_fallback_plan
  length-read_outcome clients d priorities (returned r) h =
      omega (arith, length-read_solution w clients priorities d r, h r refl)
  length-read_outcome clients d priorities all_failed h =
      omega (arith, length-fallback_visits (clock agent.work_start) 1 clients)
  length-read_outcome clients d priorities no_solvers_available h =
      omega (arith, length-fallback_visits (clock agent.work_start) 1 clients)

  length-optimize_day_route :
      (clients : List Client) (d : Date) (priorities : List (ℕ × ℕ))
      → AnswersJobs attempt
      → length (optimize_day_route uuid4 attempt solvers w agent clients d priorities).visits
        ≤ length clients
  unfolding optimize_day_route day_problem
  length-optimize_day_route [] d priorities h = omega arith
  length-optimize_day_route (x ∷ xs) d priorities h =
      let problem = day_problem uuid4 w agent (x ∷ xs) d priorities in
      length-read_outcome (x ∷ xs) d priorities
        (solve_with_fallback (attempt problem) solvers problem vroom)
        (λ r e.
          let answer = solve_with_fallback-IsAnswer (attempt problem) solvers problem vroom e in
          let jobs = length-day_jobs d priorities 0 (x ∷ xs) in
          omega (
            arith,
            ap first_jobs answer.named,
            h problem answer.solver answer.result answer.tried,
            jobs,
          ))

  -- The visits of `n` days from `offset` on.
  abbrev loads : Days → ℕ → ℕ → ℕ
  loads days offset zero = 0
  loads days offset (suc n) = load days offset + loads days (suc offset) n

  loads-suc :
      (day : List Client) (days : Days) (offset n : ℕ)
      → loads (day ∷ days) (suc offset) n ≡ loads days offset n
  loads-suc day days offset zero = refl
  loads-suc day days offset (suc n) =
      ap (λ k. load days offset + k) (loads-suc day days (suc offset) n)

  loads_all : (days : Days) → loads days 0 (length days) ≡ length (all_visits days)
  loads_all [] = refl
  loads_all (day ∷ days) = omega (
    arith,
    loads-suc day days 0 (length days),
    loads_all days,
    length-append day (all_visits days),
  )

  length-plan_days :
      (s : Signals) (week_start : Date) (days : Days) (offset n : ℕ)
      → length (plan_days uuid4 attempt solvers w s agent week_start days offset n) ≡ n
  unfolding plan_days
  length-plan_days s week_start days offset zero = refl
  length-plan_days s week_start days offset (suc n) =
      ap suc (length-plan_days s week_start days (suc offset) n)

  count_visits-le :
      (s : Signals) (week_start : Date) (days : Days) (offset n : ℕ)
      → AnswersJobs attempt
      → count_visits (plan_days uuid4 attempt solvers w s agent week_start days offset n)
        ≤ loads days offset n
  unfolding count_visits plan_days
  count_visits-le s week_start days offset zero h = omega arith
  count_visits-le s week_start days offset (suc n) h =
      let d = add_days week_start offset in
      let clients = get_or days offset [] in
      omega (
        arith,
        length-optimize_day_route clients d (day_priorities w s d clients) h,
        count_visits-le s week_start days (suc offset) n h,
      )

rate-le : (x r : ℕ) → x ≤ r → (rate x r).0 ≤ (rate x r).1
unfolding rate
rate-le x r h = elim (Bool-cases (ltb 0 r)) [
  | inl some_required ↦ rw some_required h
  | inr none_required ↦ rw none_required (omega arith)
]

module _ (uuid4 : ℕ → ℕ) (attempt : RoutingProblem → SolverType → Attempt)
    (solvers : List SolverType) (osrm_clusters : List Client → ℕ → Option (List (ℕ × List ℕ)))
    (kmeans_labels : List Client → ℕ → List ℕ) where
  -- If the solvers return each job once at most, the clustering service puts each client in one
  -- cluster, K-means labels each client and the clients have distinct identifiers, the coverage rate
  -- of a weekly plan is at most 1, and its numerator is the number of planned visits.
  pub generate_weekly_plan-le :
      (w : Planner) (s : Signals) (agent : Agent) (clients : List Client) (week_start : Date)
      (week_number : ℕ)
      → AnswersJobs attempt
      → Partitions osrm_clusters kmeans_labels
      → Labels osrm_clusters kmeans_labels
      → HaveIds clients
      → let plan =
          generate_weekly_plan uuid4 attempt solvers osrm_clusters kmeans_labels w s agent clients
            week_start week_number in
        (plan.total_visits ≡ count_visits plan.daily_plans)
        × (length plan.daily_plans ≡ 5)
        × (plan.coverage_rate.0 ≤ plan.coverage_rate.1)
  unfolding generate_weekly_plan
  generate_weekly_plan-le w s agent clients week_start week_number answers partitions labels ids =
      let needed = calculate_required_visits week_number clients in
      let wanted = clients_to_visit needed clients in
      let days = assign_to_days osrm_clusters kmeans_labels 5 agent.max_visits_per_day wanted in
      let week =
        assign_to_days-IsAssigned osrm_clusters kmeans_labels 5 agent.max_visits_per_day wanted
          (omega arith) partitions labels in
      let enough =
        visits-sum_required week_number needed clients
          (λ x m. calculate_required_visits-Requires week_number x clients ids m) in
      let planned = count_visits-le uuid4 attempt solvers w agent s week_start days 0 5 answers in
      let all = loads_all uuid4 attempt solvers w agent days in
      let five = ap (λ n. loads uuid4 attempt solvers w agent days 0 n) week.size in
      let parts = length-append week.extra wanted in
      let total = length-perm week.perm in
      let second = length-Sublistᴰ week.chosen in
      let plans = plan_days uuid4 attempt solvers w s agent week_start days 0 5 in
      (
        refl,
        length-plan_days uuid4 attempt solvers w agent s week_start days 0 5,
        rate-le (count_visits plans) (sum_required needed)
            (omega (arith, planned, all, five, total, parts, second, enough)),
      )
