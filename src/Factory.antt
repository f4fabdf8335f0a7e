-- ===== src/Factory.antt =====
-- `SolverFactory` and `RouteSolver.estimate_quality` of
-- backend/app/services/solvers/solver_interface.py.
-- What the instance of a solver class does is the parameter `attempt`; the registered classes are
-- a list, in the order of their registration.

pub mod Fallback
pub mod Samples
use sfa_routing.Prelude.{
  ℕ, zero, suc, ◌+◌, ◌-◌, ◌*◌, Bool, true, false, ◌&&◌, ◌||◌, not, Option, none, some, List, [],
  ◌∷◌, ◌++◌, ltb, leb, ◌==◌, if◌then◌else◌, length,
}
use sfa_routing.Problem.{
  SolverType, vroom, ortools, genetic, greedy, auto, RouteStep, Route, SolutionResult,
  RoutingProblem, StepType, start, job, end,
}

abbrev pub tag : SolverType → ℕ
tag vroom = 0
tag ortools = 1
tag greedy = 2
tag genetic = 3
tag auto = 4

unfoldable pub registered : List SolverType → SolverType → Bool
registered [] t = false
registered (s ∷ ss) t = tag s == tag t || registered ss t

abbrev pub is_job : StepType → Bool
is_job start = false
is_job job = true
is_job end = false

unfoldable pub job_steps : List RouteStep → ℕ
job_steps [] = 0
job_steps (s ∷ ss) = (if is_job s.step_type then 1 else 0) + job_steps ss

pub all_job_steps : List Route → ℕ
all_job_steps [] = 0
all_job_steps (r ∷ rs) = job_steps r.steps + all_job_steps rs

-- The quality is a fraction: numerator and denominator.
pub estimate_quality : SolutionResult → ℕ × ℕ
estimate_quality r =
    let total_jobs = all_job_steps r.routes + length r.unassigned_jobs in
    if length r.routes == 0 && length r.unassigned_jobs == 0
    then (0, 1)
    else if total_jobs == 0
    then (1, 1)
    else (total_jobs - length r.unassigned_jobs, total_jobs)

-- `quality_score >= 0.9`
pub good_enough : SolutionResult → Bool
good_enough r = let (assigned, total) = estimate_quality r in leb (9 * total) (10 * assigned)

-- `none` is the RuntimeError.
pub select_optimal_solver : List SolverType → RoutingProblem → Option SolverType
select_optimal_solver solvers p =
    if (p.has_pickup_delivery || p.has_multi_depot || ltb 500 (length p.jobs))
      && registered solvers ortools
    then some ortools
    else if registered solvers vroom
    then some vroom
    else if registered solvers ortools
    then some ortools
    else if registered solvers greedy
    then some greedy
    else none

abbrev pub any_solver : List SolverType → Option SolverType
any_solver [] = none
any_solver (s ∷ ss) = some s

-- `none` is the ValueError or the RuntimeError.
unfoldable pub get_solver : List SolverType → SolverType → Option RoutingProblem → Option SolverType
get_solver solvers auto (some p) = select_optimal_solver solvers p
get_solver solvers auto none = if registered solvers vroom then some vroom else any_solver solvers
get_solver solvers t p = if registered solvers t then some t else none

-- What an instance does when it is asked: its health check fails, it raises, or it returns.
pub data Attempt : Type 0 where
  unhealthy raises : Attempt
  solved : SolutionResult → Attempt

pub data Outcome : Type 0 where
  returned : SolutionResult → Outcome
  all_failed no_solvers_available : Outcome

-- The solver joins the chain if it is registered and not the preferred one.
unfoldable pub alternative : List SolverType → SolverType → SolverType → List SolverType
alternative solvers preferred t =
    if not (tag preferred == tag t) && registered solvers t then t ∷ [] else []

unfoldable pub fallback_order : List SolverType → SolverType → List SolverType
unfolding alternative
fallback_order solvers preferred =
    let last : List SolverType = if registered solvers greedy then greedy ∷ [] else [] in
    preferred
    ∷ (alternative solvers preferred vroom ++ (alternative solvers preferred ortools ++ last))

module _ (attempt : SolverType → Attempt) where
  -- The loop, with whether there was an error.
  unfoldable pub try_solvers : List SolverType → RoutingProblem → List SolverType → Bool → Outcome
  try_solvers solvers p [] failed = if failed then all_failed else no_solvers_available
  try_solvers solvers p (t ∷ ts) failed = elim (get_solver solvers t (some p)) [
    | none ↦ try_solvers solvers p ts true
    | some s ↦ elim (attempt s) [
      | unhealthy ↦ try_solvers solvers p ts failed
      | raises ↦ try_solvers solvers p ts true
      | solved r ↦
          let rest = try_solvers solvers p ts failed in
          if good_enough r || tag t == tag greedy
          then returned (record r { solver_used = s })
          else rest
    ]
  ]

  unfoldable pub solve_with_fallback : List SolverType → RoutingProblem → SolverType → Outcome
  solve_with_fallback solvers p preferred =
      try_solvers solvers p (fallback_order solvers preferred) false
