-- ===== src/Factory/Samples.antt =====
-- The fallback chain, with a solver that leaves a job over and one that is down.
use sfa_routing.Prelude.{◌≡◌, refl, true, false, List, [], ◌∷◌}
use sfa_routing.Problem.{SolverType, vroom, ortools, genetic, greedy, auto, SolutionResult}
use sfa_routing.Problem.Samples.{jobs, vans, problem}
use sfa_routing.Factory.{
  registered, good_enough, estimate_quality, all_job_steps, get_solver, select_optimal_solver,
  Attempt, unhealthy, raises, solved, returned, alternative, fallback_order, try_solvers,
  solve_with_fallback,
}
use sfa_routing.Factory.Fallback.{
  IsAnswer, solve_with_fallback-IsAnswer, solve_with_fallback_returns,
}

-- One job, and it is not assigned.
abbrev poor : SolutionResult
poor = record {
  routes = [];
  unassigned_jobs = 7 ∷ [];
  total_distance_m = 0;
  total_duration_s = 0;
  computation_time_ms = 0;
  solver_used = auto;
}

abbrev attempt : SolverType → Attempt
attempt vroom = solved poor
attempt ortools = unhealthy
attempt greedy = solved poor
attempt genetic = raises
attempt auto = raises

abbrev all_three : List SolverType
all_three = vroom ∷ ortools ∷ greedy ∷ []

fallback_runs :
    solve_with_fallback attempt all_three (problem jobs vans) auto
    ≡ returned (record poor { solver_used = greedy })
unfolding solve_with_fallback fallback_order alternative try_solvers get_solver
    select_optimal_solver registered good_enough estimate_quality all_job_steps
fallback_runs = refl

solve_with_fallback-IsAnswer_example :
    IsAnswer attempt all_three (record poor { solver_used = greedy })
solve_with_fallback-IsAnswer_example =
    solve_with_fallback-IsAnswer attempt all_three (problem jobs vans) auto fallback_runs

greedy_registered : registered all_three greedy ≡ true
unfolding registered
greedy_registered = refl

solve_with_fallback_returns_example :
    (r : SolutionResult) × (solve_with_fallback attempt all_three (problem jobs vans) vroom
      ≡ returned r)
    × IsAnswer attempt all_three r
solve_with_fallback_returns_example =
    solve_with_fallback_returns attempt all_three (problem jobs vans) greedy_registered refl vroom

greedy_missing : registered (vroom ∷ []) greedy ≡ false
unfolding registered
greedy_missing = refl

only_poor :
    (s : SolverType) (result : SolutionResult)
    → attempt s ≡ solved result
    → good_enough result ≡ false
unfolding good_enough estimate_quality all_job_steps
only_poor vroom result e = let same : poor ≡ result = cc in rw (← same) refl
only_poor ortools result e = cc
only_poor greedy result e = let same : poor ≡ result = cc in rw (← same) refl
only_poor genetic result e = cc
only_poor auto result e = cc
