-- ===== src/Greedy/Samples.antt =====
-- The nearest-neighbour solver on the test data.
use mathlib.Core.Option
use sfa_routing.Prelude.{ℕ, ◌≡◌, refl, some, List, [], ◌∷◌, map}
use sfa_routing.Problem.{SolutionResult, Route}
use sfa_routing.Problem.Samples.{jobs, vans, along, place, job_at, problem}
use sfa_routing.Greedy.{
  contains, find_nearest_feasible_job, scan, consider, visit, extend, begin, start_location,
  replace_time, return_to_depot, to_route, build_route_for_vehicle, keep_route, assign_vehicles,
  to_solution, unassigned_from, get_depot, vehicle_start, first_job_location, solve,
}
use sfa_routing.Greedy.Routes.{served, IsRoute, build_route_for_vehicle-IsRoute}
use sfa_routing.Greedy.Solve.{IsSolution, solve-IsSolution}

abbrev clock : ℕ → ℕ
clock k = 1000000

program : Unit {0}
unfolding find_nearest_feasible_job scan consider contains visit extend begin start_location
    replace_time return_to_depot to_route build_route_for_vehicle keep_route assign_vehicles
    to_solution unassigned_from get_depot vehicle_start first_job_location solve
program = tt

-- The nearest job that fits, not the nearest one.
nearest_runs : find_nearest_feasible_job along (place 0 0) jobs (1 ∷ []) 5000 9000 ≡ some 0
unfolding program
nearest_runs = refl

abbrev result : SolutionResult → List (List ℕ) × List ℕ × ℕ
result s = (map (λ (r : Route). served r.steps) s.routes, s.unassigned_jobs, s.total_distance_m)

-- Two vans, two routes, and the two jobs that are too heavy for what is left.
solve_runs :
    Option.map result (solve along clock (problem jobs vans))
    ≡ some (((14 ∷ 12 ∷ []) ∷ (11 ∷ []) ∷ []), 13 ∷ 15 ∷ [], 22000)
unfolding program
solve_runs = refl

build_route_for_vehicle-IsRoute_example :
    IsRoute (sfa_routing.Problem.Samples.van 1 10000) jobs (3 ∷ []) (
      build_route_for_vehicle along
        (sfa_routing.Problem.Samples.van 1 10000)
        jobs
        (3 ∷ [])
        (place 0 0)
        1000000)
build_route_for_vehicle-IsRoute_example =
    build_route_for_vehicle-IsRoute along (sfa_routing.Problem.Samples.van 1 10000) jobs (3 ∷ [])
      (place 0 0) 1000000

solve-IsSolution_example :
    (s : SolutionResult) × (solve along clock (problem jobs vans) ≡ some s)
    × IsSolution (problem jobs vans) s
solve-IsSolution_example = solve-IsSolution along clock (problem jobs vans)
