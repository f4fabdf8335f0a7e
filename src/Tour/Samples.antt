-- ===== src/Tour/Samples.antt =====
-- Small tours over points of a line.
use sfa_routing.Prelude.{◌≡◌, refl, true, [], ◌∷◌, arith}
use sfa_routing.TwoOpt.Samples.{line}
use sfa_routing.Tour.{look, nearest, construct, solve_tsp}
use sfa_routing.Tour.Visits.{IsTour, solve_tsp-IsTour}

construct_runs : construct line 4 3 (2 ∷ []) (2 ∷ []) 2 ≡ 2 ∷ 1 ∷ 0 ∷ 3 ∷ []
unfolding construct nearest look sfa_routing.Greedy.contains
construct_runs = refl

solve_tsp-IsTour_example : IsTour line 4 2 true (solve_tsp line 4 2 true)
solve_tsp-IsTour_example = solve_tsp-IsTour line 4 2 true (omega arith) (omega arith)
