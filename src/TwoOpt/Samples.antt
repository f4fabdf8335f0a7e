-- ===== src/TwoOpt/Samples.antt =====
-- Small 2-opt inputs: the nodes are points of a line, named by their coordinates.
use sfa_routing.Prelude.{ℕ, ◌+◌, ◌-◌, ◌≡◌, refl, true, false, [], ◌∷◌, arith}
use sfa_routing.TwoOpt.{
  apply_2opt_swap, calculate_route_distance, search_j, search_i, search_pairs, add_delta, improve,
  improve_with_2opt, end_index, way,
}
use sfa_routing.TwoOpt.Descent.{Refines, improve_with_2opt-Refines}

abbrev pub line : ℕ → ℕ → ℕ
line a b = (a - b) + (b - a)

pub line_symmetric : (a b : ℕ) → line a b ≡ line b a
line_symmetric a b = omega arith

swap_runs : apply_2opt_swap (0 ∷ 1 ∷ 2 ∷ 3 ∷ 4 ∷ 5 ∷ []) 1 4 ≡ 0 ∷ 1 ∷ 4 ∷ 3 ∷ 2 ∷ 5 ∷ []
unfolding apply_2opt_swap
swap_runs = refl

improve_runs :
    improve_with_2opt line (0 ∷ 4 ∷ 1 ∷ 10 ∷ 2 ∷ 0 ∷ []) true ≡ 0 ∷ 4 ∷ 10 ∷ 2 ∷ 1 ∷ 0 ∷ []
unfolding improve_with_2opt improve search_pairs search_i search_j calculate_route_distance way
    add_delta apply_2opt_swap end_index
improve_runs = refl

improve_with_2opt-Refines_example :
    Refines line line_symmetric
      (0 ∷ 4 ∷ 1 ∷ 10 ∷ 2 ∷ 0 ∷ [])
      (improve_with_2opt line (0 ∷ 4 ∷ 1 ∷ 10 ∷ 2 ∷ 0 ∷ []) true)
improve_with_2opt-Refines_example =
    improve_with_2opt-Refines line line_symmetric (0 ∷ 4 ∷ 1 ∷ 10 ∷ 2 ∷ 0 ∷ [])

-- The open route 0, 4, 1, 10 of length 16 becomes 0, 4, 10, 1 of length 19.
open_route_gets_longer :
    (improve_with_2opt line (0 ∷ 4 ∷ 1 ∷ 10 ∷ []) false ≡ 0 ∷ 4 ∷ 10 ∷ 1 ∷ [])
    × (calculate_route_distance line (0 ∷ 4 ∷ 1 ∷ 10 ∷ []) ≡ 16)
    × (calculate_route_distance line (0 ∷ 4 ∷ 10 ∷ 1 ∷ []) ≡ 19)
unfolding improve_with_2opt improve search_pairs search_i search_j calculate_route_distance way
    add_delta apply_2opt_swap end_index
open_route_gets_longer = (refl, refl, refl)
