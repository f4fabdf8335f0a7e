-- ===== src/Tour.antt =====
-- `GreedySolver.solve_tsp` of backend/app/services/solvers/greedy_solver.py: a nearest-neighbour
-- tour, then 2-opt. `d a b` is the distance from location `a` to location `b`; the list `visited`
-- holds the indices whose flag is set.

pub mod Visits
pub mod Samples
use sfa_routing.Prelude.{
  ℕ, zero, suc, ◌+◌, ◌-◌, Bool, Option, none, some, List, [], ◌∷◌, ◌++◌, ltb, leb, if◌then◌else◌,
  length, range,
}
use sfa_routing.Greedy.{contains, closer}
use sfa_routing.TwoOpt.{improve_with_2opt}

abbrev pub close_tour : Bool → ℕ → List ℕ → List ℕ
close_tour return_to_start start route = if return_to_start then route ++ start ∷ [] else route

module _ (d : ℕ → ℕ → ℕ) where
  pub look : List ℕ → ℕ → ℕ → Option (ℕ × ℕ) → Option (ℕ × ℕ)
  look visited current i best =
      if contains visited i
      then best
      else if closer (d current i) best
      then some (i, d current i)
      else best

  -- The inner `for` loop, over the locations from `i` on.
  pub nearest : List ℕ → ℕ → ℕ → ℕ → Option (ℕ × ℕ) → Option (ℕ × ℕ)
  nearest visited current i zero best = best
  nearest visited current i (suc n) best =
      nearest visited current (suc i) n (look visited current i best)

  -- The outer `for` loop, with the rounds that are left.
  pub construct : ℕ → ℕ → List ℕ → List ℕ → ℕ → List ℕ
  construct n zero route visited current = route
  construct n (suc rounds) route visited current = elim (nearest visited current 0 n none) [
    | none ↦ construct n rounds route visited current
    | some (i, _) ↦ construct n rounds (route ++ i ∷ []) (i ∷ visited) i
  ]

  abbrev pub polish : Bool → List ℕ → List ℕ
  polish is_closed route =
      if ltb 3 (length route) then improve_with_2opt d route is_closed else route

  -- `solve_tsp` for `n` locations.
  pub solve_tsp : ℕ → ℕ → Bool → List ℕ
  solve_tsp n start return_to_start =
      if leb n 2
      then range 0 n
      else polish return_to_start
          (close_tour return_to_start start (construct n (n - 1) (start ∷ []) (start ∷ []) start))
