-- ===== src/TwoOpt.antt =====
-- The 2-opt search and the tour construction of `GreedySolver` in
-- backend/app/services/solvers/greedy_solver.py (`solve_tsp` and what it calls).
-- A distance is a number of millimetres, and `_calculate_distance` is a parameter, as in `Greedy`.
-- An index that is out of range reads as location 0 here, where Python raises an IndexError; the
-- routes that `solve_tsp` makes hold no such index.
pub mod Swap
pub mod Search
pub mod Descent
pub mod OpenRoutes
pub mod Samples
use mathlib.Core.List.{reverse}
use sfa_routing.Prelude.{
  ℕ, zero, suc, ◌+◌, ◌-◌, ◌*◌, ◌≤◌, ◌<◌, Bool, true, false, ◌&&◌, ◌||◌, Option, none, some, List,
  [], ◌∷◌, ◌++◌, ltb, leb, ◌==◌, if◌then◌else◌, length, get_or, take, drop,
}
use sfa_routing.Prelude.Int.{ℤ, pos, pos_part, neg_part, sub_ℕ}

-- `route[k]`
abbrev pub at : List ℕ → ℕ → ℕ
at route k = get_or route k 0

-- `_apply_2opt_swap`
pub apply_2opt_swap : List ℕ → ℕ → ℕ → List ℕ
apply_2opt_swap route i j =
    take (suc i) route ++ (reverse (drop (suc i) (take (suc j) route)) ++ drop (suc j) route)

-- For closed tours the return edge is not swapped.
pub end_index : Bool → List ℕ → ℕ
end_index is_closed route = if is_closed then length route - 1 else length route

abbrev pub max_2opt_iterations : ℕ
max_2opt_iterations = 100

-- `d a b` is the distance from location `a` to location `b`.
module _ (d : ℕ → ℕ → ℕ) where
  -- The length of the way from `x` through the list.
  unfoldable pub way : ℕ → List ℕ → ℕ
  way x [] = 0
  way x (y ∷ ys) = d x y + way y ys

  unfoldable pub calculate_route_distance : List ℕ → ℕ
  unfolding way
  calculate_route_distance [] = 0
  calculate_route_distance (x ∷ xs) = way x xs

  -- The node after `j`, which wraps round at the end of the route.
  abbrev pub successor : List ℕ → ℕ → ℕ
  successor route j = if ltb (suc j) (length route) then at route (suc j) else at route 0

  -- The two edges that a swap removes, and the two that it adds.
  abbrev pub current_edges : List ℕ → ℕ → ℕ → ℕ
  current_edges route i j = d (at route i) (at route (suc i)) + d (at route j) (successor route j)

  abbrev pub new_edges : List ℕ → ℕ → ℕ → ℕ
  new_edges route i j = d (at route i) (at route j) + d (at route (suc i)) (successor route j)

  -- `delta < -0.001 * best_distance`, multiplied out.
  abbrev pub improves : List ℕ → ℤ → ℕ → ℕ → Bool
  improves route best i j =
      ltb (1000 * new_edges route i j + pos_part best)
        (1000 * current_edges route i j + neg_part best)

  -- The two `continue` tests of the inner loop.
  abbrev skipped : Bool → List ℕ → ℕ → ℕ → Bool
  skipped is_closed route i j = j == suc i || (is_closed && j == length route - 1)

  -- `for j in range(…)`, with the rounds that are left.
  pub search_j : Bool → List ℕ → ℤ → ℕ → ℕ → ℕ → Option ℕ
  search_j is_closed route best i zero j = none
  search_j is_closed route best i (suc n) j =
      let rest = search_j is_closed route best i n (suc j) in
      if skipped is_closed route i j then rest else if improves route best i j then some j else rest

  -- `for i in range(1, end_idx - 2)`: the first pair that improves the route.
  pub search_i : Bool → List ℕ → ℤ → ℕ → ℕ → ℕ → Option (ℕ × ℕ)
  search_i is_closed route best end_idx zero i = none
  search_i is_closed route best end_idx (suc n) i =
      elim (search_j is_closed route best i (end_idx - (i + 2)) (i + 2)) [
        | some j ↦ some (i, j)
        | none ↦ search_i is_closed route best end_idx n (suc i)
      ]

  pub search_pairs : Bool → List ℕ → ℤ → Option (ℕ × ℕ)
  unfolding end_index
  search_pairs is_closed route best =
      let end_idx = end_index is_closed route in
      search_i is_closed route best end_idx (end_idx - 2 - 1) 1

  -- `best_distance += delta`
  pub add_delta : List ℕ → ℤ → ℕ → ℕ → ℤ
  add_delta route best i j =
      sub_ℕ (pos_part best + new_edges route i j) (neg_part best + current_edges route i j)

  -- The `while` loop, with the iterations that `MAX_2OPT_ITERATIONS` leaves.
  pub improve : ℕ → Bool → List ℕ → ℤ → List ℕ
  improve zero is_closed route best = route
  improve (suc n) is_closed route best = elim (search_pairs is_closed route best) [
    | none ↦ route
    | some (i, j) ↦ improve n is_closed (apply_2opt_swap route i j) (add_delta route best i j)
  ]

  pub improve_with_2opt : List ℕ → Bool → List ℕ
  improve_with_2opt route is_closed =
      improve max_2opt_iterations is_closed route (pos (calculate_route_distance route))
