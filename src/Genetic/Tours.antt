-- ===== src/Genetic/Tours.antt =====
-- `GeneticSolver.solve_tsp` of backend/app/services/solvers/genetic_solver.py, over the operators of
-- Genetic and the selection of Genetic.Evolve. `d` is the matrix of the haversine distances.

pub mod Rotation
pub mod Searching
pub mod Cycles
pub mod Turning
pub mod Samples
use mathlib.Core.Option
use sfa_routing.Prelude.{
  ℕ, zero, suc, ◌+◌, Bool, true, false, Option, none, some, List, [], ◌∷◌, ◌++◌, map, ltb, leb,
  ◌==◌, if◌then◌else◌, length, take, drop, range, min,
}
use sfa_routing.Greedy.{contains}
use sfa_routing.TwoOpt.{at, calculate_route_distance}
use sfa_routing.Genetic.{GaConfig, Individual, individual}
use sfa_routing.Genetic.Evolve.{sort_by_fitness, Draws, can_sample, next_generation}

-- `best_distance` is `none` for infinity.
pub record TourSearch : Type 0 where
  pub population : List Individual
  pub best_route : List ℕ
  pub best_distance : Option ℕ

abbrev pub is_shorter : ℕ → Option ℕ → Bool
is_shorter distance none = true
is_shorter distance (some best) = ltb distance best

pub keep_best : Individual → TourSearch → TourSearch
keep_best first s =
    if is_shorter first.total_distance s.best_distance
    then record s { best_route = first.chromosome; best_distance = some first.total_distance }
    else s

-- `route.index(start)` for a start that is in the route.
pub index_of : ℕ → List ℕ → ℕ
index_of start [] = 0
index_of start (x ∷ xs) = let rest = index_of start xs in if x == start then 0 else suc rest

pub start_first : ℕ → List ℕ → List ℕ
unfolding index_of
start_first start route =
    if contains route start
    then drop (index_of start route) route ++ take (index_of start route) route
    else route

abbrev pub close_route : Bool → List ℕ → List ℕ
close_route return_to_start route = if return_to_start then route ++ at route 0 ∷ [] else route

module _ (d : ℕ → ℕ → ℕ) where
  pub measure : Individual → Individual
  measure x =
      let dist = calculate_route_distance d x.chromosome in
      record x { cost = dist; total_distance = dist }

  -- The generations, one for each entry of the draws; `none` is the IndexError of `population[0]` or
  -- the ValueError of `random.sample`.
  pub evolve_tours : GaConfig → List Draws → TourSearch → Option TourSearch
  unfolding measure keep_best
  evolve_tours config [] s = some s
  evolve_tours config (draws ∷ more) s = elim (sort_by_fitness (map measure s.population)) [
    | [] ↦ none
    | first ∷ others ↦
        let rest = evolve_tours config more (record (keep_best first s) {
          population = next_generation config draws (first ∷ others);
        }) in
        if can_sample config (first ∷ others) then rest else none
  ]

  abbrev pub first_search : ℕ → List (List ℕ) → TourSearch
  first_search n shuffled = record {
    population = map individual shuffled;
    best_route = range 0 n;
    best_distance = none;
  }

  -- For `n` locations; `shuffled` are the random permutations that the population starts with.
  pub solve_tsp : GaConfig → List (List ℕ) → List Draws → ℕ → ℕ → Bool → Option (List ℕ)
  unfolding start_first
  solve_tsp config shuffled draws n start return_to_start =
      if leb n 2
      then some (range 0 n)
      else Option.map (λ s. close_route return_to_start (start_first start s.best_route))
          (evolve_tours config (take (min config.generations 200) draws) (first_search n shuffled))
