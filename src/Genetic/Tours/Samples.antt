-- ===== src/Genetic/Tours/Samples.antt =====
-- Five places along a line.
use mathlib.Core.List.Perm
use sfa_routing.Prelude.{range, ℕ, ◌≡◌, ◌+◌, ◌-◌, refl, true, some, List, [], ◌∷◌, arith}
use sfa_routing.Greedy.{contains}
use sfa_routing.Genetic.{GaConfig, swap, unchanged}
use sfa_routing.Genetic.Evolve.{Draws}
use sfa_routing.Genetic.Tours.{start_first, index_of, solve_tsp}
use sfa_routing.Genetic.Tours.Cycles.{IsCycle, solve_tsp-IsCycle}

abbrev config : GaConfig
config = record {
  population_size = 2;
  generations = 300;
  elite_size = 1;
  tournament_size = 1;
  early_stop_generations = 50;
  capacity_penalty = 10000000;
}

abbrev round : Draws
round = record {
  tournaments = (0 ∷ 1 ∷ []) ∷ (1 ∷ []) ∷ [];
  cuts = some (1, 3) ∷ [];
  mutations = swap 0 1 ∷ unchanged ∷ [];
}

abbrev line : ℕ → ℕ → ℕ
line i j = (i - j) + (j - i)

abbrev shuffled : List (List ℕ)
shuffled = range 0 5 ∷ range 0 5 ∷ []

solve_tsp-IsCycle_example :
    IsCycle line 5 2 true shuffled (solve_tsp line config shuffled (round ∷ []) 5 2 true)
solve_tsp-IsCycle_example =
    solve_tsp-IsCycle line 5 2 true config shuffled round [] (omega arith) (omega arith)
      (omega arith) (omega arith) (omega arith) (omega arith)
      (((omega arith, tt), (omega arith, (tt, tt))), tt) (omega arith)
      (Perm.refl (range 0 5), (Perm.refl (range 0 5), tt))

start_first_runs : start_first 2 (range 0 5) ≡ 2 ∷ 3 ∷ 4 ∷ 0 ∷ 1 ∷ []
unfolding start_first index_of contains
start_first_runs = refl
