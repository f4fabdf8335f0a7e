-- ===== src/Genetic/Samples.antt =====
-- The genetic solver on the test data.
use mathlib.Core.List.Perm
use mathlib.Core.List.{reverse_perm}
use sfa_routing.Prelude.{
  range, ℕ, ◌≡◌, ◌+◌, ◌-◌, ◌*◌, String, refl, some, List, [], ◌∷◌, map, reverse, arith, length,
}
use sfa_routing.Prelude.Perms.{sum_by}
use sfa_routing.Problem.{Route}
use sfa_routing.Problem.Samples.{jobs, vans, problem}
use sfa_routing.Greedy.{contains}
use sfa_routing.Genetic.{
  GaConfig, individual, fill, exclude, empty_child, child, order_crossover, mutate_chromosome,
  swap_mutation, insert_mutation, insert_at, remove_at, swap, insert, unchanged, assign_job,
  first_fit, least_loaded, min_load, load_first, assign_jobs, empty_slot, capacity_of,
  split_into_routes,
}
use sfa_routing.Genetic.Crossover.{AreChildren, order_crossover-AreChildren}
use sfa_routing.Genetic.Cuts.{range-Nodup}
use sfa_routing.Genetic.Capacity.{FindsRoom}
use sfa_routing.Genetic.Evolve.{Draws, solve, decode_solution, evaluate_fitness}
use sfa_routing.Genetic.Evolve.Decode.{IsSolved, solve-IsSolved, decode_solution-distances}

order_crossover_runs :
    order_crossover 1 3 (range 0 5) (4 ∷ 3 ∷ 2 ∷ 1 ∷ 0 ∷ [])
    ≡ (map some (0 ∷ 1 ∷ 2 ∷ 4 ∷ 3 ∷ []), map some (4 ∷ 3 ∷ 2 ∷ 0 ∷ 1 ∷ []))
unfolding order_crossover child fill exclude contains empty_child
order_crossover_runs = refl

order_crossover-AreChildren_example :
    AreChildren 1 3
      (range 0 5)
      (reverse (range 0 5))
      (order_crossover 1 3 (range 0 5) (reverse (range 0 5)))
order_crossover-AreChildren_example =
    order_crossover-AreChildren 1 3 (range 0 5) (reverse (range 0 5)) (omega arith) (omega arith)
      (omega arith) (range-Nodup 0 5) (reverse_perm (range 0 5))

mutations_run :
    map (λ m. mutate_chromosome m (range 0 5)) (swap 1 3 ∷ insert 0 2 ∷ [])
    ≡ (0 ∷ 3 ∷ 2 ∷ 1 ∷ 4 ∷ []) ∷ (1 ∷ 2 ∷ 0 ∷ 3 ∷ 4 ∷ []) ∷ []
unfolding mutate_chromosome swap_mutation insert_mutation insert_at remove_at
mutations_run = refl

-- Both vans are full before the third job.
split_runs : split_into_routes jobs vans (range 0 5) ≡ (0 ∷ 1 ∷ 4 ∷ []) ∷ (2 ∷ 3 ∷ []) ∷ []
unfolding split_into_routes assign_jobs assign_job first_fit least_loaded min_load load_first
    capacity_of
split_runs = refl

-- The first two jobs and the fourth one fit.
finds_room : FindsRoom jobs (0 ∷ 1 ∷ 3 ∷ []) (map empty_slot vans)
unfolding assign_job first_fit capacity_of
finds_room = (λ h. cc (h.0), (λ h. cc (h.0), (λ h. cc (h.1.0), tt)))

abbrev config : GaConfig
config = record {
  population_size = 2;
  generations = 3;
  elite_size = 1;
  tournament_size = 1;
  early_stop_generations = 50;
  capacity_penalty = 10000000;
}

abbrev draws : List Draws
draws =
    record {
      tournaments = (0 ∷ 1 ∷ []) ∷ (1 ∷ []) ∷ [];
      cuts = some (1, 3) ∷ [];
      mutations = swap 0 1 ∷ unchanged ∷ [];
    }
    ∷ []

abbrev shuffled : List (List ℕ)
shuffled = range 0 5 ∷ range 0 5 ∷ []

abbrev distance : ℕ → ℕ → ℕ
distance i j = (i - j) + (j - i)

abbrev label : ℕ → String
label k = "Vehicle"

solve-IsSolved_example :
    IsSolved label 0 distance config
      (problem jobs vans)
      shuffled
      (solve label 0 distance config shuffled draws (problem jobs vans))
solve-IsSolved_example =
    solve-IsSolved label 0 distance config (problem jobs vans) shuffled draws (omega arith)
      (omega arith) (omega arith) (omega arith) (omega arith)
      (((omega arith, tt), (omega arith, (tt, tt))), tt) (omega arith)
      (Perm.refl (range 0 5), (Perm.refl (range 0 5), tt))

decode_solution-distances_example :
    let s =
      decode_solution label 0
        (evaluate_fitness distance config jobs vans (individual (range 0 5)))
        (problem jobs vans) in
    sum_by (λ (r : Route). r.total_distance_m) s.routes ≡ length s.routes * s.total_distance_m
decode_solution-distances_example =
    decode_solution-distances label 0 (problem jobs vans)
      (evaluate_fitness distance config jobs vans (individual (range 0 5)))
