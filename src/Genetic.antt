-- ===== src/Genetic.antt =====
-- `GeneticSolver` of backend/app/services/solvers/genetic_solver.py.
-- What the `random` module draws is given: for each call the positions, and for a test against a
-- rate its outcome. The distance matrix is the parameter `matrix`, in thousandths of its unit.

pub mod Filling
pub mod Excluding
pub mod Crossover
pub mod Cuts
pub mod Mutations
pub mod Assigning
pub mod Split
pub mod Capacity
pub mod Evolve
pub mod Tours
pub mod Samples
use mathlib.Core.List.{reverse}
use sfa_routing.Prelude.{
  range, ℕ, zero, suc, ◌+◌, ◌-◌, ◌*◌, ◌/◌, Bool, true, false, ◌&&◌, not, Option, none, some, List,
  [], ◌∷◌, ◌++◌, map, ltb, leb, ◌==◌, if◌then◌else◌, length, get_elem?, set, take, drop, replicate,
  get_or,
}
use sfa_routing.Prelude.Int.{ℤ, pos, sub_ℕ}
use sfa_routing.Problem.{Job, VehicleConfig, RoutingProblem}
use sfa_routing.Greedy.{contains}

pub record GaConfig : Type 0 where
  pub population_size : ℕ
  pub generations : ℕ
  pub elite_size : ℕ
  pub tournament_size : ℕ
  pub early_stop_generations : ℕ
  pub capacity_penalty : ℕ

-- The fitness is the negative of `cost`, which stands in its place: better is less.
pub record Individual : Type 0 where
  pub chromosome : List ℕ
  pub cost : ℕ
  pub violations : ℕ
  pub total_distance : ℕ
  pub routes : List (List ℕ)

pub individual : List ℕ → Individual
individual chromosome = record {
  chromosome = chromosome;
  cost = 0;
  violations = 0;
  total_distance = 0;
  routes = [];
}

-- Order crossover. `none` is the -1 of an empty place.
abbrev pub segment : ℕ → ℕ → List ℕ → List ℕ
segment from to parent = drop from (take to parent)

-- `[x for x in parent if x not in segment]`
pub exclude : List ℕ → List ℕ → List ℕ
exclude taken [] = []
exclude taken (x ∷ xs) = let rest = exclude taken xs in if contains taken x then rest else x ∷ rest

-- The fill loop: the positions, the values that are left, and the child.
pub fill : List ℕ → List ℕ → List (Option ℕ) → List (Option ℕ)
fill [] values child = child
fill (i ∷ is) [] child = fill is [] child
fill (i ∷ is) (v ∷ values) child = fill is values (set child i (some v))

-- `child = [-1] * size; child[start:end] = parent[start:end]`
pub empty_child : ℕ → ℕ → ℕ → List ℕ → List (Option ℕ)
empty_child size from to parent =
    let blank = replicate size none in
    take from blank ++ (map some (segment from to parent) ++ drop to blank)

pub child : ℕ → ℕ → ℕ → List ℕ → List ℕ → List (Option ℕ)
child size from to parent other =
    fill (range to (size - to) ++ range 0 from) (exclude (segment from to parent) other)
      (empty_child size from to parent)

-- `from` and `to` are the sorted pair of `random.sample(range(size), 2)`.
pub order_crossover : ℕ → ℕ → List ℕ → List ℕ → List (Option ℕ) × List (Option ℕ)
order_crossover from to parent1 parent2 =
    let size = length parent1 in
    if ltb size 3
    then (map some parent1, map some parent2)
    else (child size from to parent1 parent2, child size from to parent2 parent1)

-- The mutations, each with the two positions that are drawn.
pub swap_mutation : ℕ → ℕ → List ℕ → List ℕ
swap_mutation i j c = if ltb (length c) 2 then c else set (set c i (get_or c j 0)) j (get_or c i 0)

-- `pop(i)` and `insert(j, gene)`.
pub remove_at : ℕ → List ℕ → List ℕ
remove_at i c = take i c ++ drop (suc i) c

pub insert_at : ℕ → ℕ → List ℕ → List ℕ
insert_at j gene c = take j c ++ gene ∷ drop j c

pub insert_mutation : ℕ → ℕ → List ℕ → List ℕ
insert_mutation i j c = if ltb (length c) 2 then c else insert_at j (get_or c i 0) (remove_at i c)

-- `c[i : j + 1] = reversed(c[i : j + 1])`
pub two_opt_mutation : ℕ → ℕ → List ℕ → List ℕ
two_opt_mutation i j c =
    if ltb (length c) 3
    then c
    else take i c ++ (reverse (drop i (take (suc j) c)) ++ drop (suc j) c)

pub data Mutation : Type 0 where
  unchanged : Mutation
  swap insert two_opt : ℕ → ℕ → Mutation

pub mutate_chromosome : Mutation → List ℕ → List ℕ
mutate_chromosome unchanged c = c
mutate_chromosome (swap i j) c = swap_mutation i j c
mutate_chromosome (insert i j) c = insert_mutation i j c
mutate_chromosome (two_opt i j) c = two_opt_mutation i j c

-- One vehicle while the chromosome is split: its route, its load and its capacity, where a
-- capacity of zero counts as none.
pub record Slot : Type 0 where
  pub route : List ℕ
  pub load : ℕ
  pub capacity : Option ℕ

pub capacity_of : VehicleConfig → Option ℕ
capacity_of v = if v.capacity_kg == 0 then none else some v.capacity_kg

abbrev pub fits : ℕ → Option ℕ → Bool
fits load none = true
fits load (some capacity) = leb load capacity

abbrev pub load_slot : ℕ → ℕ → Slot → Slot
load_slot job demand s = record s { route = s.route ++ job ∷ []; load = s.load + demand }

-- The first vehicle with room takes the job.
pub first_fit : ℕ → ℕ → List Slot → Option (List Slot)
first_fit job demand [] = none
first_fit job demand (s ∷ ss) =
    let rest = first_fit job demand ss in
    if fits (s.load + demand) s.capacity
    then some (load_slot job demand s ∷ ss)
    else elim rest [ none ↦ none | some after ↦ some (s ∷ after) ]

pub min_load : ℕ → List Slot → ℕ
min_load m [] = m
min_load m (s ∷ ss) = min_load (if ltb s.load m then s.load else m) ss

-- The first vehicle whose load is `m` takes the job.
pub load_first : ℕ → ℕ → ℕ → List Slot → List Slot
load_first m job demand [] = []
load_first m job demand (s ∷ ss) =
    let rest = load_first m job demand ss in
    if s.load == m then load_slot job demand s ∷ ss else s ∷ rest

pub least_loaded : ℕ → ℕ → List Slot → List Slot
unfolding min_load load_first
least_loaded job demand [] = []
least_loaded job demand (s ∷ ss) = load_first (min_load s.load ss) job demand (s ∷ ss)

pub assign_job : ℕ → ℕ → List Slot → List Slot
assign_job job demand slots = elim (first_fit job demand slots) [
  | some after ↦ after
  | none ↦ least_loaded job demand slots
]

-- A job index that is out of range has no demand here, where Python raises an IndexError.
abbrev pub demand_at : List Job → ℕ → ℕ
demand_at jobs i = elim (get_elem? jobs i) [ none ↦ 0 | some j ↦ j.demand_kg ]

pub assign_jobs : List Job → List ℕ → List Slot → List Slot
assign_jobs jobs [] slots = slots
assign_jobs jobs (i ∷ is) slots = assign_jobs jobs is (assign_job i (demand_at jobs i) slots)

abbrev pub empty_slot : VehicleConfig → Slot
empty_slot v = record { route = []; load = 0; capacity = capacity_of v }

pub split_into_routes : List Job → List VehicleConfig → List ℕ → List (List ℕ)
split_into_routes jobs [] chromosome = chromosome ∷ []
split_into_routes jobs (v ∷ vs) chromosome =
    map (λ s. s.route) (assign_jobs jobs chromosome (map empty_slot (v ∷ vs)))
