-- ===== src/Genetic/Evolve.antt =====
-- The evolution loop of `GeneticSolver.solve`, with the evaluation and the selection.
-- The draws of `random` are given for each generation. Distances are in thousandths of the
-- matrix's unit, and so is the penalty. The formatted name of a missing vehicle is `label`.

pub mod Progress
pub mod Improving
pub mod Best
pub mod Decode
use sfa_routing.Prelude.{
  ℕ, zero, suc, ◌+◌, ◌-◌, ◌*◌, ◌/◌, Bool, true, false, ◌&&◌, not, Option, none, some, List, [], ◌∷◌,
  ◌++◌, map, String, ltb, leb, ◌==◌, if◌then◌else◌, length, get_elem?, take, drop,
}
use sfa_routing.Prelude.Perms.{sum_by}
use sfa_routing.Problem.{
  Time, Job, VehicleConfig, RouteStep, Route, SolutionResult, RoutingProblem, start, job, end, auto,
}
use sfa_routing.TwoOpt.{calculate_route_distance}
use sfa_routing.Genetic.{
  GaConfig, Individual, individual, demand_at, split_into_routes, order_crossover, Mutation,
  mutate_chromosome,
}

-- Only the capacity of the first vehicle counts; `int` drops the grams.
pub check_capacity_violation : List Job → List VehicleConfig → List ℕ → ℕ
check_capacity_violation jobs [] route = 0
check_capacity_violation jobs (v ∷ vs) route =
    let total = sum_by (demand_at jobs) route in
    if v.capacity_kg == 0
    then 0
    else if ltb v.capacity_kg total
    then (total - v.capacity_kg) / 1000
    else 0

-- The time window of less than an hour.
abbrev pub is_tight : Option ℕ → Option ℕ → Bool
is_tight none to = false
is_tight (some from) none = false
is_tight (some from) (some to) = ltb to (from + 3600)

abbrev pub tight_at : List Job → ℕ → ℕ
tight_at jobs i = elim (get_elem? jobs i) [
  | none ↦ 0
  | some j ↦ if is_tight j.time_window_start j.time_window_end then 1 else 0
]

pub check_time_window_violations : List Job → List ℕ → ℕ
check_time_window_violations jobs route = sum_by (tight_at jobs) route

-- The first of several equals stays in front, as `list.sort` leaves it.
pub insert_sorted : Individual → List Individual → List Individual
insert_sorted x [] = x ∷ []
insert_sorted x (y ∷ ys) =
    let rest = insert_sorted x ys in if leb x.cost y.cost then x ∷ y ∷ ys else y ∷ rest

pub sort_by_fitness : List Individual → List Individual
sort_by_fitness [] = []
sort_by_fitness (x ∷ xs) = insert_sorted x (sort_by_fitness xs)

-- `max(tournament, key=fitness)`: the first of the best.
pub winner : Individual → List Individual → Individual
winner best [] = best
winner best (x ∷ xs) = winner (if ltb x.cost best.cost then x else best) xs

-- The members of a tournament, drawn by their positions in the population.
pub contenders : List Individual → List ℕ → List Individual
contenders population [] = []
contenders population (i ∷ is) =
    let rest = contenders population is in
    elim (get_elem? population i) [ none ↦ rest | some x ↦ x ∷ rest ]

abbrev pub select_from : List Individual → List Individual
select_from [] = []
select_from (x ∷ xs) = individual (winner x xs).chromosome ∷ []

-- `random.sample(population, tournament_size)` raises a ValueError for fewer individuals; otherwise it
-- draws positions of the population.
abbrev pub can_sample : GaConfig → List Individual → Bool
can_sample config population = leb config.tournament_size (length population)

-- The tournaments of `random.sample`, where it does not raise.
pub tournament_selection : List Individual → List (List ℕ) → List Individual
tournament_selection population [] = []
tournament_selection population (drawn ∷ draws) =
    select_from (contenders population drawn) ++ tournament_selection population draws

-- The genes of a child; an empty place is dropped.
pub genes_of : List (Option ℕ) → List ℕ
genes_of [] = []
genes_of (none ∷ cs) = genes_of cs
genes_of (some g ∷ cs) = g ∷ genes_of cs

-- For each pair of parents the two cuts, or `none` if it is not crossed. A last parent without a
-- partner has no offspring.
pub cross : Option (ℕ × ℕ) → List ℕ → List ℕ → List Individual
cross none c1 c2 = individual c1 ∷ individual c2 ∷ []
cross (some (from, to)) c1 c2 =
    let (child1, child2) = order_crossover from to c1 c2 in
    individual (genes_of child1) ∷ individual (genes_of child2) ∷ []

pub crossover : List (Option (ℕ × ℕ)) → List Individual → List Individual
crossover cuts [] = []
crossover cuts (p ∷ []) = []
crossover [] (p ∷ q ∷ ps) = cross none p.chromosome q.chromosome ++ crossover [] ps
crossover (cut ∷ cuts) (p ∷ q ∷ ps) = cross cut p.chromosome q.chromosome ++ crossover cuts ps

pub mutate : List Mutation → List Individual → List Individual
mutate [] xs = xs
mutate (m ∷ ms) [] = []
mutate (m ∷ ms) (x ∷ xs) = record x { chromosome = mutate_chromosome m x.chromosome } ∷ mutate ms xs

-- `offspring[: n - elite_size]`, which counts from the end if it is negative.
abbrev pub slice_to : ℕ → ℕ → List Individual → List Individual
slice_to n elite xs = if leb elite n then take (n - elite) xs else take (length xs - (elite - n)) xs

pub record Draws : Type 0 where
  pub tournaments : List (List ℕ)
  pub cuts : List (Option (ℕ × ℕ))
  pub mutations : List Mutation

pub next_generation : GaConfig → Draws → List Individual → List Individual
next_generation config draws population =
    let parents = tournament_selection population draws.tournaments in
    let offspring = mutate draws.mutations (crossover draws.cuts parents) in
    take config.elite_size population ++ slice_to (length population) config.elite_size offspring

pub record Search : Type 0 where
  pub population : List Individual
  pub best_individual : Option Individual
  pub generations_without_improvement : ℕ

-- `best_fitness` is that of `best_individual`, and minus infinity before there is one.
abbrev pub is_better : ℕ → Option Individual → Bool
is_better cost none = true
is_better cost (some best) = ltb cost best.cost

pub track_best : Individual → Search → Search
track_best first s =
    if is_better first.cost s.best_individual
    then record s { best_individual = some first; generations_without_improvement = 0 }
    else record s { generations_without_improvement = s.generations_without_improvement + 1 }

module _ (d : ℕ → ℕ → ℕ) where
  -- The loop over the routes, which skips the empty ones.
  pub add_routes : List Job → List VehicleConfig → List (List ℕ) → ℕ → ℕ → ℕ × ℕ
  add_routes jobs vehicles [] distance violations = (distance, violations)
  add_routes jobs vehicles ([] ∷ rs) distance violations =
      add_routes jobs vehicles rs distance violations
  add_routes jobs vehicles ((x ∷ xs) ∷ rs) distance violations =
      add_routes jobs vehicles rs (distance + calculate_route_distance d (x ∷ xs)) (
        violations
        + check_capacity_violation jobs vehicles (x ∷ xs)
        + check_time_window_violations jobs (x ∷ xs))

  pub evaluate_fitness : GaConfig → List Job → List VehicleConfig → Individual → Individual
  evaluate_fitness config jobs vehicles x =
      let routes = split_into_routes jobs vehicles x.chromosome in
      let (distance, violations) = add_routes jobs vehicles routes 0 0 in
      record {
        chromosome = x.chromosome;
        cost = distance + violations * config.capacity_penalty;
        violations = violations;
        total_distance = distance;
        routes = routes;
      }

  module _ (config : GaConfig) (jobs : List Job) (vehicles : List VehicleConfig) where
    pub ranked : Search → List Individual
    ranked s = sort_by_fitness (map (evaluate_fitness config jobs vehicles) s.population)

    -- The generations, one for each entry of the draws. `none` is the IndexError of
    -- `population[0]` or the ValueError of `random.sample`.
    pub evolve : List Draws → Search → Option Search
    evolve [] s = some s
    evolve (draws ∷ more) s = elim (ranked s) [
      | [] ↦ none
      | first ∷ others ↦
          let t = track_best first s in
          let rest =
            evolve more (record t { population = next_generation config draws (first ∷ others) }) in
          if leb config.early_stop_generations t.generations_without_improvement
          then some (record t { population = first ∷ others })
          else if can_sample config (first ∷ others)
          then rest
          else none
    ]

-- `service_time_minutes or 15`
abbrev pub service_minutes : ℕ → ℕ
service_minutes zero = 15
service_minutes (suc m) = suc m

-- The steps of a route, from `current_time` on. An index that is out of range (an IndexError) adds
-- no step.
pub decode_steps : List Job → ℕ → List ℕ → List RouteStep
decode_steps jobs current_time [] = []
decode_steps jobs current_time (i ∷ is) = elim (get_elem? jobs i) [
  | none ↦ decode_steps jobs current_time is
  | some j ↦
      let departure = current_time + service_minutes j.location.service_time_minutes * 60 in
      record {
        job_id = some j.id;
        location = j.location;
        arrival_time = current_time;
        departure_time = departure;
        distance_from_previous_m = 0;
        duration_from_previous_s = 0;
        load_after = 0;
        step_type = job;
      }
      ∷ decode_steps jobs (departure + 900) is
]

abbrev pub work_start_of : Option VehicleConfig → ℕ
work_start_of none = 0
work_start_of (some v) = v.work_start.hour * 3600 + v.work_start.minute * 60

module _ (label : ℕ → String) (midnight : ℕ) where
  pub decode_route : List Job → Individual → ℕ → Option VehicleConfig → List ℕ → Route
  decode_route jobs best v_idx vehicle indices = record {
    vehicle_id = elim vehicle [ none ↦ none | some v ↦ some v.id ];
    vehicle_name = elim vehicle [ none ↦ label v_idx | some v ↦ v.name ];
    steps = decode_steps jobs (midnight + work_start_of vehicle) indices;
    total_distance_m = best.total_distance;
    total_duration_s = best.total_distance / 8330;
    total_load = sum_by (demand_at jobs) indices;
  }

  pub decode_routes : List Job → List VehicleConfig → Individual → ℕ → List (List ℕ) → List Route
  decode_routes jobs vehicles best v_idx [] = []
  decode_routes jobs vehicles best v_idx ([] ∷ rs) = decode_routes jobs vehicles best (suc v_idx) rs
  decode_routes jobs vehicles best v_idx ((x ∷ xs) ∷ rs) =
      decode_route jobs best v_idx (get_elem? vehicles v_idx) (x ∷ xs)
      ∷ decode_routes jobs vehicles best (suc v_idx) rs

  -- Distances stay in thousandths of the matrix's unit.
  pub decode_solution : Individual → RoutingProblem → SolutionResult
  decode_solution best p = record {
    routes = decode_routes p.jobs p.vehicles best 0 best.routes;
    unassigned_jobs = [];
    total_distance_m = best.total_distance;
    total_duration_s = best.total_distance / 8330;
    computation_time_ms = 0;
    solver_used = auto;
  }

  abbrev pub nothing_done : List ℕ → SolutionResult
  nothing_done unassigned = record {
    routes = [];
    unassigned_jobs = unassigned;
    total_distance_m = 0;
    total_duration_s = 0;
    computation_time_ms = 0;
    solver_used = auto;
  }

  abbrev pub finish : RoutingProblem → Search → SolutionResult
  finish p s = elim s.best_individual [
    | some best ↦ decode_solution best p
    | none ↦ nothing_done (map (λ (j : Job). j.id) p.jobs)
  ]

  abbrev pub start_search : List (List ℕ) → Search
  start_search shuffled = record {
    population = map individual shuffled;
    best_individual = none;
    generations_without_improvement = 0;
  }

  -- `shuffled` are the random permutations that the population starts with.
  pub solve :
      (ℕ → ℕ → ℕ) → GaConfig → List (List ℕ) → List Draws → RoutingProblem → Option SolutionResult
  solve d config shuffled draws p =
      if length p.jobs == 0
      then some (nothing_done [])
      else elim (evolve d config p.jobs p.vehicles (take config.generations draws)
          (start_search shuffled)) [ none ↦ none | some s ↦ some (finish p s) ]
