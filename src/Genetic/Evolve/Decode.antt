-- ===== src/Genetic/Evolve/Decode.antt =====
-- `_decode_solution`, and the whole of `solve`.
use mathlib.Core.List.Perm
use mathlib.Core.List.{filter_map, filter_map-append, filter_map-cons-none, filter_map-cons-some}
use mathlib.Core.Option
use sfa_routing.Prelude.{
  range, ℕ, suc, ◌+◌, ◌*◌, ◌≤◌, ◌<◌, ◌≡◌, refl, sym, ap, ◌∙◌, subst, false, Option, none, some,
  List, [], ◌∷◌, map, Perm, arith, length, inl, inr, Option-cases, All, get_elem?, String, take,
  length-map, ◌==◌,
}
use sfa_routing.Prelude.Perms.{sum_by}
use sfa_routing.Problem.{Job, VehicleConfig, Route, SolutionResult, RoutingProblem}
use sfa_routing.Greedy.Routes.{served}
use sfa_routing.Greedy.Solve.{all_served}
use sfa_routing.Genetic.{GaConfig, Individual, individual}
use sfa_routing.Genetic.Split.{all_jobs, split_into_routes-IsSplit}
use sfa_routing.Genetic.Evolve.{
  Draws, evaluate_fitness, evolve, decode_steps, decode_route, decode_routes, decode_solution,
  start_search, solve, finish, service_minutes, work_start_of,
}
use sfa_routing.Genetic.Evolve.Progress.{IsPermutation, AreDraws}
use sfa_routing.Genetic.Evolve.Best.{IsBest, evolve-IsBest}

-- The identifier of the job at an index.
abbrev id_at : List Job → ℕ → Option ℕ
id_at jobs i = Option.map (λ (j : Job). j.id) (get_elem? jobs i)

abbrev ids_at : List Job → List ℕ → List ℕ
ids_at jobs is = filter_map (id_at jobs) is

ids_at-nil : (jobs : List Job) → ids_at jobs [] ≡ []
unfolding filter_map
ids_at-nil jobs = refl

ids_at-none :
    (jobs : List Job) (i : ℕ) (is : List ℕ)
    → get_elem? jobs i ≡ none
    → ids_at jobs (i ∷ is) ≡ ids_at jobs is
ids_at-none jobs i is e =
    filter_map-cons-none (id_at jobs) i is (ap (Option.map (λ (j : Job). j.id)) e)

ids_at-some :
    (jobs : List Job) (i : ℕ) (is : List ℕ) (j : Job)
    → get_elem? jobs i ≡ some j
    → ids_at jobs (i ∷ is) ≡ j.id ∷ ids_at jobs is
ids_at-some jobs i is j e =
    filter_map-cons-some (id_at jobs) i is (ap (Option.map (λ (j : Job). j.id)) e)

served-decode_steps :
    (jobs : List Job) (now : ℕ) (is : List ℕ) → served (decode_steps jobs now is) ≡ ids_at jobs is
unfolding decode_steps
served-decode_steps jobs now [] = sym (ids_at-nil jobs)
served-decode_steps jobs now (i ∷ is) = elim (Option-cases (get_elem? jobs i)) [
  | inl e ↦ rw (e, decode_steps) (served-decode_steps jobs now is ∙ sym (ids_at-none jobs i is e))
  | inr (j, e) ↦
      let later : ℕ = now + service_minutes j.location.service_time_minutes * 60 + 900 in
      rw (e, decode_steps)
        (ap (λ l. j.id ∷ l) (served-decode_steps jobs later is) ∙ sym (ids_at-some jobs i is j e))
]

-- From index `i` on, where `jobs` is what stands there.
ids_at-range :
    (jobs suffix : List Job) (i : ℕ)
    → ((k : ℕ) → get_elem? jobs (i + k) ≡ get_elem? suffix k)
    → ids_at jobs (range i (length suffix)) ≡ map (λ (j : Job). j.id) suffix
ids_at-range jobs [] i h = ids_at-nil jobs
ids_at-range jobs (j ∷ suffix) i h =
    ids_at-some jobs i (range (suc i) (length suffix)) j (here ∙ h 0)
    ∙ ap (λ l. j.id ∷ l) (ids_at-range jobs suffix (suc i) later)
  where
    here : get_elem? jobs i ≡ get_elem? jobs (i + 0)
    here = ap (get_elem? jobs) (omega arith)

    later : (k : ℕ) → get_elem? jobs (suc i + k) ≡ get_elem? suffix k
    later k =
        let shift : suc i + k ≡ i + suc k = omega arith in ap (get_elem? jobs) shift ∙ h (suc k)

module _ (label : ℕ → String) (midnight : ℕ) (jobs : List Job) (vehicles : List VehicleConfig)
    (best : Individual) where
  all_served-decode_routes :
      (k : ℕ) (routes : List (List ℕ))
      → all_served (decode_routes label midnight jobs vehicles best k routes)
        ≡ ids_at jobs (all_jobs routes)
  unfolding decode_routes decode_route
  all_served-decode_routes k [] = sym (ids_at-nil jobs)
  all_served-decode_routes k ([] ∷ rs) = all_served-decode_routes (suc k) rs
  all_served-decode_routes k ((x ∷ xs) ∷ rs) =
      rw
        (
          served-decode_steps jobs (midnight + work_start_of (get_elem? vehicles k)) (x ∷ xs),
          all_served-decode_routes (suc k) rs,
        )
        (sym (filter_map-append (id_at jobs) (x ∷ xs) (all_jobs rs)))

  -- Every route gets the distance of the whole solution.
  decode_routes-distances :
      (k : ℕ) (routes : List (List ℕ))
      → sum_by
          (λ (r : Route). r.total_distance_m)
          (decode_routes label midnight jobs vehicles best k routes)
        ≡ length (decode_routes label midnight jobs vehicles best k routes) * best.total_distance
  unfolding decode_routes decode_route
  decode_routes-distances k [] = omega arith
  decode_routes-distances k ([] ∷ rs) = decode_routes-distances (suc k) rs
  decode_routes-distances k ((x ∷ xs) ∷ rs) = grind (arith, decode_routes-distances (suc k) rs)

-- The solution serves every job exactly once and leaves none over.
pub record IsServed (p : RoutingProblem) (best : Individual) (s : SolutionResult) : Type 0 where
  pub served_once : Perm (all_served s.routes) (map (λ j. j.id) p.jobs)
  pub none_left : s.unassigned_jobs ≡ []
  pub distance : s.total_distance_m ≡ best.total_distance

module _ (label : ℕ → String) (midnight : ℕ) (d : ℕ → ℕ → ℕ) (config : GaConfig) where
  decode_solution-IsServed :
      (p : RoutingProblem) (best : Individual)
      → IsPermutation (length p.jobs) best
      → evaluate_fitness d config p.jobs p.vehicles best ≡ best
      → IsServed p best (decode_solution label midnight best p)
  unfolding decode_solution evaluate_fitness
  decode_solution-IsServed p best perm evaluated = record {
    served_once =
        subst (λ l. Perm l (map (λ j. j.id) p.jobs))
          (sym (all_served-decode_routes label midnight p.jobs p.vehicles best 0 best.routes)) ids;
    none_left = refl;
    distance = refl;
  }
    where
      split : Perm (all_jobs best.routes) best.chromosome
      split =
          subst (λ rs. Perm (all_jobs rs) best.chromosome)
            (ap (λ (x : Individual). x.routes) evaluated)
            (split_into_routes-IsSplit p.jobs p.vehicles best.chromosome).perm

      ids : Perm (ids_at p.jobs (all_jobs best.routes)) (map (λ j. j.id) p.jobs)
      ids =
          subst (Perm (ids_at p.jobs (all_jobs best.routes)))
            (ids_at-range p.jobs p.jobs 0 (λ k. ap (get_elem? p.jobs) (omega arith)))
            (Perm.filter_map (id_at p.jobs) (Perm.trans split perm))

  -- What `solve` promises: a solution that serves every job and is decoded from an individual, a
  -- permutation of the jobs with its own evaluation, that costs at most as much as each of the
  -- permutations that the population started with.
  pub record IsSolved (p : RoutingProblem) (shuffled : List (List ℕ))
      (result : Option SolutionResult) : Type 0 where
    pub solution : SolutionResult
    pub returns : result ≡ some solution
    pub best : Individual
    pub permutation : IsPermutation (length p.jobs) best
    pub evaluated : evaluate_fitness d config p.jobs p.vehicles best ≡ best
    pub decoded : solution ≡ decode_solution label midnight best p
    pub served_all : IsServed p best solution
    pub cheapest :
        All
          (λ c. best.cost ≤ (evaluate_fitness d config p.jobs p.vehicles (individual c)).cost)
          shuffled

  All-individuals :
      (n : ℕ) (shuffled : List (List ℕ))
      → All (λ c. Perm c (range 0 n)) shuffled
      → All (IsPermutation n) (map individual shuffled)
  unfolding individual
  All-individuals n [] h = tt
  All-individuals n (c ∷ cs) h = (h.0, All-individuals n cs (h.1))

  individuals-All :
      (P : Individual → Type 0) (shuffled : List (List ℕ))
      → All P (map individual shuffled)
      → All (λ c. P (individual c)) shuffled
  individuals-All P [] h = tt
  individuals-All P (c ∷ cs) h = (h.0, individuals-All P cs (h.1))

  solved_by :
      (p : RoutingProblem) (shuffled : List (List ℕ)) (draws : List Draws)
      → 0 < config.elite_size
      → config.tournament_size ≤ config.elite_size
      → config.tournament_size ≤ length shuffled
      → 0 < length draws
      → All (AreDraws (length p.jobs)) draws
      → 0 < length shuffled
      → All (λ c. Perm c (range 0 (length p.jobs))) shuffled
      → IsBest d config p.jobs p.vehicles
          (length p.jobs)
          (map individual shuffled)
          (evolve d config p.jobs p.vehicles draws (start_search label midnight shuffled))
  solved_by p shuffled [] elite tournament sampled some_draws drawn some_chromosome permutations =
      absurd (omega arith)
  solved_by p shuffled (first ∷ more) elite tournament sampled some_draws drawn some_chromosome
        permutations =
      evolve-IsBest d config p.jobs p.vehicles (length p.jobs) first more
        (start_search label midnight shuffled) elite tournament
        (omega (arith, length-map shuffled individual)) drawn
        (omega (arith, length-map shuffled individual))
        (All-individuals (length p.jobs) shuffled permutations) refl

  -- With a job, a generation, an elite and a population that are not empty and enough for a
  -- tournament, a population of permutations of the jobs, and draws inside the chromosomes, `solve` returns a
  -- solution that serves every job exactly once and leaves none over; it is decoded from an individual,
  -- a permutation of the jobs with its own evaluation, that costs at most as much as each of the
  -- starting permutations.
  pub solve-IsSolved :
      (p : RoutingProblem) (shuffled : List (List ℕ)) (draws : List Draws)
      → 0 < length p.jobs
      → 0 < config.elite_size
      → config.tournament_size ≤ config.elite_size
      → config.tournament_size ≤ length shuffled
      → 0 < length (take config.generations draws)
      → All (AreDraws (length p.jobs)) (take config.generations draws)
      → 0 < length shuffled
      → All (λ c. Perm c (range 0 (length p.jobs))) shuffled
      → IsSolved p shuffled (solve label midnight d config shuffled draws p)
  unfolding solve
  solve-IsSolved p shuffled draws some_job elite tournament sampled some_draws drawn some_chromosome
        permutations =
      let b =
        solved_by p shuffled (take config.generations draws) elite tournament sampled some_draws
          drawn some_chromosome permutations in
      let any : length p.jobs == 0 ≡ false = ground arith in
      record {
        solution = decode_solution label midnight b.best p;
        returns =
            rw (any, b.returns) (ap (λ (s : SolutionResult). some s) (rw (b.found, finish) refl));
        best = b.best;
        permutation = b.permutation;
        evaluated = b.evaluated;
        decoded = refl;
        served_all = decode_solution-IsServed p b.best b.permutation b.evaluated;
        cheapest =
            individuals-All
              (λ x. b.best.cost ≤ (evaluate_fitness d config p.jobs p.vehicles x).cost) shuffled
              b.cheapest;
      }

-- Every route is given the distance of the whole solution, so the distances of the routes add up to
-- the total as often as there are routes.
pub decode_solution-distances :
    (label : ℕ → String) (midnight : ℕ) (p : RoutingProblem) (best : Individual)
    → let s = decode_solution label midnight best p in
      sum_by (λ (r : Route). r.total_distance_m) s.routes ≡ length s.routes * s.total_distance_m
unfolding decode_solution
decode_solution-distances label midnight p best =
    decode_routes-distances label midnight p.jobs p.vehicles best 0 best.routes
