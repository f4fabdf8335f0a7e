-- ===== src/Genetic/Tours/Cycles.antt =====
-- The tour of the genetic solver.
use mathlib.Core.List.Perm
use sfa_routing.Prelude.{
  ℕ, zero, suc, ◌-◌, ◌≤◌, ◌<◌, ◌≡◌, refl, ap, ◌∙◌, Bool, true, false, Option, some, List, [], ◌∷◌,
  map, leb, length, take, range, length-range, min, Perm, arith, All, All-take, inl, length-map,
}
use sfa_routing.Prelude.Perms.{length-perm}
use sfa_routing.TwoOpt.{calculate_route_distance}
use sfa_routing.TwoOpt.Swap.{at-last_snoc}
use sfa_routing.Tour.Visits.{IsTour, at-append_first}
use sfa_routing.Genetic.{GaConfig, individual}
use sfa_routing.Genetic.Evolve.{Draws}
use sfa_routing.Genetic.Evolve.Progress.{IsPermutation, AreDraws}
use sfa_routing.Genetic.Tours.Rotation.{start_first-perm, start_first-at}
use sfa_routing.Genetic.Tours.Searching.{Starts, evolve_tours-IsShortest}
use sfa_routing.Genetic.Tours.{start_first, close_route, measure, first_search, solve_tsp}

take-cons : (m : ℕ) (x : Draws) (xs : List Draws) → 0 < m → take m (x ∷ xs) ≡ x ∷ take (m - 1) xs
take-cons zero x xs h = absurd (omega arith)
take-cons (suc m) x xs h = ap (λ k. x ∷ take k xs) (omega arith)

abbrev pub AreShuffled : ℕ → List (List ℕ) → Type 0
AreShuffled n = All (λ (c : List ℕ). Perm c (range 0 n))

All-individual :
    (n : ℕ) (shuffled : List (List ℕ))
    → AreShuffled n shuffled
    → All (IsPermutation n) (map individual shuffled)
unfolding individual
All-individual n [] h = tt
All-individual n (c ∷ cs) h = (h.0, All-individual n cs (h.1))

close_route-IsTour :
    (d : ℕ → ℕ → ℕ) (n start : ℕ) (return_to_start : Bool) (best : List ℕ)
    → 2 < n
    → start < n
    → Perm best (range 0 n)
    → IsTour d n start return_to_start (close_route return_to_start (start_first start best))
close_route-IsTour d n start false best h k p = record {
  nodes = Perm.trans (start_first-perm start best) p;
  first = start_first-at n start best p k;
  last = λ e. cc;
}
close_route-IsTour d n start true best h k p =
    let q = Perm.trans (start_first-perm start best) p in
    let head = start_first-at n start best p k in
    rw head (record {
      nodes = Perm.append_right (start ∷ []) q;
      first =
          at-append_first (start_first start best) (start ∷ [])
            (omega (arith, length-perm q, length-range 0 n))
          ∙ head;
      last = λ _. at-last_snoc (start_first start best) start;
    })

module _ (d : ℕ → ℕ → ℕ) (n start : ℕ) (return_to_start : Bool) where
  -- The result is made from a route that is at most as long as the shuffled ones, before it is turned
  -- to its start and closed; and it is a tour.
  pub record IsCycle (shuffled : List (List ℕ)) (result : Option (List ℕ)) : Type 0 where
    pub best : List ℕ
    pub returns : result ≡ some (close_route return_to_start (start_first start best))
    pub tour :
        IsTour d n start return_to_start (close_route return_to_start (start_first start best))
    pub shortest :
        All
          (λ (c : List ℕ). calculate_route_distance d best ≤ calculate_route_distance d c)
          shuffled

  forget-individual :
      (best : List ℕ) (shuffled : List (List ℕ))
      → All (λ x. calculate_route_distance d best ≤ (measure d x).cost) (map individual shuffled)
      → All
          (λ (c : List ℕ). calculate_route_distance d best ≤ calculate_route_distance d c)
          shuffled
  unfolding measure individual
  forget-individual best [] h = tt
  forget-individual best (c ∷ cs) h = (h.0, forget-individual best cs (h.1))

  -- For more than two locations, a start among them, at least one generation, an elite and a population
  -- that are not empty and enough for a tournament of `random.sample`, a population of
  -- permutations, and draws inside the chromosomes, the solver returns
  -- a tour: every location is on it once (the start once more at the end if it is closed), and it begins
  -- at the start and, if it is closed, ends there. It is made, by turning and closing, from an open route
  -- that is at most as long as each of the permutations of the first population.
  pub solve_tsp-IsCycle :
      (config : GaConfig) (shuffled : List (List ℕ)) (draws : Draws) (more : List Draws)
      → 2 < n
      → start < n
      → 0 < config.elite_size
      → config.tournament_size ≤ config.elite_size
      → config.tournament_size ≤ length shuffled
      → 0 < config.generations
      → All (AreDraws n) (draws ∷ more)
      → 0 < length shuffled
      → AreShuffled n shuffled
      → IsCycle shuffled (solve_tsp d config shuffled (draws ∷ more) n start return_to_start)
  unfolding solve_tsp
  solve_tsp-IsCycle config shuffled draws more large inside elite tournament sampled some_generation
        drawn some_route permutations =
      let big : leb n 2 ≡ false = ground arith in
      let kept = min config.generations 200 - 1 in
      let starts : Starts d n config (draws ∷ take kept more) (first_search d n shuffled) = record {
        drawn = (drawn.0, All-take (AreDraws n) kept more drawn.1);
        nonempty = omega (arith, length-map shuffled individual);
        sampled = omega (arith, length-map shuffled individual);
        permutations = All-individual n shuffled permutations;
        route = Perm.refl (range 0 n);
        distance = inl refl;
      } in
      let found =
        evolve_tours-IsShortest d n config elite tournament draws (take kept more)
          (first_search d n shuffled) starts in
      rw (big, take-cons (min config.generations 200) draws more (omega arith), found.returns)
        (record {
          best = found.last.best_route;
          returns = refl;
          tour =
              close_route-IsTour d n start return_to_start found.last.best_route large inside
                found.route;
          shortest = forget-individual found.last.best_route shuffled found.shortest;
        })
