-- ===== src/Genetic/Tours/Searching.antt =====
-- The generations of `solve_tsp` and the route that they end with.
use sfa_routing.Prelude.{
  ℕ, ◌≤◌, ◌<◌, ◌≡◌, refl, sym, ap, ◌∙◌, subst, true, false, Option, none, some, List, [], ◌∷◌, map,
  length, range, Perm, arith, All, ◌⊎◌, Bool-cases, List-cases, inl, inr, length-map,
}
use sfa_routing.TwoOpt.{calculate_route_distance}
use sfa_routing.Genetic.{GaConfig, Individual}
use sfa_routing.Genetic.Evolve.{sort_by_fitness, Draws, can_sample, next_generation}
use sfa_routing.Genetic.Evolve.Progress.{
  IsPermutation, AreDraws, next_generation-IsPermutation, All-sort_by_fitness, IsCheapest,
  sort_by_fitness-IsCheapest,
}
use sfa_routing.Genetic.Evolve.Improving.{
  length-sort_by_fitness, next_generation-nonempty, next_generation-le, sort_by_fitness-All,
  map-All, All-improves,
}
use sfa_routing.Genetic.Tours.{TourSearch, is_shorter, keep_best, measure, evolve_tours}

-- The second distance is at most the first; `none` is infinity.
abbrev NotWorse : Option ℕ → Option ℕ → Type 0
NotWorse none o = Unit {0}
NotWorse (some b) none = ⊥
NotWorse (some b) (some c) = c ≤ b

NotWorse-refl : (o : Option ℕ) → NotWorse o o
NotWorse-refl none = tt
NotWorse-refl (some b) = omega arith

NotWorse-trans : (a b c : Option ℕ) → NotWorse a b → NotWorse b c → NotWorse a c
NotWorse-trans none b c h k = tt
NotWorse-trans (some a) none c h k = absurd h
NotWorse-trans (some a) (some b) none h k = absurd k
NotWorse-trans (some a) (some b) (some c) h k = omega arith

module _ (d : ℕ → ℕ → ℕ) (n : ℕ) where
  -- A measured permutation of the locations.
  abbrev IsMeasured : Individual → Type 0
  IsMeasured x =
      IsPermutation n x
      × (x.total_distance ≡ calculate_route_distance d x.chromosome)
      × (x.cost ≡ calculate_route_distance d x.chromosome)

  abbrev pub IsDistance : TourSearch → Type 0
  IsDistance s =
      (s.best_distance ≡ none) ⊎ (s.best_distance ≡ some (calculate_route_distance d s.best_route))

  All-measure :
      (xs : List Individual) → All (IsPermutation n) xs → All IsMeasured (map (measure d) xs)
  unfolding measure
  All-measure [] h = tt
  All-measure (x ∷ xs) h = ((h.0, refl, refl), All-measure xs (h.1))

  All-forget : (xs : List Individual) → All IsMeasured xs → All (IsPermutation n) xs
  All-forget [] h = tt
  All-forget (x ∷ xs) h = (h.0.0, All-forget xs (h.1))

  -- What a round does with the first of the ranking.
  record Kept (first : Individual) (s : TourSearch) : Type 0 where
    route : Perm (keep_best first s).best_route (range 0 n)
    distance : IsDistance (keep_best first s)
    no_worse : NotWorse s.best_distance (keep_best first s).best_distance
    below_first : NotWorse (some first.total_distance) (keep_best first s).best_distance

  longer : (x : ℕ) (o : Option ℕ) → is_shorter x o ≡ false → NotWorse (some x) o
  longer x none h = cc
  longer x (some b) h = ground arith

  shorter : (x : ℕ) (o : Option ℕ) → is_shorter x o ≡ true → NotWorse o (some x)
  shorter x none h = tt
  shorter x (some b) h = ground arith

  keep_best-Kept :
      (first : Individual) (s : TourSearch)
      → IsMeasured first
      → Perm s.best_route (range 0 n)
      → IsDistance s
      → Kept first s
  unfolding keep_best
  keep_best-Kept first s m p e =
      elim (Bool-cases (is_shorter first.total_distance s.best_distance)) [
        | inl less ↦ record {
          route = rw less m.0;
          distance = rw less (inr (ap some m.1));
          no_worse = rw less (shorter first.total_distance s.best_distance less);
          below_first = rw less (omega arith);
        }
        | inr more ↦ record {
          route = rw more p;
          distance = rw more e;
          no_worse = rw more (NotWorse-refl s.best_distance);
          below_first = rw more (longer first.total_distance s.best_distance more);
        }
      ]

  record Found (s : TourSearch) (result : Option TourSearch) : Type 0 where
    last : TourSearch
    returns : result ≡ some last
    route : Perm last.best_route (range 0 n)
    distance : IsDistance last
    no_worse : NotWorse s.best_distance last.best_distance

  pub record Starts (config : GaConfig) (draws : List Draws) (s : TourSearch) : Type 0 where
    pub drawn : All (AreDraws n) draws
    pub nonempty : 0 < length s.population
    pub sampled : config.tournament_size ≤ length s.population
    pub permutations : All (IsPermutation n) s.population
    pub route : Perm s.best_route (range 0 n)
    pub distance : IsDistance s

  ranked_parts :
      (s : TourSearch)
      → 0 < length s.population
      → (first : Individual) × (others : List Individual) × (sort_by_fitness
            (map (measure d) s.population)
          ≡ first ∷ others)
  ranked_parts s k = elim (List-cases (sort_by_fitness (map (measure d) s.population))) [
    | inl empty ↦ absurd (
        omega (
          arith,
          length-sort_by_fitness (map (measure d) s.population),
          length-map s.population (measure d),
          ap (length {A = Individual}) empty,
        ))
    | inr parts ↦ parts
  ]

  module _ (config : GaConfig) (elite : 0 < config.elite_size)
      (tournament : config.tournament_size ≤ config.elite_size) where
    abbrev next : Draws → Individual → List Individual → TourSearch → TourSearch
    next draws first others s = record (keep_best first s) {
      population = next_generation config draws (first ∷ others);
    }

    evolve_tours-cons :
        (draws : Draws) (more : List Draws) (s : TourSearch) (first : Individual)
        (others : List Individual)
        → sort_by_fitness (map (measure d) s.population) ≡ first ∷ others
        → can_sample config (first ∷ others) ≡ true
        → evolve_tours d config (draws ∷ more) s
          ≡ evolve_tours d config more (next draws first others s)
    unfolding evolve_tours
    evolve_tours-cons draws more s first others e k = rw (e, evolve_tours, k)

    -- A round, when what the later ones do is known.
    round :
        (draws : Draws) (more : List Draws) (s : TourSearch)
        → Starts config (draws ∷ more) s
        → ((t : TourSearch) → Starts config more t → Found t (evolve_tours d config more t))
        → (first : Individual) × (others : List Individual) × (sort_by_fitness
              (map (measure d) s.population)
            ≡ first ∷ others)
          × IsMeasured first
          × Kept first s
          × Found (next draws first others s) (evolve_tours d config (draws ∷ more) s)
    round draws more s h go_on =
        let (first, others, q) = ranked_parts s h.nonempty in
        let all : All IsMeasured (first ∷ others) = subst (All IsMeasured) q (
          All-sort_by_fitness IsMeasured (map (measure d) s.population)
            (All-measure s.population h.permutations)) in
        let size : length (first ∷ others) ≡ length s.population =
          ap (length {A = Individual}) (sym q)
          ∙ (length-sort_by_fitness (map (measure d) s.population)
              ∙ length-map s.population (measure d)) in
        let kept = keep_best-Kept first s (all.0) h.route h.distance in
        let starts : Starts config more (next draws first others s) = record {
          drawn = h.drawn.1;
          nonempty = next_generation-nonempty config draws first others elite;
          sampled =
              next_generation-le config draws (first ∷ others) tournament
                (omega (arith, h.sampled, size));
          permutations =
              next_generation-IsPermutation n config draws (first ∷ others) h.drawn.0
                (All-forget (first ∷ others) all);
          route = kept.route;
          distance = kept.distance;
        } in
        (
          first,
          others,
          q,
          all.0,
          kept,
          rw (evolve_tours-cons draws more s first others q (ground (arith, h.sampled, size)))
              (go_on (next draws first others s) starts),
        )

    evolve_tours-Found :
        (draws : List Draws) (s : TourSearch)
        → Starts config draws s
        → Found s (evolve_tours d config draws s)
    unfolding evolve_tours
    evolve_tours-Found [] s h = record {
      last = s;
      returns = refl;
      route = h.route;
      distance = h.distance;
      no_worse = NotWorse-refl s.best_distance;
    }
    evolve_tours-Found (draws ∷ more) s h =
        let (first, others, q, m, kept, rest) = round draws more s h (evolve_tours-Found more) in
        record {
          last = rest.last;
          returns = rest.returns;
          route = rest.route;
          distance = rest.distance;
          no_worse =
              NotWorse-trans s.best_distance (keep_best first s).best_distance
                rest.last.best_distance kept.no_worse rest.no_worse;
        }

    first-cheapest :
        (s : TourSearch) (first : Individual) (others : List Individual)
        → sort_by_fitness (map (measure d) s.population) ≡ first ∷ others
        → All (λ x. first.cost ≤ (measure d x).cost) s.population
    first-cheapest s first others q =
        let all : All (λ y. first.cost ≤ y.cost) (first ∷ others) = (
          omega arith,
          subst IsCheapest q (sort_by_fitness-IsCheapest (map (measure d) s.population)),
        ) in
        map-All (λ y. first.cost ≤ y.cost) (measure d) s.population
          (sort_by_fitness-All (λ y. first.cost ≤ y.cost) (map (measure d) s.population)
            (subst (All (λ y. first.cost ≤ y.cost)) (sym q) all))

    -- The route that a search with at least one generation ends with.
    pub record IsShortest (s : TourSearch) (result : Option TourSearch) : Type 0 where
      pub last : TourSearch
      pub returns : result ≡ some last
      pub route : Perm last.best_route (range 0 n)
      pub shortest :
          All (λ x. calculate_route_distance d last.best_route ≤ (measure d x).cost) s.population

    known : (a c : ℕ) (o : Option ℕ) → (o ≡ none) ⊎ (o ≡ some c) → NotWorse (some a) o → c ≤ a
    known a c none e h = absurd h
    known a c (some b) (inl e) h = cc
    known a c (some b) (inr e) h = ground arith

    pub evolve_tours-IsShortest :
        (draws : Draws) (more : List Draws) (s : TourSearch)
        → Starts config (draws ∷ more) s
        → IsShortest s (evolve_tours d config (draws ∷ more) s)
    evolve_tours-IsShortest draws more s h =
        let (first, others, q, m, kept, rest) = round draws more s h (evolve_tours-Found more) in
        let below =
          known first.total_distance (calculate_route_distance d rest.last.best_route)
            rest.last.best_distance rest.distance
            (NotWorse-trans (some first.total_distance) (keep_best first s).best_distance
              rest.last.best_distance kept.below_first rest.no_worse) in
        record {
          last = rest.last;
          returns = rest.returns;
          route = rest.route;
          shortest =
              All-improves (λ x. (measure d x).cost) first.cost
                (calculate_route_distance d rest.last.best_route) s.population
                (omega (arith, m.1, m.2)) (first-cheapest s first others q);
        }
