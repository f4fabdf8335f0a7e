-- ===== src/Genetic/Evolve/Best.antt =====
-- The loop of the generations and the individual that it ends with.
use sfa_routing.Prelude.{
  List-cases, ℕ, ◌≤◌, ◌<◌, ◌≡◌, refl, sym, ap, ◌∙◌, subst, Bool, true, false, Option, none, some,
  List, [], ◌∷◌, map, arith, length, leb, inl, inr, Bool-cases, All, if◌then◌else◌, length-map,
}
use sfa_routing.Problem.{Job, VehicleConfig}
use sfa_routing.Genetic.{GaConfig, Individual}
use sfa_routing.Genetic.Evolve.{
  Draws, can_sample, next_generation, Search, is_better, track_best, evaluate_fitness, ranked,
  evolve,
}
use sfa_routing.Genetic.Evolve.Progress.{
  IsPermutation, AreDraws, next_generation-IsPermutation, All-sort_by_fitness, IsCheapest,
  sort_by_fitness-IsCheapest,
}
use sfa_routing.Genetic.Evolve.Improving.{
  Improves, Improves-trans, Improves-refl, length-sort_by_fitness, sort_by_fitness-All, better_of,
  track_best-better_of, track_best-Improves, next_generation-nonempty, next_generation-le, map-All,
  All-improves,
}

module _ (d : ℕ → ℕ → ℕ) (config : GaConfig) (jobs : List Job) (vehicles : List VehicleConfig)
    (n : ℕ) where
  -- An evaluated permutation of the jobs.
  abbrev pub IsCandidate : Individual → Type 0
  IsCandidate b = IsPermutation n b × (evaluate_fitness d config jobs vehicles b ≡ b)

  abbrev pub IsCandidate? : Option Individual → Type 0
  IsCandidate? none = Unit {0}
  IsCandidate? (some b) = IsCandidate b

  evaluate_fitness_twice :
      (x : Individual)
      → evaluate_fitness d config jobs vehicles (evaluate_fitness d config jobs vehicles x)
        ≡ evaluate_fitness d config jobs vehicles x
  unfolding evaluate_fitness
  evaluate_fitness_twice x = refl

  evaluate_fitness-IsPermutation :
      (x : Individual)
      → IsPermutation n x
      → IsPermutation n (evaluate_fitness d config jobs vehicles x)
  unfolding evaluate_fitness
  evaluate_fitness-IsPermutation x h = h

  All-evaluated :
      (xs : List Individual)
      → All (IsPermutation n) xs
      → All IsCandidate (map (evaluate_fitness d config jobs vehicles) xs)
  All-evaluated [] h = tt
  All-evaluated (x ∷ xs) h =
      ((evaluate_fitness-IsPermutation x (h.0), evaluate_fitness_twice x), All-evaluated xs (h.1))

  candidates-IsPermutation : (xs : List Individual) → All IsCandidate xs → All (IsPermutation n) xs
  candidates-IsPermutation [] h = tt
  candidates-IsPermutation (x ∷ xs) h = (h.0.0, candidates-IsPermutation xs (h.1))

  ranked-IsCandidate :
      (s : Search)
      → All (IsPermutation n) s.population
      → All IsCandidate (ranked d config jobs vehicles s)
  unfolding ranked
  ranked-IsCandidate s h =
      All-sort_by_fitness IsCandidate (map (evaluate_fitness d config jobs vehicles) s.population)
        (All-evaluated s.population h)

  length-ranked : (s : Search) → length (ranked d config jobs vehicles s) ≡ length s.population
  unfolding ranked
  length-ranked s =
      length-sort_by_fitness (map (evaluate_fitness d config jobs vehicles) s.population)
      ∙ length-map s.population (evaluate_fitness d config jobs vehicles)

  better_of-IsCandidate :
      (first : Individual) (o : Option Individual) (b : Bool)
      → IsCandidate first
      → IsCandidate? o
      → IsCandidate? (better_of first o b)
  better_of-IsCandidate first o true h k = h
  better_of-IsCandidate first o false h k = k

  track_best-IsCandidate :
      (first : Individual) (s : Search)
      → IsCandidate first
      → IsCandidate? s.best_individual
      → IsCandidate? (track_best first s).best_individual
  track_best-IsCandidate first s h k =
      rw (track_best-better_of first s)
        (better_of-IsCandidate first s.best_individual (is_better first.cost s.best_individual) h k)

  abbrev next_search : Draws → Individual → List Individual → Search → Search
  next_search draws first others s = record (track_best first s) {
    population = next_generation config draws (first ∷ others);
  }

  evolve-cons :
      (draws : Draws) (more : List Draws) (s : Search) {first : Individual}
      {others : List Individual}
      → ranked d config jobs vehicles s ≡ first ∷ others
      → can_sample config (first ∷ others) ≡ true
      → evolve d config jobs vehicles (draws ∷ more) s ≡ (
          if leb config.early_stop_generations (track_best first s).generations_without_improvement
          then some (record (track_best first s) { population = first ∷ others })
          else evolve d config jobs vehicles more (next_search draws first others s))
  unfolding evolve
  evolve-cons draws more s e k = rw (e, evolve, k)

  -- The loop neither stops with an IndexError nor loses the best individual.
  record Evolved (s : Search) (result : Option Search) : Type 0 where
    last : Search
    returns : result ≡ some last
    candidate : IsCandidate? last.best_individual
    improves : Improves s.best_individual last.best_individual

  -- One generation, when the rest of the loop is known.
  record EvolvedFrom (s : Search) (first : Individual) (result : Option Search) : Type 0 where
    evolved : Evolved s result
    beats_first : Improves (some first) evolved.last.best_individual

  evolve_step :
      (draws : Draws) (more : List Draws) (s : Search) (first : Individual)
      (others : List Individual)
      → ranked d config jobs vehicles s ≡ first ∷ others
      → can_sample config (first ∷ others) ≡ true
      → IsCandidate first
      → IsCandidate? s.best_individual
      → Evolved
          (next_search draws first others s)
          (evolve d config jobs vehicles more (next_search draws first others s))
      → EvolvedFrom s first (evolve d config jobs vehicles (draws ∷ more) s)
  evolve_step draws more s first others q sampled cand b rest =
      let t = track_best first s in
      let (better, cheapest) = track_best-Improves first s in
      let enough = leb config.early_stop_generations t.generations_without_improvement in
      elim (Bool-cases enough) [
        | inl stop ↦ record {
          evolved = record {
            last = record t { population = first ∷ others };
            returns = evolve-cons draws more s q sampled ∙ rw stop refl;
            candidate = track_best-IsCandidate first s cand b;
            improves = better;
          };
          beats_first = cheapest;
        }
        | inr go_on ↦ record {
          evolved = record {
            last = rest.last;
            returns = evolve-cons draws more s q sampled ∙ (rw go_on (rest.returns));
            candidate = rest.candidate;
            improves =
                Improves-trans s.best_individual t.best_individual rest.last.best_individual better
                  rest.improves;
          };
          beats_first =
              Improves-trans (some first) t.best_individual rest.last.best_individual cheapest
                rest.improves;
        }
      ]

  ranked_parts :
      (s : Search)
      → 0 < length s.population
      → (first : Individual) × (others : List Individual) × (ranked d config jobs vehicles s
          ≡ first ∷ others)
  ranked_parts s k = elim (List-cases (ranked d config jobs vehicles s)) [
    | inl empty ↦ absurd (omega (arith, length-ranked s, ap (length {A = Individual}) empty))
    | inr parts ↦ parts
  ]

  -- What a run needs: draws inside the chromosomes, and a population of permutations.
  record Starts (draws : List Draws) (s : Search) : Type 0 where
    drawn : All (AreDraws n) draws
    nonempty : 0 < length s.population
    sampled : config.tournament_size ≤ length s.population
    permutations : All (IsPermutation n) s.population
    candidate : IsCandidate? s.best_individual

  module _ (elite : 0 < config.elite_size)
      (tournament : config.tournament_size ≤ config.elite_size) where
    evolve_first :
        (draws : Draws) (more : List Draws) (s : Search)
        → Starts (draws ∷ more) s
        → ((next : Search)
            → Starts more next
            → Evolved next (evolve d config jobs vehicles more next))
        → (first : Individual) × (others : List Individual) × (ranked d config jobs vehicles s
            ≡ first ∷ others)
          × EvolvedFrom s first (evolve d config jobs vehicles (draws ∷ more) s)
    evolve_first draws more s h go_on =
        let (first, others, q) = ranked_parts s h.nonempty in
        let cands : All IsCandidate (first ∷ others) =
          subst (All IsCandidate) q (ranked-IsCandidate s h.permutations) in
        let size : length (first ∷ others) ≡ length s.population =
          ap (length {A = Individual}) (sym q) ∙ length-ranked s in
        let starts : Starts more (next_search draws first others s) = record {
          drawn = h.drawn.1;
          nonempty = next_generation-nonempty config draws first others elite;
          sampled =
              next_generation-le config draws (first ∷ others) tournament
                (omega (arith, h.sampled, size));
          permutations =
              next_generation-IsPermutation n config draws (first ∷ others) h.drawn.0
                (candidates-IsPermutation (first ∷ others) cands);
          candidate = track_best-IsCandidate first s (cands.0) h.candidate;
        } in
        (
          first,
          others,
          q,
          evolve_step draws more s first others q (ground (arith, h.sampled, size)) (cands.0)
              h.candidate (go_on (next_search draws first others s) starts),
        )

    evolve-Evolved :
        (draws : List Draws) (s : Search)
        → Starts draws s
        → Evolved s (evolve d config jobs vehicles draws s)
    unfolding evolve
    evolve-Evolved [] s h = record {
      last = s;
      returns = refl;
      candidate = h.candidate;
      improves = Improves-refl s.best_individual;
    }
    evolve-Evolved (draws ∷ more) s h =
        (evolve_first draws more s h (evolve-Evolved more)).3.evolved

    -- The cheapest of the ranking is at least as good as every individual of the population.
    ranked-cheapest :
        (s : Search) (first : Individual) (others : List Individual)
        → ranked d config jobs vehicles s ≡ first ∷ others
        → All (λ x. first.cost ≤ (evaluate_fitness d config jobs vehicles x).cost) s.population
    unfolding ranked
    ranked-cheapest s first others q =
        let sorted =
          sort_by_fitness-IsCheapest (map (evaluate_fitness d config jobs vehicles) s.population) in
        let all : All (λ y. first.cost ≤ y.cost) (first ∷ others) =
          (omega arith, subst IsCheapest q sorted) in
        map-All (λ y. first.cost ≤ y.cost) (evaluate_fitness d config jobs vehicles) s.population
          (sort_by_fitness-All (λ y. first.cost ≤ y.cost)
            (map (evaluate_fitness d config jobs vehicles) s.population)
            (subst (All (λ y. first.cost ≤ y.cost)) (sym q) all))

  -- The result of a run: an individual that is a permutation of the jobs, with its own evaluation,
  -- and at least as cheap as each one of the first population.
  pub record IsBest (population : List Individual) (result : Option Search) : Type 0 where
    pub last : Search
    pub returns : result ≡ some last
    pub best : Individual
    pub found : last.best_individual ≡ some best
    pub permutation : IsPermutation n best
    pub evaluated : evaluate_fitness d config jobs vehicles best ≡ best
    pub cheapest :
        All (λ x. best.cost ≤ (evaluate_fitness d config jobs vehicles x).cost) population

  candidate-IsBest :
      (population : List Individual) (first : Individual) (last : Search) (o : Option Individual)
      → last.best_individual ≡ o
      → Improves (some first) o
      → IsCandidate? o
      → All (λ x. first.cost ≤ (evaluate_fitness d config jobs vehicles x).cost) population
      → IsBest population (some last)
  candidate-IsBest population first last none e i c h = absurd i
  candidate-IsBest population first last (some best) e i c h = record {
    last = last;
    returns = refl;
    best = best;
    found = e;
    permutation = c.0;
    evaluated = c.1;
    cheapest =
        All-improves (λ x. (evaluate_fitness d config jobs vehicles x).cost) first.cost best.cost
          population i h;
  }

  -- At least one generation, an elite and a population that are enough for a tournament, draws inside the chromosomes, and a population of permutations of the
  -- jobs that is not empty and has an elite: the run ends with the best individual.
  pub evolve-IsBest :
      (draws : Draws) (more : List Draws) (s : Search)
      → 0 < config.elite_size
      → config.tournament_size ≤ config.elite_size
      → config.tournament_size ≤ length s.population
      → All (AreDraws n) (draws ∷ more)
      → 0 < length s.population
      → All (IsPermutation n) s.population
      → s.best_individual ≡ none
      → IsBest s.population (evolve d config jobs vehicles (draws ∷ more) s)
  evolve-IsBest draws more s elite tournament sampled drawn nonempty permutations fresh =
      let starts : Starts (draws ∷ more) s = record {
        drawn = drawn;
        nonempty = nonempty;
        sampled = sampled;
        permutations = permutations;
        candidate = rw fresh tt;
      } in
      let (first, others, q, e) =
        evolve_first elite tournament draws more s starts (evolve-Evolved elite tournament more) in
      rw (e.evolved.returns) (
        candidate-IsBest s.population first e.evolved.last e.evolved.last.best_individual refl
          e.beats_first e.evolved.candidate (ranked-cheapest elite tournament s first others q))
