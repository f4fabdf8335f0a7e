-- ===== src/Genetic/Evolve/Improving.antt =====
-- One generation: the individual that is kept as the best, and the ranking.
use sfa_routing.Prelude.{
  ℕ, zero, suc, ◌≤◌, ◌<◌, ◌≡◌, refl, Bool, true, false, Option, none, some, List, [], ◌∷◌, ◌++◌,
  map, arith, length, length-append, length-take, leb, inl, inr, Bool-cases, All, take,
  if◌then◌else◌,
}
use sfa_routing.Genetic.{GaConfig, Individual}
use sfa_routing.Genetic.Evolve.{
  insert_sorted, sort_by_fitness, Search, is_better, track_best, Draws, next_generation,
}

-- The second best individual is at least as good as the first.
abbrev pub Improves : Option Individual → Option Individual → Type 0
Improves none o = Unit {0}
Improves (some b) none = ⊥
Improves (some b) (some c) = c.cost ≤ b.cost

pub Improves-trans : (a b c : Option Individual) → Improves a b → Improves b c → Improves a c
Improves-trans none b c h k = tt
Improves-trans (some a) none c h k = absurd h
Improves-trans (some a) (some b) none h k = absurd k
Improves-trans (some a) (some b) (some c) h k = omega arith

length-insert_sorted :
    (x : Individual) (xs : List Individual) → length (insert_sorted x xs) ≡ suc (length xs)
unfolding insert_sorted
length-insert_sorted x [] = refl
length-insert_sorted x (y ∷ ys) = ground (arith, length-insert_sorted x ys)

pub length-sort_by_fitness : (xs : List Individual) → length (sort_by_fitness xs) ≡ length xs
unfolding sort_by_fitness
length-sort_by_fitness [] = refl
length-sort_by_fitness (x ∷ xs) =
    omega (arith, length-insert_sorted x (sort_by_fitness xs), length-sort_by_fitness xs)

module _ (P : Individual → Type 0) where
  insert_sorted-All :
      (x : Individual) (xs : List Individual) → All P (insert_sorted x xs) → P x × All P xs
  unfolding insert_sorted
  insert_sorted-All x [] h = h
  insert_sorted-All x (y ∷ ys) h = elim (Bool-cases (leb x.cost y.cost)) [
    | inl less ↦ rw (less, insert_sorted) at h
    | inr more ↦
        let k : P y × All P (insert_sorted x ys) = rw (more, insert_sorted) at h in
        let (p, r) = insert_sorted-All x ys (k.1) in (p, (k.0, r))
  ]

  pub sort_by_fitness-All : (xs : List Individual) → All P (sort_by_fitness xs) → All P xs
  unfolding sort_by_fitness
  sort_by_fitness-All [] h = tt
  sort_by_fitness-All (x ∷ xs) h =
      let (p, r) = insert_sorted-All x (sort_by_fitness xs) h in (p, sort_by_fitness-All xs r)

abbrev pub better_of : Individual → Option Individual → Bool → Option Individual
better_of first o b = if b then some first else o

better_of-Improves :
    (first : Individual) (o : Option Individual) (b : Bool)
    → is_better first.cost o ≡ b
    → Improves o (better_of first o b) × Improves (some first) (better_of first o b)
better_of-Improves first none true e = (tt, omega arith)
better_of-Improves first none false e = cc
better_of-Improves first (some best) true e = (ground arith, omega arith)
better_of-Improves first (some best) false e = (omega arith, ground arith)

pub track_best-better_of :
    (first : Individual) (s : Search)
    → (track_best first s).best_individual
      ≡ better_of first s.best_individual (is_better first.cost s.best_individual)
unfolding track_best
track_best-better_of first s = elim (Bool-cases (is_better first.cost s.best_individual)) [
  | inl better ↦ rw better refl
  | inr worse ↦ rw worse refl
]

-- One generation: the best one is replaced only by a better one, and is at least as good as the
-- first of the ranking.
pub track_best-Improves :
    (first : Individual) (s : Search)
    → Improves s.best_individual (track_best first s).best_individual
      × Improves (some first) (track_best first s).best_individual
track_best-Improves first s =
    rw (track_best-better_of first s)
      (better_of-Improves first s.best_individual (is_better first.cost s.best_individual) refl)

pub Improves-refl : (o : Option Individual) → Improves o o
Improves-refl none = tt
Improves-refl (some b) = omega arith

append-nonempty : (xs ys : List Individual) → 0 < length xs → 0 < length (xs ++ ys)
append-nonempty [] ys h = absurd (omega arith)
append-nonempty (x ∷ xs) ys h = omega arith

take-nonempty :
    (n : ℕ) (x : Individual) (xs : List Individual) → 0 < n → 0 < length (take n (x ∷ xs))
take-nonempty zero x xs h = absurd (omega arith)
take-nonempty (suc n) x xs h = omega arith

pub next_generation-nonempty :
    (config : GaConfig) (draws : Draws) (first : Individual) (others : List Individual)
    → 0 < config.elite_size
    → 0 < length (next_generation config draws (first ∷ others))
unfolding next_generation
next_generation-nonempty config draws first others h =
    append-nonempty (take config.elite_size (first ∷ others)) _
      (take-nonempty config.elite_size first others h)

-- The elite alone is enough for the next tournaments.
pub next_generation-le :
    (config : GaConfig) (draws : Draws) (population : List Individual)
    → config.tournament_size ≤ config.elite_size
    → config.tournament_size ≤ length population
    → config.tournament_size ≤ length (next_generation config draws population)
unfolding next_generation
next_generation-le config draws population h l =
    let elite = take config.elite_size population in
    let parts = length-append {0} elite in
    omega (arith, length-take config.elite_size population, parts)

pub map-All :
    (P : Individual → Type 0) (f : Individual → Individual) (xs : List Individual)
    → All P (map f xs)
    → All (λ x. P (f x)) xs
map-All P f [] h = tt
map-All P f (x ∷ xs) h = (h.0, map-All P f xs (h.1))

pub All-improves :
    (f : Individual → ℕ) (a b : ℕ) (xs : List Individual)
    → b ≤ a
    → All (λ x. a ≤ f x) xs
    → All (λ x. b ≤ f x) xs
All-improves f a b [] h k = tt
All-improves f a b (x ∷ xs) h k = (omega arith, All-improves f a b xs h (k.1))
