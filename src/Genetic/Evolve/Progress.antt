-- ===== src/Genetic/Evolve/Progress.antt =====
-- One generation and the permutations of its population.
use mathlib.Core.List.Perm
use sfa_routing.Prelude.{
  range, ℕ, ◌-◌, ◌≤◌, ◌≡◌, refl, sym, ap, subst, Option, none, some, List, [], ◌∷◌, map, Perm,
  arith, length, ltb, leb, inl, inr, Bool-cases, Option-cases, All, All-append, All-take,
  All-get_elem?, get_elem?, take, if◌then◌else◌,
}
use sfa_routing.Prelude.Perms.{length-perm}
use sfa_routing.Genetic.{GaConfig, Individual, individual, Mutation}
use sfa_routing.Genetic.Cuts.{order_crossover-perm, IsCut}
use sfa_routing.Genetic.Mutations.{IsDrawn, mutate_chromosome-perm}
use sfa_routing.Genetic.Evolve.{
  insert_sorted, sort_by_fitness, winner, contenders, select_from, tournament_selection, genes_of,
  cross, crossover, mutate, slice_to, Draws, next_generation,
}

-- The chromosome is a permutation of the job indices.
abbrev pub IsPermutation : ℕ → Individual → Type 0
IsPermutation n x = Perm x.chromosome (range 0 n)

-- The sort: a permutation of the individuals as far as a property of all of them goes.
All-insert_sorted :
    (P : Individual → Type 0) (x : Individual) (xs : List Individual)
    → P x
    → All P xs
    → All P (insert_sorted x xs)
unfolding insert_sorted
All-insert_sorted P x [] p h = (p, tt)
All-insert_sorted P x (y ∷ ys) p h = elim (Bool-cases (leb x.cost y.cost)) [
  | inl less ↦ rw less (p, h)
  | inr more ↦ rw more (h.0, All-insert_sorted P x ys p (h.1))
]

pub All-sort_by_fitness :
    (P : Individual → Type 0) (xs : List Individual) → All P xs → All P (sort_by_fitness xs)
unfolding sort_by_fitness
All-sort_by_fitness P [] h = tt
All-sort_by_fitness P (x ∷ xs) h =
    All-insert_sorted P x (sort_by_fitness xs) (h.0) (All-sort_by_fitness P xs (h.1))

-- The first one after the sort is the cheapest.
abbrev pub IsCheapest : List Individual → Type 0
IsCheapest [] = Unit {0}
IsCheapest (x ∷ xs) = All (λ y. x.cost ≤ y.cost) xs

All-cheaper :
    (a b : ℕ) (xs : List Individual) → a ≤ b → All (λ y. b ≤ y.cost) xs → All (λ y. a ≤ y.cost) xs
All-cheaper a b [] h k = tt
All-cheaper a b (x ∷ xs) h k = (omega arith, All-cheaper a b xs h (k.1))

insert_sorted-IsCheapest :
    (x : Individual) (xs : List Individual) → IsCheapest xs → IsCheapest (insert_sorted x xs)
unfolding insert_sorted
insert_sorted-IsCheapest x [] h = tt
insert_sorted-IsCheapest x (y ∷ ys) h = elim (Bool-cases (leb x.cost y.cost)) [
  | inl less ↦ rw less (ground arith, All-cheaper x.cost y.cost ys (ground arith) h)
  | inr more ↦ rw more (All-insert_sorted (λ z. y.cost ≤ z.cost) x ys (ground arith) h)
]

pub sort_by_fitness-IsCheapest : (xs : List Individual) → IsCheapest (sort_by_fitness xs)
unfolding sort_by_fitness
sort_by_fitness-IsCheapest [] = tt
sort_by_fitness-IsCheapest (x ∷ xs) =
    insert_sorted-IsCheapest x (sort_by_fitness xs) (sort_by_fitness-IsCheapest xs)

contenders-none :
    (population : List Individual) (i : ℕ) (is : List ℕ)
    → get_elem? population i ≡ none
    → contenders population (i ∷ is) ≡ contenders population is
unfolding contenders
contenders-none population i is e = rw (e, contenders)

contenders-some :
    (population : List Individual) (i : ℕ) (is : List ℕ) (x : Individual)
    → get_elem? population i ≡ some x
    → contenders population (i ∷ is) ≡ x ∷ contenders population is
unfolding contenders
contenders-some population i is x e = rw (e, contenders)

module _ (P : List ℕ → Type 0) where
  abbrev Q : Individual → Type 0
  Q x = P x.chromosome

  winner-Q : (best : Individual) (xs : List Individual) → Q best → All Q xs → Q (winner best xs)
  unfolding winner
  winner-Q best [] p h = p
  winner-Q best (x ∷ xs) p h = elim (Bool-cases (ltb x.cost best.cost)) [
    | inl less ↦
        subst (λ b. Q (winner (if b then x else best) xs)) (sym less) (winner-Q x xs (h.0) (h.1))
    | inr more ↦
        subst (λ b. Q (winner (if b then x else best) xs)) (sym more) (winner-Q best xs p (h.1))
  ]

  All-contenders :
      (population : List Individual) (is : List ℕ)
      → All Q population
      → All Q (contenders population is)
  unfolding contenders
  All-contenders population [] h = tt
  All-contenders population (i ∷ is) h = elim (Option-cases (get_elem? population i)) [
    | inl e ↦
        subst (All Q) (sym (contenders-none population i is e)) (All-contenders population is h)
    | inr (x, e) ↦
        subst (All Q) (sym (contenders-some population i is x e))
          (All-get_elem? Q population i h e, All-contenders population is h)
  ]

  All-select_from : (xs : List Individual) → All Q xs → All Q (select_from xs)
  unfolding individual
  All-select_from [] h = tt
  All-select_from (x ∷ xs) h = (winner-Q x xs (h.0) (h.1), tt)

  All-tournament_selection :
      (population : List Individual) (draws : List (List ℕ))
      → All Q population
      → All Q (tournament_selection population draws)
  unfolding tournament_selection
  All-tournament_selection population [] h = tt
  All-tournament_selection population (drawn ∷ draws) h =
      All-append Q (select_from (contenders population drawn))
        (tournament_selection population draws)
        (All-select_from (contenders population drawn) (All-contenders population drawn h))
        (All-tournament_selection population draws h)

genes_of-some : (g : List ℕ) → genes_of (map some g) ≡ g
unfolding genes_of
genes_of-some [] = refl
genes_of-some (x ∷ g) = ap (λ l. x ∷ l) (genes_of-some g)

-- The draws of a generation: cuts and positions inside the chromosomes.
abbrev pub AreCuts : ℕ → List (Option (ℕ × ℕ)) → Type 0
AreCuts n [] = Unit {0}
AreCuts n (none ∷ cuts) = AreCuts n cuts
AreCuts n (some cut ∷ cuts) = IsCut n cut × AreCuts n cuts

abbrev pub IsDrawnAt : ℕ → Mutation → Type 0
IsDrawnAt n m = IsDrawn m (range 0 n)

abbrev pub AreDraws : ℕ → Draws → Type 0
AreDraws n draws = AreCuts n draws.cuts × All (IsDrawnAt n) draws.mutations

module _ (n : ℕ) where
  cross-IsPermutation :
      (cut : ℕ × ℕ) (c1 c2 : List ℕ)
      → IsCut n cut
      → Perm c1 (range 0 n)
      → Perm c2 (range 0 n)
      → All (IsPermutation n) (cross (some cut) c1 c2)
  unfolding cross individual
  cross-IsPermutation (from, to) c1 c2 h p q =
      let (g1, g2, e, p1, p2) = order_crossover-perm n (from, to) c1 c2 h p q in
      rw e (rw (genes_of-some g1) p1, (rw (genes_of-some g2) p2, tt))

  copy-IsPermutation :
      (c1 c2 : List ℕ)
      → Perm c1 (range 0 n)
      → Perm c2 (range 0 n)
      → All (IsPermutation n) (cross none c1 c2)
  unfolding cross individual
  copy-IsPermutation c1 c2 p q = (p, (q, tt))

  crossover-IsPermutation :
      (cuts : List (Option (ℕ × ℕ))) (ps : List Individual)
      → AreCuts n cuts
      → All (IsPermutation n) ps
      → All (IsPermutation n) (crossover cuts ps)
  unfolding crossover
  crossover-IsPermutation cuts [] h k = tt
  crossover-IsPermutation cuts (p ∷ []) h k = tt
  crossover-IsPermutation [] (p ∷ q ∷ ps) h k =
      All-append (IsPermutation n) (cross none p.chromosome q.chromosome) (crossover [] ps)
        (copy-IsPermutation p.chromosome q.chromosome (k.0) (k.1.0))
        (crossover-IsPermutation [] ps h (k.1.1))
  crossover-IsPermutation (none ∷ cuts) (p ∷ q ∷ ps) h k =
      All-append (IsPermutation n) (cross none p.chromosome q.chromosome) (crossover cuts ps)
        (copy-IsPermutation p.chromosome q.chromosome (k.0) (k.1.0))
        (crossover-IsPermutation cuts ps h (k.1.1))
  crossover-IsPermutation (some cut ∷ cuts) (p ∷ q ∷ ps) h k =
      All-append (IsPermutation n) (cross (some cut) p.chromosome q.chromosome) (crossover cuts ps)
        (cross-IsPermutation cut p.chromosome q.chromosome (h.0) (k.0) (k.1.0))
        (crossover-IsPermutation cuts ps (h.1) (k.1.1))

  IsDrawn-length :
      (m : Mutation) (c1 c2 : List ℕ) → length c1 ≡ length c2 → IsDrawn m c1 → IsDrawn m c2
  IsDrawn-length Mutation.unchanged c1 c2 e h = tt
  IsDrawn-length (Mutation.swap i j) c1 c2 e h = omega arith
  IsDrawn-length (Mutation.insert i j) c1 c2 e h = omega arith
  IsDrawn-length (Mutation.two_opt i j) c1 c2 e h = omega arith

  mutate-IsPermutation :
      (ms : List Mutation) (xs : List Individual)
      → All (IsDrawnAt n) ms
      → All (IsPermutation n) xs
      → All (IsPermutation n) (mutate ms xs)
  unfolding mutate
  mutate-IsPermutation [] xs h k = k
  mutate-IsPermutation (m ∷ ms) [] h k = tt
  mutate-IsPermutation (m ∷ ms) (x ∷ xs) h k =
      let drawn = IsDrawn-length m (range 0 n) x.chromosome (sym (length-perm (k.0))) (h.0) in
      (
        Perm.trans (mutate_chromosome-perm m x.chromosome drawn) (k.0),
        mutate-IsPermutation ms xs (h.1) (k.1),
      )

  slice_to-IsPermutation :
      (k elite : ℕ) (xs : List Individual)
      → All (IsPermutation n) xs
      → All (IsPermutation n) (slice_to k elite xs)
  slice_to-IsPermutation k elite xs h = elim (Bool-cases (leb elite k)) [
    | inl less ↦ rw less (All-take (IsPermutation n) (k - elite) xs h)
    | inr more ↦ rw more (All-take (IsPermutation n) (length xs - (elite - k)) xs h)
  ]

  -- A generation of permutations of the jobs is followed by one.
  pub next_generation-IsPermutation :
      (config : GaConfig) (draws : Draws) (population : List Individual)
      → AreDraws n draws
      → All (IsPermutation n) population
      → All (IsPermutation n) (next_generation config draws population)
  unfolding next_generation
  next_generation-IsPermutation config draws population h k =
      let parents = tournament_selection population draws.tournaments in
      let selected =
        All-tournament_selection (λ c. Perm c (range 0 n)) population draws.tournaments k in
      let offspring = mutate draws.mutations (crossover draws.cuts parents) in
      All-append (IsPermutation n) (take config.elite_size population)
        (slice_to (length population) config.elite_size offspring)
        (All-take (IsPermutation n) config.elite_size population k)
        (slice_to-IsPermutation (length population) config.elite_size offspring (
          mutate-IsPermutation draws.mutations (crossover draws.cuts parents) (h.1)
            (crossover-IsPermutation draws.cuts parents (h.0) selected)))
