-- ===== src/Greedy/Nearest.antt =====
-- `_find_nearest_feasible_job`.
use mathlib.Core.Option
use sfa_routing.Prelude.{
  ℕ, zero, suc, ◌+◌, ◌≤◌, ◌<◌, ◌≡◌, refl, false, Option, none, some, List, [], ◌∷◌, ◌⊎◌, inl, inr,
  ◌↔◌, subst, arith, get_elem?, Option-cases,
}
use sfa_routing.Problem.{Location, Job}
use sfa_routing.Greedy.{contains, consider, scan, find_nearest_feasible_job}

-- The job at index `i` is not assigned yet and fits into the vehicle.
pub record IsFeasible (jobs : List Job) (assigned : List ℕ) (load capacity i : ℕ) (j : Job)
    : Type 0 where
  pub at_index : get_elem? jobs i ≡ some j
  pub free : contains assigned i ≡ false
  pub fits : load + j.demand_kg ≤ capacity

-- The best candidate so far is nearer than distance `d`, or as near and not behind index `k`.
abbrev pub Beats : ℕ → ℕ → ℕ → ℕ → Type 0
Beats i e k d = (e < d) ⊎ ((e ≡ d) × (i ≤ k))

abbrev Covers : Option (ℕ × ℕ) → ℕ → ℕ → Type 0
Covers none k d = ⊥
Covers (some (i, e)) k d = Beats i e k d

index_of_some :
    (r : Option (ℕ × ℕ)) (i : ℕ) → Option.map (λ p. p.0) r ≡ some i → (d : ℕ) × (r ≡ some (i, d))
index_of_some none i h = cc
index_of_some (some (k, d)) i h = (d, ground arith)

none_of_index : (r : Option (ℕ × ℕ)) → Option.map (λ p. p.0) r ≡ none → r ≡ none
none_of_index none h = refl
none_of_index (some p) h = cc

abbrev Below : Option (ℕ × ℕ) → ℕ → Type 0
Below none idx = Unit
Below (some (i, _)) idx = i < idx

module _ (calculate_distance : Location → Location → ℕ) (current : Location) (assigned : List ℕ)
    (load capacity : ℕ) where
  abbrev round : ℕ → Job → Option (ℕ × ℕ) → Option (ℕ × ℕ)
  round = consider calculate_distance current assigned load capacity

  abbrev rounds : ℕ → List Job → Option (ℕ × ℕ) → Option (ℕ × ℕ)
  rounds = scan calculate_distance current assigned load capacity

  abbrev distance_to : Job → ℕ
  distance_to j = calculate_distance current j.location

  -- `(i, d)` is a job of `js`, whose first has index `idx`.
  record IsCandidate (js : List Job) (idx i d : ℕ) : Type 0 where
    offset : ℕ
    job : Job
    index : i ≡ idx + offset
    at_offset : get_elem? js offset ≡ some job
    free : contains assigned i ≡ false
    fits : load + job.demand_kg ≤ capacity
    distance : d ≡ distance_to job

  round-Below :
      (idx : ℕ) (j : Job) (best : Option (ℕ × ℕ))
      → Below best idx
      → Below (round idx j best) (suc idx)
  unfolding consider
  round-Below idx j none h = ground arith
  round-Below idx j (some (i, e)) h = ground arith

  round-Covers_of :
      (idx : ℕ) (j : Job) (best : Option (ℕ × ℕ)) (k d : ℕ)
      → Covers best k d
      → Covers (round idx j best) k d
  unfolding consider
  round-Covers_of idx j none k d h = absurd h
  round-Covers_of idx j (some (i, e)) k d h = ground arith

  round-Covers :
      (idx : ℕ) (j : Job) (best : Option (ℕ × ℕ))
      → Below best idx
      → contains assigned idx ≡ false
      → load + j.demand_kg ≤ capacity
      → Covers (round idx j best) idx (distance_to j)
  unfolding consider
  round-Covers idx j none b free fits = ground arith
  round-Covers idx j (some (i, e)) b free fits = ground arith

  rounds-Covers_of :
      (js : List Job) (idx : ℕ) (best : Option (ℕ × ℕ)) (k d : ℕ)
      → Covers best k d
      → Covers (rounds idx js best) k d
  unfolding scan
  rounds-Covers_of [] idx best k d h = h
  rounds-Covers_of (j ∷ js) idx best k d h =
      rounds-Covers_of js (suc idx) (round idx j best) k d (round-Covers_of idx j best k d h)

  rounds-Covers :
      (js : List Job) (idx : ℕ) (best : Option (ℕ × ℕ)) (offset i : ℕ) (j : Job)
      → Below best idx
      → i ≡ idx + offset
      → get_elem? js offset ≡ some j
      → contains assigned i ≡ false
      → load + j.demand_kg ≤ capacity
      → Covers (rounds idx js best) i (distance_to j)
  unfolding scan
  rounds-Covers [] idx best offset i j b e at free fits = cc
  rounds-Covers (x ∷ js) idx best zero i j b e at free fits =
      rounds-Covers_of js (suc idx) (round idx x best) i (distance_to j) (
        let ix : i ≡ idx = omega arith in
        let same : x ≡ j = cc in
        rw ix (rw (← same) (round-Covers idx x best b (rw (← ix) free) (rw same fits))))
  rounds-Covers (x ∷ js) idx best (suc offset) i j b e at free fits =
      rounds-Covers js (suc idx) (round idx x best) offset i j (round-Below idx x best b)
        (omega arith) at free fits

  record IsNew (idx i d : ℕ) (j : Job) : Type 0 where
    index : i ≡ idx
    free : contains assigned idx ≡ false
    fits : load + j.demand_kg ≤ capacity
    distance : d ≡ distance_to j

  round_cases :
      (idx : ℕ) (j : Job) (best : Option (ℕ × ℕ)) (i d : ℕ)
      → round idx j best ≡ some (i, d)
      → (best ≡ some (i, d)) ⊎ IsNew idx i d j
  unfolding consider
  round_cases idx j none i d h = ground arith
  round_cases idx j (some (b, e)) i d h = ground arith

  IsCandidate-head :
      {js : List Job} {idx i d : ℕ} {j : Job} → IsNew idx i d j → IsCandidate (j ∷ js) idx i d
  IsCandidate-head {j} n = record {
    offset = 0;
    job = j;
    index = omega arith;
    at_offset = refl;
    free = rw n.index n.free;
    fits = n.fits;
    distance = n.distance;
  }

  IsCandidate-tail :
      {js : List Job} {idx i d : ℕ} {j : Job}
      → IsCandidate js (suc idx) i d
      → IsCandidate (j ∷ js) idx i d
  IsCandidate-tail c = record {
    offset = suc c.offset;
    job = c.job;
    index = omega arith;
    at_offset = c.at_offset;
    free = c.free;
    fits = c.fits;
    distance = c.distance;
  }

  rounds_cases :
      (js : List Job) (idx : ℕ) (best : Option (ℕ × ℕ)) (i d : ℕ)
      → rounds idx js best ≡ some (i, d)
      → (best ≡ some (i, d)) ⊎ IsCandidate js idx i d
  unfolding scan
  rounds_cases [] idx best i d h = inl h
  rounds_cases (j ∷ js) idx best i d h = elim (rounds_cases js (suc idx) (round idx j best) i d h) [
    | inl old ↦ elim (round_cases idx j best i d old) [
      | inl e ↦ inl e
      | inr n ↦ inr (IsCandidate-head n)
    ]
    | inr c ↦ inr (IsCandidate-tail c)
  ]

  module _ (jobs : List Job) where
    abbrev nearest : Option ℕ
    nearest = find_nearest_feasible_job calculate_distance current jobs assigned load capacity

    -- No feasible job is nearer, and of those that are as near it has the least index.
    abbrev pub IsNearest : ℕ → Job → Type 0
    IsNearest i j =
        (k : ℕ) (other : Job)
        → IsFeasible jobs assigned load capacity k other
        → Beats i (distance_to j) k (distance_to other)

    nearest_scan : (i : ℕ) → nearest ≡ some i → (d : ℕ) × (rounds 0 jobs none ≡ some (i, d))
    unfolding find_nearest_feasible_job
    nearest_scan i h = index_of_some (rounds 0 jobs none) i h

    nearest-none : nearest ≡ none → rounds 0 jobs none ≡ none
    unfolding find_nearest_feasible_job
    nearest-none h = none_of_index (rounds 0 jobs none) h

    scan-Beats :
        (i d : ℕ)
        → rounds 0 jobs none ≡ some (i, d)
        → (k : ℕ) (other : Job) → IsFeasible jobs assigned load capacity k other
        → Beats i d k (distance_to other)
    scan-Beats i d found k other f =
        subst (λ r. Covers r k (distance_to other)) found
          (rounds-Covers jobs 0 none k k other tt (omega arith) f.at_index f.free f.fits)

    -- The job found is feasible, and no feasible job beats it.
    pub find_nearest-IsNearest :
        (i : ℕ)
        → nearest ≡ some i
        → (j : Job) × IsFeasible jobs assigned load capacity i j × IsNearest i j
    find_nearest-IsNearest i h =
        let (d, found) = nearest_scan i h in
        elim (rounds_cases jobs 0 none i d found) [
          | inl e ↦ cc
          | inr c ↦ (
            c.job,
            record {
              at_index = let ix : i ≡ c.offset = omega (arith, c.index) in rw ix c.at_offset;
              free = c.free;
              fits = c.fits;
            },
            rw (← c.distance) (scan-Beats i d found),
          )
        ]

    -- Nothing is found exactly when no job is feasible.
    pub find_nearest-none_iff :
        (nearest ≡ none) ↔ ((k : ℕ) (j : Job) → ¬ IsFeasible jobs assigned load capacity k j)
    find_nearest-none_iff = (
      λ h k j f.
          subst (λ r. Covers r k (distance_to j)) (nearest-none h)
            (rounds-Covers jobs 0 none k k j tt (omega arith) f.at_index f.free f.fits),
      λ never. elim (Option-cases nearest) [
        | inl e ↦ e
        | inr (i, e) ↦ let (j, f, _) = find_nearest-IsNearest i e in absurd (never i j f)
      ],
    )
