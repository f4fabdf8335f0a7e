-- ===== src/Selector/Choice.antt =====
-- `select`: the filter on the hard constraints and the best score.
use sfa_routing.Prelude.{
  ℕ, ◌≤◌, ◌≡◌, refl, sym, ap, ◌∙◌, subst, Bool, true, false, List, [], ◌∷◌, ◌⊎◌, inl, inr, arith,
  ltb, if◌then◌else◌, Bool-cases, All,
}
use sfa_routing.Problem.{SolverType, greedy}
use sfa_routing.Selector.{
  ProblemFeatures, SolverProfile, solver_profiles, is_capable, filter_by_capabilities, score_solver,
  best_solver, select_from, select_by,
}

abbrev pub Among : SolverProfile → List SolverProfile → Type 0
Among s [] = ⊥
Among s (x ∷ xs) = (x ≡ s) ⊎ Among s xs

-- The best of those that are capable, or greedy where none is.
pub data Chosen (f : ProblemFeatures) (score : SolverProfile → ℕ) (profiles : List SolverProfile)
    (t : SolverType) : Type 0 where
  chosen :
      (s : SolverProfile)
      → Among s profiles
      → is_capable f s ≡ true
      → All (λ other. is_capable f other ≡ true → score other ≤ score s) profiles
      → t ≡ s.solver_type
      → Chosen f score profiles t
  default : All (λ s. is_capable f s ≡ false) profiles → t ≡ greedy → Chosen f score profiles t

module _ (score : SolverProfile → ℕ) where
  abbrev next_best : SolverProfile → SolverProfile → SolverProfile
  next_best best s = if ltb (score best) (score s) then s else best

  next_best-cases : (best s : SolverProfile) → (next_best best s ≡ s) ⊎ (next_best best s ≡ best)
  next_best-cases best s = elim (Bool-cases (ltb (score best) (score s))) [
    | inl more ↦ inl (rw more refl)
    | inr less ↦ inr (rw less refl)
  ]

  next_best-le :
      (best s : SolverProfile)
      → (score best ≤ score (next_best best s)) × (score s ≤ score (next_best best s))
  next_best-le best s = elim (Bool-cases (ltb (score best) (score s))) [
    | inl more ↦ rw more (ground arith, omega arith)
    | inr less ↦ rw less (omega arith, ground arith)
  ]

  best_solver-Among :
      (best : SolverProfile) (ss : List SolverProfile)
      → Among (best_solver score best ss) (best ∷ ss)
  unfolding best_solver
  best_solver-Among best [] = inl refl
  best_solver-Among best (s ∷ ss) = elim (best_solver-Among (next_best best s) ss) [
    | inr m ↦ inr (inr m)
    | inl e ↦ elim (next_best-cases best s) [
      | inl new ↦ inr (inl (sym new ∙ e))
      | inr old ↦ inl (sym old ∙ e)
    ]
  ]

  best_solver-best :
      (best : SolverProfile) (ss : List SolverProfile)
      → (score best ≤ score (best_solver score best ss))
        × All (λ s. score s ≤ score (best_solver score best ss)) ss
  unfolding best_solver
  best_solver-best best [] = (omega arith, tt)
  best_solver-best best (s ∷ ss) =
      let (a, b) = best_solver-best (next_best best s) ss in
      let (c, d) = next_best-le best s in (omega arith, (omega arith, b))

module _ (f : ProblemFeatures) where
  filter-Among :
      (s : SolverProfile) (ss : List SolverProfile)
      → Among s (filter_by_capabilities f ss)
      → Among s ss × (is_capable f s ≡ true)
  unfolding filter_by_capabilities
  filter-Among s [] m = absurd m
  filter-Among s (x ∷ xs) m = elim (Bool-cases (is_capable f x)) [
    | inl able ↦
        let k : Among s (x ∷ filter_by_capabilities f xs) =
          rw (able, filter_by_capabilities) at m in
        elim k [
          | inl e ↦ (inl e, ap (is_capable f) (sym e) ∙ able)
          | inr r ↦ let (a, c) = filter-Among s xs r in (inr a, c)
        ]
    | inr unable ↦
        let k : Among s (filter_by_capabilities f xs) = rw (unable, filter_by_capabilities) at m in
        let (a, c) = filter-Among s xs k in (inr a, c)
  ]

  filter-All :
      (P : SolverProfile → Type 0) (ss : List SolverProfile)
      → All P (filter_by_capabilities f ss)
      → All (λ s. is_capable f s ≡ true → P s) ss
  unfolding filter_by_capabilities
  filter-All P [] h = tt
  filter-All P (x ∷ xs) h = elim (Bool-cases (is_capable f x)) [
    | inl able ↦
        let k : P x × All P (filter_by_capabilities f xs) =
          rw (able, filter_by_capabilities) at h in
        ((λ e. k.0), filter-All P xs (k.1))
    | inr unable ↦
        let k : All P (filter_by_capabilities f xs) = rw (unable, filter_by_capabilities) at h in
        ((λ e. cc), filter-All P xs k)
  ]

  filter-empty :
      (ss : List SolverProfile)
      → filter_by_capabilities f ss ≡ []
      → All (λ s. is_capable f s ≡ false) ss
  unfolding filter_by_capabilities
  filter-empty [] h = tt
  filter-empty (x ∷ xs) h = elim (Bool-cases (is_capable f x)) [
    | inl able ↦
        let k : x ∷ filter_by_capabilities f xs ≡ [] = rw (able, filter_by_capabilities) at h in cc
    | inr unable ↦ (unable, filter-empty xs (rw (unable, filter_by_capabilities) at h))
  ]

  select_from-Chosen :
      (score : SolverProfile → ℕ) (profiles candidates : List SolverProfile)
      → filter_by_capabilities f profiles ≡ candidates
      → Chosen f score profiles (select_from score candidates)
  unfolding select_from
  select_from-Chosen score profiles [] e = default (filter-empty profiles e) refl
  select_from-Chosen score profiles (s ∷ ss) e =
      let b = best_solver score s ss in
      let (among, able) =
        filter-Among b profiles (subst (Among b) (sym e) (best_solver-Among score s ss)) in
      let all = best_solver-best score s ss in
      chosen b among able
        (filter-All (λ o. score o ≤ score b) profiles
          (subst (All (λ o. score o ≤ score b)) (sym e) all))
        refl

-- The selected solver meets the hard constraints and has the best score of those that do; where
-- none does, greedy is selected.
pub select_by-Chosen :
    (f : ProblemFeatures) (prefer_speed prefer_quality : Bool)
    → Chosen f
        (score_solver f prefer_speed prefer_quality)
        solver_profiles
        (select_by f prefer_speed prefer_quality)
unfolding select_by
select_by-Chosen f prefer_speed prefer_quality =
    select_from-Chosen f (score_solver f prefer_speed prefer_quality) solver_profiles
      (filter_by_capabilities f solver_profiles) refl
