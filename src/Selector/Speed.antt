-- ===== src/Selector/Speed.antt =====
-- The selection without breaks, where the speed scores decide, and with breaks.
use sfa_routing.Prelude.{
  ℕ, ◌+◌, ◌*◌, ◌≤◌, ◌<◌, ◌≡◌, refl, ◌∙◌, Bool, true, false, Option, none, some, [], inl, inr, arith,
  max, All,
}
use sfa_routing.Problem.{SolverType, vroom, ortools, genetic, greedy, auto, RoutingProblem}
use sfa_routing.Selector.{
  ProblemFeatures, SolverProfile, profile, solver_profiles, is_capable, filter_by_capabilities,
  size_score, bonus, score_solver, weighted, select_from, select_by, extract_features, any_breaks,
  select,
}
use sfa_routing.Selector.Choice.{Among, Chosen, chosen, default, select_by-Chosen}

mul_lt : (m a b : ℕ) → 1 ≤ m → a < b → m * a < m * b
mul_lt m a b h k = grind arith

add_lt : {a b c d : ℕ} → a ≤ c → b < d → a + b < c + d
add_lt h k = omega arith

-- Without breaks greedy can do every problem.
pub greedy_profile : SolverProfile
unfolding profile
greedy_profile = profile greedy none none true false 30000 85

greedy-is_capable :
    (f : ProblemFeatures) → f.has_breaks ≡ false → is_capable f greedy_profile ≡ true
unfolding is_capable greedy_profile
greedy-is_capable f h = ground arith

-- Its score is above that of each other solver, since the speed score is not bounded.
abbrev rate : ProblemFeatures → Bool → Bool → SolverProfile → ℕ
rate f prefer_speed prefer_quality s =
    weighted prefer_quality (s.quality_factor * 30)
    + weighted prefer_speed s.speed_score
    + bonus f s.solver_type

size_score-le :
    (n : ℕ) (efficient feasible : Option ℕ) (s : SolverProfile)
    → s.max_jobs_efficient ≡ efficient
    → s.max_jobs_feasible ≡ feasible
    → size_score n s ≤ 8000 * max 1 n
unfolding size_score
size_score-le n none feasible s e f = rw e (omega arith)
size_score-le n (some k) none s e f = rw (e, f) (ground arith)
size_score-le n (some k) (some l) s e f = rw (e, f) (ground arith)

bonus-le : (f : ProblemFeatures) (t : SolverType) → bonus f t ≤ 1500
unfolding bonus
bonus-le f vroom = ground arith
bonus-le f ortools = ground arith
bonus-le f genetic = ground arith
bonus-le f greedy = omega arith
bonus-le f auto = omega arith

module _ (f : ProblemFeatures) (prefer_speed prefer_quality : Bool) where
  slow-lt-greedy :
      (s : SolverProfile)
      → s.speed_score ≤ 3000
      → s.quality_factor ≤ 98
      → score_solver f prefer_speed prefer_quality s
        < score_solver f prefer_speed prefer_quality greedy_profile
  unfolding score_solver greedy_profile size_score
  slow-lt-greedy s slow fair =
      let m : ℕ = max 1 f.n_jobs in
      let low : rate f prefer_speed prefer_quality s ≤ 10410 =
        ground (arith, bonus-le f s.solver_type) in
      let high : 32550 ≤ rate f prefer_speed prefer_quality greedy_profile = ground arith in
      let size = size_score-le f.n_jobs s.max_jobs_efficient s.max_jobs_feasible s refl refl in
      let gap =
        mul_lt m (rate f prefer_speed prefer_quality s)
          (rate f prefer_speed prefer_quality greedy_profile) (omega arith) (omega arith) in
      add_lt size gap

  greedy_wins :
      (s : SolverProfile)
      → Among s solver_profiles
      → score_solver f prefer_speed prefer_quality greedy_profile
        ≤ score_solver f prefer_speed prefer_quality s
      → s.solver_type ≡ greedy
  unfolding solver_profiles profile
  greedy_wins s (inl e) k =
      absurd (omega (arith, slow-lt-greedy s (rw (← e) (omega arith)) (rw (← e) (omega arith))))
  greedy_wins s (inr (inl e)) k =
      absurd (omega (arith, slow-lt-greedy s (rw (← e) (omega arith)) (rw (← e) (omega arith))))
  greedy_wins s (inr (inr (inl e))) k =
      absurd (omega (arith, slow-lt-greedy s (rw (← e) (omega arith)) (rw (← e) (omega arith))))
  greedy_wins s (inr (inr (inr (inl e)))) k = rw (← e) refl
  greedy_wins s (inr (inr (inr (inr m)))) k = absurd m

  greedy_best :
      (s : SolverProfile)
      → is_capable f greedy_profile ≡ true
      → All
          (λ o.
            is_capable f o ≡ true
            → score_solver f prefer_speed prefer_quality o
              ≤ score_solver f prefer_speed prefer_quality s)
          solver_profiles
      → score_solver f prefer_speed prefer_quality greedy_profile
        ≤ score_solver f prefer_speed prefer_quality s
  unfolding solver_profiles greedy_profile
  greedy_best s able best = best.1.1.1.0 able

  chosen-greedy :
      (t : SolverType)
      → f.has_breaks ≡ false
      → Chosen f (score_solver f prefer_speed prefer_quality) solver_profiles t
      → t ≡ greedy
  chosen-greedy t no_breaks (default none_able e) = e
  chosen-greedy t no_breaks (chosen s among able best e) =
      let able_greedy = greedy-is_capable f no_breaks in
      e ∙ greedy_wins s among (greedy_best s able_greedy best)

  select_by-greedy : f.has_breaks ≡ false → select_by f prefer_speed prefer_quality ≡ greedy
  select_by-greedy h =
      chosen-greedy (select_by f prefer_speed prefer_quality) h
        (select_by-Chosen f prefer_speed prefer_quality)

-- Without breaks the selection is always greedy, whatever the problem and whether
-- speed or quality is preferred.
pub select-greedy :
    (p : RoutingProblem) (prefer_speed prefer_quality : Bool)
    → any_breaks p.vehicles ≡ false
    → select p prefer_speed prefer_quality ≡ greedy
unfolding select extract_features
select-greedy p prefer_speed prefer_quality h =
    select_by-greedy (extract_features p) prefer_speed prefer_quality h

-- With breaks and more jobs than OR-Tools can take no solver is capable, and the default, which
-- does not support breaks, is selected.
pub select_by-default :
    (f : ProblemFeatures) (prefer_speed prefer_quality : Bool)
    → f.has_breaks ≡ true
    → 2000 < f.n_jobs
    → (select_by f prefer_speed prefer_quality ≡ greedy)
      × (is_capable f greedy_profile ≡ false)
      × (filter_by_capabilities f solver_profiles ≡ [])
unfolding select_by filter_by_capabilities solver_profiles is_capable greedy_profile select_from
    profile
select_by-default f prefer_speed prefer_quality h k = ground arith
