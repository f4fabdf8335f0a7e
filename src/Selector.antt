-- ===== src/Selector.antt =====
-- `SmartSolverSelector` of backend/app/services/solvers/solver_selector.py.
-- Scores are in hundredths, raised by 50 points so that the penalty keeps them natural, and
-- multiplied by the number of jobs, by which the size score divides. The tightness of the time
-- windows is asked only whether it is above one half. The standard deviation of the coordinates
-- and the estimated time take no part in the choice and are left out.

pub mod Choice
pub mod Speed
pub mod Samples
use sfa_routing.Prelude.{
  ℕ, zero, suc, ◌+◌, ◌-◌, ◌*◌, ◌/◌, Bool, true, false, ◌&&◌, ◌||◌, not, Option, none, some, List,
  [], ◌∷◌, ◌++◌, map, ltb, leb, ◌==◌, if◌then◌else◌, length, max,
}
use sfa_routing.Prelude.Int.{ℤ, pos_part, neg_part}
use sfa_routing.Problem.{
  SolverType, vroom, ortools, genetic, greedy, auto, Location, VehicleConfig, Job, RoutingProblem,
}

pub data ProblemComplexity : Type 0 where
  simple medium complex very_complex : ProblemComplexity

pub record ProblemFeatures : Type 0 where
  pub n_jobs : ℕ
  pub n_vehicles : ℕ
  pub has_time_windows : Bool
  pub is_tight : Bool
  pub has_capacity : Bool
  pub has_pickup_delivery : Bool
  pub has_multi_depot : Bool
  pub has_breaks : Bool
  pub constraint_complexity : ℕ

-- `none` stands for infinity. A solver takes `30 / speed_factor` points for its speed.
pub record SolverProfile : Type 0 where
  pub solver_type : SolverType
  pub max_jobs_efficient : Option ℕ
  pub max_jobs_feasible : Option ℕ
  pub supports_pickup_delivery : Bool
  pub supports_multi_depot : Bool
  pub supports_breaks : Bool
  pub speed_score : ℕ
  pub quality_factor : ℕ

pub profile : SolverType → Option ℕ → Option ℕ → Bool → Bool → ℕ → ℕ → SolverProfile
profile t efficient feasible pickup breaks speed quality = record {
  solver_type = t;
  max_jobs_efficient = efficient;
  max_jobs_feasible = feasible;
  supports_pickup_delivery = pickup;
  supports_multi_depot = true;
  supports_breaks = breaks;
  speed_score = speed;
  quality_factor = quality;
}

pub solver_profiles : List SolverProfile
unfolding profile
solver_profiles =
    profile vroom (some 150) (some 500) false true 3000 97
    ∷ profile ortools (some 300) (some 2000) true true 1000 98
    ∷ profile genetic (some 1000) (some 5000) true false 600 92
    ∷ profile greedy none none true false 30000 85
    ∷ []

-- The widths of the windows that are given: their number, and the sums of their ends and starts.
window_sums : List Job → ℕ × ℕ × ℕ
window_sums [] = (0, 0, 0)
window_sums (j ∷ js) =
    let (n, ends, starts) = window_sums js in
    elim j.time_window_start [
      | none ↦ (n, ends, starts)
      | some from ↦ elim j.time_window_end [
        | none ↦ (n, ends, starts)
        | some to ↦ (suc n, ends + to, starts + from)
      ]
    ]

-- `1 - (avg_width - 1) / 7 > 0.5`: on average less than four hours and a half.
tight_windows : RoutingProblem → Bool
unfolding window_sums
tight_windows p =
    let (n, ends, starts) = window_sums p.jobs in
    p.has_time_windows && (not (n == 0) && ltb ends (starts + n * 16200))

any_capacity : List VehicleConfig → Bool
any_capacity [] = false
any_capacity (v ∷ vs) = ltb 0 v.capacity_kg || any_capacity vs

abbrev same_number : ℤ → ℤ → Bool
same_number a b = (pos_part a == pos_part b) && (neg_part a == neg_part b)

abbrev same_place : Location → Location → Bool
same_place a b = same_number a.latitude b.latitude && same_number a.longitude b.longitude

starts_elsewhere : Location → List VehicleConfig → Bool
starts_elsewhere l [] = false
starts_elsewhere l (v ∷ vs) = elim v.start_location [
  | none ↦ starts_elsewhere l vs
  | some m ↦ not (same_place l m) || starts_elsewhere l vs
]

-- More than one start in the set of starts.
several_starts : List VehicleConfig → Bool
several_starts [] = false
several_starts (v ∷ vs) = elim v.start_location [
  | none ↦ several_starts vs
  | some l ↦ starts_elsewhere l vs
]

unfoldable pub any_breaks : List VehicleConfig → Bool
any_breaks [] = false
any_breaks (v ∷ vs) = ltb 0 (length v.breaks) || any_breaks vs

abbrev pub points : ℕ → Bool → ℕ
points n b = if b then n else 0

-- A job has no field `pickup_location`, so `hasattr` finds none.
pub extract_features : RoutingProblem → ProblemFeatures
unfolding tight_windows any_capacity several_starts any_breaks
extract_features p =
    let n = length p.jobs in
    let vehicles = if length p.vehicles == 0 then 1 else length p.vehicles in
    let tight = tight_windows p in
    let capacity = any_capacity p.vehicles in
    record {
      n_jobs = n;
      n_vehicles = vehicles;
      has_time_windows = p.has_time_windows;
      is_tight = tight;
      has_capacity = capacity;
      has_pickup_delivery = false;
      has_multi_depot = several_starts p.vehicles;
      has_breaks = any_breaks p.vehicles;
      constraint_complexity =
          points 2 p.has_time_windows
          + points 1 capacity
          + points 2 tight
          + points 1 (ltb 5 vehicles)
          + points 2 (ltb 200 n)
          + points 2 (ltb 500 n);
    }

pub classify_complexity : ProblemFeatures → ProblemComplexity
classify_complexity f =
    if ltb 500 f.n_jobs || leb 8 f.constraint_complexity
    then very_complex
    else if ltb 200 f.n_jobs || leb 5 f.constraint_complexity
    then complex
    else if ltb 50 f.n_jobs || leb 3 f.constraint_complexity
    then medium
    else simple

abbrev pub within : ℕ → Option ℕ → Bool
within n none = true
within n (some limit) = leb n limit

-- The hard constraints.
pub is_capable : ProblemFeatures → SolverProfile → Bool
is_capable f s =
    (not f.has_pickup_delivery || s.supports_pickup_delivery)
    && ((not f.has_multi_depot || s.supports_multi_depot)
        && ((not f.has_breaks || s.supports_breaks) && within f.n_jobs s.max_jobs_feasible))

pub filter_by_capabilities : ProblemFeatures → List SolverProfile → List SolverProfile
filter_by_capabilities f [] = []
filter_by_capabilities f (s ∷ ss) =
    let rest = filter_by_capabilities f ss in if is_capable f s then s ∷ rest else rest

-- The size score, times the number of jobs.
pub size_score : ℕ → SolverProfile → ℕ
size_score n s =
    let scale = max 1 n in
    if within n s.max_jobs_efficient
    then (5000 + 3000) * scale
    else if within n s.max_jobs_feasible
    then 5000 * scale + 3000 * elim s.max_jobs_efficient [ none ↦ 0 | some k ↦ k ]
    else 0

abbrev pub weighted : Bool → ℕ → ℕ
weighted preferred score = if preferred then score * 3 / 2 else score

-- The bonuses of a solver.
pub bonus : ProblemFeatures → SolverType → ℕ
bonus f vroom =
    points 500 (f.has_time_windows && f.is_tight) + points 1000 (ltb f.constraint_complexity 3)
bonus f ortools = points 1000 (f.has_time_windows && f.is_tight)
bonus f genetic = points 1500 (ltb 300 f.n_jobs)
bonus f greedy = 0
bonus f auto = 0

pub score_solver : ProblemFeatures → Bool → Bool → SolverProfile → ℕ
score_solver f prefer_speed prefer_quality s =
    size_score f.n_jobs s
    + max 1 f.n_jobs
      * (weighted prefer_quality (s.quality_factor * 30)
          + weighted prefer_speed s.speed_score
          + bonus f s.solver_type)

-- `max(scores, key=scores.get)`: the first of the best.
pub best_solver : (SolverProfile → ℕ) → SolverProfile → List SolverProfile → SolverProfile
best_solver score best [] = best
best_solver score best (s ∷ ss) =
    best_solver score (if ltb (score best) (score s) then s else best) ss

pub select_from : (SolverProfile → ℕ) → List SolverProfile → SolverType
select_from score [] = greedy
select_from score (s ∷ ss) = (best_solver score s ss).solver_type

pub select_by : ProblemFeatures → Bool → Bool → SolverType
select_by f prefer_speed prefer_quality =
    select_from (score_solver f prefer_speed prefer_quality)
      (filter_by_capabilities f solver_profiles)

pub select : RoutingProblem → Bool → Bool → SolverType
select p prefer_speed prefer_quality = select_by (extract_features p) prefer_speed prefer_quality
