-- ===== src/Selector/Samples.antt =====
-- The selection on the test data.
use sfa_routing.Prelude.{ℕ, ◌≡◌, refl, true, false}
use sfa_routing.Problem.{vroom}
use sfa_routing.Selector.{
  ProblemFeatures, solver_profiles, profile, is_capable, filter_by_capabilities, size_score, bonus,
  score_solver, best_solver, select_from, select_by,
}
use sfa_routing.Selector.Choice.{Chosen, select_by-Chosen}

-- With breaks, as many jobs as given, and nothing else.
abbrev with_breaks : ℕ → ProblemFeatures
with_breaks n = record {
  n_jobs = n;
  n_vehicles = 2;
  has_time_windows = false;
  is_tight = false;
  has_capacity = true;
  has_pickup_delivery = false;
  has_multi_depot = false;
  has_breaks = true;
  constraint_complexity = 1;
}

select_by_runs : select_by (with_breaks 80) false false ≡ vroom
unfolding select_by select_from best_solver score_solver bonus size_score filter_by_capabilities
    is_capable solver_profiles profile
select_by_runs = refl

select_by-Chosen_example :
    Chosen
      (with_breaks 80)
      (score_solver (with_breaks 80) false true)
      solver_profiles
      (select_by (with_breaks 80) false true)
select_by-Chosen_example = select_by-Chosen (with_breaks 80) false true
