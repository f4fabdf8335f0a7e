-- ===== src/FieldRouting/Vrpc/Refusals.antt =====
-- The check of the whole weight in `VRPCService.solve`.
use sfa_routing.Prelude.{ℕ, ◌≤◌, ◌<◌, ◌≡◌, refl, true, some, List, arith, length, ltb}
use sfa_routing.Prelude.Int.{ℤ}
use sfa_routing.Prelude.Perms.{sum_by}
use sfa_routing.FieldRouting.{VrpcRequest, VrpcLoop, success, weight_exceeds_capacity}
use sfa_routing.FieldRouting.Vrpc.{
  round_2, round_routes, all_urls, distance_matrix, duration_matrix, solve, solve_greedy, failed,
  point_weight, max_distance,
}
use sfa_routing.FieldRouting.Vrpc.Vehicles.{IsUnservable}
use sfa_routing.FieldRouting.Vrpc.Answers.{
  Answers, planned, unplanned, IsPlan, solve_greedy-Answers,
}

module _ (haversine : ℤ → ℤ → ℤ → ℤ → ℕ) (r : VrpcRequest) where
  -- Every point fits some vehicle on a loop of its own.
  abbrev pub IsEachServable : Type 0
  IsEachServable =
      (p : ℕ)
      → 0 < p
      → p ≤ length r.points
      → ¬ IsUnservable (distance_matrix haversine r) (duration_matrix haversine r)
          (point_weight r.points) (max_distance r.max_cycle_distance) r.vehicles p

  -- There is a plan with several loops.
  pub record IsPlannable : Type 0 where
    pub routes : List (List VrpcLoop)
    pub total_distance : ℕ
    pub total_duration : ℕ
    pub answer :
        solve_greedy r (duration_matrix haversine r) (distance_matrix haversine r) ≡ record {
          code = success;
          vehicles = some (round_routes routes);
          total_distance = some (round_2 total_distance);
          total_duration = some (round_2 total_duration);
        }
    pub plan :
        IsPlan
          (distance_matrix haversine r)
          (duration_matrix haversine r)
          r
          routes
          total_distance
          total_duration

  answers-IsPlannable :
      IsEachServable
      → Answers
          (distance_matrix haversine r)
          (duration_matrix haversine r)
          r
          (solve_greedy r (duration_matrix haversine r) (distance_matrix haversine r))
      → IsPlannable
  answers-IsPlannable h (planned routes distance duration e plan) = record {
    routes = routes;
    total_distance = distance;
    total_duration = duration;
    answer = e;
    plan = plan;
  }
  answers-IsPlannable h (unplanned p e low high alone) = absurd (h p low high alone)

  -- If every point fits some vehicle on a loop of its own, the greedy search has a plan; but if the
  -- weights are together more than the capacities, the request is refused without a search.
  pub solve_refuses_loops :
      all_urls r.urls r.vehicles ≡ true
      → sum_by (λ v. v.capacity) r.vehicles < sum_by (λ p. p.weight) r.points
      → IsEachServable
      → IsPlannable × (solve haversine r ≡ failed weight_exceeds_capacity)
  unfolding solve
  solve_refuses_loops urls heavy h =
      let over : ltb (sum_by (λ v. v.capacity) r.vehicles) (sum_by (λ p. p.weight) r.points)
          ≡ true =
        ground arith in
      (
        answers-IsPlannable h
            (solve_greedy-Answers (distance_matrix haversine r) (duration_matrix haversine r) r),
        rw (urls, over, solve) refl,
      )
