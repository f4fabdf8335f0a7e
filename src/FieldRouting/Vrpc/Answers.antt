-- ===== src/FieldRouting/Vrpc/Answers.antt =====
-- The answer of `_solve_greedy`.
use mathlib.Core.List.Perm
use mathlib.Core.List.{append-nil, map-append}
use native.Mathlib.Bridge.{le_prop}
use sfa_routing.Prelude.{
  range, ℕ, zero, suc, ◌+◌, ◌-◌, ◌≤◌, ◌<◌, ◌≡◌, refl, sym, ap, ◌∙◌, subst, some, List, [], ◌∷◌,
  ◌++◌, inl, inr, Perm, arith, Bool-cases, List-cases, length, All, map, ◌==◌,
}
use sfa_routing.Prelude.Perms.{All-perm}
use sfa_routing.FieldRouting.{VrpcLoop, VrpcRequest, VrpcResponse, success, no_solution_found}
use sfa_routing.FieldRouting.Vrpc.{
  round_2, round_routes, Fleet, serve_vehicles, to_response, no_routes, failed, solve_greedy,
  max_distance, point_weight,
}
use sfa_routing.FieldRouting.Vrpc.Drives.{all_points, distance_of, duration_of}
use sfa_routing.FieldRouting.Vrpc.Vehicles.{
  fleet_points, fleet_sum, AreCarried, IsUnservable, AreServed, serve_vehicles-AreServed,
  All-append_right,
}

-- The stored indices, which count from 0.
abbrev pub loop_indices : List VrpcLoop → List ℕ
loop_indices [] = []
loop_indices (l ∷ ls) = l.route ++ loop_indices ls

abbrev pub fleet_indices : List (List VrpcLoop) → List ℕ
fleet_indices [] = []
fleet_indices (ls ∷ rest) = loop_indices ls ++ fleet_indices rest

pred_suc : (xs : List ℕ) → map (λ (p : ℕ). p - 1) (map suc xs) ≡ xs
pred_suc [] = refl
pred_suc (x ∷ xs) = rw (pred_suc xs) (ap (λ y. y ∷ xs) (omega arith))

all_points-indices : (ls : List VrpcLoop) → map (λ (p : ℕ). p - 1) (all_points ls) ≡ loop_indices ls
all_points-indices [] = refl
all_points-indices (l ∷ ls) =
    map-append (λ (p : ℕ). p - 1) (map suc l.route) (all_points ls)
    ∙ (rw (pred_suc l.route, all_points-indices ls))

fleet_points-indices :
    (routes : List (List VrpcLoop))
    → map (λ (p : ℕ). p - 1) (fleet_points routes) ≡ fleet_indices routes
fleet_points-indices [] = refl
fleet_points-indices (ls ∷ rest) =
    map-append (λ (p : ℕ). p - 1) (all_points ls) (fleet_points rest)
    ∙ (rw (all_points-indices ls, fleet_points-indices rest))

range-positive : (i n : ℕ) → 0 < i → All (λ p. 0 < p) (range i n)
range-positive i zero h = tt
range-positive i (suc n) h = (h, range-positive (suc i) n (omega arith))

range-pred : (i n : ℕ) → map (λ (p : ℕ). p - 1) (range (suc i) n) ≡ range i n
range-pred i zero = refl
range-pred i (suc n) = rw (range-pred (suc i) n) (ap (λ y. y ∷ range (suc i) n) (omega arith))

-- The sums before they are rounded: every point stands on exactly one loop, the vehicles carry their loops, the loops keep to the
-- limit, and the totals are the sums.
pub record IsPlan (distances durations : ℕ → ℕ → ℕ) (r : VrpcRequest)
    (routes : List (List VrpcLoop)) (total_distance total_duration : ℕ) : Type 0 where
  pub perm : Perm (fleet_indices routes) (range 0 (length r.points))
  pub carried :
      AreCarried distances durations
        (point_weight r.points)
        (max_distance r.max_cycle_distance)
        r.vehicles
        routes
  pub distance : total_distance ≡ fleet_sum distance_of routes
  pub duration : total_duration ≡ fleet_sum duration_of routes

pub data Answers (distances durations : ℕ → ℕ → ℕ) (r : VrpcRequest) (a : VrpcResponse)
    : Type 0 where
  planned :
      (routes : List (List VrpcLoop)) (total_distance total_duration : ℕ)
      → a ≡ record {
        code = success;
        vehicles = some (round_routes routes);
        total_distance = some (round_2 total_distance);
        total_duration = some (round_2 total_duration);
      }
      → IsPlan distances durations r routes total_distance total_duration
      → Answers distances durations r a
  unplanned :
      (p : ℕ)
      → a ≡ failed no_solution_found
      → 0 < p
      → p ≤ length r.points
      → IsUnservable distances durations
          (point_weight r.points)
          (max_distance r.max_cycle_distance)
          r.vehicles
          p
      → Answers distances durations r a

range-le : (i n top : ℕ) → i + n ≤ suc top → All (λ p. p ≤ top) (range i n)
range-le i zero top h = tt
range-le i (suc n) top h = (omega arith, range-le (suc i) n top (omega arith))

empty_of_length : (xs : List ℕ) → length xs ≡ 0 → xs ≡ []
empty_of_length [] h = refl
empty_of_length (x ∷ xs) h = absurd (omega arith)

module _ (distances durations : ℕ → ℕ → ℕ) (r : VrpcRequest) where
  abbrev served : Fleet
  served =
      serve_vehicles distances durations (point_weight r.points) (max_distance r.max_cycle_distance)
        r.vehicles (no_routes (length r.points))

  served-AreServed :
      AreServed distances durations
        (point_weight r.points)
        (max_distance r.max_cycle_distance)
        r.vehicles
        (no_routes (length r.points))
        served
  served-AreServed =
      serve_vehicles-AreServed distances durations (point_weight r.points)
        (max_distance r.max_cycle_distance) r.vehicles (no_routes (length r.points))
        (range-positive 1 (length r.points) (omega arith))

  served-IsPlan :
      length served.unassigned ≡ 0
      → IsPlan distances durations r served.vehicle_routes served.total_distance
          served.total_duration
  served-IsPlan finished =
      let s = served-AreServed in
      let points : Perm (fleet_points s.new) (range 1 (length r.points)) =
        subst (λ l. Perm l (range 1 (length r.points)))
          (ap (λ l. fleet_points s.new ++ l) (empty_of_length served.unassigned finished)
            ∙ append-nil (fleet_points s.new))
          s.perm in
      let indices : Perm (fleet_indices s.new) (range 0 (length r.points)) =
        rw (fleet_points-indices s.new, range-pred 0 (length r.points)) at
          (Perm.map (λ (p : ℕ). p - 1) points) in
      record {
        perm =
            subst (λ l. Perm (fleet_indices l) (range 0 (length r.points))) (sym s.routes) indices;
        carried =
            subst
              (AreCarried distances durations (point_weight r.points)
                (max_distance r.max_cycle_distance) r.vehicles)
              (sym s.routes) s.carried;
        distance = omega (arith, s.distance, ap (fleet_sum distance_of) s.routes);
        duration = omega (arith, s.duration, ap (fleet_sum duration_of) s.routes);
      }

  left-le :
      (done left : List ℕ)
      → Perm (done ++ left) (range 1 (length r.points))
      → All (λ p. p ≤ length r.points) left
  left-le done left p =
      All-append_right (λ p. p ≤ length r.points) done left
        (All-perm (λ p. p ≤ length r.points) (λ x. le_prop) (Perm.symm p)
          (range-le 1 (length r.points) (length r.points) (omega arith)))

  -- The answer of the delivery planner is a plan or says that there is no solution. The distances
  -- and durations of a plan's loops and its totals are rounded to hundredths; before that, every point
  -- is on exactly one loop, no loop is heavier than its vehicle's capacity or longer than the limit,
  -- and the totals are those of the loops. Where there is no solution, some point is too heavy or too
  -- far for every vehicle even alone.
  pub solve_greedy-Answers : Answers distances durations r (solve_greedy r durations distances)
  unfolding solve_greedy to_response
  solve_greedy-Answers =
      let s = served-AreServed in
      elim (Bool-cases (length served.unassigned == 0)) [
        | inl finished ↦ rw finished (
            planned served.vehicle_routes served.total_distance served.total_duration refl
              (served-IsPlan (ground arith)))
        | inr more ↦ elim (List-cases served.unassigned) [
          | inl empty ↦ absurd (ground (arith, ap length empty))
          | inr (p, ps, e) ↦
              let left =
                subst (All (λ p. p ≤ length r.points)) e
                  (left-le (fleet_points s.new) served.unassigned s.perm) in
              let positive = subst (All (λ p. 0 < p)) e s.left in
              let alone =
                subst
                  (All (
                    IsUnservable distances durations (point_weight r.points)
                      (max_distance r.max_cycle_distance) r.vehicles))
                  e s.unservable in
              rw more (unplanned p refl positive.0 left.0 alone.0)
        ]
      ]
