-- ===== src/Greedy/Solve.antt =====
-- `solve`: the loop over the vehicles and the whole solution.
use mathlib.Core.List.Perm
use mathlib.Core.List.{append_assoc, append-nil}
use sfa_routing.Prelude.{
  ℕ, suc, ◌≤◌, ◌≡◌, ◌≢◌, refl, ap, ◌∙◌, none, some, List, [], ◌∷◌, ◌++◌, map, Perm, arith, ltb,
  length, Option-cases, Bool-cases, inl, inr, ◌⊎◌,
}
use sfa_routing.Prelude.Perms.{sum_by, sum_by-append}
use sfa_routing.Problem.{Location, Job, VehicleConfig, Route, SolutionResult, RoutingProblem}
use sfa_routing.Greedy.{
  Assignment, contains, unassigned_from, get_depot, keep_route, assign_vehicles, to_solution,
  to_route, no_routes, no_solution, solve_jobs, build_route_for_vehicle, solve,
}
use sfa_routing.Greedy.Routes.{served, IsRoute, build_route_for_vehicle-IsRoute}

-- The identifiers of all jobs that the routes serve.
abbrev pub all_served : List Route → List ℕ
all_served [] = []
all_served (r ∷ rs) = served r.steps ++ all_served rs

all_served-append : (xs ys : List Route) → all_served (xs ++ ys) ≡ all_served xs ++ all_served ys
all_served-append [] ys = refl
all_served-append (x ∷ xs) ys = simp (all_served-append xs ys, append_assoc)

unassigned-none : (i : ℕ) (js : List Job) → unassigned_from [] i js ≡ map (λ j. j.id) js
unfolding unassigned_from contains
unassigned-none i [] = refl
unassigned-none i (j ∷ js) = ap (λ l. j.id ∷ l) (unassigned-none (suc i) js)

-- Every route has a job to serve and keeps to the capacity of one of the vehicles.
abbrev pub IsCarried : List VehicleConfig → Route → Type 0
IsCarried [] r = ⊥
IsCarried (v ∷ vs) r =
    ((r.vehicle_id ≡ some v.id) × (r.total_load ≤ v.capacity_kg)) ⊎ IsCarried vs r

abbrev pub AllRoutes : (Route → Type 0) → List Route → Type 0
AllRoutes P [] = Unit
AllRoutes P (r ∷ rs) = P r × AllRoutes P rs

AllRoutes-snoc :
    (P : Route → Type 0) (rs : List Route) (r : Route)
    → AllRoutes P rs
    → P r
    → AllRoutes P (rs ++ r ∷ [])
AllRoutes-snoc P [] r h p = (p, tt)
AllRoutes-snoc P (x ∷ rs) r h p = (h.0, AllRoutes-snoc P rs r h.1 p)

record IsAssignment (jobs : List Job) (a : Assignment) : Type 0 where
  split :
      Perm (all_served a.routes ++ unassigned_from a.assigned_jobs 0 jobs) (map (λ j. j.id) jobs)
  nonempty : AllRoutes (λ r. 3 ≤ length r.steps) a.routes
  distance : a.total_distance ≡ sum_by (λ r. r.total_distance_m) a.routes

all_served-snoc :
    (rs : List Route) (r : Route) → all_served (rs ++ r ∷ []) ≡ all_served rs ++ served r.steps
all_served-snoc rs r =
    all_served-append rs (r ∷ []) ∙ ap (λ l. all_served rs ++ l) (append-nil (served r.steps))

-- A kept route has a job, and a dropped one took nothing.
module _ (jobs : List Job) (v : VehicleConfig) (a : Assignment) (r : Route × ℕ × List ℕ)
    (route : IsRoute v jobs a.assigned_jobs r) where
  keep_route-IsAssignment : IsAssignment jobs a → IsAssignment jobs (keep_route a r)
  unfolding keep_route
  keep_route-IsAssignment h = elim (Bool-cases (ltb 2 (length r.0.steps))) [
    | inl more ↦ rw more (record {
      split =
          rw (all_served-snoc a.routes r.0, append_assoc)
            (Perm.trans (Perm.append_left (all_served a.routes) route.split) h.split);
      nonempty = AllRoutes-snoc _ a.routes r.0 h.nonempty (ground arith);
      distance = omega (
        arith,
        h.distance,
        route.distance,
        sum_by-append {0} (λ (x : Route). x.total_distance_m) a.routes (r.0 ∷ []),
      );
    })
    | inr less ↦ rw less h
  ]

  keep_route-All :
      (P : Route → Type 0) → P r.0 → AllRoutes P a.routes → AllRoutes P (keep_route a r).routes
  unfolding keep_route
  keep_route-All P p h = elim (Bool-cases (ltb 2 (length r.0.steps))) [
    | inl more ↦ rw more (AllRoutes-snoc P a.routes r.0 h p)
    | inr less ↦ rw less h
  ]

module _ (calculate_distance : Location → Location → ℕ) (clock : ℕ → ℕ) (jobs : List Job)
    (depot : Location) where
  abbrev assign : ℕ → List VehicleConfig → Assignment → Assignment
  assign = assign_vehicles calculate_distance clock jobs depot

  abbrev route_of : ℕ → VehicleConfig → Assignment → Route × ℕ × List ℕ
  route_of k v a = build_route_for_vehicle calculate_distance v jobs a.assigned_jobs depot (clock k)

  route_of-IsRoute :
      (k : ℕ) (v : VehicleConfig) (a : Assignment) → IsRoute v jobs a.assigned_jobs (route_of k v a)
  route_of-IsRoute k v a =
      build_route_for_vehicle-IsRoute calculate_distance v jobs a.assigned_jobs depot (clock k)

  assign-IsAssignment :
      (k : ℕ) (vs : List VehicleConfig) (a : Assignment)
      → IsAssignment jobs a
      → IsAssignment jobs (assign k vs a)
  unfolding assign_vehicles
  assign-IsAssignment k [] a h = h
  assign-IsAssignment k (v ∷ vs) a h =
      assign-IsAssignment (suc k) vs (keep_route a (route_of k v a))
        (keep_route-IsAssignment jobs v a (route_of k v a) (route_of-IsRoute k v a) h)

  vehicle-route :
      (k : ℕ) (v : VehicleConfig) (a : Assignment) → (route_of k v a).0.vehicle_id ≡ some v.id
  unfolding build_route_for_vehicle to_route
  vehicle-route k v a = refl

  assign-IsCarried :
      (all : List VehicleConfig) (k : ℕ) (vs : List VehicleConfig) (a : Assignment)
      → ((r : Route) → IsCarried vs r → IsCarried all r)
      → AllRoutes (IsCarried all) a.routes
      → AllRoutes (IsCarried all) (assign k vs a).routes
  unfolding assign_vehicles
  assign-IsCarried all k [] a sub h = h
  assign-IsCarried all k (v ∷ vs) a sub h =
      assign-IsCarried all (suc k) vs (keep_route a (route_of k v a)) (λ r c. sub r (inr c))
        (keep_route-All jobs v a (route_of k v a) (route_of-IsRoute k v a) (IsCarried all)
          (sub (route_of k v a).0 (inl (vehicle-route k v a, (route_of-IsRoute k v a).within))) h)

  no_routes-IsAssignment : IsAssignment jobs no_routes
  no_routes-IsAssignment = record {
    split = rw unassigned-none (Perm.refl _);
    nonempty = tt;
    distance = refl;
  }

get_depot-ne-none : (p : RoutingProblem) → p.jobs ≢ [] → get_depot p ≢ none
unfolding get_depot
get_depot-ne-none p h = ground arith

-- What a solution promises: each job is on one route or unassigned, and the routes are not empty,
-- keep to their vehicles' capacities and add up to the total distance.
pub record IsSolution (p : RoutingProblem) (s : SolutionResult) : Type 0 where
  pub split : Perm (all_served s.routes ++ s.unassigned_jobs) (map (λ j. j.id) p.jobs)
  pub nonempty : AllRoutes (λ r. 3 ≤ length r.steps) s.routes
  pub carried : AllRoutes (IsCarried p.vehicles) s.routes
  pub distance : s.total_distance_m ≡ sum_by (λ r. r.total_distance_m) s.routes

module _ (calculate_distance : Location → Location → ℕ) (clock : ℕ → ℕ) (p : RoutingProblem) where
  abbrev Solves : List Job → Type 0
  Solves jobs =
      (s : SolutionResult) × (solve_jobs calculate_distance clock p jobs ≡ some s) × IsSolution p s

  solve_jobs-Solves : (jobs : List Job) → p.jobs ≡ jobs → Solves jobs
  unfolding solve_jobs to_solution
  solve_jobs-Solves [] e = (
    no_solution,
    refl,
    record { split = rw e (Perm.refl []); nonempty = tt; carried = tt; distance = refl },
  )
  solve_jobs-Solves (j ∷ js) e = elim (Option-cases (get_depot p)) [
    | inl lost ↦ absurd (get_depot-ne-none p (λ empty. cc) lost)
    | inr (depot, found) ↦
        let a = assign calculate_distance clock (j ∷ js) depot 0 p.vehicles no_routes in
        let inv : IsAssignment (j ∷ js) a =
          assign-IsAssignment calculate_distance clock (j ∷ js) depot 0 p.vehicles no_routes
            (no_routes-IsAssignment calculate_distance clock (j ∷ js) depot) in
        (
          to_solution (j ∷ js) a,
          rw found,
          record {
            split = rw e inv.split;
            nonempty = inv.nonempty;
            carried =
                assign-IsCarried calculate_distance clock (j ∷ js) depot p.vehicles 0 p.vehicles
                  no_routes (λ r c. c) tt;
            distance = inv.distance;
          },
        )
  ]

  -- Solving always gives a solution: no job is lost or served twice, no route is empty, every route
  -- keeps to its vehicle's capacity, and the distances add up.
  pub solve-IsSolution :
      (s : SolutionResult) × (solve calculate_distance clock p ≡ some s) × IsSolution p s
  unfolding solve
  solve-IsSolution = solve_jobs-Solves p.jobs refl
