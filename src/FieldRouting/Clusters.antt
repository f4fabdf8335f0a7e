-- ===== src/FieldRouting/Clusters.antt =====
-- `AutoPlanSolver` and `TSPService` of backend/app/services/planning/field_routing.py.
-- `min` gives the first of the least elements, and `remove` takes the first element that equals it,
-- which is the same one; so both are one function, `extract`. `haversine` is the distance.
pub mod Partition
pub mod Samples
use sfa_routing.Prelude.{
  ℕ, zero, suc, ◌-◌, Bool, ◌||◌, ◌⊎◌, inl, inr, Option, none, some, List, [], ◌∷◌, ltb, leb, ◌==◌,
  if◌then◌else◌, length,
}
use sfa_routing.Prelude.Int.{ℤ, ltb_ℤ}
use sfa_routing.FieldRouting.{
  TspKind, auto, single, TspLocation, StartLocation, TspRequest, WeekPlan, TspSingleResponse,
  TspAutoResponse, success, invalid_input_format, no_solution_found,
}
use sfa_routing.FieldRouting.Weeks.{solve_single}

abbrev pub max_cluster_size : ℕ
max_cluster_size = 50

-- The first of the least elements, and the others in their order.
pub extract :
    (TspLocation → TspLocation → Bool)
    → TspLocation
    → List TspLocation
    → TspLocation × List TspLocation
extract less x [] = (x, [])
extract less x (y ∷ ys) =
    let rest = extract less y ys in if less (rest.0) x then (rest.0, x ∷ (rest.1)) else (x, y ∷ ys)

abbrev pub is_west_of : TspLocation → TspLocation → Bool
is_west_of a b = ltb_ℤ a.longitude b.longitude

abbrev pub cluster_request : Option StartLocation → List TspLocation → TspRequest
cluster_request start ls = record { kind = single; locations = ls; start_location = start }

module _ (haversine : ℤ → ℤ → ℤ → ℤ → ℕ) where
  abbrev pub is_nearer : TspLocation → TspLocation → TspLocation → Bool
  is_nearer last a b =
      ltb (haversine last.latitude last.longitude a.latitude a.longitude)
        (haversine last.latitude last.longitude b.latitude b.longitude)

  -- `while remaining and len(cluster) < max_cluster_size`, with the room that is left.
  pub grow_cluster : ℕ → TspLocation → List TspLocation → List TspLocation × List TspLocation
  grow_cluster zero last remaining = ([], remaining)
  grow_cluster (suc room) last [] = ([], [])
  grow_cluster (suc room) last (x ∷ xs) =
      let next = extract (is_nearer last) x xs in
      let rest = grow_cluster room (next.0) (next.1) in ((next.0) ∷ (rest.0), rest.1)

  -- `while remaining`, on fuel: each cluster takes one location at least.
  pub grow_clusters : ℕ → ℕ → List TspLocation → List (List TspLocation)
  grow_clusters zero size remaining = []
  grow_clusters (suc fuel) size [] = []
  grow_clusters (suc fuel) size (x ∷ xs) =
      let first = extract is_west_of x xs in
      let rest = grow_cluster (size - 1) (first.0) (first.1) in
      ((first.0) ∷ (rest.0)) ∷ grow_clusters fuel size (rest.1)

  pub cluster_locations : ℕ → List TspLocation → List (List TspLocation)
  cluster_locations size ls =
      if leb (length ls) size then ls ∷ [] else grow_clusters (length ls) size ls

  -- `plans.append(result.weeks)`, if the result has weeks.
  abbrev pub keep_plan : TspSingleResponse → List (List WeekPlan) → List (List WeekPlan)
  keep_plan result plans = elim result.weeks [
    | none ↦ plans
    | some weeks ↦
        if result.code == success
        then (if length weeks == 0 then plans else weeks ∷ plans)
        else plans
  ]

  pub solve_clusters : Option StartLocation → List (List TspLocation) → List (List WeekPlan)
  solve_clusters start [] = []
  solve_clusters start (c ∷ cs) =
      keep_plan (solve_single haversine (cluster_request start c)) (solve_clusters start cs)

  pub solve_auto : TspRequest → TspAutoResponse
  solve_auto r =
      if length r.locations == 0
      then record { code = invalid_input_format; plans = none }
      else let clusters = cluster_locations max_cluster_size r.locations in
        let plans = solve_clusters r.start_location clusters in
        if length clusters == 0 || length plans == 0
        then record { code = no_solution_found; plans = none }
        else record { code = success; plans = some plans }

  -- `TSPService.solve`
  pub solve : TspRequest → TspSingleResponse ⊎ TspAutoResponse
  solve r = elim r.kind [ single ↦ inl (solve_single haversine r) | auto ↦ inr (solve_auto r) ]
