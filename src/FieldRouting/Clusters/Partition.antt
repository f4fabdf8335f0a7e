-- ===== src/FieldRouting/Clusters/Partition.antt =====
-- The clusters of `_cluster_locations`, and the plans for them.
use mathlib.Core.List.Perm
use mathlib.Core.List.{append-nil}
use sfa_routing.Prelude.{
  ℕ, zero, suc, ◌-◌, ◌≤◌, ◌<◌, ◌≡◌, refl, false, Bool, Option, some, List, [], ◌∷◌, ◌++◌, inl, inr,
  Perm, arith, leb, ◌==◌, All, Bool-cases, length, map, length-append, length-map,
}
use sfa_routing.Prelude.Int.{ℤ}
use sfa_routing.Prelude.Perms.{length-perm}
use sfa_routing.FieldRouting.{TspLocation, TspRequest, StartLocation, WeekPlan, success}
use sfa_routing.FieldRouting.Clusters.{
  extract, is_west_of, is_nearer, grow_cluster, grow_clusters, cluster_locations, max_cluster_size,
  cluster_request, solve_clusters, solve_auto,
}
use sfa_routing.FieldRouting.Weeks.{generate_plan, distance_matrix, start_offset}
use sfa_routing.FieldRouting.Weeks.Plans.{generate_plan-length, solve_single-success}

extract-perm :
    (less : TspLocation → TspLocation → Bool) (x : TspLocation) (xs : List TspLocation)
    → Perm ((extract less x xs).0 ∷ (extract less x xs).1) (x ∷ xs)
unfolding extract
extract-perm less x [] = Perm.refl (x ∷ [])
extract-perm less x (y ∷ ys) =
    let r = extract less y ys in
    elim (Bool-cases (less (r.0) x)) [
      | inl better ↦
          rw better (Perm.trans (Perm.swap x (r.0) (r.1)) (Perm.cons x (extract-perm less y ys)))
      | inr worse ↦ rw worse (Perm.refl (x ∷ y ∷ ys))
    ]

abbrev pub all_of : List (List TspLocation) → List TspLocation
all_of [] = []
all_of (c ∷ cs) = c ++ all_of cs

-- A cluster has a location, and at most `size` of them.
abbrev pub HasSize : ℕ → List TspLocation → Type 0
HasSize size c = (0 < length c) × (length c ≤ size)

pub record AreClusters (size : ℕ) (ls : List TspLocation) (cs : List (List TspLocation))
    : Type 0 where
  pub perm : Perm (all_of cs) ls
  pub sizes : All (HasSize size) cs

module _ (haversine : ℤ → ℤ → ℤ → ℤ → ℕ) where
  grow_cluster-perm :
      (room : ℕ) (last : TspLocation) (ls : List TspLocation)
      → Perm ((grow_cluster haversine room last ls).0 ++ (grow_cluster haversine room last ls).1) ls
  unfolding grow_cluster
  grow_cluster-perm zero last ls = Perm.refl ls
  grow_cluster-perm (suc room) last [] = Perm.refl []
  grow_cluster-perm (suc room) last (x ∷ xs) =
      let next = extract (is_nearer haversine last) x xs in
      Perm.trans (Perm.cons (next.0) (grow_cluster-perm room (next.0) (next.1)))
        (extract-perm (is_nearer haversine last) x xs)

  grow_cluster-length :
      (room : ℕ) (last : TspLocation) (ls : List TspLocation)
      → length (grow_cluster haversine room last ls).0 ≤ room
  unfolding grow_cluster
  grow_cluster-length zero last ls = omega arith
  grow_cluster-length (suc room) last [] = omega arith
  grow_cluster-length (suc room) last (x ∷ xs) =
      let next = extract (is_nearer haversine last) x xs in
      omega (arith, grow_cluster-length room (next.0) (next.1))

  grow_clusters-AreClusters :
      (fuel size : ℕ) (ls : List TspLocation)
      → length ls ≤ fuel
      → 1 ≤ size
      → AreClusters size ls (grow_clusters haversine fuel size ls)
  unfolding grow_clusters
  grow_clusters-AreClusters zero size [] enough h = record { perm = Perm.refl []; sizes = tt }
  grow_clusters-AreClusters zero size (x ∷ xs) enough h = absurd (omega arith)
  grow_clusters-AreClusters (suc fuel) size [] enough h = record { perm = Perm.refl []; sizes = tt }
  grow_clusters-AreClusters (suc fuel) size (x ∷ xs) enough h =
      let first = extract is_west_of x xs in
      let rest = grow_cluster haversine (size - 1) (first.0) (first.1) in
      let same = grow_cluster-perm (size - 1) (first.0) (first.1) in
      let fewer : length (rest.1) ≤ fuel = omega (
        arith,
        length-perm same,
        length-append {0} (rest.0) (rest.1),
        length-perm (extract-perm is_west_of x xs),
      ) in
      let ih = grow_clusters-AreClusters fuel size (rest.1) fewer h in
      record {
        perm =
            Perm.trans (Perm.cons (first.0) (Perm.trans (Perm.append_left (rest.0) ih.perm) same))
              (extract-perm is_west_of x xs);
        sizes = (
          (omega arith, omega (arith, grow_cluster-length (size - 1) (first.0) (first.1))),
          ih.sizes,
        );
      }

  -- Every location is in exactly one cluster, and no cluster is empty or above the size.
  cluster_locations-AreClusters :
      (size : ℕ) (ls : List TspLocation)
      → 1 ≤ size
      → 0 < length ls
      → AreClusters size ls (cluster_locations haversine size ls)
  unfolding cluster_locations
  cluster_locations-AreClusters size ls h some_location = elim (Bool-cases (leb (length ls) size)) [
    | inl small ↦ rw small (record {
      perm = rw append-nil (Perm.refl ls);
      sizes = ((some_location, ground arith), tt);
    })
    | inr large ↦ rw large (grow_clusters-AreClusters (length ls) size ls (omega arith) h)
  ]

  abbrev pub plan_of : Option StartLocation → List TspLocation → List WeekPlan
  plan_of start ls = generate_plan ls (distance_matrix haversine ls start) (start_offset start)

  solve_clusters-map :
      (size : ℕ) (start : Option StartLocation) (cs : List (List TspLocation))
      → All (HasSize size) cs
      → solve_clusters haversine start cs ≡ map (plan_of start) cs
  unfolding solve_clusters
  solve_clusters-map size start [] h = refl
  solve_clusters-map size start (c ∷ cs) h =
      let four : (length (plan_of start c) == 0) ≡ false =
        ground (
          arith,
          generate_plan-length c (distance_matrix haversine c start) (start_offset start),
        ) in
      rw
        (
          solve_single-success haversine (cluster_request start c) (h.0.0),
          four,
          solve_clusters-map size start cs (h.1),
        )
        refl

  some_cluster :
      (ls : List TspLocation) (cs : List (List TspLocation))
      → AreClusters max_cluster_size ls cs
      → 0 < length ls
      → 0 < length cs
  some_cluster ls [] are h = absurd (omega (arith, length-perm are.perm))
  some_cluster ls (c ∷ cs) are h = omega arith

  -- A request with a location gets one plan for each cluster; every location is in exactly one
  -- cluster, and a cluster has at most 50.
  pub solve_auto-AreClusters :
      (r : TspRequest)
      → 0 < length r.locations
      → (clusters : List (List TspLocation)) × AreClusters max_cluster_size r.locations clusters
        × (solve_auto haversine r
            ≡ record { code = success; plans = some (map (plan_of r.start_location) clusters) })
  unfolding solve_auto
  solve_auto-AreClusters r h =
      let cs = cluster_locations haversine max_cluster_size r.locations in
      let are = cluster_locations-AreClusters max_cluster_size r.locations (omega arith) h in
      let same = solve_clusters-map max_cluster_size r.start_location cs are.sizes in
      let some_location : (length r.locations == 0) ≡ false = ground arith in
      let one : 0 < length cs = some_cluster r.locations cs are h in
      let clusters : (length cs == 0) ≡ false = ground arith in
      let plans : (length (map (plan_of r.start_location) cs) == 0) ≡ false =
        ground (arith, length-map {0, 0} cs (plan_of r.start_location)) in
      (cs, are, rw (some_location, same, clusters, plans) refl)
