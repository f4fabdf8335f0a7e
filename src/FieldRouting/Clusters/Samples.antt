-- ===== src/FieldRouting/Clusters/Samples.antt =====
-- Three shops along a line, in clusters of at most two.
use sfa_routing.Prelude.{ℕ, ◌+◌, ◌-◌, ◌≡◌, refl, none, some, List, [], ◌∷◌, map, arith}
use sfa_routing.Prelude.Int.{ℤ, pos, pos_part}
use sfa_routing.FieldRouting.{TspLocation, TspRequest, auto, once_a_week, success}
use sfa_routing.FieldRouting.Clusters.{
  extract, grow_cluster, grow_clusters, cluster_locations, solve_auto, max_cluster_size,
}
use sfa_routing.FieldRouting.Clusters.Partition.{AreClusters, plan_of, solve_auto-AreClusters}

abbrev shop : ℕ → ℕ → TspLocation
shop id x = record {
  id = id;
  latitude = pos 0;
  longitude = pos x;
  intensity = once_a_week;
  visit_duration = 30;
  working_days = 1 ∷ [];
}

abbrev line : ℤ → ℤ → ℤ → ℤ → ℕ
line lat1 lng1 lat2 lng2 = (pos_part lng1 - pos_part lng2) + (pos_part lng2 - pos_part lng1)

clusters_run :
    cluster_locations line 2 (shop 1 50 ∷ shop 2 10 ∷ shop 3 30 ∷ [])
    ≡ (shop 2 10 ∷ shop 3 30 ∷ []) ∷ (shop 1 50 ∷ []) ∷ []
unfolding cluster_locations grow_clusters grow_cluster extract
clusters_run = refl

abbrev request : TspRequest
request = record { kind = auto; locations = shop 1 50 ∷ shop 2 10 ∷ []; start_location = none }

solve_auto-AreClusters_example :
    (clusters : List (List TspLocation)) × AreClusters max_cluster_size request.locations clusters
    × (solve_auto line request
        ≡ record { code = success; plans = some (map (plan_of line none) clusters) })
solve_auto-AreClusters_example = solve_auto-AreClusters line request (omega arith)
