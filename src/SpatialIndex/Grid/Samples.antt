-- ===== src/SpatialIndex/Grid/Samples.antt =====
-- A shop that moves and one far away, on a grid of ten units.
use sfa_routing.Prelude.{ℕ, ◌+◌, ◌-◌, ◌≡◌, refl, none, List, [], ◌∷◌, arith}
use sfa_routing.Prelude.Int.{ℤ, pos, negsuc, pos_part, neg_part, ◌+ℤ◌, ◌-ℤ◌, int_laws}
use sfa_routing.SpatialIndex.Grid.{
  GridEntity, empty_grid, cut, enter, others, leave_cell, int_range, scan_row, scan, within_radius,
  query_grid,
}
use sfa_routing.SpatialIndex.Grid.Squares.{only}
use sfa_routing.SpatialIndex.Grid.Kept.{enters, newest}
use sfa_routing.SpatialIndex.Grid.Exact.{Covers, near_version, query_grid-enters}

abbrev gap : ℤ → ℤ → ℕ
gap a b =
    pos_part a
    + neg_part b
    - (pos_part b + neg_part a)
    + (pos_part b + neg_part a - (pos_part a + neg_part b))

-- The distance in the streets of a town, a unit for each unit of degrees.
abbrev streets : ℤ → ℤ → GridEntity → ℕ
streets lat lon e = gap lat e.latitude + gap lon e.longitude

abbrev lat_range : ℕ → ℕ
lat_range radius = radius

abbrev lon_range : ℤ → ℕ → ℕ
lon_range lat radius = radius

covers : Covers streets (pos 2) (pos 0) 9 lat_range lon_range
unfolding Covers
covers e h = ((omega int_laws, omega int_laws), (omega int_laws, omega int_laws))

abbrev shop : ℕ → ℤ → GridEntity
shop id lat = record { id = id; latitude = lat; longitude = pos 0 }

abbrev shops : List GridEntity
shops = shop 1 (pos 40) ∷ shop 2 (pos 95) ∷ shop 1 (negsuc 3) ∷ []

abbrev found : List GridEntity
found = query_grid streets lat_range lon_range 10 (pos 2) (pos 0) 9 (enters 10 shops empty_grid)

query_grid-enters_example :
    only 1 found ≡ near_version streets (pos 2) (pos 0) 9 (newest (λ j. none) shops 1)
query_grid-enters_example =
    query_grid-enters streets (pos 2) (pos 0) 9 lat_range lon_range 10 (omega arith) covers shops 1

-- The shop is found at its new place, on the other side of zero.
found_runs : found ≡ shop 1 (negsuc 3) ∷ []
unfolding query_grid enters enter leave_cell others cut int_range scan scan_row within_radius ◌+ℤ◌
    ◌-ℤ◌
found_runs = refl
