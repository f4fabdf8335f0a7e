-- ===== src/SpatialIndex/Samples.antt =====
-- A small index along a line, with cells of ten units.
use sfa_routing.Prelude.{ℕ, zero, suc, ◌+◌, ◌-◌, ◌/◌, ◌≡◌, refl, List, [], ◌∷◌, leb, if◌then◌else◌}
use sfa_routing.SpatialIndex.{
  SpatialEntity, Index, empty_index, add, drop_from, without, query_radius, query_point, collect,
  nearer_than, get_cell_size,
}
use sfa_routing.SpatialIndex.Consistent.{IsConsistent, empty_index-IsConsistent, add-IsConsistent}

abbrev cell : ℕ → ℕ → ℕ
cell lat lon = lat / 10

abbrev gap : ℕ → ℕ → SpatialEntity → ℕ
gap lat lon e = if leb lat e.latitude then e.latitude - lat else 1000

abbrev shop : ℕ → ℕ → SpatialEntity
shop id lat = record { id = id; latitude = lat; longitude = 0 }

-- Shop 1 moves from one cell to another.
abbrev moved : Index
moved = add cell (shop 1 27) (add cell (shop 2 5) (add cell (shop 1 3) empty_index))

add-IsConsistent_example : IsConsistent moved
add-IsConsistent_example =
    add-IsConsistent cell (shop 1 27) (add cell (shop 2 5) (add cell (shop 1 3) empty_index)) (
      add-IsConsistent cell (shop 2 5) (add cell (shop 1 3) empty_index)
        (add-IsConsistent cell (shop 1 3) empty_index empty_index-IsConsistent))

moved_runs : moved.bucket 0 ≡ shop 2 5 ∷ []
unfolding add drop_from without
moved_runs = refl

-- A line of cells of resolution 15, with an edge of 509 millimetres each.
abbrev line_cell : ℕ → ℕ → ℕ
line_cell lat lon = lat / 509

abbrev cells_from : ℕ → ℕ → List ℕ
cells_from c zero = []
cells_from c (suc n) = c ∷ cells_from (c + 1) n

abbrev line_disk : ℕ → ℕ → List ℕ
line_disk c k = cells_from (c - k) (c + k + 1 - (c - k))

abbrev along : ℕ → ℕ → SpatialEntity → ℕ
along lat lon e = if leb lat e.latitude then e.latitude - lat else lat - e.latitude

-- From 1000 with a radius of 800, two rings are searched: shop 1 is in them and too far, shop 2 is
-- found, and shop 3 is behind them.
abbrev three_shops : Index
three_shops =
    add line_cell (shop 3 3000) (add line_cell (shop 2 1600) (add line_cell (shop 1 1) empty_index))

query_radius_runs :
    query_radius line_cell line_disk along 15 1000 0 800 three_shops ≡ (shop 2 1600 ∷ [], 4)
unfolding query_radius query_point collect nearer_than get_cell_size add drop_from without
query_radius_runs = refl
