-- ===== src/SpatialIndex.antt =====
-- `H3SpatialIndex` of backend/app/services/realtime/spatial_index.py.
-- The H3 library and the haversine formula are parameters: the cell of a place (`latlng_to_cell` at
-- the index's resolution), the cells around a cell (`grid_disk`), and the distance to a place in
-- millimetres.

pub mod Consistent
pub mod Queries
pub mod Rings
pub mod Persistence
pub mod Grid
pub mod Samples
use sfa_routing.Prelude.{
  ℕ, zero, suc, ◌+◌, ◌-◌, ◌*◌, ◌/◌, Bool, true, false, not, Option, none, some, List, [], ◌∷◌, ◌++◌,
  map, ltb, leb, ◌==◌, if◌then◌else◌, length, take, max, get_or,
}

pub record SpatialEntity : Type 0 where
  pub id : ℕ
  pub latitude : ℕ
  pub longitude : ℕ

-- `_index` is the bucket of each cell, with the cells in the order of their first use, and
-- `_entity_cells` the cell of each entity.
pub record Index : Type 0 where
  pub cells : List ℕ
  pub bucket : ℕ → List SpatialEntity
  pub entity_cells : ℕ → Option ℕ

abbrev pub empty_index : Index
empty_index = record { cells = []; bucket = λ c. []; entity_cells = λ id. none }

-- `[e for e in entities if e.id != id]`
pub without : ℕ → List SpatialEntity → List SpatialEntity
without id [] = []
without id (e ∷ es) = let rest = without id es in if e.id == id then rest else e ∷ rest

abbrev pub update {ℓ} : {A : Type ℓ} → (ℕ → A) → ℕ → A → ℕ → A
update f k v j = if j == k then v else f j

abbrev pub key_in : List ℕ → ℕ → Bool
key_in [] c = false
key_in (x ∷ xs) c = if x == c then true else key_in xs c

-- A read of the `defaultdict` enters the key.
abbrev pub touch : ℕ → List ℕ → List ℕ
touch c cells = if key_in cells c then cells else cells ++ c ∷ []

pub drop_from : Option ℕ → ℕ → (ℕ → List SpatialEntity) → ℕ → List SpatialEntity
drop_from none id bucket = bucket
drop_from (some old_cell) id bucket = update bucket old_cell (without id (bucket old_cell))

pub remove : ℕ → Index → Index × Bool
remove id s = elim (s.entity_cells id) [
  | none ↦ (s, false)
  | some cell ↦ (
    record s {
      bucket = drop_from (some cell) id s.bucket;
      entity_cells = update s.entity_cells id none;
    },
    true,
  )
]

-- The cells with at least `min_entities`.
pub get_clusters : ℕ → Index → List ℕ → List (ℕ × List SpatialEntity)
get_clusters min_entities s [] = []
get_clusters min_entities s (c ∷ cs) =
    let rest = get_clusters min_entities s cs in
    if leb min_entities (length (s.bucket c)) then (c, s.bucket c) ∷ rest else rest

pub total_entities : Index → List ℕ → ℕ
total_entities s [] = 0
total_entities s (c ∷ cs) = length (s.bucket c) + total_entities s cs

abbrev pub cell_sizes : List ℕ
cell_sizes =
    1107712591 ∷ 418676005 ∷ 158244655 ∷ 59810857 ∷ 22606379 ∷ 8544408 ∷ 3229482 ∷ 1220629 ∷ 461354
    ∷ 174375 ∷ 65907 ∷ 24910 ∷ 9415 ∷ 3559 ∷ 1348 ∷ 509 ∷ []

-- `_get_cell_size_meters`: the edge length of a cell, in millimetres.
pub get_cell_size : ℕ → ℕ
get_cell_size resolution = get_or cell_sizes resolution 100000

-- The loop of `query_point` over the cells.
pub collect : Index → List ℕ → List SpatialEntity
collect s [] = []
collect s (c ∷ cs) = s.bucket c ++ collect s cs

module _ (distance : ℕ → ℕ → SpatialEntity → ℕ) where
  pub nearer_than : ℕ → ℕ → ℕ → List SpatialEntity → List SpatialEntity
  nearer_than lat lon radius [] = []
  nearer_than lat lon radius (e ∷ es) =
      let rest = nearer_than lat lon radius es in
      if leb (distance lat lon e) radius then e ∷ rest else rest

module _ (latlng_to_cell : ℕ → ℕ → ℕ) where
  abbrev pub cell_of : SpatialEntity → ℕ
  cell_of e = latlng_to_cell e.latitude e.longitude

  pub add : SpatialEntity → Index → Index
  unfolding drop_from
  add e s =
      let cell = cell_of e in
      let bucket = drop_from (s.entity_cells e.id) e.id s.bucket in
      record {
        cells = touch cell s.cells;
        bucket = update bucket cell (bucket cell ++ e ∷ []);
        entity_cells = update s.entity_cells e.id (some cell);
      }

  module _ (grid_disk : ℕ → ℕ → List ℕ) where
    abbrev pub cells_around : ℕ → ℕ → ℕ → List ℕ
    cells_around lat lon zero = latlng_to_cell lat lon ∷ []
    cells_around lat lon (suc k) = grid_disk (latlng_to_cell lat lon) (suc k)

    -- With the number of cells that were searched.
    pub query_point : ℕ → ℕ → ℕ → Index → List SpatialEntity × ℕ
    query_point lat lon k s = let cells = cells_around lat lon k in (collect s cells, length cells)

    module _ (distance : ℕ → ℕ → SpatialEntity → ℕ) where
      pub query_radius : ℕ → ℕ → ℕ → ℕ → Index → List SpatialEntity × ℕ
      query_radius resolution lat lon radius s =
          let k = max 1 (radius / get_cell_size resolution + 1) in
          let (entities, searched) = query_point lat lon k s in
          (nearer_than distance lat lon radius entities, searched)

      abbrev pub with_distance : ℕ → ℕ → SpatialEntity → SpatialEntity × ℕ
      with_distance lat lon e = (e, distance lat lon e)

      -- The loop over the rings: `left` of them are still to come.
      pub search_rings :
          ℕ → ℕ → ℕ → ℕ → ℕ → Index → List (SpatialEntity × ℕ) → List (SpatialEntity × ℕ)
      search_rings zero k n lat lon s candidates = candidates
      search_rings (suc left) k n lat lon s candidates =
          let found = candidates ++ map (with_distance lat lon) (query_point lat lon k s).0 in
          let rest = search_rings left (suc k) n lat lon s found in
          if leb n (length found) then found else rest

      pub insert_by_distance :
          SpatialEntity × ℕ → List (SpatialEntity × ℕ) → List (SpatialEntity × ℕ)
      insert_by_distance (e, d) [] = (e, d) ∷ []
      insert_by_distance (e, d) ((x, dx) ∷ xs) =
          let rest = insert_by_distance (e, d) xs in
          if leb d dx then (e, d) ∷ (x, dx) ∷ xs else (x, dx) ∷ rest

      pub sort_by_distance : List (SpatialEntity × ℕ) → List (SpatialEntity × ℕ)
      sort_by_distance [] = []
      sort_by_distance (c ∷ cs) = insert_by_distance c (sort_by_distance cs)

      pub query_nearest : ℕ → ℕ → ℕ → ℕ → Index → List (SpatialEntity × ℕ)
      query_nearest n max_k_ring lat lon s =
          take n (sort_by_distance (search_rings (max_k_ring + 1) 0 n lat lon s []))
