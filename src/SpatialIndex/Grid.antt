-- ===== src/SpatialIndex/Grid.antt =====
-- `FallbackSpatialIndex` of backend/app/services/realtime/spatial_index.py, the index where H3 is not
-- installed, and the factory. Degrees count a small unit and are signed. `int(x / grid_size)` cuts
-- towards zero. The ranges of degrees for a radius and the great-circle formula, both floating-point
-- trigonometry, are parameters.

pub mod Cuts
pub mod Squares
pub mod Kept
pub mod Exact
pub mod Samples
use sfa_routing.Prelude.{
  ℕ, zero, suc, ◌+◌, ◌*◌, ◌/◌, Bool, true, false, ◌&&◌, Option, none, some, List, [], ◌∷◌, ◌++◌,
  leb, ◌==◌, if◌then◌else◌, max, inl, inr, ◌⊎◌,
}
use sfa_routing.Prelude.Int.{ℤ, pos, negsuc, pos_part, neg_part, ◌+ℤ◌, ◌-ℤ◌}
use sfa_routing.SpatialIndex.{Index, empty_index}

pub record GridEntity : Type 0 where
  pub id : ℕ
  pub latitude : ℤ
  pub longitude : ℤ

abbrev pub Cell : Type 0
Cell = ℤ × ℤ

abbrev pub eqb_ℤ : ℤ → ℤ → Bool
eqb_ℤ a b = pos_part a == pos_part b && neg_part a == neg_part b

abbrev pub same_cell : Cell → Cell → Bool
same_cell (a, b) (c, d) = eqb_ℤ a c && eqb_ℤ b d

-- `_index` is the bucket of each cell and `_entity_cells` the cell of each entity.
pub record GridIndex : Type 0 where
  pub bucket : Cell → List GridEntity
  pub entity_cells : ℕ → Option Cell

abbrev pub empty_grid : GridIndex
empty_grid = record { bucket = λ c. []; entity_cells = λ id. none }

-- `int(degrees / grid_size)`
pub cut : ℕ → ℤ → ℤ
cut grid_size (pos n) = pos (n / grid_size)
cut grid_size (negsuc n) = pos 0 -ℤ pos (suc n / grid_size)

abbrev pub get_cell : ℕ → ℤ → ℤ → Cell
get_cell grid_size lat lon = (cut grid_size lat, cut grid_size lon)

-- `[e for e in entities if e.id != id]`
pub others : ℕ → List GridEntity → List GridEntity
others id [] = []
others id (e ∷ es) = let rest = others id es in if e.id == id then rest else e ∷ rest

abbrev pub set_bucket : (Cell → List GridEntity) → Cell → List GridEntity → Cell → List GridEntity
set_bucket bucket cell es c = if same_cell c cell then es else bucket c

pub leave_cell : Option Cell → ℕ → (Cell → List GridEntity) → Cell → List GridEntity
leave_cell none id bucket = bucket
leave_cell (some old_cell) id bucket = set_bucket bucket old_cell (others id (bucket old_cell))

pub enter : ℕ → GridEntity → GridIndex → GridIndex
unfolding leave_cell
enter grid_size e s =
    let cell = get_cell grid_size e.latitude e.longitude in
    let bucket = leave_cell (s.entity_cells e.id) e.id s.bucket in
    record {
      bucket = set_bucket bucket cell (bucket cell ++ e ∷ []);
      entity_cells = λ id. if id == e.id then some cell else s.entity_cells id;
    }

-- `range(lo, lo + n)`
pub int_range : ℤ → ℕ → List ℤ
int_range lo zero = []
int_range lo (suc n) = lo ∷ int_range (lo +ℤ pos 1) n

-- The candidates in the row `i`, and those in the square of rows and columns.
pub scan_row : GridIndex → ℤ → ℤ → List ℤ → List GridEntity
scan_row s i center [] = []
scan_row s i center (dj ∷ djs) = s.bucket (i, center +ℤ dj) ++ scan_row s i center djs

pub scan : GridIndex → Cell → List ℤ → List ℤ → List GridEntity
scan s (ci, cj) djs [] = []
scan s (ci, cj) djs (di ∷ dis) = scan_row s (ci +ℤ di) cj djs ++ scan s (ci, cj) djs dis

module _ (distance : ℤ → ℤ → GridEntity → ℕ) where
  pub within_radius : ℤ → ℤ → ℕ → List GridEntity → List GridEntity
  within_radius lat lon radius [] = []
  within_radius lat lon radius (e ∷ es) =
      let rest = within_radius lat lon radius es in
      if leb (distance lat lon e) radius then e ∷ rest else rest

  module _ (lat_range : ℕ → ℕ) (lon_range : ℤ → ℕ → ℕ) where
    abbrev pub cells_to_check : ℕ → ℤ → ℕ → ℕ
    cells_to_check grid_size lat radius =
        max (lat_range radius) (lon_range lat radius) / grid_size + 1

    pub query_grid : ℕ → ℤ → ℤ → ℕ → GridIndex → List GridEntity
    query_grid grid_size lat lon radius s =
        let k = cells_to_check grid_size lat radius in
        let span = int_range (pos 0 -ℤ pos k) (2 * k + 1) in
        within_radius lat lon radius (scan s (get_cell grid_size lat lon) span span)

-- `create_spatial_index`: a new index of one of the two kinds.
abbrev pub create_spatial_index : Bool → Index ⊎ GridIndex
create_spatial_index h3_available = if h3_available then inl empty_index else inr empty_grid
