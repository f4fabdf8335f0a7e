-- ===== src/SpatialIndex/Queries.antt =====
-- `query_radius`.
use sfa_routing.Prelude.{ℕ, ◌+◌, ◌≤◌, ◌≡◌, List, [], ◌∷◌, ◌==◌, if◌then◌else◌, ◌⊎◌, All}
use sfa_routing.SpatialIndex.{SpatialEntity, Index, cell_of}
use sfa_routing.SpatialIndex.Consistent.{count}

-- How often a cell is among the cells.
unfoldable pub times : ℕ → List ℕ → ℕ
times c [] = 0
times c (x ∷ xs) = (if x == c then 1 else 0) + times c xs

pub Held : SpatialEntity → List SpatialEntity → Type 0
Held e [] = ⊥
Held e (x ∷ xs) = (x ≡ e) ⊎ Held e xs

module _ (distance : ℕ → ℕ → SpatialEntity → ℕ) where
  module _ (latlng_to_cell : ℕ → ℕ → ℕ) (grid_disk : ℕ → ℕ → List ℕ) where
    -- The answer of a radius query: only entities within the radius, all of them, each once.
    pub record IsExact (lat lon radius : ℕ) (s : Index) (result : List SpatialEntity) : Type 0 where
      pub within : All (λ e. distance lat lon e ≤ radius) result
      pub complete :
          (e : SpatialEntity)
          → Held e (s.bucket (cell_of latlng_to_cell e))
          → distance lat lon e ≤ radius
          → Held e result
      pub once : (id : ℕ) → count id result ≤ 1
