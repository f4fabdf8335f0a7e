-- ===== src/SpatialIndex/Persistence.antt =====
-- `save_to_redis` and `load_from_redis` of backend/app/services/realtime/spatial_index.py.
-- There is a Redis client. Redis holds a list of entities for a cell under the prefix of the index,
-- and JSON gives back what it is given. `keys` are the cells of the keys that SCAN yields, in its
-- order and with its repetitions.

pub mod Buckets
pub mod Keyed
pub mod Places
pub mod RoundTrip
pub mod Stale
pub mod Samples
use sfa_routing.Prelude.{
  ℕ, zero, suc, ◌+◌, Bool, true, false, Option, none, some, List, [], ◌∷◌, ◌++◌, if◌then◌else◌,
  length,
}
use sfa_routing.SpatialIndex.{SpatialEntity, Index, empty_index, update, touch}

abbrev pub Redis : Type 0
Redis = ℕ → Option (List SpatialEntity)

abbrev pub is_empty : List SpatialEntity → Bool
is_empty [] = true
is_empty (e ∷ es) = false

-- The loop over `_index.items()`, with the number of cells that are saved.
pub save_cells : Index → List ℕ → Redis × ℕ → Redis × ℕ
save_cells s [] r = r
save_cells s (c ∷ cs) r =
    save_cells s cs
      (if is_empty (s.bucket c) then r else (update r.0 c (some (s.bucket c)), r.1 + 1))

pub save_to_redis : Index → Redis → Redis × ℕ
unfolding save_cells
save_to_redis s redis = save_cells s s.cells (redis, 0)

-- One round of the loop over the entities of a key.
pub load_entity : ℕ → SpatialEntity → Index → Index
load_entity cell e s = record {
  cells = touch cell s.cells;
  bucket = update s.bucket cell (s.bucket cell ++ e ∷ []);
  entity_cells = update s.entity_cells e.id (some cell);
}

pub load_entities : ℕ → List SpatialEntity → Index → Index
unfolding load_entity
load_entities cell [] s = s
load_entities cell (e ∷ es) s = load_entities cell es (load_entity cell e s)

abbrev pub entities_of : Option (List SpatialEntity) → List SpatialEntity
entities_of none = []
entities_of (some es) = es

abbrev pub content : Redis → ℕ → List SpatialEntity
content redis cell = entities_of (redis cell)

-- The loop over the keys, with the number of entities that are loaded; a key without a value is passed
-- over, which is what loading no entity does.
pub load_keys : Redis → List ℕ → Index × ℕ → Index × ℕ
unfolding load_entities
load_keys redis [] r = r
load_keys redis (cell ∷ keys) r =
    let es = content redis cell in load_keys redis keys (load_entities cell es r.0, r.1 + length es)

-- The index is cleared first.
pub load_from_redis : Redis → List ℕ → Index × ℕ
unfolding load_keys
load_from_redis redis keys = load_keys redis keys (empty_index, 0)
