-- ===== src/SpatialIndex/Persistence/Stale.antt =====
-- An entity that leaves a cell between two runs of `save_to_redis`.
use sfa_routing.Prelude.{ℕ, ◌≡◌, ◌≢◌, ◌≤◌, refl, ◌∙◌, ap, sym, true, some, List, [], ◌∷◌, arith}
use sfa_routing.SpatialIndex.{
  SpatialEntity, Index, empty_index, key_in, drop_from, without, cell_of, add,
}
use sfa_routing.SpatialIndex.Consistent.{count, IsConsistent, add-IsConsistent}
use sfa_routing.SpatialIndex.Persistence.{Redis, save_to_redis, content, load_from_redis}
use sfa_routing.SpatialIndex.Persistence.Buckets.{yields, count-copies, bucket-load_keys}
use sfa_routing.SpatialIndex.Persistence.Keyed.{IsKeyed, add-IsKeyed}
use sfa_routing.SpatialIndex.Persistence.RoundTrip.{full-count, no_keys, content-save_to_redis}

yields-key_in : (keys : List ℕ) (c : ℕ) → key_in keys c ≡ true → 1 ≤ yields keys c
yields-key_in [] c h = cc
yields-key_in (k ∷ ks) c h = ground (arith, yields-key_in ks c)

-- What a scanned key holds is in the bucket of its cell.
count-load_from_redis :
    (redis : Redis) (keys : List ℕ) (id c : ℕ)
    → key_in keys c ≡ true
    → count id (content redis c) ≤ count id ((load_from_redis redis keys).0.bucket c)
unfolding load_from_redis
count-load_from_redis redis keys id c scanned =
    rw (bucket-load_keys redis keys c (empty_index, 0))
      (count-copies id (yields keys c) (content redis c) (yields-key_in keys c scanned))

module _ (latlng_to_cell : ℕ → ℕ → ℕ) (e e' : SpatialEntity) (s : Index) (old : ℕ) (keys : List ℕ)
    (ok : IsConsistent s) (keyed : IsKeyed s) (place : s.entity_cells e.id ≡ some old)
    (alone : s.bucket old ≡ e' ∷ []) (moved : cell_of latlng_to_cell e ≢ old) where
  abbrev after : Index
  after = add latlng_to_cell e s

  abbrev cell : ℕ
  cell = cell_of latlng_to_cell e

  same_id : count e.id (e' ∷ []) ≡ 1
  unfolding IsConsistent
  same_id = ap (count e.id) (sym alone) ∙ (ok e.id old ∙ rw place (ground arith))

  left : after.bucket old ≡ []
  unfolding add drop_from without count
  left = let it = same_id in rw (place, alone) (ground arith)

  arrived : count e.id (after.bucket cell) ≡ 1
  unfolding add IsConsistent
  arrived = add-IsConsistent latlng_to_cell e s ok e.id cell ∙ ground arith

  abbrev first : Redis
  first = (save_to_redis s no_keys).0

  abbrev second : Redis
  second = (save_to_redis after first).0

  stale : content second old ≡ e' ∷ []
  stale =
      content-save_to_redis after first old (add-IsKeyed latlng_to_cell e s keyed)
      ∙ (rw left (content-save_to_redis s no_keys old keyed ∙ rw alone refl))

  fresh : content second cell ≡ after.bucket cell
  fresh =
      content-save_to_redis after first cell (add-IsKeyed latlng_to_cell e s keyed)
      ∙ rw (full-count e.id (after.bucket cell) arrived) refl

  -- A consistent index is saved into an empty Redis; then an entity that is alone in its cell moves to
  -- another cell, and the index is saved again. When SCAN yields both cells, the index has nothing in the
  -- old cell, but the loaded one has the entity in the old cell and in the new one.
  pub load_from_redis_repeats :
      key_in keys old ≡ true
      → key_in keys cell ≡ true
      → let loaded = (load_from_redis second keys).0 in
        (after.bucket old ≡ [])
        × (1 ≤ count e.id (loaded.bucket old))
        × (1 ≤ count e.id (loaded.bucket cell))
  load_from_redis_repeats at_old at_cell =
      let a = count-load_from_redis second keys e.id old at_old in
      let b = count-load_from_redis second keys e.id cell at_cell in
      let one = ap (count e.id) stale ∙ same_id in
      let more = ap (count e.id) fresh in (left, omega arith, omega (arith, arrived))
