-- ===== src/SpatialIndex/Persistence/Samples.antt =====
-- Cells ten units wide; two shops, one of which moves.
use sfa_routing.Prelude.{ℕ, ◌/◌, ◌≡◌, ◌≤◌, refl, some, List, [], ◌∷◌, arith}
use sfa_routing.SpatialIndex.{SpatialEntity, Index, empty_index, without, drop_from, add}
use sfa_routing.SpatialIndex.Consistent.{
  count, IsConsistent, empty_index-IsConsistent, add-IsConsistent,
}
use sfa_routing.SpatialIndex.Persistence.{save_to_redis, load_from_redis}
use sfa_routing.SpatialIndex.Persistence.Keyed.{IsKeyed, empty_index-IsKeyed, add-IsKeyed}
use sfa_routing.SpatialIndex.Persistence.RoundTrip.{no_keys, Scanned, load_from_redis-save_to_redis}
use sfa_routing.SpatialIndex.Persistence.Stale.{load_from_redis_repeats}

abbrev cell : ℕ → ℕ → ℕ
cell lat lon = lat / 10

abbrev shop : ℕ → ℕ → SpatialEntity
shop id lat = record { id = id; latitude = lat; longitude = 0 }

abbrev one : Index
one = add cell (shop 1 3) empty_index

abbrev two : Index
two = add cell (shop 2 27) one

abbrev keys : List ℕ
keys = 2 ∷ 0 ∷ []

two-IsConsistent : IsConsistent two
two-IsConsistent =
    add-IsConsistent cell (shop 2 27) one
      (add-IsConsistent cell (shop 1 3) empty_index empty_index-IsConsistent)

two-IsKeyed : IsKeyed two
two-IsKeyed =
    add-IsKeyed cell (shop 2 27) one (add-IsKeyed cell (shop 1 3) empty_index empty_index-IsKeyed)

two-Scanned : Scanned two keys
unfolding add drop_from
two-Scanned c h = ground arith

load_from_redis-save_to_redis_example :
    let loaded = (load_from_redis (save_to_redis two no_keys).0 keys).0 in
    ((c : ℕ) → loaded.bucket c ≡ two.bucket c)
    × ((id : ℕ) → loaded.entity_cells id ≡ two.entity_cells id)
load_from_redis-save_to_redis_example =
    load_from_redis-save_to_redis two keys two-IsConsistent two-IsKeyed two-Scanned

saved_count : (save_to_redis two no_keys).1 ≡ 2
unfolding save_to_redis add drop_from
saved_count = refl

in_cell_0 : two.entity_cells 1 ≡ some 0
unfolding add
in_cell_0 = refl

alone : two.bucket 0 ≡ shop 1 3 ∷ []
unfolding add drop_from
alone = refl

-- Shop 1 moves from cell 0 to cell 2.
load_from_redis_repeats_example :
    let after = add cell (shop 1 21) two in
    let loaded = (load_from_redis (save_to_redis after (save_to_redis two no_keys).0).0 keys).0 in
    (after.bucket 0 ≡ []) × (1 ≤ count 1 (loaded.bucket 0)) × (1 ≤ count 1 (loaded.bucket 2))
load_from_redis_repeats_example =
    load_from_redis_repeats cell (shop 1 21) (shop 1 3) two 0 keys two-IsConsistent two-IsKeyed
      in_cell_0 alone (omega arith) refl refl

loaded_twice :
    (load_from_redis
      (save_to_redis (add cell (shop 1 21) two) (save_to_redis two no_keys).0).0
      keys).1
    ≡ 3
unfolding save_to_redis load_from_redis add drop_from without
loaded_twice = refl
