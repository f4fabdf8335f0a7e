-- ===== src/SpatialIndex/Persistence/Places.antt =====
-- The cells of the entities of a loaded index.
use sfa_routing.Prelude.{ℕ, ◌≡◌, refl, ◌∙◌, some, List, [], ◌∷◌, arith, ◌==◌, if◌then◌else◌}
use sfa_routing.SpatialIndex.{SpatialEntity, Index, key_in}
use sfa_routing.SpatialIndex.Consistent.{count, expected}
use sfa_routing.SpatialIndex.Persistence.{Redis, load_entity, load_entities, content, load_keys}

place-load_entities :
    (cell id : ℕ) (es : List SpatialEntity) (s : Index)
    → (load_entities cell es s).entity_cells id
      ≡ (if count id es == 0 then s.entity_cells id else some cell)
unfolding load_entities load_entity count
place-load_entities cell id [] s = refl
place-load_entities cell id (e ∷ es) s =
    ground (arith, place-load_entities cell id es (load_entity cell e s))

module _ (redis : Redis) (id : ℕ) where
  -- An entity that no key has keeps the cell that it has.
  pub place-load_keys_none :
      (keys : List ℕ) (r : Index × ℕ)
      → ((c : ℕ) → count id (content redis c) ≡ 0)
      → (load_keys redis keys r).0.entity_cells id ≡ r.0.entity_cells id
  unfolding load_keys
  place-load_keys_none [] r h = refl
  place-load_keys_none (k ∷ ks) r h =
      place-load_keys_none ks _ h ∙ (place-load_entities k id (content redis k) r.0 ∙ rw (h k) refl)

  -- An entity of one key has the cell of this key, once SCAN yields it.
  pub place-load_keys :
      (cell : ℕ) (keys : List ℕ) (r : Index × ℕ)
      → ((c : ℕ) → count id (content redis c) ≡ expected (some cell) c)
      → (load_keys redis keys r).0.entity_cells id
        ≡ (if key_in keys cell then some cell else r.0.entity_cells id)
  unfolding load_keys
  place-load_keys cell [] r h = refl
  place-load_keys cell (k ∷ ks) r h =
      place-load_keys cell ks _ h
      ∙ ground (arith, place-load_entities k id (content redis k) r.0, h k)
