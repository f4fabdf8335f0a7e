-- ===== src/SpatialIndex/Persistence/RoundTrip.antt =====
-- Saving an index and loading it again: into an empty Redis, and over an older copy.
use sfa_routing.Prelude.{
  ℕ, ◌≡◌, refl, ◌∙◌, ap, sym, true, false, none, List, [], ◌∷◌, arith, if◌then◌else◌, inl, inr,
  Bool-cases, Option-cases,
}
use sfa_routing.SpatialIndex.{SpatialEntity, Index, empty_index, key_in}
use sfa_routing.SpatialIndex.Consistent.{count, IsConsistent}
use sfa_routing.SpatialIndex.Persistence.{
  Redis, is_empty, save_to_redis, entities_of, content, load_from_redis,
}
use sfa_routing.SpatialIndex.Persistence.Buckets.{
  yields, copies-nil, copies-one, bucket-load_keys, content-save_cells,
}
use sfa_routing.SpatialIndex.Persistence.Keyed.{IsKeyed}
use sfa_routing.SpatialIndex.Persistence.Places.{place-load_keys_none, place-load_keys}

-- SCAN yields every saved cell once.
abbrev pub Scanned : Index → List ℕ → Type 0
Scanned s keys = (c : ℕ) → is_empty (s.bucket c) ≡ false → yields keys c ≡ 1

abbrev pub no_keys : Redis
no_keys c = none

pub content-save_to_redis :
    (s : Index) (redis : Redis) (c : ℕ)
    → IsKeyed s
    → content (save_to_redis s redis).0 c
      ≡ (if is_empty (s.bucket c) then content redis c else s.bucket c)
unfolding save_to_redis IsKeyed
content-save_to_redis s redis c keyed =
    ap entities_of (content-save_cells s s.cells c (redis, 0))
    ∙ elim (Bool-cases (is_empty (s.bucket c))) [
      | inl bare ↦ rw bare (ground arith)
      | inr full ↦ rw (full, keyed c full) refl
    ]

is_empty-nil : (es : List SpatialEntity) → is_empty es ≡ true → es ≡ []
is_empty-nil [] h = refl
is_empty-nil (e ∷ es) h = cc

pub key_in-yields : (keys : List ℕ) (c : ℕ) → yields keys c ≡ 1 → key_in keys c ≡ true
key_in-yields [] c h = absurd (omega arith)
key_in-yields (k ∷ ks) c h = ground (arith, key_in-yields ks c)

pub full-count : (id : ℕ) (es : List SpatialEntity) → count id es ≡ 1 → is_empty es ≡ false
unfolding count
full-count id [] h = absurd (omega arith)
full-count id (e ∷ es) h = refl

module _ (s : Index) (keys : List ℕ) (ok : IsConsistent s) (keyed : IsKeyed s)
    (scanned : Scanned s keys) where
  abbrev saved : Redis
  saved = (save_to_redis s no_keys).0

  abbrev loaded : Index
  loaded = (load_from_redis saved keys).0

  content-saved : (c : ℕ) → content saved c ≡ s.bucket c
  content-saved c =
      content-save_to_redis s no_keys c keyed ∙ (elim (Bool-cases (is_empty (s.bucket c))) [
        | inl bare ↦ rw bare (sym (is_empty-nil (s.bucket c) bare))
        | inr full ↦ rw full refl
      ])

  bucket-loaded : (c : ℕ) → loaded.bucket c ≡ s.bucket c
  unfolding load_from_redis
  bucket-loaded c =
      bucket-load_keys saved keys c (empty_index, 0)
      ∙ rw (content-saved c) (elim (Bool-cases (is_empty (s.bucket c))) [
        | inl bare ↦ rw (is_empty-nil (s.bucket c) bare) (copies-nil (yields keys c))
        | inr full ↦ rw (scanned c full) (copies-one (s.bucket c))
      ])

  place-loaded : (id : ℕ) → loaded.entity_cells id ≡ s.entity_cells id
  unfolding load_from_redis IsConsistent
  place-loaded id = elim (Option-cases (s.entity_cells id)) [
    | inl absent ↦ rw absent (
        place-load_keys_none saved id keys (empty_index, 0)
          (λ c. ap (count id) (content-saved c) ∙ (ok id c ∙ rw absent refl)))
    | inr (cell, found) ↦
        let here : count id (s.bucket cell) ≡ 1 = ok id cell ∙ rw found (ground arith) in
        let key = key_in-yields keys cell (scanned cell (full-count id (s.bucket cell) here)) in
        rw found (
          place-load_keys saved id cell keys (empty_index, 0)
            (λ c. ap (count id) (content-saved c) ∙ (ok id c ∙ rw found refl))
          ∙ rw key refl)
  ]

  -- An index whose two maps agree and whose full buckets have keys is saved into an empty Redis. When
  -- SCAN yields every saved cell once, loading gives the same bucket for each cell and the same cell for
  -- each entity.
  pub load_from_redis-save_to_redis :
      ((c : ℕ) → loaded.bucket c ≡ s.bucket c)
      × ((id : ℕ) → loaded.entity_cells id ≡ s.entity_cells id)
  load_from_redis-save_to_redis = (bucket-loaded, place-loaded)
