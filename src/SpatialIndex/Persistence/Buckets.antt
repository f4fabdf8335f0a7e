-- ===== src/SpatialIndex/Persistence/Buckets.antt =====
-- The buckets of a loaded index.
use mathlib.Core.List.{append-nil, append_assoc}
use sfa_routing.Prelude.{
  ℕ, zero, suc, ◌≡◌, ◌≤◌, refl, ◌∙◌, sym, true, false, some, List, [], ◌∷◌, ◌++◌, arith, ◌==◌,
  if◌then◌else◌, inl, inr, Bool-cases,
}
use sfa_routing.SpatialIndex.{SpatialEntity, Index, key_in}
use sfa_routing.SpatialIndex.Consistent.{count, count-append}
use sfa_routing.SpatialIndex.Persistence.{
  Redis, is_empty, save_cells, load_entity, load_entities, content, load_keys,
}

-- How often SCAN yields a cell.
abbrev pub yields : List ℕ → ℕ → ℕ
yields [] c = 0
yields (k ∷ ks) c = let rest = yields ks c in if k == c then suc rest else rest

pub copies : ℕ → List SpatialEntity → List SpatialEntity
copies zero es = []
copies (suc n) es = es ++ copies n es

bucket-load_entities :
    (cell c : ℕ) (es : List SpatialEntity) (s : Index)
    → (load_entities cell es s).bucket c ≡ (if c == cell then s.bucket c ++ es else s.bucket c)
unfolding load_entities load_entity
bucket-load_entities cell c [] s = ground (arith, append-nil (s.bucket c))
bucket-load_entities cell c (e ∷ es) s =
    bucket-load_entities cell c es (load_entity cell e s) ∙ elim (Bool-cases (c == cell)) [
      | inl same ↦
          let it : c ≡ cell = ground arith in
          rw (same, it) (append_assoc (s.bucket cell) (e ∷ []) es)
      | inr other ↦ rw other refl
    ]

pub bucket-load_keys :
    (redis : Redis) (keys : List ℕ) (c : ℕ) (r : Index × ℕ)
    → (load_keys redis keys r).0.bucket c ≡ r.0.bucket c ++ copies (yields keys c) (content redis c)
unfolding load_keys copies
bucket-load_keys redis [] c r = sym (append-nil (r.0.bucket c))
bucket-load_keys redis (k ∷ ks) c r = bucket-load_keys redis ks c _ ∙ elim (Bool-cases (k == c)) [
  | inl same ↦
      let it : c ≡ k = ground arith in
      let back : (c == k) ≡ true = ground arith in
      rw (bucket-load_entities k c (content redis k) r.0, back, same)
        (rw it
          (append_assoc (r.0.bucket k) (content redis k) (copies (yields ks k) (content redis k))))
  | inr other ↦
      let back : (c == k) ≡ false = ground arith in
      rw (bucket-load_entities k c (content redis k) r.0, back, other) refl
]

-- What Redis has for a cell after saving.
pub content-save_cells :
    (s : Index) (cells : List ℕ) (c : ℕ) (r : Redis × ℕ)
    → (save_cells s cells r).0 c ≡ (
        if key_in cells c
        then (if is_empty (s.bucket c) then r.0 c else some (s.bucket c))
        else r.0 c)
unfolding save_cells
content-save_cells s [] c r = refl
content-save_cells s (x ∷ xs) c r = content-save_cells s xs c _ ∙ ground arith

pub copies-nil : (n : ℕ) → copies n [] ≡ []
unfolding copies
copies-nil zero = refl
copies-nil (suc n) = copies-nil n

pub copies-one : (es : List SpatialEntity) → copies 1 es ≡ es
unfolding copies
copies-one es = append-nil es

pub count-copies :
    (id n : ℕ) (es : List SpatialEntity) → 1 ≤ n → count id es ≤ count id (copies n es)
unfolding copies
count-copies id zero es h = absurd (omega arith)
count-copies id (suc n) es h = omega (arith, count-append id es (copies n es))
