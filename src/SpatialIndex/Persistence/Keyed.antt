-- ===== src/SpatialIndex/Persistence/Keyed.antt =====
-- The keys of the dictionary of buckets, before and after an operation.
use sfa_routing.Prelude.{
  ℕ, ◌≡◌, refl, ◌∙◌, true, false, Option, none, some, List, [], ◌∷◌, ◌++◌, arith, ◌==◌,
  if◌then◌else◌, inl, inr, Bool-cases, Option-cases,
}
use sfa_routing.SpatialIndex.{
  SpatialEntity, Index, empty_index, key_in, touch, without, drop_from, remove, add, cell_of,
}
use sfa_routing.SpatialIndex.Persistence.{is_empty}

-- Every bucket that holds something is under a key of the dictionary.
unfoldable pub IsKeyed : Index → Type 0
IsKeyed s = (c : ℕ) → is_empty (s.bucket c) ≡ false → key_in s.cells c ≡ true

pub empty_index-IsKeyed : IsKeyed empty_index
unfolding IsKeyed
empty_index-IsKeyed c h = cc

key_in-append :
    (xs : List ℕ) (c d : ℕ) → key_in (xs ++ d ∷ []) c ≡ (if key_in xs c then true else d == c)
key_in-append [] c d = ground arith
key_in-append (x ∷ xs) c d = ground (arith, key_in-append xs c d)

-- A key that is touched is there, and no key goes.
pub key_in-touch :
    (c d : ℕ) (cells : List ℕ)
    → key_in (touch d cells) c ≡ (if d == c then true else key_in cells c)
key_in-touch c d cells = ground (arith, key_in-append cells c d)

is_empty-without :
    (id : ℕ) (es : List SpatialEntity) → is_empty (without id es) ≡ false → is_empty es ≡ false
unfolding without
is_empty-without id [] h = cc
is_empty-without id (e ∷ es) h = refl

is_empty-drop_from :
    (place : Option ℕ) (id c : ℕ) (bucket : ℕ → List SpatialEntity)
    → is_empty (drop_from place id bucket c) ≡ false
    → is_empty (bucket c) ≡ false
unfolding drop_from
is_empty-drop_from none id c bucket h = h
is_empty-drop_from (some old) id c bucket h = elim (Bool-cases (c == old)) [
  | inl same ↦
      let it : c ≡ old = ground arith in rw it (is_empty-without id (bucket old) (rw same at h))
  | inr other ↦ rw other at h
]

pub remove-IsKeyed : (id : ℕ) (s : Index) → IsKeyed s → IsKeyed (remove id s).0
unfolding IsKeyed remove
remove-IsKeyed id s keyed c = elim (Option-cases (s.entity_cells id)) [
  | inl absent ↦ rw (absent, remove) (keyed c)
  | inr (cell, found) ↦
      rw (found, remove) (λ h. keyed c (is_empty-drop_from (some cell) id c s.bucket h))
]

pub add-IsKeyed :
    (latlng_to_cell : ℕ → ℕ → ℕ) (e : SpatialEntity) (s : Index)
    → IsKeyed s
    → IsKeyed (add latlng_to_cell e s)
unfolding IsKeyed add
add-IsKeyed latlng_to_cell e s keyed c h = elim (Bool-cases (cell_of latlng_to_cell e == c)) [
  | inl same ↦ key_in-touch c (cell_of latlng_to_cell e) s.cells ∙ rw same refl
  | inr other ↦
      let back : (c == cell_of latlng_to_cell e) ≡ false = ground arith in
      key_in-touch c (cell_of latlng_to_cell e) s.cells
      ∙ rw other (keyed c (is_empty-drop_from (s.entity_cells e.id) e.id c s.bucket (rw back at h)))
]
