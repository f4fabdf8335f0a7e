-- ===== src/SpatialIndex/Consistent.antt =====
-- The two maps of the index, before and after an operation.
use sfa_routing.Prelude.{
  ℕ, ◌+◌, ◌≡◌, refl, ◌∙◌, true, Option, none, some, List, [], ◌∷◌, ◌++◌, arith, ◌==◌, if◌then◌else◌,
  inl, inr, Bool-cases, Option-cases,
}
use sfa_routing.SpatialIndex.{
  SpatialEntity, Index, empty_index, without, drop_from, remove, cell_of, add,
}

-- How often an entity is in a bucket.
unfoldable pub count : ℕ → List SpatialEntity → ℕ
count id [] = 0
count id (e ∷ es) = (if e.id == id then 1 else 0) + count id es

pub count-append :
    (id : ℕ) (xs ys : List SpatialEntity) → count id (xs ++ ys) ≡ count id xs + count id ys
unfolding count
count-append id [] ys = omega arith
count-append id (x ∷ xs) ys = omega (arith, count-append id xs ys)

count-without :
    (id other : ℕ) (es : List SpatialEntity)
    → count other (without id es) ≡ (if other == id then 0 else count other es)
unfolding count without
count-without id other [] = ground arith
count-without id other (e ∷ es) = ground (arith, count-without id other es)

-- Once in its own cell, and in no other.
abbrev pub expected : Option ℕ → ℕ → ℕ
expected none c = 0
expected (some cell) c = if c == cell then 1 else 0

unfoldable pub IsConsistent : Index → Type 0
IsConsistent s = (id c : ℕ) → count id (s.bucket c) ≡ expected (s.entity_cells id) c

pub empty_index-IsConsistent : IsConsistent empty_index
unfolding IsConsistent count
empty_index-IsConsistent id c = refl

count-drop_from :
    (place : Option ℕ) (id other c : ℕ) (bucket : ℕ → List SpatialEntity)
    → count other (drop_from place id bucket c) ≡ (
        if other == id
        then elim place [
          | none ↦ count other (bucket c)
          | some cell ↦ if c == cell then 0 else count other (bucket c)
        ]
        else count other (bucket c))
unfolding drop_from
count-drop_from none id other c bucket = ground arith
count-drop_from (some cell) id other c bucket = ground (arith, count-without id other (bucket cell))

==-refl : (n : ℕ) → (n == n) ≡ true
==-refl n = ground arith

-- The old bucket loses the entity, and no other is changed.
dropped :
    (s : Index) (place : Option ℕ) (id other c : ℕ)
    → IsConsistent s
    → s.entity_cells id ≡ place
    → count other (drop_from place id s.bucket c)
      ≡ (if other == id then 0 else expected (s.entity_cells other) c)
unfolding IsConsistent
dropped s place id other c h p = elim (Bool-cases (other == id)) [
  | inl same ↦
      let e : other ≡ id = ground arith in
      rw (count-drop_from place id other c s.bucket, same) (gone place p e)
  | inr differs ↦ rw (count-drop_from place id other c s.bucket, differs) (h other c)
]
  where
    gone :
        (place : Option ℕ)
        → s.entity_cells id ≡ place
        → other ≡ id
        → elim place [
          | none ↦ count other (s.bucket c)
          | some cell ↦ if c == cell then 0 else count other (s.bucket c)
        ]
          ≡ 0
    gone none p e = h other c ∙ rw (e, p) refl
    gone (some cell) p e =
        let now : count other (s.bucket c) ≡ expected (some cell) c = h other c ∙ rw (e, p) refl in
        ground arith

pub remove-IsConsistent : (id : ℕ) (s : Index) → IsConsistent s → IsConsistent (remove id s).0
unfolding IsConsistent remove
remove-IsConsistent id s h other c = elim (Option-cases (s.entity_cells id)) [
  | inl absent ↦ rw (absent, remove) (h other c)
  | inr (cell, found) ↦
      rw (found, remove)
        (dropped s (some cell) id other c h found ∙ elim (Bool-cases (other == id)) [
          | inl same ↦ rw same refl
          | inr differs ↦ rw differs refl
        ])
]

count-one :
    (other : ℕ) (e : SpatialEntity) → count other (e ∷ []) ≡ (if other == e.id then 1 else 0)
unfolding count
count-one other e = ground arith

module _ (latlng_to_cell : ℕ → ℕ → ℕ) where
  -- Adding an entity to a consistent index, out of its old cell if it has one, gives a consistent
  -- index: every entity is exactly once in the bucket of its recorded cell and in no other, and an
  -- entity without a recorded cell is in none.
  pub add-IsConsistent :
      (e : SpatialEntity) (s : Index) → IsConsistent s → IsConsistent (add latlng_to_cell e s)
  unfolding IsConsistent add
  add-IsConsistent e s h other c =
      let cell : ℕ = cell_of latlng_to_cell e in
      let old = dropped s (s.entity_cells e.id) e.id other c h refl in
      let at_cell = dropped s (s.entity_cells e.id) e.id other cell h refl in
      (let more =
          count-append other (drop_from (s.entity_cells e.id) e.id s.bucket cell) (e ∷ []) in
        elim (Bool-cases (c == cell)) [
          | inl here ↦
              let same_cell : c ≡ cell = ground arith in
              elim (Bool-cases (other == e.id)) [
                | inl same ↦
                    let none_before : count other
                          (drop_from (s.entity_cells e.id) e.id s.bucket cell)
                        ≡ 0 =
                      at_cell ∙ rw same refl in
                    let one : count other (e ∷ []) ≡ 1 = count-one other e ∙ rw same refl in
                    rw (here, same) (more ∙ rw (none_before, one, here) refl)
                | inr differs ↦
                    let before : count other (drop_from (s.entity_cells e.id) e.id s.bucket cell)
                        ≡ expected (s.entity_cells other) cell =
                      at_cell ∙ rw differs refl in
                    let none_new : count other (e ∷ []) ≡ 0 = count-one other e ∙ rw differs refl in
                    rw (here, differs) (more ∙ rw (before, none_new, same_cell) (omega arith))
              ]
          | inr away ↦ elim (Bool-cases (other == e.id)) [
            | inl same ↦ rw (away, same) (old ∙ rw (same, away) refl)
            | inr differs ↦ rw (away, differs) (old ∙ rw differs refl)
          ]
        ])
