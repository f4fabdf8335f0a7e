-- ===== src/SpatialIndex/Grid/Kept.antt =====
-- What the index holds after entities have been added: the newest version of each one, in its cell.
use mathlib.Core.List.{append-nil}
use sfa_routing.Prelude.{
  ℕ, ◌≡◌, refl, ap, sym, ◌∙◌, true, false, Option, none, some, List, [], ◌∷◌, ◌++◌, ◌==◌,
  if◌then◌else◌, arith, inl, inr, Bool-cases, Option-cases,
}
use sfa_routing.Prelude.Int.{ℤ, eq_of_parts}
use sfa_routing.SpatialIndex.Grid.{
  GridEntity, Cell, eqb_ℤ, same_cell, GridIndex, empty_grid, get_cell, others, set_bucket,
  leave_cell, enter,
}
use sfa_routing.SpatialIndex.Grid.Squares.{only, only-append, when}

unfoldable pub enters : ℕ → List GridEntity → GridIndex → GridIndex
enters grid_size [] s = s
enters grid_size (e ∷ es) s = enters grid_size es (enter grid_size e s)

abbrev pub renewed : (ℕ → Option GridEntity) → GridEntity → ℕ → Option GridEntity
renewed f e id = if e.id == id then some e else f id

-- The newest version of each entity, where `f` has those before the list.
unfoldable pub newest : (ℕ → Option GridEntity) → List GridEntity → ℕ → Option GridEntity
newest f [] = f
newest f (e ∷ es) = newest (renewed f e) es

module _ (g : ℕ) where
  abbrev pub cell_of_entity : GridEntity → Cell
  cell_of_entity e = get_cell g e.latitude e.longitude

  abbrev pub cell_of_newest : Option GridEntity → Option Cell
  cell_of_newest none = none
  cell_of_newest (some e) = some (cell_of_entity e)

  abbrev pub in_cell : Option GridEntity → Cell → List GridEntity
  in_cell none c = []
  in_cell (some e) c = when (same_cell c (cell_of_entity e)) (e ∷ [])

  pub record Keeps (f : ℕ → Option GridEntity) (s : GridIndex) : Type 0 where
    pub cells : (id : ℕ) → s.entity_cells id ≡ cell_of_newest (f id)
    pub held : (id : ℕ) (c : Cell) → only id (s.bucket c) ≡ in_cell (f id) c

  pub empty_grid-Keeps : Keeps (λ id. none) empty_grid
  unfolding only
  empty_grid-Keeps = record { cells = λ id. refl; held = λ id c. refl }

only-others_same : (id : ℕ) (es : List GridEntity) → only id (others id es) ≡ []
unfolding only others
only-others_same id [] = refl
only-others_same id (e ∷ es) = elim (Bool-cases (e.id == id)) [
  | inl it ↦ rw it (only-others_same id es)
  | inr other ↦ rw (other, only) (rw other (only-others_same id es))
]

only-others_other :
    (id k : ℕ) (es : List GridEntity) → (k == id) ≡ false → only id (others k es) ≡ only id es
unfolding only others
only-others_other id k [] h = refl
only-others_other id k (e ∷ es) h = elim (Bool-cases (e.id == k)) [
  | inl gone ↦
      let not_it : (e.id == id) ≡ false = ground arith in
      rw (gone, not_it) (only-others_other id k es h)
  | inr stays ↦ elim (Bool-cases (e.id == id)) [
    | inl it ↦ rw (stays, it, only-others_other id k es h) refl
    | inr other ↦ rw (stays, other, only-others_other id k es h) refl
  ]
]

eqb_ℤ_lem : (a b : ℤ) → eqb_ℤ a b ≡ true → a ≡ b
eqb_ℤ_lem a b h = eq_of_parts a b (ground arith)

same_cell_lem : (c d : Cell) → same_cell c d ≡ true → c ≡ d
same_cell_lem (a, b) (c, d) h =
    let rows = eqb_ℤ_lem a c (ground arith) in let columns = eqb_ℤ_lem b d (ground arith) in cc

only-set_bucket :
    (id : ℕ) (bucket : Cell → List GridEntity) (cell c : Cell) (es : List GridEntity)
    → only id (set_bucket bucket cell (bucket cell ++ es) c)
      ≡ only id (bucket c) ++ when (same_cell c cell) (only id es)
only-set_bucket id bucket cell c es = elim (Bool-cases (same_cell c cell)) [
  | inl here ↦
      let e : c ≡ cell = same_cell_lem c cell here in
      rw here (only-append id (bucket cell) es ∙ ap (λ d. only id (bucket d) ++ only id es) (sym e))
  | inr away ↦ rw away (sym (append-nil (only id (bucket c))))
]

module _ (g : ℕ) (f : ℕ → Option GridEntity) (s : GridIndex) (h : Keeps g f s) where
  -- The old version is in no bucket any more, and the others are where they were.
  only-leave_cell :
      (k id : ℕ) (c : Cell)
      → only id (leave_cell (s.entity_cells k) k s.bucket c)
        ≡ (if k == id then [] else in_cell g (f id) c)
  unfolding leave_cell
  only-leave_cell k id c = elim (Option-cases (f k)) [
    | inl new ↦
        let nowhere : s.entity_cells k ≡ none = h.cells k ∙ ap (cell_of_newest g) new in
        elim (Bool-cases (k == id)) [
          | inl it ↦
              let e : k ≡ id = ground arith in
              rw (nowhere, it) (h.held id c ∙ ap (λ o. in_cell g o c) (ap f (sym e) ∙ new))
          | inr other ↦ rw (nowhere, other) (h.held id c)
        ]
    | inr (old, there) ↦
        let cell = cell_of_entity g old in
        let somewhere : s.entity_cells k ≡ some cell = h.cells k ∙ ap (cell_of_newest g) there in
        elim (Bool-cases (k == id)) [
          | inl it ↦
              let e : k ≡ id = ground arith in
              elim (Bool-cases (same_cell c cell)) [
                | inl here ↦
                    rw (somewhere, it, here, leave_cell)
                      (rw e (only-others_same id (s.bucket cell)))
                | inr away ↦
                    let empty : in_cell g (some old) c ≡ [] = rw away refl in
                    rw (somewhere, it, away, leave_cell)
                      (h.held id c ∙ (ap (λ o. in_cell g o c) (ap f (sym e) ∙ there) ∙ empty))
              ]
          | inr other ↦ elim (Bool-cases (same_cell c cell)) [
            | inl here ↦
                let q : c ≡ cell = same_cell_lem c cell here in
                rw (somewhere, other, here, leave_cell)
                  (only-others_other id k (s.bucket cell) other
                    ∙ (h.held id cell ∙ ap (in_cell g (f id)) (sym q)))
            | inr away ↦ rw (somewhere, other, away, leave_cell) (h.held id c)
          ]
        ]
  ]

  enter-Keeps : (e : GridEntity) → Keeps g (renewed f e) (enter g e s)
  unfolding enter only
  enter-Keeps e = record {
    cells = λ id. elim (Bool-cases (e.id == id)) [
      | inl it ↦ let it' : (id == e.id) ≡ true = ground arith in rw (it, it') refl
      | inr other ↦
          let other' : (id == e.id) ≡ false = ground arith in rw (other, other') (h.cells id)
    ];
    held = λ id c.
        let bucket = leave_cell (s.entity_cells e.id) e.id s.bucket in
        let cell = cell_of_entity g e in
        let before = only-leave_cell e.id id c in
        only-set_bucket id bucket cell c (e ∷ []) ∙ elim (Bool-cases (e.id == id)) [
          | inl it ↦ let gone : only id (bucket c) ≡ [] = before ∙ rw it refl in rw (gone, it) refl
          | inr other ↦
              let same : only id (bucket c) ≡ in_cell g (f id) c = before ∙ rw other refl in
              elim (Bool-cases (same_cell c cell)) [
                | inl here ↦ rw (same, other, here) (append-nil (in_cell g (f id) c))
                | inr away ↦ rw (same, other, away) (append-nil (in_cell g (f id) c))
              ]
        ];
  }

module _ (g : ℕ) where
  pub enters-Keeps :
      (f : ℕ → Option GridEntity) (es : List GridEntity) (s : GridIndex)
      → Keeps g f s
      → Keeps g (newest f es) (enters g es s)
  unfolding enters newest
  enters-Keeps f [] s h = h
  enters-Keeps f (e ∷ es) s h = enters-Keeps (renewed f e) es (enter g e s) (enter-Keeps g f s h e)
