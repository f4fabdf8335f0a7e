-- ===== src/SpatialIndex/Grid/Exact.antt =====
-- `query_radius` of the fallback index.
use sfa_routing.Prelude.{
  ℕ, ◌+◌, ◌*◌, ◌≤◌, ◌≡◌, refl, ap, ◌∙◌, true, Option, none, some, List, [], ◌∷◌, leb, ◌==◌, max,
  arith, inl, inr, Bool-cases,
}
use sfa_routing.Prelude.Int.{ℤ, pos, ◌+ℤ◌, ◌-ℤ◌, int_laws}
use sfa_routing.SpatialIndex.Grid.{
  GridEntity, Cell, cut, get_cell, GridIndex, empty_grid, int_range, scan, within_radius,
  cells_to_check, query_grid,
}
use sfa_routing.SpatialIndex.Grid.Cuts.{Near, cut-Near}
use sfa_routing.SpatialIndex.Grid.Squares.{only, in_span, when, only-scan, only-scan_none}
use sfa_routing.SpatialIndex.Grid.Kept.{
  enters, newest, cell_of_entity, in_cell, empty_grid-Keeps, enters-Keeps,
}

span_of_Near : (c a : ℤ) (k : ℕ) → Near k c a → in_span (c +ℤ (pos 0 -ℤ pos k)) (2 * k + 1) a ≡ true
unfolding ◌+ℤ◌ ◌-ℤ◌
span_of_Near c a k h = ground arith

widen_Near : (c a : ℤ) (r m : ℕ) → r ≤ m → Near r c a → Near m c a
widen_Near c a r m h near = (omega int_laws, omega int_laws)

module _ (distance : ℤ → ℤ → GridEntity → ℕ) (lat lon : ℤ) (radius : ℕ) where
  only-within_radius :
      (id : ℕ) (es : List GridEntity)
      → only id (within_radius distance lat lon radius es)
        ≡ within_radius distance lat lon radius (only id es)
  unfolding only within_radius
  only-within_radius id [] = refl
  only-within_radius id (e ∷ es) = elim (Bool-cases (leb (distance lat lon e) radius)) [
    | inl near ↦ elim (Bool-cases (e.id == id)) [
      | inl it ↦
          rw (near, it, only, within_radius)
            (rw near (ap (λ xs. e ∷ xs) (only-within_radius id es)))
      | inr other ↦ rw (near, other, only) (only-within_radius id es)
    ]
    | inr far ↦ elim (Bool-cases (e.id == id)) [
      | inl it ↦ rw (far, it, within_radius) (rw far (only-within_radius id es))
      | inr other ↦ rw (far, other) (only-within_radius id es)
    ]
  ]

  abbrev pub near_version : Option GridEntity → List GridEntity
  near_version none = []
  near_version (some e) = when (leb (distance lat lon e) radius) (e ∷ [])

  module _ (lat_range : ℕ → ℕ) (lon_range : ℤ → ℕ → ℕ) where
    -- The ranges of degrees cover the radius.
    unfoldable pub Covers : Type 0
    Covers =
        (e : GridEntity)
        → distance lat lon e ≤ radius
        → Near (lat_range radius) lat e.latitude × Near (lon_range lat radius) lon e.longitude

    module _ (g : ℕ) (positive : 1 ≤ g) (covers : Covers) where
      abbrev k : ℕ
      k = cells_to_check distance lat_range lon_range g lat radius

      abbrev start : ℤ
      start = pos 0 -ℤ pos k

      in_square :
          (e : GridEntity)
          → distance lat lon e ≤ radius
          → (in_span (cut g lat +ℤ start) (2 * k + 1) (cut g e.latitude) ≡ true)
            × (in_span (cut g lon +ℤ start) (2 * k + 1) (cut g e.longitude) ≡ true)
      unfolding Covers
      in_square e near =
          let (rows, columns) = covers e near in
          let m = max (lat_range radius) (lon_range lat radius) in
          (
            span_of_Near (cut g lat) (cut g e.latitude) k (
                cut-Near g positive lat e.latitude m
                  (widen_Near lat e.latitude (lat_range radius) m (omega arith) rows)),
            span_of_Near (cut g lon) (cut g e.longitude) k (
                cut-Near g positive lon e.longitude m
                  (widen_Near lon e.longitude (lon_range lat radius) m (omega arith) columns)),
          )

      -- In the square its one version is found; outside it is too far.
      found_version :
          (o : Option GridEntity)
          → within_radius distance lat lon radius (elim o [
            | none ↦ []
            | some e ↦
                when
                  (in_span (cut g lat +ℤ start) (2 * k + 1) (cut g e.latitude))
                  (when (in_span (cut g lon +ℤ start) (2 * k + 1) (cut g e.longitude)) (e ∷ []))
          ])
            ≡ near_version o
      unfolding within_radius
      found_version none = refl
      found_version (some e) = elim (Bool-cases (leb (distance lat lon e) radius)) [
        | inl near ↦
            let (rows, columns) = in_square e (ground arith) in rw (rows, columns, near) refl
        | inr far ↦
            let rows = in_span (cut g lat +ℤ start) (2 * k + 1) (cut g e.latitude) in
            let columns = in_span (cut g lon +ℤ start) (2 * k + 1) (cut g e.longitude) in
            elim (Bool-cases rows) [
              | inl r ↦ elim (Bool-cases columns) [
                | inl c ↦ rw (r, c, far) refl
                | inr c ↦ rw (r, c, far) refl
              ]
              | inr r ↦ rw (r, far) refl
            ]
      ]

      -- After entities have been added, some of them again at other places, a query of the fallback
      -- index finds of each entity its newest version, once, if that is within the radius, and
      -- nothing else, if the grid size is at least one unit and the ranges of degrees cover the radius.
      pub query_grid-enters :
          (es : List GridEntity) (id : ℕ)
          → only id
              (query_grid distance lat_range lon_range g lat lon radius (enters g es empty_grid))
            ≡ near_version (newest (λ j. none) es id)
      unfolding query_grid
      query_grid-enters es id =
          let s = enters g es empty_grid in
          let o = newest (λ j. none) es id in
          let kept = enters-Keeps g (λ j. none) es empty_grid (empty_grid-Keeps g) in
          let span = int_range start (2 * k + 1) in
          only-within_radius id (scan s (get_cell g lat lon) span span)
          ∙ (ap (within_radius distance lat lon radius) (scanned o s (kept.held id))
              ∙ found_version o)
        where
          scanned :
              (o : Option GridEntity) (s : GridIndex)
              → ((c : Cell) → only id (s.bucket c) ≡ in_cell g o c)
              → only id (
                  scan s
                    (get_cell g lat lon)
                    (int_range start (2 * k + 1))
                    (int_range start (2 * k + 1)))
                ≡ elim o [
                  | none ↦ []
                  | some e ↦
                      when (in_span (cut g lat +ℤ start) (2 * k + 1) (cut g e.latitude)) (
                        when
                          (in_span (cut g lon +ℤ start) (2 * k + 1) (cut g e.longitude))
                          (e ∷ []))
                ]
          scanned none s held =
              only-scan_none s id held (cut g lat) (cut g lon) start (2 * k + 1) start (2 * k + 1)
          scanned (some e) s held =
              only-scan s id (cell_of_entity g e) (e ∷ []) held (cut g lat) (cut g lon) start
                (2 * k + 1) start (2 * k + 1)
