-- ===== src/SpatialIndex/Grid/Squares.antt =====
-- The square of cells that a query scans has every cell in it once.
use mathlib.Core.List.{append-nil}
use sfa_routing.Prelude.{
  ℕ, zero, suc, ◌+◌, ◌≡◌, refl, ap, sym, ◌∙◌, Bool, true, false, ◌&&◌, List, [], ◌∷◌, ◌++◌, ltb,
  leb, ◌==◌, if◌then◌else◌, arith, inl, inr, Bool-cases,
}
use sfa_routing.Prelude.Int.{ℤ, pos, pos_part, neg_part, ◌+ℤ◌, +ℤ_assoc}
use sfa_routing.SpatialIndex.Grid.{
  GridEntity, Cell, eqb_ℤ, same_cell, GridIndex, int_range, scan_row, scan,
}

-- The versions of an entity among others.
unfoldable pub only : ℕ → List GridEntity → List GridEntity
only id [] = []
only id (e ∷ es) = let rest = only id es in if e.id == id then e ∷ rest else rest

pub only-append : (id : ℕ) (xs ys : List GridEntity) → only id (xs ++ ys) ≡ only id xs ++ only id ys
unfolding only
only-append id [] ys = refl
only-append id (x ∷ xs) ys = elim (Bool-cases (x.id == id)) [
  | inl it ↦ rw (it, only-append id xs ys) refl
  | inr other ↦ rw (other, only-append id xs ys) refl
]

-- Among the `n` integers from `lo` on.
abbrev pub in_span : ℤ → ℕ → ℤ → Bool
in_span lo n b =
    leb (pos_part lo + neg_part b) (pos_part b + neg_part lo)
    && ltb (pos_part b + neg_part lo) (pos_part lo + neg_part b + n)

abbrev pub when : Bool → List GridEntity → List GridEntity
when b es = if b then es else []

first_in_span :
    (lo b : ℤ) (n : ℕ)
    → eqb_ℤ lo b ≡ true
    → (in_span (lo +ℤ pos 1) n b ≡ false) × (in_span lo (suc n) b ≡ true)
unfolding ◌+ℤ◌
first_in_span lo b n h = (ground arith, ground arith)

later_in_span :
    (lo b : ℤ) (n : ℕ) → eqb_ℤ lo b ≡ false → in_span (lo +ℤ pos 1) n b ≡ in_span lo (suc n) b
unfolding ◌+ℤ◌
later_in_span lo b n h = ground arith

span_step :
    (lo b : ℤ) (n : ℕ) (es : List GridEntity)
    → when (eqb_ℤ lo b) es ++ when (in_span (lo +ℤ pos 1) n b) es ≡ when (in_span lo (suc n) b) es
span_step lo b n es = elim (Bool-cases (eqb_ℤ lo b)) [
  | inl first ↦ let h = first_in_span lo b n first in rw (first, h.0, h.1) (append-nil es)
  | inr later ↦ rw (later, later_in_span lo b n later) refl
]

empty_span : (lo b : ℤ) → in_span lo 0 b ≡ false
empty_span lo b = ground arith

when_and : (a b : Bool) (es : List GridEntity) → when (a && b) es ≡ when a (when b es)
when_and true b es = refl
when_and false b es = refl

when_append : (a : Bool) (xs ys : List GridEntity) → when a xs ++ when a ys ≡ when a (xs ++ ys)
when_append true xs ys = refl
when_append false xs ys = refl

module _ (s : GridIndex) (id : ℕ) (cell : Cell) (es : List GridEntity)
    (held : (c : Cell) → only id (s.bucket c) ≡ when (same_cell c cell) es) where
  only-scan_row :
      (i x lo : ℤ) (n : ℕ)
      → only id (scan_row s i x (int_range lo n))
        ≡ when (eqb_ℤ i (cell.0)) (when (in_span (x +ℤ lo) n (cell.1)) es)
  unfolding scan_row int_range only
  only-scan_row i x lo zero =
      rw (empty_span (x +ℤ lo) (cell.1))
        (elim (Bool-cases (eqb_ℤ i (cell.0))) [ inl here ↦ rw here refl | inr away ↦ rw away refl ])
  only-scan_row i x lo (suc n) =
      let A = eqb_ℤ i (cell.0) in
      let rest = int_range (lo +ℤ pos 1) n in
      let first : only id (s.bucket (i, x +ℤ lo)) ≡ when A (when (eqb_ℤ (x +ℤ lo) (cell.1)) es) =
        held (i, x +ℤ lo) ∙ when_and A (eqb_ℤ (x +ℤ lo) (cell.1)) es in
      let later : only id (scan_row s i x rest)
          ≡ when A (when (in_span (x +ℤ lo +ℤ pos 1) n (cell.1)) es) =
        rw (+ℤ_assoc x lo (pos 1)) (only-scan_row i x (lo +ℤ pos 1) n) in
      only-append id (s.bucket (i, x +ℤ lo)) (scan_row s i x rest)
      ∙ (rw (first, later)
            (when_append A (when (eqb_ℤ (x +ℤ lo) (cell.1)) es)
              (when (in_span (x +ℤ lo +ℤ pos 1) n (cell.1)) es))
          ∙ ap (when A) (span_step (x +ℤ lo) (cell.1) n es))

  -- An entity whose cell is in the square is found once, another one not at all.
  pub only-scan :
      (y x lo : ℤ) (n : ℕ) (columns : ℤ) (m : ℕ)
      → only id (scan s (y, x) (int_range columns m) (int_range lo n))
        ≡ when (in_span (y +ℤ lo) n (cell.0)) (when (in_span (x +ℤ columns) m (cell.1)) es)
  unfolding scan int_range only
  only-scan y x lo zero columns m = rw (empty_span (y +ℤ lo) (cell.0)) refl
  only-scan y x lo (suc n) columns m =
      let row = int_range columns m in
      let rest = int_range (lo +ℤ pos 1) n in
      let found = when (in_span (x +ℤ columns) m (cell.1)) es in
      let first : only id (scan_row s (y +ℤ lo) x row) ≡ when (eqb_ℤ (y +ℤ lo) (cell.0)) found =
        only-scan_row (y +ℤ lo) x columns m in
      let later : only id (scan s (y, x) row rest)
          ≡ when (in_span (y +ℤ lo +ℤ pos 1) n (cell.0)) found =
        rw (+ℤ_assoc y lo (pos 1)) (only-scan y x (lo +ℤ pos 1) n columns m) in
      only-append id (scan_row s (y +ℤ lo) x row) (scan s (y, x) row rest)
      ∙ (rw (first, later) (span_step (y +ℤ lo) (cell.0) n found))

when_nil : (a : Bool) → when a [] ≡ []
when_nil true = refl
when_nil false = refl

-- An entity that is in no bucket is not found.
pub only-scan_none :
    (s : GridIndex) (id : ℕ)
    → ((c : Cell) → only id (s.bucket c) ≡ [])
    → (y x lo : ℤ) (n : ℕ) (columns : ℤ) (m : ℕ)
    → only id (scan s (y, x) (int_range columns m) (int_range lo n)) ≡ []
only-scan_none s id none_held y x lo n columns m =
    let origin : Cell = (pos 0, pos 0) in
    let rows = in_span (y +ℤ lo) n (pos 0) in
    let inner = in_span (x +ℤ columns) m (pos 0) in
    only-scan s id origin [] (λ c. none_held c ∙ sym (when_nil (same_cell c origin))) y x lo n
      columns m
    ∙ (ap (when rows) (when_nil inner) ∙ when_nil rows)
