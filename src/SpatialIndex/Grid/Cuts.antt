-- ===== src/SpatialIndex/Grid/Cuts.antt =====
-- How far apart the cells of two places are.
use native.Mathlib.Nat.{div-lt_iff_lt-mul, div-mul-le_self, lt-div-mul-add, le-div_iff_mul-le}
use sfa_routing.Prelude.{ℕ, suc, ◌+◌, ◌*◌, ◌/◌, ◌≤◌, ◌<◌, arith}
use sfa_routing.Prelude.Int.{ℤ, pos, negsuc, ◌≤ℤ◌, ◌+ℤ◌, int_laws}
use sfa_routing.SpatialIndex.Grid.{cut}

-- At most `r` apart.
abbrev pub Near : ℕ → ℤ → ℤ → Type 0
Near r a b = (a ≤ℤ b +ℤ pos r) × (b ≤ℤ a +ℤ pos r)

module _ (g : ℕ) (positive : 1 ≤ g) where
  div_near : (a b r : ℕ) → a ≤ b + r → a / g ≤ b / g + r / g + 1
  div_near a b r h =
      let left : b < b / g * g + g = lt-div-mul-add positive in
      let right : r < r / g * g + g = lt-div-mul-add positive in
      let small : a < (b / g + r / g + 2) * g = omega arith in
      let low : a / g < b / g + r / g + 2 = (div-lt_iff_lt-mul positive).1 small in omega arith

  div_sum : (a b r : ℕ) → a + b ≤ r → a / g + b / g ≤ r / g
  div_sum a b r h =
      let left : a / g * g ≤ a = div-mul-le_self a g in
      let right : b / g * g ≤ b = div-mul-le_self b g in
      let small : (a / g + b / g) * g ≤ r = omega arith in (le-div_iff_mul-le positive).1 small

  -- Cutting towards zero keeps two places together up to one cell.
  pub cut-Near : (a b : ℤ) (r : ℕ) → Near r a b → Near (r / g + 1) (cut g a) (cut g b)
  unfolding cut
  cut-Near (pos a) (pos b) r h =
      let left = div_near a b r (omega int_laws) in
      let right = div_near b a r (omega int_laws) in (omega int_laws, omega int_laws)
  cut-Near (pos a) (negsuc b) r h =
      let both = div_sum a (suc b) r (omega int_laws) in (omega int_laws, omega int_laws)
  cut-Near (negsuc a) (pos b) r h =
      let both = div_sum (suc a) b r (omega int_laws) in (omega int_laws, omega int_laws)
  cut-Near (negsuc a) (negsuc b) r h =
      let left = div_near (suc a) (suc b) r (omega int_laws) in
      let right = div_near (suc b) (suc a) r (omega int_laws) in (omega int_laws, omega int_laws)
