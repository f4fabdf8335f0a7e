-- ===== src/TwoOpt/Search.antt =====
-- The two loops of the 2-opt search, and the rule of the outer loop.
use mathlib.Core.List.Perm
use sfa_routing.Prelude.{
  ℕ, zero, suc, ◌+◌, ◌-◌, ◌≤◌, ◌<◌, ◌≡◌, refl, ◌∙◌, Bool, true, Option, some, List, inl, inr, Perm,
  arith, length, Option-cases,
}
use sfa_routing.Prelude.Int.{ℤ}
use sfa_routing.TwoOpt.{
  at, apply_2opt_swap, improves, search_j, search_i, end_index, search_pairs, add_delta, improve,
  improve_with_2opt, max_2opt_iterations,
}
use sfa_routing.TwoOpt.Swap.{swap-perm, at-swap_first, at-swap_last}

module _ (d : ℕ → ℕ → ℕ) (is_closed : Bool) (route : List ℕ) (best : ℤ) where
  pub record IsFound (i j bound : ℕ) : Type 0 where
    pub first : 1 ≤ i
    pub apart : suc i < j
    pub inside : j < bound
    pub better : improves d route best i j ≡ true

  search_j_sound :
      (i n j k : ℕ)
      → search_j d is_closed route best i n j ≡ some k
      → (j ≤ k) × (k < j + n) × (improves d route best i k ≡ true)
  unfolding search_j
  search_j_sound i zero j k e = cc
  search_j_sound i (suc n) j k e = ground (arith, search_j_sound i n (suc j) k)

  search_i_sound :
      (bound n i k l : ℕ)
      → search_i d is_closed route best bound n i ≡ some (k, l)
      → 1 ≤ i
      → IsFound k l bound
  unfolding search_i
  search_i_sound bound zero i k l e h = cc
  search_i_sound bound (suc n) i k l e h =
      elim (Option-cases (search_j d is_closed route best i (bound - (i + 2)) (i + 2))) [
        | inl nothing ↦
            search_i_sound bound n (suc i) k l (rw (nothing, search_i) at e) (omega arith)
        | inr (j, found) ↦
            let (low, high, better) = search_j_sound i (bound - (i + 2)) (i + 2) j found in
            let same : ◌≡◌ {A = Option (ℕ × ℕ)} (some (i, j)) (some (k, l)) =
              rw (found, search_i) at e in
            let ik : i ≡ k = cc in
            let jl : j ≡ l = cc in
            record {
              first = omega arith;
              apart = omega arith;
              inside = omega arith;
              better = rw (← ik, ← jl) better;
            }
      ]

  pub search_pairs-IsFound :
      (i j : ℕ)
      → search_pairs d is_closed route best ≡ some (i, j)
      → IsFound i j (end_index is_closed route)
  unfolding search_pairs
  search_pairs-IsFound i j e = search_i_sound _ _ 1 i j e (omega arith)

pub end_index-closed : (route : List ℕ) → end_index true route ≡ length route - 1
unfolding end_index
end_index-closed route = refl

module _ (d : ℕ → ℕ → ℕ) (is_closed : Bool) where
  -- What every swap of the search keeps, the loop keeps.
  pub improve_inv {ℓ} :
      (P : List ℕ → Type ℓ)
      → ((route : List ℕ) (best : ℤ) (i j : ℕ)
          → IsFound d is_closed route best i j (end_index is_closed route)
          → P route
          → P (apply_2opt_swap route i j))
      → (n : ℕ) (route : List ℕ) (best : ℤ) → P route
      → P (improve d n is_closed route best)
  unfolding improve
  improve_inv P keep zero route best p = p
  improve_inv P keep (suc n) route best p =
      elim (Option-cases (search_pairs d is_closed route best)) [
        | inl nothing ↦ rw (nothing, improve) p
        | inr ((i, j), hit) ↦
            rw (hit, improve)
              (improve_inv P keep n (apply_2opt_swap route i j) (add_delta d route best i j)
                (keep route best i j (search_pairs-IsFound d is_closed route best i j hit) p))
      ]

  pub improve_with_2opt-perm : (route : List ℕ) → Perm (improve_with_2opt d route is_closed) route
  unfolding improve_with_2opt
  improve_with_2opt-perm route =
      improve_inv (λ r. Perm r route)
        (λ r best i j f p. Perm.trans (swap-perm r i j (omega (arith, f.apart))) p)
        max_2opt_iterations route _ (Perm.refl route)

  pub at-improve_with_2opt_first :
      (route : List ℕ) → at (improve_with_2opt d route is_closed) 0 ≡ at route 0
  unfolding improve_with_2opt
  at-improve_with_2opt_first route =
      improve_inv (λ r. at r 0 ≡ at route 0) (λ r best i j f p. at-swap_first r i j ∙ p)
        max_2opt_iterations route _ refl

  pub at-improve_with_2opt_last :
      is_closed ≡ true
      → (route : List ℕ)
      → at (improve_with_2opt d route is_closed) (length (improve_with_2opt d route is_closed) - 1)
        ≡ at route (length route - 1)
  unfolding improve_with_2opt
  at-improve_with_2opt_last closed route =
      improve_inv (λ r. at r (length r - 1) ≡ at route (length route - 1))
        (λ r best i j f p.
          at-swap_last r i j (
            let bound : end_index is_closed r ≡ length r - 1 = rw closed (end_index-closed r) in
            omega (arith, f.inside))
          ∙ p)
        max_2opt_iterations route _ refl
