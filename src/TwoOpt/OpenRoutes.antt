-- ===== src/TwoOpt/OpenRoutes.antt =====
-- `_improve_with_2opt` on an open route (`return_to_start=False`).
use sfa_routing.Prelude.{ℕ, ◌+◌, ◌*◌, ◌<◌, ◌≡◌, false, some, [], ◌∷◌, arith}
use sfa_routing.Prelude.Int.{pos}
use sfa_routing.TwoOpt.{
  apply_2opt_swap, way, calculate_route_distance, search_j, search_i, search_pairs,
}

-- On an open route of four nodes the search accepts the swap of the last two whenever the two edges
-- that it counts get shorter, also where the route itself gets longer: `q` to `s` is further than
-- `q` to `r`.
pub open_search_lengthens :
    (d : ℕ → ℕ → ℕ)
    → ((a b : ℕ) → d a b ≡ d b a)
    → (p q r s : ℕ) → 1000 * (d q s + d r p) + (d p q + d q r + d r s) < 1000 * (d q r + d s p)
    → d q r < d q s
    → (search_pairs d false
          (p ∷ q ∷ r ∷ s ∷ [])
          (pos (calculate_route_distance d (p ∷ q ∷ r ∷ s ∷ [])))
        ≡ some (1, 3))
      × (calculate_route_distance d (p ∷ q ∷ r ∷ s ∷ [])
          < calculate_route_distance d (apply_2opt_swap (p ∷ q ∷ r ∷ s ∷ []) 1 3))
unfolding search_pairs search_i search_j calculate_route_distance way apply_2opt_swap
open_search_lengthens d symmetric p q r s accepted further =
    (ground arith, omega (arith, symmetric r s))
