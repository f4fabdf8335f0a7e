-- ===== src/TwoOpt/Descent.antt =====
-- `_improve_with_2opt` on a closed tour.
use mathlib.Core.List.Perm
use sfa_routing.Prelude.{
  ℕ, zero, suc, ◌+◌, ◌-◌, ◌≤◌, ◌<◌, ◌≡◌, refl, ◌∙◌, true, List, ◌⊎◌, inl, inr, Perm, arith, length,
  ltb→lt, Option-cases,
}
use sfa_routing.Prelude.Int.{pos, eq_of_parts}
use sfa_routing.TwoOpt.{
  at, apply_2opt_swap, calculate_route_distance, current_edges, new_edges, end_index, search_pairs,
  add_delta, improve, improve_with_2opt, max_2opt_iterations,
}
use sfa_routing.TwoOpt.Search.{IsFound, search_pairs-IsFound, end_index-closed}
use sfa_routing.TwoOpt.Swap.{swap-perm, at-swap_first, at-swap_last, distance-swap}

module _ (d : ℕ → ℕ → ℕ) (symmetric : (a b : ℕ) → d a b ≡ d b a) where
  -- What is kept of a closed tour: its nodes, both ends, and that it is no longer than before.
  pub record Refines (before after : List ℕ) : Type 0 where
    pub nodes : Perm after before
    pub first : at after 0 ≡ at before 0
    pub last : at after (length after - 1) ≡ at before (length before - 1)
    pub shorter :
        (after ≡ before) ⊎ (calculate_route_distance d after < calculate_route_distance d before)

  Refines-refl : (route : List ℕ) → Refines route route
  Refines-refl route = record {
    nodes = Perm.refl route;
    first = refl;
    last = refl;
    shorter = inl refl;
  }

  Refines-trans :
      (a b c : List ℕ)
      → Refines a b
      → calculate_route_distance d b < calculate_route_distance d a
      → Refines b c
      → Refines a c
  Refines-trans a b c r strict s = record {
    nodes = Perm.trans s.nodes r.nodes;
    first = s.first ∙ r.first;
    last = s.last ∙ r.last;
    shorter = elim s.shorter [ inl same ↦ inr (rw same strict) | inr less ↦ inr (omega arith) ];
  }

  module _ (route : List ℕ) (i j : ℕ)
      (found : IsFound d true route
        (pos (calculate_route_distance d route))
        i
        j
        (end_index true route)) where
    inside-route : suc j < length route
    inside-route = omega (arith, found.inside, end_index-closed route)

    abbrev swapped : List ℕ
    swapped = apply_2opt_swap route i j

    exact :
        calculate_route_distance d swapped + current_edges d route i j
        ≡ calculate_route_distance d route + new_edges d route i j
    exact = distance-swap d symmetric route i j (omega (arith, found.apart)) inside-route

    edges-shorter : new_edges d route i j < current_edges d route i j
    edges-shorter = omega (arith, ltb→lt _ _ found.better)

    swap-shorter : calculate_route_distance d swapped < calculate_route_distance d route
    swap-shorter = omega (arith, exact, edges-shorter)

    -- The running total is the true length of the new route.
    add_delta-exact :
        add_delta d route (pos (calculate_route_distance d route)) i j
        ≡ pos (calculate_route_distance d swapped)
    unfolding add_delta
    add_delta-exact = eq_of_parts _ _ (ground (arith, exact))

    swap-Refines : Refines route swapped
    swap-Refines = record {
      nodes = swap-perm route i j (omega (arith, found.apart));
      first = at-swap_first route i j;
      last = at-swap_last route i j inside-route;
      shorter = inr swap-shorter;
    }

  improve-Refines :
      (n : ℕ) (route : List ℕ)
      → Refines route (improve d n true route (pos (calculate_route_distance d route)))
  unfolding improve
  improve-Refines zero route = Refines-refl route
  improve-Refines (suc n) route =
      elim (Option-cases (search_pairs d true route (pos (calculate_route_distance d route)))) [
        | inl nothing ↦ rw (nothing, improve) (Refines-refl route)
        | inr ((i, j), hit) ↦
            let found = search_pairs-IsFound d true route _ i j hit in
            rw (hit, improve, add_delta-exact route i j found)
              (Refines-trans route (swapped route i j found) _ (swap-Refines route i j found)
                (swap-shorter route i j found) (improve-Refines n (swapped route i j found)))
      ]

  -- A closed tour keeps its nodes and its ends, and gets strictly shorter or stays as it is.
  pub improve_with_2opt-Refines : (route : List ℕ) → Refines route (improve_with_2opt d route true)
  unfolding improve_with_2opt
  improve_with_2opt-Refines route = improve-Refines max_2opt_iterations route

  pub Refines-le :
      (before after : List ℕ)
      → Refines before after
      → calculate_route_distance d after ≤ calculate_route_distance d before
  Refines-le before after r = elim r.shorter [
    | inl same ↦ rw same (omega arith)
    | inr less ↦ omega arith
  ]
