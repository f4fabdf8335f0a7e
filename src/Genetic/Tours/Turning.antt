-- ===== src/Genetic/Tours/Turning.antt =====
-- What turning a route to its start does to its length.
use sfa_routing.Prelude.{ℕ, ◌+◌, ◌≡◌, true, false, List, [], ◌∷◌, ◌++◌, arith, drop, take}
use sfa_routing.Greedy.{contains}
use sfa_routing.TwoOpt.{way, calculate_route_distance}
use sfa_routing.TwoOpt.Swap.{last_of, way-append}
use sfa_routing.Genetic.Tours.{index_of, start_first}

module _ (start : ℕ) (ys : List ℕ) where
  drop-index_of :
      (xs : List ℕ)
      → contains xs start ≡ false
      → drop (index_of start (xs ++ start ∷ ys)) (xs ++ start ∷ ys) ≡ start ∷ ys
  unfolding contains index_of
  drop-index_of [] h = ground arith
  drop-index_of (x ∷ xs) h = ground (arith, drop-index_of xs)

  take-index_of :
      (xs : List ℕ)
      → contains xs start ≡ false
      → take (index_of start (xs ++ start ∷ ys)) (xs ++ start ∷ ys) ≡ xs
  unfolding contains index_of
  take-index_of [] h = ground arith
  take-index_of (x ∷ xs) h = ground (arith, take-index_of xs)

  contains-middle : (xs : List ℕ) → contains (xs ++ start ∷ ys) start ≡ true
  unfolding contains
  contains-middle [] = ground arith
  contains-middle (x ∷ xs) = ground (arith, contains-middle xs)

  start_first-middle :
      (xs : List ℕ)
      → contains xs start ≡ false
      → start_first start (xs ++ start ∷ ys) ≡ (start ∷ ys) ++ xs
  unfolding start_first
  start_first-middle xs h = rw (contains-middle xs, drop-index_of xs h, take-index_of xs h)

  -- An open route on which the start comes later loses the edge that leads to the start, and gets one
  -- from its last location to its first, whatever that costs: the search has not counted it.
  pub start_first_turns :
      (d : ℕ → ℕ → ℕ) (x : ℕ) (xs : List ℕ)
      → contains (x ∷ xs) start ≡ false
      → calculate_route_distance d (start_first start ((x ∷ xs) ++ start ∷ ys))
          + d (last_of x xs) start
        ≡ calculate_route_distance d ((x ∷ xs) ++ start ∷ ys) + d (last_of start ys) x
  unfolding calculate_route_distance way
  start_first_turns d x xs h =
      rw (start_first-middle (x ∷ xs) h)
        (omega (arith, way-append d start ys (x ∷ xs), way-append d x xs (start ∷ ys)))
