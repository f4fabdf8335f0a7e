-- ===== src/TwoOpt/Swap.antt =====
-- `_apply_2opt_swap` and the length of a route.
use mathlib.Core.List.Perm
use mathlib.Core.List.{reverse, reverse-cons, reverse_perm, append_assoc, append-nil}
use sfa_routing.Prelude.{
  ℕ, zero, suc, ◌+◌, ◌-◌, ◌≤◌, ◌<◌, ◌≡◌, refl, sym, ap, ◌∙◌, List, [], ◌∷◌, ◌++◌, Perm, arith,
  length, take, drop, take-append-drop, take-all, drop-all, subst, lt→ltb, ◌≡⟨◌⟩◌, ◌∎,
}
use sfa_routing.TwoOpt.{
  at, apply_2opt_swap, way, calculate_route_distance, current_edges, new_edges,
}

-- The part behind the first node, which a swap with `i = 0` does not move either.
abbrev pub swap_tail : List ℕ → ℕ → ℕ → List ℕ
swap_tail r i j = take i r ++ (reverse (drop i (take j r)) ++ drop j r)

take-take : (i j : ℕ) (r : List ℕ) → i ≤ j → take i r ≡ take i (take j r)
take-take zero j r h = refl
take-take (suc i) zero r h = absurd (omega arith)
take-take (suc i) (suc j) [] h = refl
take-take (suc i) (suc j) (x ∷ r) h = ap (λ l. x ∷ l) (take-take i j r (omega arith))

pub take_middle_drop :
    (r : List ℕ) (i j : ℕ) → i ≤ j → take i r ++ (drop i (take j r) ++ drop j r) ≡ r
take_middle_drop r i j h =
    take i r ++ (drop i (take j r) ++ drop j r)
    ≡⟨ sym (append_assoc (take i r) (drop i (take j r)) (drop j r)) ⟩
      (take i r ++ drop i (take j r)) ++ drop j r
    ≡⟨ ap (λ l. (l ++ drop i (take j r)) ++ drop j r) (take-take i j r h) ⟩
      (take i (take j r) ++ drop i (take j r)) ++ drop j r
    ≡⟨ ap (λ l. l ++ drop j r) (take-append-drop i (take j r)) ⟩ take j r ++ drop j r
    ≡⟨ take-append-drop j r ⟩ r ∎

pub swap_tail-perm : (r : List ℕ) (i j : ℕ) → i ≤ j → Perm (swap_tail r i j) r
swap_tail-perm r i j h =
    subst (Perm (swap_tail r i j)) (take_middle_drop r i j h) (
      Perm.append_left (take i r) (Perm.append_right (drop j r) (reverse_perm (drop i (take j r)))))

pub swap-perm : (route : List ℕ) (i j : ℕ) → i ≤ j → Perm (apply_2opt_swap route i j) route
unfolding apply_2opt_swap
swap-perm route i j h = swap_tail-perm route (suc i) (suc j) (omega arith)

abbrev pub last_of : ℕ → List ℕ → ℕ
last_of x [] = x
last_of x (y ∷ ys) = last_of y ys

last_of-append : (x : ℕ) (ys zs : List ℕ) → last_of x (ys ++ zs) ≡ last_of (last_of x ys) zs
last_of-append x [] zs = refl
last_of-append x (y ∷ ys) zs = last_of-append y ys zs

at-length : (x : ℕ) (r : List ℕ) → at (x ∷ r) (length r) ≡ last_of x r
at-length x [] = refl
at-length x (y ∷ r) = at-length y r

at-last : (r : List ℕ) → at r (length r - 1) ≡ last_of 0 r
at-last [] = refl
at-last (x ∷ r) = let end : length (x ∷ r) - 1 ≡ length r = omega arith in rw end (at-length x r)

pub at-last_snoc : (r : List ℕ) (y : ℕ) → at (r ++ y ∷ []) (length (r ++ y ∷ []) - 1) ≡ y
at-last_snoc r y = at-last (r ++ y ∷ []) ∙ last_of-append 0 r (y ∷ [])

drop-cons : (r : List ℕ) (j : ℕ) → j < length r → drop j r ≡ at r j ∷ drop (suc j) r
drop-cons [] j h = absurd (omega arith)
drop-cons (y ∷ r) zero h = refl
drop-cons (y ∷ r) (suc j) h = drop-cons r j (omega arith)

-- A swap inside the route leaves its first and its last node in place.
pub at-swap_first : (route : List ℕ) (i j : ℕ) → at (apply_2opt_swap route i j) 0 ≡ at route 0
unfolding apply_2opt_swap
at-swap_first [] i j = refl
at-swap_first (x ∷ r) i j = refl

last_of-swap :
    (route : List ℕ) (i j : ℕ)
    → suc j < length route
    → last_of 0 (apply_2opt_swap route i j) ≡ last_of 0 route
unfolding apply_2opt_swap
last_of-swap route i j h =
    let tail = drop-cons route (suc j) h in
    last_of-append 0 (take (suc i) route) _
    ∙ (last_of-append (last_of 0 (take (suc i) route)) (reverse (drop (suc i) (take (suc j) route)))
          (drop (suc j) route)
        ∙ (ap (last_of _) tail
            ∙ (sym (ap (last_of (last_of 0 (take (suc j) route))) tail)
                ∙ (sym (last_of-append 0 (take (suc j) route) (drop (suc j) route))
                    ∙ ap (last_of 0) (take-append-drop (suc j) route)))))

pub at-swap_last :
    (route : List ℕ) (i j : ℕ)
    → suc j < length route
    → at (apply_2opt_swap route i j) (length (apply_2opt_swap route i j) - 1)
      ≡ at route (length route - 1)
at-swap_last route i j h =
    at-last (apply_2opt_swap route i j) ∙ (last_of-swap route i j h ∙ sym (at-last route))

module _ (d : ℕ → ℕ → ℕ) where
  pub way-append :
      (x : ℕ) (ys zs : List ℕ) → way d x (ys ++ zs) ≡ way d x ys + way d (last_of x ys) zs
  unfolding way
  way-append x [] zs = omega arith
  way-append x (y ∷ ys) zs = omega (arith, way-append y ys zs)

  way-cons : (x y : ℕ) (ys : List ℕ) → way d x (y ∷ ys) ≡ d x y + way d y ys
  unfolding way
  way-cons x y ys = refl

  module _ (symmetric : (a b : ℕ) → d a b ≡ d b a) where
    last_of-snoc : (x y : ℕ) (ys : List ℕ) → last_of x (ys ++ y ∷ []) ≡ y
    last_of-snoc x y [] = refl
    last_of-snoc x y (z ∷ ys) = last_of-snoc z y ys

    last_of-reverse : (x b : ℕ) (m : List ℕ) → last_of x (reverse (b ∷ m)) ≡ b
    last_of-reverse x b m = rw reverse-cons (last_of-snoc x b (reverse m))

    way-snoc : (x y : ℕ) (ys : List ℕ) → way d x (ys ++ y ∷ []) ≡ way d x ys + d (last_of x ys) y
    unfolding way
    way-snoc x y ys = omega (arith, way-append x ys (y ∷ []))

    -- Backwards the way has the same inner edges.
    way-reverse : (x b : ℕ) (m : List ℕ) → way d x (reverse (b ∷ m)) ≡ d x (last_of b m) + way d b m
    way-reverse x b [] = unfold way in omega arith
    way-reverse x b (e ∷ m) =
        way d x (reverse (b ∷ e ∷ m))
        ≡⟨ ap (way d x) (reverse-cons b (e ∷ m)) ⟩ way d x (reverse (e ∷ m) ++ b ∷ [])
        ≡⟨ way-snoc x b (reverse (e ∷ m)) ⟩
          way d x (reverse (e ∷ m)) + d (last_of x (reverse (e ∷ m))) b
        ≡⟨ (rw (way-reverse x e m, last_of-reverse x e m)
            (unfold way in omega (arith, symmetric b e))) ⟩
          d x (last_of e m) + way d b (e ∷ m) ∎

    -- The last node of a non-empty prefix is the one at its end.
    last_of-take : (x : ℕ) (r : List ℕ) (j : ℕ) → j < length r → last_of x (take (suc j) r) ≡ at r j
    last_of-take x [] j h = absurd (omega arith)
    last_of-take x (y ∷ r) zero h = refl
    last_of-take x (y ∷ r) (suc j) h = last_of-take y r j (omega arith)

    -- The swapped segment starts behind `x`.
    way-reverse_prefix :
        (x : ℕ) (r : List ℕ) (j : ℕ)
        → suc j < length r
        → way d x (reverse (take (suc j) r) ++ drop (suc j) r)
            + (d x (at r 0) + d (at r j) (at r (suc j)))
          ≡ way d x r + (d x (at r j) + d (at r 0) (at r (suc j)))
    way-reverse_prefix x [] j h = absurd (omega arith)
    way-reverse_prefix x (b ∷ m) j h = omega (arith, backwards, forwards, here)
      where
        t : List ℕ
        t = take j m

        here : way d x (b ∷ m) ≡ d x b + way d b m
        here = unfold way in refl

        rest : ℕ
        rest = way d (at m j) (drop (suc j) m)

        from : (y : ℕ) → way d y (drop j m) ≡ d y (at m j) + rest
        from y = rw (drop-cons m j (omega arith)) (unfold way in refl)

        end : last_of b t ≡ at (b ∷ m) j
        end = last_of-take x (b ∷ m) j (omega arith)

        backwards :
            way d x (reverse (b ∷ t) ++ drop j m)
            ≡ d x (at (b ∷ m) j) + way d b t + (d b (at m j) + rest)
        backwards =
            way-append x (reverse (b ∷ t)) (drop j m)
            ∙ rw (way-reverse x b t, last_of-reverse x b t, from, end)

        forwards : way d b m ≡ way d b t + (d (at (b ∷ m) j) (at m j) + rest)
        forwards =
            ap (way d b) (sym (take-append-drop j m)) ∙ (way-append b t (drop j m) ∙ rw (from, end))

    way-swap_tail :
        (x : ℕ) (r : List ℕ) (i j : ℕ)
        → i < j
        → j < length r
        → way d x (swap_tail r i j) + (d (at (x ∷ r) i) (at r i) + d (at (x ∷ r) j) (at r j))
          ≡ way d x r + (d (at (x ∷ r) i) (at (x ∷ r) j) + d (at r i) (at r j))
    way-swap_tail x r zero zero h k = absurd (omega arith)
    way-swap_tail x r zero (suc j) h k = way-reverse_prefix x r j k
    way-swap_tail x r (suc i) zero h k = absurd (omega arith)
    way-swap_tail x [] (suc i) (suc j) h k = absurd (omega arith)
    way-swap_tail x (y ∷ r) (suc i) (suc j) h k = omega (
      arith,
      way-swap_tail y r i j (omega arith) (omega arith),
      way-cons x y r,
      way-cons x y (swap_tail r i j),
    )

    -- The whole rest of the route is turned round.
    way-reverse_all :
        (x b : ℕ) (m : List ℕ)
        → way d x (reverse (b ∷ m)) + d x b ≡ way d x (b ∷ m) + d x (last_of b m)
    way-reverse_all x b m = omega (arith, way-reverse x b m, way-cons x b m)

    way-swap_last :
        (x : ℕ) (r : List ℕ) (i j : ℕ)
        → i < j
        → j ≡ length r
        → way d x (swap_tail r i j) + d (at (x ∷ r) i) (at r i)
          ≡ way d x r + d (at (x ∷ r) i) (at (x ∷ r) j)
    way-swap_last x [] zero j h k = absurd (omega arith)
    way-swap_last x (b ∷ m) zero zero h k = absurd (omega arith)
    way-swap_last x (b ∷ m) zero (suc j) h k =
        let last : last_of b m ≡ at (b ∷ m) j =
          ap (last_of b) (sym (take-all j m (omega arith)))
          ∙ last_of-take x (b ∷ m) j (omega arith) in
        rw (take-all (suc j) (b ∷ m) k, drop-all (suc j) (b ∷ m) k, append-nil, ← last)
          (way-reverse_all x b m)
    way-swap_last x r (suc i) zero h k = absurd (omega arith)
    way-swap_last x [] (suc i) (suc j) h k = absurd (omega arith)
    way-swap_last x (y ∷ r) (suc i) (suc j) h k = omega (
      arith,
      way-swap_last y r i j (omega arith) (omega arith),
      way-cons x y r,
      way-cons x y (swap_tail r i j),
    )

    -- Inside the route a swap changes the length by the two new edges less the two old ones.
    pub distance-swap :
        (route : List ℕ) (i j : ℕ)
        → i < j
        → suc j < length route
        → calculate_route_distance d (apply_2opt_swap route i j) + current_edges d route i j
          ≡ calculate_route_distance d route + new_edges d route i j
    unfolding apply_2opt_swap calculate_route_distance
    distance-swap [] i j h k = absurd (omega arith)
    distance-swap (x ∷ r) i j h k =
        rw (lt→ltb (suc j) (suc (length r)) k) (way-swap_tail x r i j h (omega arith))

    -- At the end of the route only one edge goes and only one comes.
    pub distance-swap_last :
        (route : List ℕ) (i j : ℕ)
        → i < j
        → suc j ≡ length route
        → calculate_route_distance d (apply_2opt_swap route i j) + d (at route i) (at route (suc i))
          ≡ calculate_route_distance d route + d (at route i) (at route j)
    unfolding apply_2opt_swap calculate_route_distance
    distance-swap_last [] i j h k = absurd (omega arith)
    distance-swap_last (x ∷ r) i j h k = way-swap_last x r i j h (omega arith)
