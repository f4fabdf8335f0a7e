-- ===== src/Tour/Visits.antt =====
-- `solve_tsp` and the locations that its tour visits.
use mathlib.Core.List.Perm
use mathlib.Core.List.{append_assoc, append-nil}
use sfa_routing.Prelude.{
  range, length-range, ℕ, zero, suc, ◌+◌, ◌-◌, ◌≤◌, ◌<◌, ◌≡◌, refl, ap, ◌∙◌, Bool, true, false,
  Option, none, some, List, [], ◌∷◌, ◌++◌, ◌⊎◌, inl, inr, Perm, arith, ℕ_discrete, length,
  Bool-cases, Option-cases, leb, ltb, if◌then◌else◌,
}
use sfa_routing.Prelude.Perms.{length-perm}
use sfa_routing.Greedy.{contains}
use sfa_routing.Greedy.Remaining.{contains-cons_self, contains-cons_ne}
use sfa_routing.TwoOpt.{at, calculate_route_distance}
use sfa_routing.TwoOpt.Swap.{at-last_snoc}
use sfa_routing.TwoOpt.Search.{
  improve_with_2opt-perm, at-improve_with_2opt_first, at-improve_with_2opt_last,
}
use sfa_routing.TwoOpt.Descent.{Refines-le, improve_with_2opt-Refines}
use sfa_routing.Tour.{look, nearest, construct, close_tour, polish, solve_tsp}

-- The indices of `range i n` that are not visited.
unvisited : List ℕ → ℕ → ℕ → List ℕ
unvisited visited i zero = []
unvisited visited i (suc n) =
    let rest = unvisited visited (suc i) n in if contains visited i then rest else i ∷ rest

unvisited-below :
    (visited : List ℕ) (m i n : ℕ) → m < i → unvisited (m ∷ visited) i n ≡ unvisited visited i n
unfolding unvisited contains
unvisited-below visited m i zero h = refl
unvisited-below visited m i (suc n) h = ground (arith, unvisited-below visited m (suc i) n)

unvisited-none : (i n : ℕ) → unvisited [] i n ≡ range i n
unfolding unvisited contains
unvisited-none i zero = refl
unvisited-none i (suc n) = ap (λ l. i ∷ l) (unvisited-none (suc i) n)

unvisited-held :
    (visited : List ℕ) (i n : ℕ)
    → contains visited i ≡ true
    → unvisited visited i (suc n) ≡ unvisited visited (suc i) n
unfolding unvisited
unvisited-held visited i n h = rw h

unvisited-free :
    (visited : List ℕ) (i n : ℕ)
    → contains visited i ≡ false
    → unvisited visited i (suc n) ≡ i ∷ unvisited visited (suc i) n
unfolding unvisited
unvisited-free visited i n h = rw h

unvisited-visit-perm :
    (visited : List ℕ) (m i n : ℕ)
    → i ≤ m
    → m < i + n
    → contains visited m ≡ false
    → Perm (m ∷ unvisited (m ∷ visited) i n) (unvisited visited i n)
unvisited-visit-perm visited m i zero low high free = absurd (omega arith)
unvisited-visit-perm visited m i (suc n) low high free = elim (ℕ_discrete m i) [
  | yes here ↦
      rw
        (
          unvisited-held (m ∷ visited) i n (contains-cons_self m i visited here),
          unvisited-below visited m (suc i) n (omega arith),
          unvisited-free visited i n (rw (← here) free),
          here,
        )
        (Perm.refl (i ∷ unvisited visited (suc i) n))
  | no away ↦
      let other = contains-cons_ne m i visited away in
      let ih = unvisited-visit-perm visited m (suc i) n (omega arith) (omega arith) free in
      elim (Bool-cases (contains visited i)) [
        | inl held ↦
            rw (unvisited-held (m ∷ visited) i n (other ∙ held), unvisited-held visited i n held) ih
        | inr open_ ↦
            rw (unvisited-free (m ∷ visited) i n (other ∙ open_), unvisited-free visited i n open_)
              (Perm.trans (Perm.swap i m _) (Perm.cons i ih))
      ]
]

pub at-append_first : (xs ys : List ℕ) → 0 < length xs → at (xs ++ ys) 0 ≡ at xs 0
at-append_first [] ys h = absurd (omega arith)
at-append_first (x ∷ xs) ys h = refl

nil_of_length : (l : List ℕ) → length l ≤ 0 → l ≡ []
nil_of_length [] h = refl
nil_of_length (x ∷ l) h = absurd (omega arith)

module _ (d : ℕ → ℕ → ℕ) where
  -- A result is the old best or a location of the range that is not visited.
  nearest_sound :
      (visited : List ℕ) (current i n : ℕ) (best : Option (ℕ × ℕ)) (k e : ℕ)
      → nearest d visited current i n best ≡ some (k, e)
      → (best ≡ some (k, e)) ⊎ ((i ≤ k) × (k < i + n) × (contains visited k ≡ false))
  unfolding nearest
  nearest_sound visited current i zero best k e h = inl h
  nearest_sound visited current i (suc n) best k e h =
      elim (nearest_sound visited current (suc i) n (look d visited current i best) k e h) [
        | inl old ↦ unfold look in ground arith
        | inr (low, high, free) ↦ inr (omega arith, omega arith, free)
      ]

  look-none :
      (visited : List ℕ) (current i : ℕ) (best : Option (ℕ × ℕ))
      → look d visited current i best ≡ none
      → (best ≡ none) × (contains visited i ≡ true)
  unfolding look
  look-none visited current i best h = ground arith

  nearest-none :
      (visited : List ℕ) (current i n : ℕ) (best : Option (ℕ × ℕ))
      → nearest d visited current i n best ≡ none
      → (best ≡ none) × (unvisited visited i n ≡ [])
  unfolding nearest unvisited
  nearest-none visited current i zero best h = (h, refl)
  nearest-none visited current i (suc n) best h =
      let (before, rest) =
        nearest-none visited current (suc i) n (look d visited current i best) h in
      let (old, held) = look-none visited current i best before in (old, rw held rest)

  module _ (n : ℕ) where
    construct-perm :
        (rounds : ℕ) (route visited : List ℕ) (current : ℕ)
        → Perm (route ++ unvisited visited 0 n) (range 0 n)
        → length (unvisited visited 0 n) ≤ rounds
        → Perm (construct d n rounds route visited current) (range 0 n)
    unfolding construct
    construct-perm zero route visited current p h =
        rw (nil_of_length (unvisited visited 0 n) h, append-nil) at p
    construct-perm (suc rounds) route visited current p h =
        elim (Option-cases (nearest d visited current 0 n none)) [
          | inl nothing ↦
              let done = (nearest-none visited current 0 n none nothing).1 in
              rw (nothing, construct)
                (construct-perm rounds route visited current p (rw done (omega arith)))
          | inr ((i, e), hit) ↦ elim (nearest_sound visited current 0 n none i e hit) [
            | inl old ↦ cc
            | inr (low, high, free) ↦
                let step = unvisited-visit-perm visited i 0 n low high free in
                rw (hit, construct)
                  (construct-perm rounds (route ++ i ∷ []) (i ∷ visited) i
                    (rw append_assoc (Perm.trans (Perm.append_left route step) p))
                    (omega (arith, length-perm step)))
          ]
        ]

    construct-first :
        (rounds start : ℕ) (route visited : List ℕ) (current : ℕ)
        → at (construct d n rounds (start ∷ route) visited current) 0 ≡ start
    unfolding construct
    construct-first zero start route visited current = refl
    construct-first (suc rounds) start route visited current =
        elim (Option-cases (nearest d visited current 0 n none)) [
          | inl nothing ↦
              rw (nothing, construct) (construct-first rounds start route visited current)
          | inr ((i, e), hit) ↦
              rw (hit, construct) (construct-first rounds start (route ++ i ∷ []) (i ∷ visited) i)
        ]

    abbrev pub first_tour : ℕ → List ℕ
    first_tour start = construct d n (n - 1) (start ∷ []) (start ∷ []) start

    first_tour-perm : (start : ℕ) → start < n → Perm (first_tour start) (range 0 n)
    first_tour-perm start h =
        let step : Perm (start ∷ unvisited (start ∷ []) 0 n) (range 0 n) =
          rw (unvisited-none 0 n) at (
            unvisited-visit-perm [] start 0 n (omega arith) (omega arith)
              (unfold contains in refl)) in
        construct-perm (n - 1) (start ∷ []) (start ∷ []) start step
          (omega (arith, length-perm step, length-range 0 n))

    -- What `solve_tsp` promises of a tour with more than two locations.
    pub record IsTour (start : ℕ) (return_to_start : Bool) (tour : List ℕ) : Type 0 where
      pub nodes : Perm tour (close_tour return_to_start start (range 0 n))
      pub first : at tour 0 ≡ start
      pub last : return_to_start ≡ true → at tour (length tour - 1) ≡ start

    close_tour-IsTour :
        (start : ℕ) (return_to_start : Bool)
        → start < n
        → IsTour start return_to_start (close_tour return_to_start start (first_tour start))
    close_tour-IsTour start false h = record {
      nodes = first_tour-perm start h;
      first = construct-first (n - 1) start [] (start ∷ []) start;
      last = λ e. cc;
    }
    close_tour-IsTour start true h = record {
      nodes = Perm.append_right (start ∷ []) (first_tour-perm start h);
      first =
          at-append_first (first_tour start) (start ∷ [])
            (omega (arith, length-perm (first_tour-perm start h), length-range 0 n))
          ∙ construct-first (n - 1) start [] (start ∷ []) start;
      last = λ _. at-last_snoc (first_tour start) start;
    }

    polish-IsTour :
        (start : ℕ) (return_to_start : Bool) (route : List ℕ)
        → IsTour start return_to_start route
        → IsTour start return_to_start (polish d return_to_start route)
    polish-IsTour start closed route t = elim (Bool-cases (ltb 3 (length route))) [
      | inl long ↦ rw long (record {
        nodes = Perm.trans (improve_with_2opt-perm d closed route) t.nodes;
        first = at-improve_with_2opt_first d closed route ∙ t.first;
        last = λ e. at-improve_with_2opt_last d closed e route ∙ t.last e;
      })
      | inr short ↦ rw short t
    ]

-- Every location is on the tour once (the start twice if it is closed), which begins at the start
-- and, if it is closed, ends there.
pub solve_tsp-IsTour :
    (d : ℕ → ℕ → ℕ) (n start : ℕ) (return_to_start : Bool)
    → 2 < n
    → start < n
    → IsTour d n start return_to_start (solve_tsp d n start return_to_start)
unfolding solve_tsp
solve_tsp-IsTour d n start closed h k =
    let large : leb n 2 ≡ false = ground arith in
    rw large (polish-IsTour d n start closed _ (close_tour-IsTour d n start closed k))

-- The tour of a closed problem is at most as long as the nearest-neighbour tour.
pub solve_tsp-shorter :
    (d : ℕ → ℕ → ℕ)
    → ((a b : ℕ) → d a b ≡ d b a)
    → (n start : ℕ) → 2 < n
    → calculate_route_distance d (solve_tsp d n start true)
      ≤ calculate_route_distance d (first_tour d n start ++ start ∷ [])
unfolding solve_tsp
solve_tsp-shorter d symmetric n start h =
    let large : leb n 2 ≡ false = ground arith in
    let tour = first_tour d n start ++ start ∷ [] in
    elim (Bool-cases (ltb 3 (length tour))) [
      | inl long ↦
          rw (large, long)
            (Refines-le d symmetric tour _ (improve_with_2opt-Refines d symmetric tour))
      | inr short ↦ rw (large, short) (omega arith)
    ]
