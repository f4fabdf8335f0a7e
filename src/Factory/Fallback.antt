-- ===== src/Factory/Fallback.antt =====
-- `SolverFactory.solve_with_fallback`.
use sfa_routing.Prelude.{
  ◌≡◌, ◌≢◌, refl, sym, ap, subst, Bool, true, false, ◌||◌, some, List, [], ◌∷◌, ◌++◌, ◌⊎◌, inl, inr,
  arith, ◌==◌, if◌then◌else◌, Bool-cases, Option-cases,
}
use sfa_routing.Problem.{
  SolverType, vroom, ortools, genetic, greedy, auto, SolutionResult, RoutingProblem,
}
use sfa_routing.Factory.{
  tag, registered, good_enough, select_optimal_solver, get_solver, Attempt, unhealthy, raises,
  solved, Outcome, returned, alternative, fallback_order, try_solvers, solve_with_fallback,
}

-- Only registered solvers are used.
select_optimal_solver-registered :
    (solvers : List SolverType) (p : RoutingProblem) {s : SolverType}
    → select_optimal_solver solvers p ≡ some s
    → registered solvers s ≡ true
unfolding select_optimal_solver
select_optimal_solver-registered solvers p e = ground arith

get_solver-registered :
    (solvers : List SolverType) (t : SolverType) (p : RoutingProblem) {s : SolverType}
    → get_solver solvers t (some p) ≡ some s
    → registered solvers s ≡ true
unfolding get_solver
get_solver-registered solvers auto p e = select_optimal_solver-registered solvers p e
get_solver-registered solvers vroom p e = ground arith
get_solver-registered solvers ortools p e = ground arith
get_solver-registered solvers greedy p e = ground arith
get_solver-registered solvers genetic p e = ground arith

get_solver-greedy :
    (solvers : List SolverType) (t : SolverType) (p : RoutingProblem) {s : SolverType}
    → (tag t == tag greedy) ≡ true
    → get_solver solvers t (some p) ≡ some s
    → s ≡ greedy
unfolding get_solver
get_solver-greedy solvers greedy p h e = ground arith
get_solver-greedy solvers vroom p h e = cc
get_solver-greedy solvers ortools p h e = cc
get_solver-greedy solvers genetic p h e = cc
get_solver-greedy solvers auto p h e = cc

-- A returned result is that of a registered solver, with this solver's name; its quality is at
-- least 0.9, or the solver is greedy.
pub record IsAnswer (attempt : SolverType → Attempt) (solvers : List SolverType)
    (r : SolutionResult) : Type 0 where
  pub solver : SolverType
  pub result : SolutionResult
  pub is_registered : registered solvers solver ≡ true
  pub tried : attempt solver ≡ solved result
  pub accepted : (good_enough result ≡ true) ⊎ (solver ≡ greedy)
  pub named : r ≡ record result { solver_used = solver }

module _ (attempt : SolverType → Attempt) (solvers : List SolverType) (p : RoutingProblem) where
  Attempt-cases :
      (s : SolverType)
      → (attempt s ≡ unhealthy)
        ⊎ (attempt s ≡ raises)
        ⊎ ((r : SolutionResult) × (attempt s ≡ solved r))
  Attempt-cases s = attempt_cases (attempt s)
    where
      attempt_cases :
          (a : Attempt) → (a ≡ unhealthy) ⊎ (a ≡ raises) ⊎ ((r : SolutionResult) × (a ≡ solved r))
      attempt_cases unhealthy = inl refl
      attempt_cases raises = inr (inl refl)
      attempt_cases (solved r) = inr (inr (r, refl))

  try_solvers-IsAnswer :
      (ts : List SolverType) (failed : Bool) {r : SolutionResult}
      → try_solvers attempt solvers p ts failed ≡ returned r
      → IsAnswer attempt solvers r
  unfolding try_solvers
  try_solvers-IsAnswer [] true e = cc
  try_solvers-IsAnswer [] false e = cc
  try_solvers-IsAnswer (t ∷ ts) failed {r} e = elim (Option-cases (get_solver solvers t (some p))) [
    | inl absent ↦ try_solvers-IsAnswer ts true (rw (absent, try_solvers) at e)
    | inr (s, found) ↦ elim (Attempt-cases s) [
      | inl ill ↦ try_solvers-IsAnswer ts failed (rw (found, ill, try_solvers) at e)
      | inr (inl raised) ↦ try_solvers-IsAnswer ts true (rw (found, raised, try_solvers) at e)
      | inr (inr (result, done)) ↦
          let reg = get_solver-registered solvers t p found in
          elim (Bool-cases (good_enough result)) [
            | inl good ↦
                let k : returned (record result { solver_used = s }) ≡ returned r =
                  rw (found, done, good, try_solvers) at e in
                record {
                  solver = s;
                  result = result;
                  is_registered = reg;
                  tried = done;
                  accepted = inl good;
                  named = cc;
                }
            | inr bad ↦ elim (Bool-cases (tag t == tag greedy)) [
              | inl last ↦
                  let k : returned (record result { solver_used = s }) ≡ returned r =
                    rw (found, done, bad, last, try_solvers) at e in
                  record {
                    solver = s;
                    result = result;
                    is_registered = reg;
                    tried = done;
                    accepted = inr (get_solver-greedy solvers t p last found);
                    named = cc;
                  }
              | inr other ↦
                  try_solvers-IsAnswer ts failed (rw (found, done, bad, other, try_solvers) at e)
            ]
          ]
    ]
  ]

  -- What `solve_with_fallback` returns is an answer.
  pub solve_with_fallback-IsAnswer :
      (preferred : SolverType) {r : SolutionResult}
      → solve_with_fallback attempt solvers p preferred ≡ returned r
      → IsAnswer attempt solvers r
  unfolding solve_with_fallback
  solve_with_fallback-IsAnswer preferred e =
      try_solvers-IsAnswer (fallback_order solvers preferred) false e

  abbrev HasGreedy : List SolverType → Type 0
  HasGreedy [] = ⊥
  HasGreedy (t ∷ ts) = (t ≡ greedy) ⊎ HasGreedy ts

  HasGreedy-append : (xs ys : List SolverType) → HasGreedy ys → HasGreedy (xs ++ ys)
  HasGreedy-append [] ys h = h
  HasGreedy-append (x ∷ xs) ys h = inr (HasGreedy-append xs ys h)

  last_greedy :
      registered solvers greedy ≡ true
      → HasGreedy (if registered solvers greedy then greedy ∷ [] else [])
  last_greedy h = rw h (inl refl)

  fallback_order-HasGreedy :
      (preferred : SolverType)
      → registered solvers greedy ≡ true
      → HasGreedy (fallback_order solvers preferred)
  unfolding fallback_order
  fallback_order-HasGreedy preferred h = inr (
      HasGreedy-append (alternative solvers preferred vroom) _
        (HasGreedy-append (alternative solvers preferred ortools) _ (last_greedy h)))

  abbrev Returns : Outcome → Type 0
  Returns o = (r : SolutionResult) × (o ≡ returned r)

  module _ {g : SolutionResult} (here : registered solvers greedy ≡ true)
      (works : attempt greedy ≡ solved g) where
    greedy_found : get_solver solvers greedy (some p) ≡ some greedy
    unfolding get_solver
    greedy_found = rw here refl

    try_solvers-Returns :
        (ts : List SolverType) (failed : Bool)
        → HasGreedy ts
        → Returns (try_solvers attempt solvers p ts failed)
    unfolding try_solvers
    try_solvers-Returns [] failed h = absurd h
    try_solvers-Returns (t ∷ ts) failed (inl e) =
        let accept : (good_enough g || true) ≡ true = ground arith in
        subst (λ u. Returns (try_solvers attempt solvers p (u ∷ ts) failed)) (sym e)
          (rw (greedy_found, works, accept, try_solvers) (record g { solver_used = greedy }, refl))
    try_solvers-Returns (t ∷ ts) failed (inr h) =
        elim (Option-cases (get_solver solvers t (some p))) [
          | inl absent ↦ rw (absent, try_solvers) (try_solvers-Returns ts true h)
          | inr (s, found) ↦ elim (Attempt-cases s) [
            | inl ill ↦ rw (found, ill, try_solvers) (try_solvers-Returns ts failed h)
            | inr (inl raised) ↦ rw (found, raised, try_solvers) (try_solvers-Returns ts true h)
            | inr (inr (result, done)) ↦
                elim (Bool-cases (good_enough result || tag t == tag greedy)) [
                  | inl accept ↦
                      rw (found, done, accept, try_solvers)
                        (record result { solver_used = s }, refl)
                  | inr refuse ↦
                      rw (found, done, refuse, try_solvers) (try_solvers-Returns ts failed h)
                ]
          ]
        ]

    -- With greedy registered and able, `solve_with_fallback` returns a solution, whatever the other
    -- solvers do.
    pub solve_with_fallback_returns :
        (preferred : SolverType)
        → (r : SolutionResult) × (solve_with_fallback attempt solvers p preferred ≡ returned r)
          × IsAnswer attempt solvers r
    unfolding solve_with_fallback
    solve_with_fallback_returns preferred =
        let (r, e) =
          try_solvers-Returns (fallback_order solvers preferred) false
            (fallback_order-HasGreedy preferred here) in
        (r, e, solve_with_fallback-IsAnswer preferred e)

  -- Without greedy a result below the quality of 0.9 is thrown away: if every solver returns one, no
  -- solution is returned.
  pub solve_with_fallback_discards :
      (preferred : SolverType) (r : SolutionResult)
      → registered solvers greedy ≡ false
      → ((s : SolverType) (result : SolutionResult)
          → attempt s ≡ solved result
          → good_enough result ≡ false)
      → solve_with_fallback attempt solvers p preferred ≢ returned r
  solve_with_fallback_discards preferred r absent poor e =
      let a = solve_with_fallback-IsAnswer preferred e in
      elim (a.accepted) [
        | inl good ↦ let bad = poor a.solver a.result a.tried in cc
        | inr last ↦ let reg = a.is_registered in cc (ap (registered solvers) last)
      ]
