-- ===== src/Idempotency/Repeats.antt =====
-- Repeated requests and the runs of the handler.
use sfa_routing.Prelude.{
  ℕ, suc, ◌+◌, ◌≡◌, refl, ap, ◌∙◌, Bool, false, Option, none, some, List, [], ◌∷◌, map, range,
  length, arith, inl, inr, Bool-cases,
}
use sfa_routing.Idempotency.{
  Method, is_mutating, Server, call_next, cache_set, process, dispatch, dispatch_all,
}

module _ (handler : ℕ → Option ℕ) where
  -- No key is stored.
  abbrev pub IsUnmarked : Server → Type 0
  IsUnmarked s = (k : ℕ) → s.stored k ≡ false

  -- Each branch runs the handler once and stores nothing.
  dispatch-call_next :
      (method : Method) (key : Option ℕ) (broken : Bool) (s : Server)
      → IsUnmarked s
      → dispatch handler method key broken s ≡ call_next handler s
  unfolding dispatch process cache_set
  dispatch-call_next method none broken s h = refl
  dispatch-call_next method (some key) broken s h = elim (Bool-cases (is_mutating method)) [
    | inl mutating ↦ elim (Bool-cases broken) [
      | inl raises ↦ rw (mutating, raises) refl
      | inr answers ↦ rw (mutating, answers, h key) refl
    ]
    | inr reading ↦ rw reading refl
  ]

  -- Whatever requests come, with whatever keys, to a server that has no key stored: the handler runs
  -- once for each of them, so also for those whose key came before; each is answered as its own run
  -- is, none with a conflict of the middleware; and still no key is stored.
  pub dispatch_all_repeats :
      (requests : List (Method × Option ℕ × Bool)) (s : Server)
      → IsUnmarked s
      → let (after, responses) = dispatch_all handler requests s in
        (after.runs ≡ s.runs + length requests)
        × (responses ≡ map handler (range s.runs (length requests)))
        × (after.stored ≡ s.stored)
  unfolding dispatch_all call_next
  dispatch_all_repeats [] s h = (omega arith, refl, refl)
  dispatch_all_repeats ((method, key, broken) ∷ requests) s h =
      let next : Server = record s { runs = s.runs + 1 } in
      let one = dispatch-call_next method key broken s h in
      let rest = dispatch_all_repeats requests next h in
      let more : s.runs + 1 ≡ suc s.runs = omega arith in
      rw one (
        omega (arith, rest.0),
        ap (λ l. handler s.runs ∷ l)
            (rest.1 ∙ ap (λ n. map handler (range n (length requests))) more),
        rest.2,
      )
