-- ===== src/FieldRouting/Vrpc/Nearest.antt =====
-- The loop over the unassigned points, and what `remove` takes out of a list.
use mathlib.Core.List.Perm
use sfa_routing.Prelude.{
  ℕ, ◌+◌, ◌≤◌, ◌≡◌, refl, false, Option, none, some, List, [], ◌∷◌, ◌⊎◌, inl, inr, Perm, arith, ltb,
  ◌==◌, Bool-cases, subst, sym, ◌∙◌, ◌≢◌, All,
}
use sfa_routing.Greedy.{closer}
use sfa_routing.FieldRouting.Vrpc.{LoopState, remove, beyond, consider, scan}

abbrev pub Has : ℕ → List ℕ → Type 0
Has p [] = ⊥
Has p (x ∷ xs) = (x ≡ p) ⊎ Has p xs

pub remove-perm : (p : ℕ) (xs : List ℕ) → Has p xs → Perm (p ∷ remove p xs) xs
remove-perm p [] h = absurd h
remove-perm p (x ∷ xs) h = elim (Bool-cases (x == p)) [
  | inl here ↦ let e : x ≡ p = ground arith in rw (here, ← e) (Perm.refl (x ∷ xs))
  | inr away ↦ elim h [
    | inl e ↦ absurd (ground arith)
    | inr later ↦
        rw away (Perm.trans (Perm.swap x p (remove p xs)) (Perm.cons x (remove-perm p xs later)))
  ]
]

-- What holds of all elements holds of what is left.
pub remove-All : (P : ℕ → Type 0) (p : ℕ) (xs : List ℕ) → All P xs → All P (remove p xs)
remove-All P p [] h = tt
remove-All P p (x ∷ xs) h = elim (Bool-cases (x == p)) [
  | inl here ↦ rw here h.1
  | inr away ↦ rw away (h.0, remove-All P p xs h.1)
]

pub Has-All : (P : ℕ → Type 0) (p : ℕ) (xs : List ℕ) → Has p xs → All P xs → P p
Has-All P p [] h all = absurd h
Has-All P p (x ∷ xs) h all = elim h [
  | inl e ↦ subst P e all.0
  | inr later ↦ Has-All P p xs later all.1
]

module _ (distances durations : ℕ → ℕ → ℕ) (weight : ℕ → ℕ) (limit : Option ℕ) where
  -- The point fits into the loop, with the way back to the depot.
  pub record IsFeasible (s : LoopState) (p : ℕ) : Type 0 where
    pub fits : weight p ≤ s.capacity
    pub within : beyond (s.distance + distances s.current p + distances p 0) limit ≡ false

  abbrev round : LoopState → ℕ → Option (ℕ × ℕ) → Option (ℕ × ℕ)
  round = consider distances durations weight limit

  round-feasible :
      (s : LoopState) (p : ℕ) (best : Option (ℕ × ℕ))
      → (weight p ≤ s.capacity)
      → beyond (s.distance + distances s.current p + distances p 0) limit ≡ false
      → (round s p best ≡ best) ⊎ (round s p best ≡ some (p, distances s.current p))
  unfolding consider
  round-feasible s p best light near =
      let heavy : ltb s.capacity (weight p) ≡ false = ground arith in
      elim (Bool-cases (closer (distances s.current p) best)) [
        | inl nearer ↦ inr (rw (heavy, near, nearer) refl)
        | inr farther ↦ inl (rw (heavy, near, farther) refl)
      ]

  round-cases :
      (s : LoopState) (p : ℕ) (best : Option (ℕ × ℕ))
      → (round s p best ≡ best)
        ⊎ ((round s p best ≡ some (p, distances s.current p)) × IsFeasible s p)
  unfolding consider
  round-cases s p best = elim (Bool-cases (ltb s.capacity (weight p))) [
    | inl heavy ↦ inl (rw (heavy, consider) refl)
    | inr light ↦
        elim (Bool-cases (beyond (s.distance + distances s.current p + distances p 0) limit)) [
          | inl far ↦ inl (rw (light, far, consider) refl)
          | inr near ↦ elim (round-feasible s p best (ground arith) near) [
            | inl same ↦ inl same
            | inr new ↦ inr (new, record { fits = ground arith; within = near })
          ]
        ]
  ]

  -- A feasible point is not passed over while there is no candidate.
  round-ne-none : (s : LoopState) (p : ℕ) → IsFeasible s p → round s p none ≢ none
  unfolding consider
  round-ne-none s p f e =
      let heavy : ltb s.capacity (weight p) ≡ false = ground (arith, f.fits) in
      let new : round s p none ≡ some (p, distances s.current p) =
        rw (heavy, f.within, consider) refl in
      cc

  pub scan-some :
      (s : LoopState) (ps : List ℕ) (best : Option (ℕ × ℕ)) (p d : ℕ)
      → scan distances durations weight limit s ps best ≡ some (p, d)
      → (best ≡ some (p, d)) ⊎ (Has p ps × IsFeasible s p)
  unfolding scan
  scan-some s [] best p d h = inl h
  scan-some s (x ∷ xs) best p d h = elim (scan-some s xs (round s x best) p d h) [
    | inr found ↦ inr (inr (found.0), found.1)
    | inl e ↦ elim (round-cases s x best) [
      | inl same ↦ inl (sym same ∙ e)
      | inr new ↦ let at : x ≡ p = cc in inr (inl at, subst (IsFeasible s) at (new.1))
    ]
  ]

  scan-ne-none :
      (s : LoopState) (ps : List ℕ) (best : Option (ℕ × ℕ))
      → best ≢ none
      → scan distances durations weight limit s ps best ≢ none
  unfolding scan
  scan-ne-none s [] best h = h
  scan-ne-none s (x ∷ xs) best h = scan-ne-none s xs (round s x best) (elim (round-cases s x best) [
    | inl same ↦ λ e. h (sym same ∙ e)
    | inr new ↦ λ e. ground (arith, new.0, e)
  ])

  -- Where nothing is found, no point of the list is feasible.
  pub scan-none :
      (s : LoopState) (ps : List ℕ)
      → scan distances durations weight limit s ps none ≡ none
      → All (λ p. ¬ IsFeasible s p) ps
  unfolding scan
  scan-none s [] h = tt
  scan-none s (x ∷ xs) h = elim (round-cases s x none) [
    | inl same ↦
        let rest : scan distances durations weight limit s xs none ≡ none = rw same at h in
        ((λ f. round-ne-none s x f same), scan-none s xs rest)
    | inr new ↦ absurd (scan-ne-none s xs (round s x none) (λ e. ground (arith, new.0, e)) h)
  ]
