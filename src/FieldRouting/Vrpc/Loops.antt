-- ===== src/FieldRouting/Vrpc/Loops.antt =====
-- The inner loop of `_solve_greedy`: one loop of a vehicle from the depot and back.
use mathlib.Core.List.Perm
use mathlib.Core.List.{append_assoc}
use sfa_routing.Prelude.{
  ℕ, zero, suc, ◌+◌, ◌≤◌, ◌<◌, ◌≡◌, refl, sym, ap, ◌∙◌, subst, false, Option, none, some, List, [],
  ◌∷◌, ◌++◌, ◌⊎◌, inl, inr, Perm, arith, Option-cases, length, length-snoc, All, All-append,
}
use sfa_routing.Prelude.Perms.{sum_by, sum_by-append}
use sfa_routing.TwoOpt.{way}
use sfa_routing.FieldRouting.Vrpc.{
  LoopState, remove, beyond, start_loop, scan, take_point, fill_loop,
}
use sfa_routing.FieldRouting.Vrpc.Nearest.{
  Has, Has-All, remove-All, remove-perm, IsFeasible, scan-some, scan-none,
}

abbrev pub last_of : ℕ → List ℕ → ℕ
last_of x [] = x
last_of x (y ∷ ys) = last_of y ys

pub last_of-snoc : (x : ℕ) (xs : List ℕ) (y : ℕ) → last_of x (xs ++ y ∷ []) ≡ y
last_of-snoc x [] y = refl
last_of-snoc x (z ∷ zs) y = last_of-snoc z zs y

pub way-snoc :
    (d : ℕ → ℕ → ℕ) (x : ℕ) (xs : List ℕ) (y : ℕ)
    → way d x (xs ++ y ∷ []) ≡ way d x xs + d (last_of x xs) y
unfolding way
way-snoc d x [] y = omega arith
way-snoc d x (z ∷ zs) y = omega (arith, way-snoc d z zs y)

pub All-short : (P : ℕ → Type 0) (xs : List ℕ) → length xs ≤ 0 → All P xs
All-short P [] h = tt
All-short P (x ∷ xs) h = absurd (omega arith)

module _ (distances durations : ℕ → ℕ → ℕ) (weight : ℕ → ℕ) (limit : Option ℕ) where
  -- What one loop of a vehicle with this capacity keeps, if it starts with the points `start`.
  pub record IsLoop (capacity : ℕ) (start : List ℕ) (s : LoopState) : Type 0 where
    pub perm : Perm (s.route ++ s.unassigned) start
    pub load : sum_by weight s.route + s.capacity ≡ capacity
    pub distance : s.distance ≡ way distances 0 s.route
    pub duration : s.duration ≡ way durations 0 s.route
    pub ends : s.current ≡ last_of 0 s.route
    pub within : (s.route ≡ []) ⊎ (beyond (s.distance + distances s.current 0) limit ≡ false)
    pub routed : All (λ p. 0 < p) s.route
    pub left : All (λ p. 0 < p) s.unassigned

  abbrev run : ℕ → LoopState → LoopState
  run = fill_loop distances durations weight limit

  abbrev seek : LoopState → Option (ℕ × ℕ)
  seek s = scan distances durations weight limit s s.unassigned none

  -- The point that is found is unassigned and feasible.
  seek-some :
      (s : LoopState) (p d : ℕ)
      → seek s ≡ some (p, d)
      → Has p s.unassigned × IsFeasible distances durations weight limit s p
  seek-some s p d h = elim (scan-some distances durations weight limit s s.unassigned none p d h) [
    | inl e ↦ absurd (ground arith)
    | inr found ↦ found
  ]

  take_point-IsLoop :
      (capacity : ℕ) (start : List ℕ) (s : LoopState) (p : ℕ)
      → IsLoop capacity start s
      → Has p s.unassigned
      → IsFeasible distances durations weight limit s p
      → IsLoop capacity start (take_point distances durations weight limit s p)
  unfolding take_point
  take_point-IsLoop capacity start s p h held f = record {
    perm =
        subst (λ l. Perm l start) (sym (append_assoc s.route (p ∷ []) (remove p s.unassigned)))
          (Perm.trans (Perm.append_left s.route (remove-perm p s.unassigned held)) h.perm);
    load = omega (arith, sum_by-append {0} weight s.route (p ∷ []), h.load, f.fits);
    distance =
        omega
          (arith, way-snoc distances 0 s.route p, h.distance, ap (λ (c : ℕ). distances c p) h.ends);
    duration =
        omega
          (arith, way-snoc durations 0 s.route p, h.duration, ap (λ (c : ℕ). durations c p) h.ends);
    ends = sym (last_of-snoc 0 s.route p);
    within = inr f.within;
    routed =
        All-append (λ p. 0 < p) s.route (p ∷ []) h.routed
          (Has-All (λ p. 0 < p) p s.unassigned held h.left, tt);
    left = remove-All (λ p. 0 < p) p s.unassigned h.left;
  }

  filled-IsLoop :
      (fuel capacity : ℕ) (start : List ℕ) (s : LoopState)
      → IsLoop capacity start s
      → IsLoop capacity start (run fuel s)
  unfolding fill_loop
  filled-IsLoop zero capacity start s h = h
  filled-IsLoop (suc fuel) capacity start s h = elim (Option-cases (seek s)) [
    | inl nothing ↦ rw (nothing, fill_loop) h
    | inr ((p, d), found) ↦
        let (held, f) = seek-some s p d found in
        rw (found, fill_loop)
          (filled-IsLoop fuel capacity start (take_point distances durations weight limit s p)
            (take_point-IsLoop capacity start s p h held f))
  ]

  pub start_loop-IsLoop :
      (capacity : ℕ) (start : List ℕ)
      → All (λ p. 0 < p) start
      → IsLoop capacity start (start_loop capacity start)
  unfolding way
  start_loop-IsLoop capacity start h = record {
    perm = Perm.refl start;
    load = omega arith;
    distance = refl;
    duration = refl;
    ends = refl;
    within = inl refl;
    routed = tt;
    left = h;
  }

  pub run-IsLoop :
      (fuel capacity : ℕ) (start : List ℕ)
      → All (λ p. 0 < p) start
      → IsLoop capacity start (run fuel (start_loop capacity start))
  run-IsLoop fuel capacity start h =
      filled-IsLoop fuel capacity start (start_loop capacity start)
        (start_loop-IsLoop capacity start h)

  fill_loop-route : (fuel : ℕ) (s : LoopState) → length s.route ≤ length (run fuel s).route
  unfolding fill_loop take_point
  fill_loop-route zero s = omega arith
  fill_loop-route (suc fuel) s = elim (Option-cases (seek s)) [
    | inl nothing ↦ rw (nothing, fill_loop) (omega arith)
    | inr ((p, d), found) ↦
        rw (found, fill_loop)
          (omega (
            arith,
            fill_loop-route fuel (take_point distances durations weight limit s p),
            length-snoc {0} s.route p,
          ))
  ]

  -- A loop that takes no point had none that it could take.
  pub fill_loop-none :
      (fuel : ℕ) (s : LoopState)
      → length s.unassigned ≤ fuel
      → (run fuel s).route ≡ []
      → All (λ p. ¬ IsFeasible distances durations weight limit s p) s.unassigned
  unfolding fill_loop take_point
  fill_loop-none zero s enough empty =
      All-short (λ p. ¬ IsFeasible distances durations weight limit s p) s.unassigned enough
  fill_loop-none (suc fuel) s enough empty = elim (Option-cases (seek s)) [
    | inl nothing ↦ scan-none distances durations weight limit s s.unassigned nothing
    | inr ((p, d), found) ↦
        let taken = take_point distances durations weight limit s p in
        let e : (run (suc fuel) s) ≡ run fuel taken = rw (found, fill_loop) refl in
        absurd (
          omega (
            arith,
            ap length (ap (λ (t : LoopState). t.route) (sym e) ∙ empty),
            fill_loop-route fuel taken,
            length-snoc {0} s.route p,
          ))
  ]

  -- The vehicle can serve the point on a loop of its own.
  pub record IsServable (capacity p : ℕ) : Type 0 where
    pub fits : weight p ≤ capacity
    pub within : beyond (distances 0 p + distances p 0) limit ≡ false

  Unservable-All :
      (capacity : ℕ) (us ps : List ℕ)
      → All (λ p. ¬ IsFeasible distances durations weight limit (start_loop capacity us) p) ps
      → All (λ p. ¬ IsServable capacity p) ps
  Unservable-All capacity us [] h = tt
  Unservable-All capacity us (p ∷ ps) h = (
    (λ v. h.0 (record {
      fits = v.fits;
      within = let e : 0 + distances 0 p ≡ distances 0 p = omega arith in rw e v.within;
    })),
    Unservable-All capacity us ps h.1,
  )

  pub start_loop-none :
      (capacity : ℕ) (us : List ℕ)
      → (run (length us) (start_loop capacity us)).route ≡ []
      → All (λ p. ¬ IsServable capacity p) us
  start_loop-none capacity us empty =
      Unservable-All capacity us us
        (fill_loop-none (length us) (start_loop capacity us) (omega arith) empty)
