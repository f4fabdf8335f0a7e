-- ===== src/Prelude/Picks.antt =====
-- The entries of a partial table at a list of indices.
use mathlib.Core.List.Perm
use mathlib.Core.Logic.{∥∥₁_elim}
use mathlib.Core.List.{Mem, mem-cons, not-mem-nil}
use sfa_routing.Prelude.{
  ℕ, suc, ◌+◌, ◌≡◌, refl, ap, ◌∙◌, subst, Option, none, some, List, [], ◌∷◌, ◌++◌, Perm, arith, inl,
  inr, Option-cases, length, get_elem?, range, ◌≢◌,
}
use sfa_routing.Prelude.Perms.{respect-perm}

unfoldable pub pick : {A : Type 0} → (ℕ → Option A) → List ℕ → List A
pick entry [] = []
pick entry (i ∷ is) = elim (entry i) [ none ↦ pick entry is | some x ↦ x ∷ pick entry is ]

module _ {A : Type 0} (entry : ℕ → Option A) where
  pub pick-none : (i : ℕ) (l : List ℕ) → entry i ≡ none → pick entry (i ∷ l) ≡ pick entry l
  unfolding pick
  pick-none i l e = rw (e, pick) refl

  pub pick-some :
      (i : ℕ) (l : List ℕ) {x : A} → entry i ≡ some x → pick entry (i ∷ l) ≡ x ∷ pick entry l
  unfolding pick
  pick-some i l e = rw (e, pick) refl

  pick-cons :
      (i : ℕ) (xs ys : List ℕ)
      → Perm (pick entry xs) (pick entry ys)
      → Perm (pick entry (i ∷ xs)) (pick entry (i ∷ ys))
  pick-cons i xs ys p = elim (Option-cases (entry i)) [
    | inl gap ↦ rw (pick-none i xs gap, pick-none i ys gap) p
    | inr (v, e) ↦ rw (pick-some i xs e, pick-some i ys e) (Perm.cons v p)
  ]

  pick-swap : (i j : ℕ) (l : List ℕ) → Perm (pick entry (i ∷ j ∷ l)) (pick entry (j ∷ i ∷ l))
  pick-swap i j l = elim (Option-cases (entry i)) [
    | inl gap ↦
        rw (pick-none i (j ∷ l) gap)
          (pick-cons j l (i ∷ l) (rw (pick-none i l gap) (Perm.refl (pick entry l))))
    | inr (v, e) ↦ elim (Option-cases (entry j)) [
      | inl gap ↦
          rw (pick-none j (i ∷ l) gap)
            (pick-cons i (j ∷ l) l (rw (pick-none j l gap) (Perm.refl (pick entry l))))
      | inr (w, f) ↦
          rw (pick-some i (j ∷ l) e, pick-some j (i ∷ l) f, pick-some i l e, pick-some j l f)
            (Perm.swap w v (pick entry l))
    ]
  ]

  pub pick-perm : {xs ys : List ℕ} → Perm xs ys → Perm (pick entry xs) (pick entry ys)
  pick-perm p = respect-perm (pick entry) pick-cons pick-swap p

  pub pick-append : (xs ys : List ℕ) → pick entry (xs ++ ys) ≡ pick entry xs ++ pick entry ys
  unfolding pick
  pick-append [] ys = refl
  pick-append (i ∷ is) ys = elim (Option-cases (entry i)) [
    | inl gap ↦ rw (pick-none i (is ++ ys) gap, pick-none i is gap) (pick-append is ys)
    | inr (v, e) ↦
        rw (pick-some i (is ++ ys) e, pick-some i is e) (ap (λ l. v ∷ l) (pick-append is ys))
  ]

-- The list from `i` on is in the table.
abbrev pub Counts : {A : Type 0} → (ℕ → Option A) → ℕ → List A → Type 0
Counts {A = A} entry i vs = (k : ℕ) (v : A) → get_elem? vs k ≡ some v → entry (i + k) ≡ some v

module _ {A : Type 0} (entry : ℕ → Option A) where
  first_counts : (i : ℕ) (v : A) (vs : List A) → Counts entry i (v ∷ vs) → entry i ≡ some v
  first_counts i v vs h =
      let none_more : i + 0 ≡ i = omega arith in
      subst (λ j. entry j ≡ some v) none_more (h 0 v refl)

  rest_counts : (i : ℕ) (v : A) (vs : List A) → Counts entry i (v ∷ vs) → Counts entry (suc i) vs
  rest_counts i v vs h k w e =
      let shift : i + suc k ≡ suc i + k = omega arith in
      subst (λ j. entry j ≡ some w) shift (h (suc k) w e)

  pub pick-range : (i : ℕ) (vs : List A) → Counts entry i vs → pick entry (range i (length vs)) ≡ vs
  unfolding pick
  pick-range i [] h = refl
  pick-range i (v ∷ vs) h =
      pick-some entry i (range (suc i) (length vs)) (first_counts i v vs h)
      ∙ ap (λ l. v ∷ l) (pick-range (suc i) vs (rest_counts i v vs h))

  pub range_total :
      (i : ℕ) (vs : List A) (j : ℕ)
      → Counts entry i vs
      → Mem j (range i (length vs))
      → entry j ≢ none
  range_total i [] j h m e = absurd (not-mem-nil m)
  range_total i (v ∷ vs) j h m e = ∥∥₁_elim (mem-cons.0 m) (hlevel) (λ c. elim c [
    | inl at ↦ let found = first_counts i v vs h in ground (arith, at, found, e)
    | inr in_rest ↦ range_total (suc i) vs j (rest_counts i v vs h) in_rest e
  ])

pub pick_whole : {A : Type 0} → (vs : List A) → pick (get_elem? vs) (range 0 (length vs)) ≡ vs
pick_whole {A = A} vs =
    pick-range (get_elem? vs) 0 vs
      (λ k v e. let same : k ≡ 0 + k = omega arith in subst (λ j. get_elem? vs j ≡ some v) same e)
