-- ===== src/Genetic/Excluding.antt =====
-- The genes of the other parent that `_order_crossover` takes: those outside the segment.
use mathlib.Core.List.Perm
use mathlib.Core.Logic.{∥∥₁_elim}
use mathlib.Core.List.{
  Mem, mem-cons, not-mem-nil, mem-cons_self, mem-cons_of_mem, mem-append_left, Nodup, Nodup-append,
  Disjoint,
}
use sfa_routing.Prelude.{
  ℕ, ◌≤◌, ◌≡◌, refl, sym, ap, ◌∙◌, subst, true, false, List, [], ◌∷◌, ◌++◌, Perm, arith, take, drop,
  inl, inr, Bool-cases, ℕ_discrete,
}
use sfa_routing.Prelude.Perms.{respect-perm}
use sfa_routing.Greedy.{contains}
use sfa_routing.TwoOpt.Swap.{take_middle_drop}
use sfa_routing.Genetic.{segment, exclude}

contains→mem : (xs : List ℕ) (x : ℕ) → contains xs x ≡ true → Mem x xs
unfolding contains
contains→mem [] x h = cc
contains→mem (y ∷ xs) x h = elim (ℕ_discrete x y) [
  | yes e ↦ rw e mem-cons_self
  | no ne ↦ mem-cons_of_mem y (contains→mem xs x (ground arith))
]

pub mem→contains : (xs : List ℕ) (x : ℕ) → Mem x xs → contains xs x ≡ true
unfolding contains
mem→contains [] x m = absurd (not-mem-nil m)
mem→contains (y ∷ xs) x m =
    ∥∥₁_elim (mem-cons.0 m) (hlevel)
      (λ c. elim c [ inl e ↦ ground arith | inr t ↦ ground (arith, mem→contains xs x t) ])

exclude-append :
    (taken xs ys : List ℕ) → exclude taken (xs ++ ys) ≡ exclude taken xs ++ exclude taken ys
unfolding exclude
exclude-append taken [] ys = refl
exclude-append taken (x ∷ xs) ys = ground (arith, exclude-append taken xs ys)

exclude-fresh :
    (taken xs : List ℕ) → ((x : ℕ) → Mem x xs → contains taken x ≡ false) → exclude taken xs ≡ xs
unfolding exclude
exclude-fresh taken [] h = refl
exclude-fresh taken (x ∷ xs) h =
    rw (h x mem-cons_self)
      (ap (λ l. x ∷ l) (exclude-fresh taken xs (λ y m. h y (mem-cons_of_mem x m))))

exclude-taken :
    (taken xs : List ℕ) → ((x : ℕ) → Mem x xs → contains taken x ≡ true) → exclude taken xs ≡ []
unfolding exclude
exclude-taken taken [] h = refl
exclude-taken taken (x ∷ xs) h =
    rw (h x mem-cons_self) (exclude-taken taken xs (λ y m. h y (mem-cons_of_mem x m)))

module _ (taken : List ℕ) where
  exclude-cons-perm :
      (x : ℕ) (xs ys : List ℕ)
      → Perm (exclude taken xs) (exclude taken ys)
      → Perm (exclude taken (x ∷ xs)) (exclude taken (x ∷ ys))
  unfolding exclude
  exclude-cons-perm x xs ys p = elim (Bool-cases (contains taken x)) [
    | inl held ↦ rw held p
    | inr free ↦ rw free (Perm.cons x p)
  ]

  exclude-swap-perm :
      (x y : ℕ) (l : List ℕ) → Perm (exclude taken (x ∷ y ∷ l)) (exclude taken (y ∷ x ∷ l))
  unfolding exclude
  exclude-swap-perm x y l = elim (Bool-cases (contains taken x)) [
    | inl held ↦ rw held (Perm.refl (exclude taken (y ∷ l)))
    | inr free ↦ elim (Bool-cases (contains taken y)) [
      | inl held ↦ rw (free, held) (Perm.refl (x ∷ exclude taken l))
      | inr open_ ↦ rw (free, open_) (Perm.swap y x (exclude taken l))
    ]
  ]

  exclude-perm : {xs ys : List ℕ} → Perm xs ys → Perm (exclude taken xs) (exclude taken ys)
  exclude-perm p = respect-perm (exclude taken) exclude-cons-perm exclude-swap-perm p

fresh : (xs taken : List ℕ) → Disjoint xs taken → (x : ℕ) → Mem x xs → contains taken x ≡ false
fresh xs taken apart x m = elim (Bool-cases (contains taken x)) [
  | inl held ↦ absurd (apart x m (contains→mem taken x held))
  | inr free ↦ free
]

exclude_middle :
    (pre seg post : List ℕ)
    → Nodup (pre ++ (seg ++ post))
    → exclude seg (pre ++ (seg ++ post)) ≡ pre ++ post
exclude_middle pre seg post distinct =
    let outer = Nodup-append.0 distinct in
    let inner = Nodup-append.0 (outer.1) in
    exclude-append seg pre (seg ++ post)
    ∙ (rw (
      exclude-append seg seg post,
      exclude-taken seg seg (λ x m. mem→contains seg x m),
      exclude-fresh seg pre (fresh pre seg (λ a m k. outer.2 a m (mem-append_left post k))),
      exclude-fresh seg post (fresh post seg (λ a m k. inner.2 a k m)),
    ))

-- What the others contribute.
pub exclude_segment-perm :
    (from to : ℕ) (parent other : List ℕ)
    → from ≤ to
    → Nodup parent
    → Perm other parent
    → Perm (exclude (segment from to parent) other) (take from parent ++ drop to parent)
exclude_segment-perm from to parent other h distinct same =
    let parts = take_middle_drop parent from to h in
    let rest =
      exclude_middle (take from parent) (segment from to parent) (drop to parent)
        (subst Nodup (sym parts) distinct) in
    subst (Perm (exclude (segment from to parent) other))
      (ap (exclude (segment from to parent)) (sym parts) ∙ rest)
      (exclude-perm (segment from to parent) same)
