-- ===== src/Genetic/Mutations.antt =====
-- `_swap_mutation`, `_insert_mutation` and `_2opt_mutation`.
use mathlib.Core.List.Perm
use mathlib.Core.List.{perm_middle}
use sfa_routing.Prelude.{
  ℕ, zero, suc, ◌<◌, subst, List, [], ◌∷◌, ◌++◌, Perm, arith, length, ltb, set, take, drop, get_or,
  inl, inr, Bool-cases, take-append-drop,
}
use sfa_routing.TwoOpt.Swap.{swap_tail-perm}
use sfa_routing.Genetic.{
  swap_mutation, remove_at, insert_at, insert_mutation, two_opt_mutation, Mutation, unchanged, swap,
  insert, two_opt, mutate_chromosome,
}

-- The head changes places with the gene at `j`.
swap_head-perm :
    (x : ℕ) (c : List ℕ) (j : ℕ) → j < length c → Perm (get_or c j 0 ∷ set c j x) (x ∷ c)
swap_head-perm x [] j h = absurd (omega arith)
swap_head-perm x (y ∷ c) zero h = Perm.swap x y c
swap_head-perm x (y ∷ c) (suc j) h =
    Perm.trans (Perm.swap y (get_or c j 0) (set c j x))
      (Perm.trans (Perm.cons y (swap_head-perm x c j (omega arith))) (Perm.swap x y c))

exchange-perm :
    (i j : ℕ) (c : List ℕ)
    → i < length c
    → j < length c
    → Perm (set (set c i (get_or c j 0)) j (get_or c i 0)) c
exchange-perm i j [] h k = absurd (omega arith)
exchange-perm zero zero (x ∷ c) h k = Perm.refl (x ∷ c)
exchange-perm zero (suc j) (x ∷ c) h k = swap_head-perm x c j (omega arith)
exchange-perm (suc i) zero (x ∷ c) h k = swap_head-perm x c i (omega arith)
exchange-perm (suc i) (suc j) (x ∷ c) h k =
    Perm.cons x (exchange-perm i j c (omega arith) (omega arith))

remove_at-perm : (i : ℕ) (c : List ℕ) → i < length c → Perm (get_or c i 0 ∷ remove_at i c) c
unfolding remove_at
remove_at-perm i [] h = absurd (omega arith)
remove_at-perm zero (x ∷ c) h = Perm.refl (x ∷ c)
remove_at-perm (suc i) (x ∷ c) h =
    Perm.trans (Perm.swap x (get_or c i 0) (remove_at i c))
      (Perm.cons x (remove_at-perm i c (omega arith)))

insert_at-perm : (j gene : ℕ) (c : List ℕ) → Perm (insert_at j gene c) (gene ∷ c)
unfolding insert_at
insert_at-perm j gene c =
    subst (λ l. Perm (take j c ++ gene ∷ drop j c) (gene ∷ l)) (take-append-drop j c)
      (perm_middle (take j c) (drop j c))

-- The positions that `random.sample` and `random.randint` give.
abbrev pub IsDrawn : Mutation → List ℕ → Type 0
IsDrawn unchanged c = Unit {0}
IsDrawn (swap i j) c = (i < length c) × (j < length c)
IsDrawn (insert i j) c = (i < length c) × (j < length c)
IsDrawn (two_opt i j) c = (i < j) × (j < length c)

-- A mutation at positions of the chromosome gives a permutation of it.
pub mutate_chromosome-perm :
    (m : Mutation) (c : List ℕ) → IsDrawn m c → Perm (mutate_chromosome m c) c
unfolding mutate_chromosome swap_mutation insert_mutation two_opt_mutation
mutate_chromosome-perm unchanged c d = Perm.refl c
mutate_chromosome-perm (swap i j) c d = elim (Bool-cases (ltb (length c) 2)) [
  | inl short ↦ rw short (Perm.refl c)
  | inr long ↦ rw long (exchange-perm i j c (d.0) (d.1))
]
mutate_chromosome-perm (insert i j) c d = elim (Bool-cases (ltb (length c) 2)) [
  | inl short ↦ rw short (Perm.refl c)
  | inr long ↦
      rw long
        (Perm.trans (insert_at-perm j (get_or c i 0) (remove_at i c)) (remove_at-perm i c (d.0)))
]
mutate_chromosome-perm (two_opt i j) c d = elim (Bool-cases (ltb (length c) 3)) [
  | inl short ↦ rw short (Perm.refl c)
  | inr long ↦ rw long (swap_tail-perm c i (suc j) (omega arith))
]
