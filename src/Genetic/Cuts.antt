-- ===== src/Genetic/Cuts.antt =====
-- `_order_crossover` on permutations of the jobs, at the cuts that the `random` module draws.
use mathlib.Core.List.Perm
use mathlib.Core.Logic.{∥∥₁_elim}
use mathlib.Core.List.{Mem, mem-cons, not-mem-nil, Nodup, Nodup-cons, Nodup-nil}
use sfa_routing.Prelude.{
  range, length-range, ℕ, zero, suc, ◌<◌, ◌≡◌, ◌∙◌, some, List, map, Perm, arith, length, ltb, inl,
  inr, Bool-cases,
}
use sfa_routing.Prelude.Perms.{length-perm}
use sfa_routing.Genetic.{order_crossover}
use sfa_routing.Genetic.Crossover.{order_crossover-AreChildren}

-- The cuts of `sorted(random.sample(range(size), 2))`.
abbrev pub IsCut : ℕ → ℕ × ℕ → Type 0
IsCut size (from, to) = (from < to) × (to < size)

range-above : (i n x : ℕ) → x < i → ¬ Mem x (range i n)
range-above i zero x h m = not-mem-nil m
range-above i (suc n) x h m =
    ∥∥₁_elim (mem-cons.0 m) (hlevel)
      (λ c. elim c [ inl e ↦ omega arith | inr t ↦ range-above (suc i) n x (omega arith) t ])

pub range-Nodup : (i n : ℕ) → Nodup (range i n)
range-Nodup i zero = Nodup-nil
range-Nodup i (suc n) = Nodup-cons.1 (range-above (suc i) n i (omega arith), range-Nodup (suc i) n)

pair_eq : {A : Type 0} {p : A × A} {a b : A} → p.0 ≡ a → p.1 ≡ b → p ≡ (a, b)
pair_eq e f = λ i. (e i, f i)

-- Both children of two permutations of the jobs are permutations of the jobs.
pub order_crossover-perm :
    (n : ℕ) (cut : ℕ × ℕ) (parent1 parent2 : List ℕ)
    → IsCut n cut
    → Perm parent1 (range 0 n)
    → Perm parent2 (range 0 n)
    → (g1 g2 : List ℕ) × (order_crossover (cut.0) (cut.1) parent1 parent2
        ≡ (map some g1, map some g2))
      × Perm g1 (range 0 n)
      × Perm g2 (range 0 n)
unfolding order_crossover
order_crossover-perm n (from, to) parent1 parent2 h p q =
    let size : length parent1 ≡ n = length-perm p ∙ length-range 0 n in
    let distinct = Perm.nodup (Perm.symm p) (range-Nodup 0 n) in
    let same = Perm.trans q (Perm.symm p) in
    elim (Bool-cases (ltb (length parent1) 3)) [
      | inl short ↦ (parent1, parent2, rw short, p, q)
      | inr long ↦
          let c =
            order_crossover-AreChildren from to parent1 parent2 (ground arith) (h.0) (omega arith)
              distinct same in
          (
            c.first.genes,
            c.second.genes,
            pair_eq (c.first.filled) (c.second.filled),
            Perm.trans (c.first.perm) p,
            Perm.trans (c.second.perm) q,
          )
    ]
