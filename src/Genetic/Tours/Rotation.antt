-- ===== src/Genetic/Tours/Rotation.antt =====
-- The rotation of a route to its start.
use mathlib.Core.List.Perm
use mathlib.Core.List.{perm_append_comm, Mem, mem-cons_self, mem-cons_of_mem}
use sfa_routing.Prelude.{
  ℕ, zero, suc, ◌+◌, ◌≤◌, ◌<◌, ◌≡◌, subst, true, List, [], ◌∷◌, ◌++◌, ◌==◌, take, drop, range, Perm,
  arith, take-append-drop, ℕ_discrete, Bool-cases, inl, inr,
}
use sfa_routing.Greedy.{contains}
use sfa_routing.TwoOpt.{at}
use sfa_routing.Genetic.Excluding.{mem→contains}
use sfa_routing.Genetic.Tours.{index_of, start_first}

pub start_first-perm : (start : ℕ) (route : List ℕ) → Perm (start_first start route) route
unfolding start_first
start_first-perm start route = elim (Bool-cases (contains route start)) [
  | inl there ↦ rw there (
      subst (Perm (drop (index_of start route) route ++ take (index_of start route) route))
        (take-append-drop (index_of start route) route)
        (perm_append_comm (drop (index_of start route) route) (take (index_of start route) route)))
  | inr away ↦ rw away (Perm.refl route)
]

at-index_of :
    (start : ℕ) (route rest : List ℕ)
    → contains route start ≡ true
    → at (drop (index_of start route) route ++ rest) 0 ≡ start
unfolding contains index_of
at-index_of start [] rest h = cc
at-index_of start (x ∷ xs) rest h = elim (Bool-cases (x == start)) [
  | inl here ↦ rw here (ground arith)
  | inr later ↦ rw later (at-index_of start xs rest (ground arith))
]

mem-range : (i n x : ℕ) → i ≤ x → x < i + n → Mem x (range i n)
mem-range i zero x h k = absurd (omega arith)
mem-range i (suc n) x h k = elim (ℕ_discrete x i) [
  | yes e ↦ rw e mem-cons_self
  | no ne ↦ mem-cons_of_mem i (mem-range (suc i) n x (omega arith) (omega arith))
]

contains-perm_range :
    (n start : ℕ) (route : List ℕ)
    → Perm route (range 0 n)
    → start < n
    → contains route start ≡ true
contains-perm_range n start route p h =
    mem→contains route start ((Perm.mem_iff p).1 (mem-range 0 n start (omega arith) (omega arith)))

pub start_first-at :
    (n start : ℕ) (route : List ℕ)
    → Perm route (range 0 n)
    → start < n
    → at (start_first start route) 0 ≡ start
unfolding start_first
start_first-at n start route p h =
    let there = contains-perm_range n start route p h in
    rw there (at-index_of start route (take (index_of start route) route) there)
