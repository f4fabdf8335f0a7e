-- ===== src/Genetic/Crossover.antt =====
-- `_order_crossover` and its two children.
use mathlib.Core.List.Perm
use mathlib.Core.List.{Nodup, append_assoc, perm_append_comm}
use sfa_routing.Prelude.{
  ℕ, ◌+◌, ◌-◌, ◌≤◌, ◌<◌, ◌≡◌, refl, sym, ap, subst, false, Option, none, some, List, [], ◌∷◌, ◌++◌,
  map, Perm, arith, length, ltb, take, drop, replicate, length-append, length-take, length-drop,
  length-replicate, take-append-drop,
}
use sfa_routing.Prelude.Perms.{length-perm}
use sfa_routing.TwoOpt.Swap.{take_middle_drop}
use sfa_routing.Genetic.{segment, exclude, empty_child, child, order_crossover}
use sfa_routing.Genetic.Filling.{fill_two}
use sfa_routing.Genetic.Excluding.{exclude_segment-perm}

take_append_length : {A : Type 0} (xs ys : List A) → take (length xs) (xs ++ ys) ≡ xs
take_append_length [] ys = refl
take_append_length (x ∷ xs) ys = ap (λ l. x ∷ l) (take_append_length xs ys)

drop_append_length : {A : Type 0} (xs ys : List A) → drop (length xs) (xs ++ ys) ≡ ys
drop_append_length [] ys = refl
drop_append_length (x ∷ xs) ys = drop_append_length xs ys

-- The genes of a child are the parent's; the segment stays in its place; read from behind the
-- segment and round the end, the others have the order of the other parent.
pub record IsChild (from to : ℕ) (parent other : List ℕ) (c : List (Option ℕ)) : Type 0 where
  pub genes : List ℕ
  pub filled : c ≡ map some genes
  pub perm : Perm genes parent
  pub kept : segment from to genes ≡ segment from to parent
  pub order : drop to genes ++ take from genes ≡ exclude (segment from to parent) other

-- Three parts in a row, cut at their lengths.
module _ (before seg after : List ℕ) (from to : ℕ) (f : length before ≡ from)
    (t : length before + length seg ≡ to) where
  end_of_two : length (before ++ seg) ≡ to
  end_of_two = omega (arith, length-append {0} before seg)

  take_two : take to (before ++ (seg ++ after)) ≡ before ++ seg
  take_two =
      rw (← append_assoc before seg after, ← end_of_two) (take_append_length (before ++ seg) after)

  drop_two : drop to (before ++ (seg ++ after)) ≡ after
  drop_two =
      rw (← append_assoc before seg after, ← end_of_two) (drop_append_length (before ++ seg) after)

  take_one : take from (before ++ (seg ++ after)) ≡ before
  take_one = rw (← f) (take_append_length before (seg ++ after))

  drop_one : drop from (before ++ seg) ≡ seg
  drop_one = rw (← f) (drop_append_length before seg)

rotate-perm :
    (before seg after pre post : List ℕ)
    → Perm (after ++ before) (pre ++ post)
    → Perm (before ++ (seg ++ after)) (pre ++ (seg ++ post))
rotate-perm before seg after pre post p = Perm.trans (perm_append_comm before (seg ++ after)) (
    subst (λ l. Perm l (pre ++ (seg ++ post))) (sym (append_assoc seg after before))
      (Perm.trans (Perm.append_left seg p) (
        subst (Perm (seg ++ (pre ++ post))) (append_assoc pre seg post) (
          subst (λ l. Perm l ((pre ++ seg) ++ post)) (append_assoc seg pre post)
            (Perm.append_right post (perm_append_comm seg pre))))))

child_genes : (from to : ℕ) (parent other : List ℕ) → List ℕ
child_genes from to parent other =
    let n = length parent - to in
    let rest = exclude (segment from to parent) other in
    drop n rest ++ (segment from to parent ++ take n rest)

module _ (from to : ℕ) (parent other : List ℕ) (low : from ≤ to) (high : to ≤ length parent)
    (distinct : Nodup parent) (same : Perm other parent) where
  rest_length : length (exclude (segment from to parent) other) ≡ (length parent - to) + from
  rest_length = omega (
    arith,
    length-perm (exclude_segment-perm from to parent other low distinct same),
    length-append {0} (take from parent) (drop to parent),
    length-take {0} from parent,
    length-drop {0} to parent,
  )

  length-segment : length (segment from to parent) ≡ to - from
  length-segment = omega (arith, length-drop {0} from (take to parent), length-take {0} to parent)

  child-filled :
      child (length parent) from to parent other ≡ map some (child_genes from to parent other)
  unfolding child child_genes empty_child
  child-filled =
      let n : ℕ = length parent - to in
      let rest = exclude (segment from to parent) other in
      let blank = replicate {A = Option ℕ} (length parent) none in
      let a : length (take n rest) ≡ n = omega (arith, rest_length, length-take {0} n rest) in
      let b : length (drop n rest) ≡ from = omega (arith, rest_length, length-drop {0} n rest) in
      let full : length blank ≡ length parent = length-replicate (length parent) none in
      let f : length (take from blank) ≡ length (drop n rest) =
        omega (arith, length-take {0} from blank) in
      let g : length (drop to blank) ≡ length (take n rest) =
        omega (arith, length-drop {0} to blank) in
      let h : to ≡ length (take from blank) + length (segment from to parent) =
        omega (arith, length-segment) in
      rw (a, b, take-append-drop n rest) at
        (fill_two (take n rest) (drop n rest) (segment from to parent) (take from blank)
          (drop to blank) to f g h)

  child_genes-perm : Perm (child_genes from to parent other) parent
  unfolding child_genes
  child_genes-perm =
      let n : ℕ = length parent - to in
      let rest = exclude (segment from to parent) other in
      subst (Perm (child_genes from to parent other)) (take_middle_drop parent from to low) (
        rotate-perm (drop n rest) (segment from to parent) (take n rest) (take from parent)
          (drop to parent)
          (subst (λ l. Perm l (take from parent ++ drop to parent)) (sym (take-append-drop n rest))
            (exclude_segment-perm from to parent other low distinct same)))

  before_length : length (drop (length parent - to) (exclude (segment from to parent) other)) ≡ from
  before_length = omega (
    arith,
    rest_length,
    length-drop {0} (length parent - to) (exclude (segment from to parent) other),
  )

  pub child-IsChild : IsChild from to parent other (child (length parent) from to parent other)
  unfolding child_genes
  child-IsChild =
      let n : ℕ = length parent - to in
      let rest = exclude (segment from to parent) other in
      let two : length (drop n rest) + length (segment from to parent) ≡ to =
        omega (arith, before_length, length-segment) in
      record {
        genes = child_genes from to parent other;
        filled = child-filled;
        perm = child_genes-perm;
        kept =
            rw
              (take_two (drop n rest) (segment from to parent) (take n rest) from to before_length
                two)
              (drop_one (drop n rest) (segment from to parent) (take n rest) from to before_length
                two);
        order =
            rw
              (
                take_one (drop n rest) (segment from to parent) (take n rest) from to before_length
                    two,
                drop_two (drop n rest) (segment from to parent) (take n rest) from to before_length
                    two,
              )
              (take-append-drop n rest);
      }

-- The pair of children, each with a segment of one parent.
pub record AreChildren (from to : ℕ) (parent1 parent2 : List ℕ)
    (pair : List (Option ℕ) × List (Option ℕ)) : Type 0 where
  pub first : IsChild from to parent1 parent2 (pair.0)
  pub second : IsChild from to parent2 parent1 (pair.1)

-- For distinct genes, at least three of them, that both parents have, order crossover gives two
-- children that keep the segment of one parent, have all its genes, and take the others in the
-- order of the other parent.
pub order_crossover-AreChildren :
    (from to : ℕ) (parent1 parent2 : List ℕ)
    → 3 ≤ length parent1
    → from < to
    → to < length parent1
    → Nodup parent1
    → Perm parent2 parent1
    → AreChildren from to parent1 parent2 (order_crossover from to parent1 parent2)
unfolding order_crossover
order_crossover-AreChildren from to parent1 parent2 size low high distinct same =
    let long : ltb (length parent1) 3 ≡ false = ground arith in
    let equal = length-perm same in
    let back = Perm.symm same in
    let second : IsChild from to parent2 parent1 (child (length parent1) from to parent2 parent1) =
      rw (← equal) (
        child-IsChild from to parent2 parent1 (omega arith) (omega arith) (Perm.nodup back distinct)
          back) in
    rw long (record {
      first = child-IsChild from to parent1 parent2 (omega arith) (omega arith) distinct same;
      second = second;
    })
