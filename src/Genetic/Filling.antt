-- ===== src/Genetic/Filling.antt =====
-- The loop of `_order_crossover` that writes the genes of the other parent into the empty places.
use mathlib.Core.List.{append_assoc, append-nil, map-append}
use sfa_routing.Prelude.{
  range, ℕ, suc, ◌+◌, ◌≡◌, refl, ap, ◌∙◌, Option, some, List, [], ◌∷◌, ◌++◌, map, arith, length,
  set, length-append, length-map, ◌≡⟨◌⟩◌, ◌∎,
}
use sfa_routing.Genetic.{fill}

set-append :
    {A : Type 0} (pre : List A) (m : A) (rest : List A) (v : A)
    → set (pre ++ m ∷ rest) (length pre) v ≡ (pre ++ v ∷ []) ++ rest
set-append [] m rest v = refl
set-append (x ∷ pre) m rest v = ap (λ l. x ∷ l) (set-append pre m rest v)

-- A block of positions takes the first values, in order.
fill_block :
    (vs ws : List ℕ) (is : List ℕ) (pre mid post : List (Option ℕ))
    → length mid ≡ length vs
    → fill (range (length pre) (length vs) ++ is) (vs ++ ws) (pre ++ (mid ++ post))
      ≡ fill is ws (pre ++ (map some vs ++ post))
unfolding fill
fill_block [] ws is pre [] post e = refl
fill_block [] ws is pre (m ∷ mid) post e = absurd (omega arith)
fill_block (v ∷ vs) ws is pre [] post e = absurd (omega arith)
fill_block (v ∷ vs) ws is pre (m ∷ mid) post e =
    let next : length (pre ++ some v ∷ []) ≡ suc (length pre) =
      omega (arith, length-append {0} pre (some v ∷ [])) in
    let step = fill_block vs ws is (pre ++ some v ∷ []) mid post (omega arith) in
    rw (set-append pre m (mid ++ post) (some v), ← next)
      (step ∙ rw (append_assoc pre (some v ∷ []) (map some vs ++ post)))

length-map-some : (xs : List ℕ) → length {A = Option ℕ} (map some xs) ≡ length xs
length-map-some xs = length-map xs some

-- The positions behind the segment take the first values and those before it the others.
pub fill_two :
    (after before seg : List ℕ) (front back : List (Option ℕ)) (to : ℕ)
    → length front ≡ length before
    → length back ≡ length after
    → to ≡ length front + length seg
    → fill
        (range to (length after) ++ range 0 (length before))
        (after ++ before)
        (front ++ (map some seg ++ back))
      ≡ map some (before ++ (seg ++ after))
unfolding fill
fill_two after before seg front back to f b t =
    let there : length (front ++ map some seg) ≡ to =
      omega (arith, length-append {0} front (map some seg), length-map-some seg) in
    fill (range to (length after) ++ range 0 (length before)) (after ++ before)
      (front ++ (map some seg ++ back))
    ≡⟨ (rw (there, append-nil, append_assoc front (map some seg) back)) ⟩
      fill (range (length (front ++ map some seg)) (length after) ++ range 0 (length before))
        (after ++ before) ((front ++ map some seg) ++ (back ++ []))
    ≡⟨ fill_block after before (range 0 (length before)) (front ++ map some seg) back [] b ⟩
      fill (range 0 (length before)) before ((front ++ map some seg) ++ (map some after ++ []))
    ≡⟨ (simp (append-nil, append_assoc)) ⟩
      fill (range 0 (length before) ++ []) (before ++ [])
        (front ++ (map some seg ++ map some after))
    ≡⟨ fill_block before [] [] [] front (map some seg ++ map some after) f ⟩
      map some before ++ (map some seg ++ map some after)
    ≡⟨ (simp map-append) ⟩ map some (before ++ (seg ++ after)) ∎
