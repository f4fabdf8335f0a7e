-- ===== src/ParallelMatrix/Cover.antt =====
-- The slices of a list, and the batches of the matrix.
use sfa_routing.Prelude.{
  range, ℕ, zero, suc, ◌+◌, ◌-◌, ◌≤◌, ◌<◌, ◌≡◌, refl, sym, ap, ◌∙◌, true, ◌&&◌, List, [], ◌∷◌, ◌++◌,
  ◌⊎◌, inl, inr, arith, ltb, length, take, drop, get_or, length-take, length-drop, Bool-cases, All,
  All-append,
}
use sfa_routing.ParallelMatrix.{Batch, batch_ranges, pair_with, batches, inside}

pub get_or-range : (a n k : ℕ) → k < n → get_or (range a n) k 0 ≡ a + k
get_or-range a zero k h = absurd (omega arith)
get_or-range a (suc n) zero h = omega arith
get_or-range a (suc n) (suc k) h = omega (arith, get_or-range (suc a) n k)

pub get_or-append_left :
    (xs ys : List ℕ) (k : ℕ) → k < length xs → get_or (xs ++ ys) k 0 ≡ get_or xs k 0
get_or-append_left [] ys k h = absurd (omega arith)
get_or-append_left (x ∷ xs) ys zero h = refl
get_or-append_left (x ∷ xs) ys (suc k) h = get_or-append_left xs ys k (omega arith)

pub get_or-append_right :
    (xs ys : List ℕ) (k : ℕ) → length xs ≤ k → get_or (xs ++ ys) k 0 ≡ get_or ys (k - length xs) 0
get_or-append_right [] ys k h = ap (λ i. get_or ys i 0) (omega arith)
get_or-append_right (x ∷ xs) ys zero h = absurd (omega arith)
get_or-append_right (x ∷ xs) ys (suc k) h =
    get_or-append_right xs ys k (omega arith) ∙ ap (λ i. get_or ys i 0) (omega arith)

get_or-take : (c : ℕ) (xs : List ℕ) (k : ℕ) → k < c → get_or (take c xs) k 0 ≡ get_or xs k 0
get_or-take zero xs k h = absurd (omega arith)
get_or-take (suc c) [] k h = refl
get_or-take (suc c) (x ∷ xs) zero h = refl
get_or-take (suc c) (x ∷ xs) (suc k) h = get_or-take c xs k (omega arith)

get_or-drop : (a : ℕ) (xs : List ℕ) (k : ℕ) → get_or (drop a xs) k 0 ≡ get_or xs (a + k) 0
get_or-drop zero xs k = ap (λ i. get_or xs i 0) (omega arith)
get_or-drop (suc a) [] k = refl
get_or-drop (suc a) (x ∷ xs) k =
    let shift : suc a + k ≡ suc (a + k) = omega arith in
    get_or-drop a xs k ∙ ap (λ i. get_or (x ∷ xs) i 0) (sym shift)

-- A slice of the coordinates.
pub get_or-slice :
    (start stop : ℕ) (xs : List ℕ) (i : ℕ)
    → start ≤ i
    → i < stop
    → get_or (take (stop - start) (drop start xs)) (i - start) 0 ≡ get_or xs i 0
get_or-slice start stop xs i low high =
    get_or-take (stop - start) (drop start xs) (i - start) (omega arith)
    ∙ (get_or-drop start xs (i - start) ∙ ap (λ k. get_or xs k 0) (omega arith))

pub length-slice :
    (start stop : ℕ) (xs : List ℕ)
    → stop ≤ length xs
    → length (take (stop - start) (drop start xs)) ≡ stop - start
length-slice start stop xs h =
    omega (arith, length-take {0} (stop - start) (drop start xs), length-drop {0} start xs)

-- Some range has the index.
abbrev pub Covers : ℕ → List (ℕ × ℕ) → Type 0
Covers i [] = ⊥
Covers i ((start, stop) ∷ rs) = (inside start stop i ≡ true) ⊎ Covers i rs

abbrev pub IsCovered : ℕ → ℕ → List Batch → Type 0
IsCovered i j [] = ⊥
IsCovered i j (b ∷ bs) =
    ((inside b.i_start b.i_end i && inside b.j_start b.j_end j) ≡ true) ⊎ IsCovered i j bs

pub batch_ranges-Covers :
    (fuel start size n i : ℕ)
    → 1 ≤ size
    → n ≤ start + fuel
    → start ≤ i
    → i < n
    → Covers i (batch_ranges fuel start size n)
unfolding batch_ranges
batch_ranges-Covers zero start size n i s f low high = absurd (omega arith)
batch_ranges-Covers (suc fuel) start size n i s f low high =
    let more : ltb start n ≡ true = ground arith in
    rw more (elim (Bool-cases (ltb i (start + size))) [
      | inl here ↦ inl (ground arith)
      | inr later ↦
          inr (batch_ranges-Covers fuel (start + size) size n i s (omega arith) (ground arith) high)
    ])

abbrev pub IsWithin : ℕ → ℕ × ℕ → Type 0
IsWithin n (start, stop) = stop ≤ n

pub batch_ranges-IsWithin :
    (fuel start size n : ℕ) → All (IsWithin n) (batch_ranges fuel start size n)
unfolding batch_ranges
batch_ranges-IsWithin zero start size n = tt
batch_ranges-IsWithin (suc fuel) start size n = elim (Bool-cases (ltb start n)) [
  | inl more ↦ rw more (omega arith, batch_ranges-IsWithin fuel (start + size) size n)
  | inr done ↦ rw done tt
]

-- A batch inside the matrix.
abbrev pub IsBlock : ℕ → Batch → Type 0
IsBlock n b = (b.i_end ≤ n) × (b.j_end ≤ n)

pair_with-IsBlock :
    (n start stop : ℕ) (js : List (ℕ × ℕ))
    → stop ≤ n
    → All (IsWithin n) js
    → All (IsBlock n) (pair_with (start, stop) js)
unfolding pair_with
pair_with-IsBlock n start stop [] h k = tt
pair_with-IsBlock n start stop ((a, b) ∷ js) h k =
    ((h, k.0), pair_with-IsBlock n start stop js h (k.1))

pub batches-IsBlock :
    (n : ℕ) (is js : List (ℕ × ℕ))
    → All (IsWithin n) is
    → All (IsWithin n) js
    → All (IsBlock n) (batches is js)
unfolding batches
batches-IsBlock n [] js h k = tt
batches-IsBlock n ((a, b) ∷ is) js h k =
    All-append (IsBlock n) (pair_with (a, b) js) (batches is js)
      (pair_with-IsBlock n a b js (h.0) k) (batches-IsBlock n is js (h.1) k)

IsCovered-append_left : (i j : ℕ) (xs ys : List Batch) → IsCovered i j xs → IsCovered i j (xs ++ ys)
IsCovered-append_left i j [] ys h = absurd h
IsCovered-append_left i j (x ∷ xs) ys (inl h) = inl h
IsCovered-append_left i j (x ∷ xs) ys (inr h) = inr (IsCovered-append_left i j xs ys h)

IsCovered-append_right :
    (i j : ℕ) (xs ys : List Batch) → IsCovered i j ys → IsCovered i j (xs ++ ys)
IsCovered-append_right i j [] ys h = h
IsCovered-append_right i j (x ∷ xs) ys h = inr (IsCovered-append_right i j xs ys h)

pair_with-IsCovered :
    (i j start stop : ℕ) (js : List (ℕ × ℕ))
    → inside start stop i ≡ true
    → Covers j js
    → IsCovered i j (pair_with (start, stop) js)
unfolding pair_with
pair_with-IsCovered i j start stop [] h k = absurd k
pair_with-IsCovered i j start stop ((a, b) ∷ js) h (inl k) = inl (rw (h, k) refl)
pair_with-IsCovered i j start stop ((a, b) ∷ js) h (inr k) =
    inr (pair_with-IsCovered i j start stop js h k)

pub batches-IsCovered :
    (i j : ℕ) (is js : List (ℕ × ℕ)) → Covers i is → Covers j js → IsCovered i j (batches is js)
unfolding batches
batches-IsCovered i j [] js h k = absurd h
batches-IsCovered i j ((a, b) ∷ is) js (inl h) k =
    IsCovered-append_left i j (pair_with (a, b) js) (batches is js)
      (pair_with-IsCovered i j a b js h k)
batches-IsCovered i j ((a, b) ∷ is) js (inr h) k =
    IsCovered-append_right i j (pair_with (a, b) js) (batches is js)
      (batches-IsCovered i j is js h k)
