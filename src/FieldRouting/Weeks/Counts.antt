-- ===== src/FieldRouting/Weeks/Counts.antt =====
-- The dictionary of the visits that remain, and how often an identifier stands in a list.
use sfa_routing.Prelude.{
  ℕ, ◌+◌, ◌-◌, ◌≤◌, ◌≡◌, ◌≢◌, refl, ap, List, [], ◌∷◌, ◌++◌, inl, inr, arith, if◌then◌else◌, ◌==◌,
  All, Bool-cases, map,
}
use sfa_routing.FieldRouting.{TspLocation}
use sfa_routing.FieldRouting.Vrpc.{remove}
use sfa_routing.FieldRouting.Vrpc.Nearest.{Has}
use sfa_routing.FieldRouting.Weeks.{Counts, put, decrement, required, visit_requirements}

abbrev pub visits : ℕ → List ℕ → ℕ
visits id [] = 0
visits id (x ∷ xs) = (if x == id then 1 else 0) + visits id xs

pub visits-append : (id : ℕ) (xs ys : List ℕ) → visits id (xs ++ ys) ≡ visits id xs + visits id ys
visits-append id [] ys = omega arith
visits-append id (x ∷ xs) ys = omega (arith, visits-append id xs ys)

pub visits-remove :
    (id p : ℕ) (xs : List ℕ)
    → Has p xs
    → visits id xs ≡ (if p == id then 1 else 0) + visits id (remove p xs)
visits-remove id p [] h = absurd h
visits-remove id p (x ∷ xs) h = elim (Bool-cases (x == p)) [
  | inl here ↦
      let e : x ≡ p = ground arith in
      rw here (ap (λ (y : ℕ). (if y == id then 1 else 0) + visits id xs) e)
  | inr away ↦ elim h [
    | inl e ↦ absurd (ground arith)
    | inr later ↦ rw away (omega (arith, visits-remove id p xs later))
  ]
]

pub Has-visits : (p : ℕ) (xs : List ℕ) → Has p xs → 1 ≤ visits p xs
Has-visits p [] h = absurd h
Has-visits p (x ∷ xs) h = elim h [
  | inl e ↦ ground arith
  | inr later ↦ omega (arith, Has-visits p xs later)
]

-- A property of all elements but `p` holds of all elements of a list without `p`.
pub All-other :
    (P Q : ℕ → Type 0) (p : ℕ) (xs : List ℕ)
    → ((y : ℕ) → y ≢ p → P y → Q y)
    → visits p xs ≡ 0
    → All P xs
    → All Q xs
All-other P Q p [] f e h = tt
All-other P Q p (x ∷ xs) f e h =
    (f x (λ same. ground arith) h.0, All-other P Q p xs f (omega arith) h.1)

-- `remaining_visits.get(id, 0)`
abbrev pub left_of : ℕ → Counts → ℕ
left_of id [] = 0
left_of id ((k, n) ∷ rest) = if k == id then n else left_of id rest

abbrev pub keys : Counts → List ℕ
keys counts = map (λ (e : ℕ × ℕ). e.0) counts

pub left_of-decrement :
    (y p : ℕ) (counts : Counts)
    → left_of y (decrement p counts) ≡ (if p == y then left_of y counts - 1 else left_of y counts)
unfolding decrement
left_of-decrement y p [] = ground arith
left_of-decrement y p ((k, n) ∷ rest) = ground (arith, left_of-decrement y p rest)

pub keys-decrement : (p : ℕ) (counts : Counts) → keys (decrement p counts) ≡ keys counts
unfolding decrement
keys-decrement p [] = refl
keys-decrement p ((k, n) ∷ rest) = ground (arith, keys-decrement p rest)

pub left_of-put :
    (y id n : ℕ) (counts : Counts)
    → left_of y (put id n counts) ≡ (if id == y then n else left_of y counts)
unfolding put
left_of-put y id n [] = refl
left_of-put y id n ((k, m) ∷ rest) = ground (arith, left_of-put y id n rest)

visits-put :
    (y id n : ℕ) (counts : Counts)
    → visits y (keys (put id n counts)) ≡ (
        if id == y
        then (if visits y (keys counts) == 0 then 1 else visits y (keys counts))
        else visits y (keys counts))
unfolding put
visits-put y id n [] = ground arith
visits-put y id n ((k, m) ∷ rest) = ground (arith, visits-put y id n rest)

-- No key stands twice.
abbrev pub AreDistinct : Counts → Type 0
AreDistinct counts = (y : ℕ) → visits y (keys counts) ≤ 1

requirements-AreDistinct :
    (ls : List TspLocation) (counts : Counts)
    → AreDistinct counts
    → AreDistinct (visit_requirements ls counts)
unfolding visit_requirements
requirements-AreDistinct [] counts h y = h y
requirements-AreDistinct (l ∷ ls) counts h y =
    requirements-AreDistinct ls (put l.id (required l) counts)
      (λ z. ground (arith, h z, visits-put z l.id (required l) counts)) y

pub visit_requirements-AreDistinct :
    (ls : List TspLocation) → AreDistinct (visit_requirements ls [])
visit_requirements-AreDistinct ls = requirements-AreDistinct ls [] (λ y. omega arith)
