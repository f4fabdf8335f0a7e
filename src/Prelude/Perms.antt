-- ===== src/Prelude/Perms.antt =====
-- Permutations and the native numbers: length and sums.
use mathlib.Core.List.Perm
use mathlib.Core.Logic.{∥∥₁_elim}
use mathlib.Core.List.{Permᴰ}
use native.Mathlib.Nat.{ℕ_set}
use sfa_routing.Prelude.{
  ℕ, suc, ◌+◌, ◌≡◌, refl, ap, ◌∙◌, List, [], ◌∷◌, ◌++◌, Perm, length, arith, All, subst,
}

module _ {ℓ} {A : Type ℓ} where
  length-permᴰ : {xs ys : List A} → Permᴰ xs ys → length xs ≡ length ys
  length-permᴰ Permᴰ.nil = refl
  length-permᴰ (Permᴰ.cons e p) = ap suc (length-permᴰ p)
  length-permᴰ (Permᴰ.swap e f) = refl
  length-permᴰ (Permᴰ.trans p q) = length-permᴰ p ∙ length-permᴰ q

  pub length-perm : {xs ys : List A} → Perm xs ys → length xs ≡ length ys
  length-perm p = ∥∥₁_elim p (ℕ_set _ _) length-permᴰ

  abbrev pub sum_by : (A → ℕ) → List A → ℕ
  sum_by f [] = 0
  sum_by f (x ∷ xs) = f x + sum_by f xs

  sum_by-permᴰ : (f : A → ℕ) {xs ys : List A} → Permᴰ xs ys → sum_by f xs ≡ sum_by f ys
  sum_by-permᴰ f Permᴰ.nil = refl
  sum_by-permᴰ f (Permᴰ.cons e p) = cc (ap f e, sum_by-permᴰ f p)
  sum_by-permᴰ f (Permᴰ.swap {l = l} e g) = omega (arith, ap f e, ap f g)
  sum_by-permᴰ f (Permᴰ.trans p q) = sum_by-permᴰ f p ∙ sum_by-permᴰ f q

  pub sum_by-perm : (f : A → ℕ) {xs ys : List A} → Perm xs ys → sum_by f xs ≡ sum_by f ys
  sum_by-perm f p = ∥∥₁_elim p (ℕ_set _ _) (sum_by-permᴰ f)

module _ {ℓ} {A : Type ℓ} where
  pub sum_by-append : (f : A → ℕ) (xs ys : List A) → sum_by f (xs ++ ys) ≡ sum_by f xs + sum_by f ys
  sum_by-append f [] ys = omega arith
  sum_by-append f (x ∷ xs) ys = omega (arith, sum_by-append f xs ys)

module _ {ℓ κ} {A : Type ℓ} (P : A → Type κ) (prop : (x : A) → IsProp (P x)) where
  pub All-prop : (xs : List A) → IsProp (All P xs)
  All-prop [] = hlevel
  All-prop (x ∷ xs) = λ a b. λ i. (prop x a.0 b.0 i, All-prop xs a.1 b.1 i)

  All-permᴰ : {xs ys : List A} → Permᴰ xs ys → All P xs → All P ys
  All-permᴰ Permᴰ.nil h = h
  All-permᴰ (Permᴰ.cons e p) h = (subst P e h.0, All-permᴰ p h.1)
  All-permᴰ (Permᴰ.swap e f) h = (subst P f h.1.0, (subst P e h.0, h.1.1))
  All-permᴰ (Permᴰ.trans p q) h = All-permᴰ q (All-permᴰ p h)

  pub All-perm : {xs ys : List A} → Perm xs ys → All P xs → All P ys
  All-perm {ys = ys} p h = ∥∥₁_elim p (All-prop ys) (λ d. All-permᴰ d h)

-- A function on lists that respects a further element and an exchange respects permutations.
module _ {A B : Type 0} (f : List A → List B)
    (cons : (x : A) (xs ys : List A) → Perm (f xs) (f ys) → Perm (f (x ∷ xs)) (f (x ∷ ys)))
    (swap : (x y : A) (l : List A) → Perm (f (x ∷ y ∷ l)) (f (y ∷ x ∷ l))) where
  respect-permᴰ : {xs ys : List A} → Permᴰ xs ys → Perm (f xs) (f ys)
  respect-permᴰ Permᴰ.nil = Perm.refl (f [])
  respect-permᴰ (Permᴰ.cons {a = a} {l₁ = xs} {l₂ = ys} e p) =
      subst (λ b. Perm (f (a ∷ xs)) (f (b ∷ ys))) e (cons a xs ys (respect-permᴰ p))
  respect-permᴰ (Permᴰ.swap {a = a} {b = b} {a' = a'} {b' = b'} {l = l} e g) =
      subst (λ c. Perm (f (a ∷ b ∷ l)) (f (c ∷ b' ∷ l))) g
        (subst (λ c. Perm (f (a ∷ b ∷ l)) (f (b ∷ c ∷ l))) e (swap a b l))
  respect-permᴰ (Permᴰ.trans p q) = Perm.trans (respect-permᴰ p) (respect-permᴰ q)

  pub respect-perm : {xs ys : List A} → Perm xs ys → Perm (f xs) (f ys)
  respect-perm p = ∥∥₁_elim p (hlevel) respect-permᴰ
