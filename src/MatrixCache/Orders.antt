-- ===== src/MatrixCache/Orders.antt =====
-- The cache and lists with the same coordinates in another order.
use mathlib.Core.List.Perm
use mathlib.Core.Logic.{∥∥₁_elim}
use mathlib.Core.List.{Permᴰ}
use sfa_routing.Prelude.{
  ℕ, ◌≡◌, ◌<◌, refl, ap, ◌∙◌, sym, true, none, some, List, [], ◌∷◌, Perm, arith, ltb, ℕ_discrete,
  subst, length,
}
use sfa_routing.ParallelMatrix.{Matrix, OsrmClient, compute}
use sfa_routing.MatrixCache.{
  put_in_order, sorted, Store, compute_key, get, set_matrix, cache_result, compute_fresh,
  compute_cached,
}

put_in_order_comm :
    (x y : ℕ) (l : List ℕ) → put_in_order x (put_in_order y l) ≡ put_in_order y (put_in_order x l)
unfolding put_in_order
put_in_order_comm x y [] = elim (ℕ_discrete x y) [
  | yes e ↦
      subst (λ w. put_in_order x (put_in_order w []) ≡ put_in_order w (put_in_order x [])) e refl
  | no ne ↦ ground arith
]
put_in_order_comm x y (z ∷ l) = elim (ℕ_discrete x y) [
  | yes e ↦
      subst (λ w. put_in_order x (put_in_order w (z ∷ l)) ≡ put_in_order w (put_in_order x (z ∷ l)))
        e refl
  | no ne ↦ ground (arith, put_in_order_comm x y l)
]

sorted-permᴰ : {xs ys : List ℕ} → Permᴰ xs ys → sorted xs ≡ sorted ys
unfolding sorted
sorted-permᴰ Permᴰ.nil = refl
sorted-permᴰ (Permᴰ.cons {a = a} {l₁ = xs} {l₂ = ys} e p) = rw (e, sorted-permᴰ p)
sorted-permᴰ (Permᴰ.swap {a = a} {b = b} {a' = a'} {b' = b'} {l = l} e f) =
    rw (← f, ← e) (put_in_order_comm a b (sorted l))
sorted-permᴰ (Permᴰ.trans p q) = sorted-permᴰ p ∙ sorted-permᴰ q

sorted-perm : {xs ys : List ℕ} → Perm xs ys → sorted xs ≡ sorted ys
sorted-perm p = ∥∥₁_elim p (hlevel) sorted-permᴰ

module _ (rounded : ℕ → ℕ) (md5 : List ℕ → ℕ) where
  compute_key-perm :
      {xs ys : List ℕ} → Perm xs ys → compute_key rounded md5 ys ≡ compute_key rounded md5 xs
  unfolding compute_key
  compute_key-perm p = ap md5 (sym (sorted-perm (Perm.map rounded p)))

  get-set_matrix :
      (redis : Store) (m : Matrix) (profile : ℕ) {xs ys : List ℕ}
      → Perm xs ys
      → get rounded md5 (set_matrix rounded md5 redis xs m profile) ys profile ≡ some m
  unfolding get set_matrix
  get-set_matrix redis m profile p = rw (compute_key-perm p) (ground arith)

  -- If the matrix of more than ten coordinates is not in the cache and OSRM answers, the matrix is
  -- returned and stored; and the same coordinates in any order then get this matrix back, whose
  -- rows and columns have the order of the first request.
  pub compute_cached_reordered :
      (table : OsrmClient) (batch_size : ℕ) (redis : Store) (profile : ℕ) (xs ys : List ℕ)
      (m : Matrix)
      → Perm xs ys
      → 10 < length xs
      → get rounded md5 redis xs profile ≡ none
      → compute table batch_size xs ≡ some m
      → (compute_cached rounded md5 table batch_size true redis xs profile
          ≡ some (m, set_matrix rounded md5 redis xs m profile))
        × (compute_cached rounded md5 table batch_size true
              (set_matrix rounded md5 redis xs m profile)
              ys
              profile
            ≡ some (m, set_matrix rounded md5 redis xs m profile))
  unfolding compute_cached compute_fresh cache_result
  compute_cached_reordered table batch_size redis profile xs ys m p long miss fresh =
      let many : ltb 10 (length xs) ≡ true = ground arith in
      (rw (miss, fresh, many) refl, rw (get-set_matrix redis m profile p) refl)
