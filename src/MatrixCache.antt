-- ===== src/MatrixCache.antt =====
-- `MatrixCache` and `CachedParallelMatrixComputer` of
-- backend/app/services/caching/parallel_matrix.py.
-- As in `ParallelMatrix` a coordinate is a number, the OSRM client is `table`, and one matrix stands
-- for the durations or the distances. `rounded` is the rounding to five places, `md5` the hash of
-- the printed list. The store is Redis before any entry expires.
pub mod Orders
pub mod Samples
use mathlib.Core.Option
use sfa_routing.Prelude.{
  ℕ, Bool, true, false, ◌&&◌, Option, none, some, List, [], ◌∷◌, map, ltb, leb, ◌==◌, if◌then◌else◌,
  length,
}
use sfa_routing.ParallelMatrix.{Matrix, OsrmClient, compute}

-- `sorted`
unfoldable pub put_in_order : ℕ → List ℕ → List ℕ
put_in_order x [] = x ∷ []
put_in_order x (y ∷ ys) = if leb x y then x ∷ y ∷ ys else y ∷ put_in_order x ys

unfoldable pub sorted : List ℕ → List ℕ
sorted [] = []
sorted (x ∷ xs) = put_in_order x (sorted xs)

-- The entries of Redis, by profile and hash.
abbrev pub Store : Type 0
Store = ℕ → ℕ → Option Matrix

module _ (rounded : ℕ → ℕ) (md5 : List ℕ → ℕ) where
  unfoldable pub compute_key : List ℕ → ℕ
  compute_key coordinates = md5 (sorted (map rounded coordinates))

  unfoldable pub get : Store → List ℕ → ℕ → Option Matrix
  get redis coordinates profile = redis profile (compute_key coordinates)

  unfoldable pub set_matrix : Store → List ℕ → Matrix → ℕ → Store
  set_matrix redis coordinates m profile p k =
      if p == profile && k == compute_key coordinates then some m else redis p k

  -- The computed matrix and the store, if OSRM answers.
  unfoldable pub cache_result : Bool → Store → List ℕ → ℕ → Matrix → Matrix × Store
  cache_result use_cache redis coordinates profile m =
      if use_cache && ltb 10 (length coordinates)
      then (m, set_matrix redis coordinates m profile)
      else (m, redis)

  module _ (table : OsrmClient) (batch_size : ℕ) where
    unfoldable pub compute_fresh : Bool → Store → List ℕ → ℕ → Option (Matrix × Store)
    compute_fresh use_cache redis coordinates profile =
        Option.map (cache_result use_cache redis coordinates profile)
          (compute table batch_size coordinates)

    unfoldable pub compute_cached : Bool → Store → List ℕ → ℕ → Option (Matrix × Store)
    compute_cached use_cache redis coordinates profile =
        if use_cache
        then elim (get redis coordinates profile) [
          | some cached ↦ some (cached, redis)
          | none ↦ compute_fresh use_cache redis coordinates profile
        ]
        else compute_fresh use_cache redis coordinates profile
