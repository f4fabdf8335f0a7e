-- ===== src/MatrixCache/Samples.antt =====
-- Eleven points along a line, and the same points with the first two exchanged.
use mathlib.Core.List.Perm
use sfa_routing.Prelude.{
  ℕ, ◌-◌, ◌+◌, ◌≡◌, refl, true, Option, none, some, List, [], ◌∷◌, arith, get_or,
}
use sfa_routing.ParallelMatrix.{Matrix, OsrmClient, osrm_client, compute}
use sfa_routing.MatrixCache.{Store, get, set_matrix, compute_cached, sorted, put_in_order}
use sfa_routing.MatrixCache.Orders.{compute_cached_reordered}

abbrev later : List ℕ
later = 9 ∷ 1 ∷ 8 ∷ 2 ∷ 7 ∷ 3 ∷ 6 ∷ 4 ∷ 5 ∷ []

abbrev asked : List ℕ
asked = 0 ∷ 70 ∷ later

abbrev exchanged : List ℕ
exchanged = 70 ∷ 0 ∷ later

abbrev between : List ℕ → Matrix
between coords i j =
    (get_or coords i 0 - get_or coords j 0) + (get_or coords j 0 - get_or coords i 0)

abbrev table : List ℕ → List ℕ → List ℕ → Option Matrix
table coords sources dests = some (between coords)

abbrev client : OsrmClient
client = osrm_client table

abbrev first_of : List ℕ → ℕ
first_of coords = get_or coords 1 0

abbrev cold : Store
cold profile key = none

abbrev warm : Store
warm = set_matrix (λ c. c) first_of cold asked (between asked) 0

sorted_runs : sorted (3 ∷ 1 ∷ 2 ∷ []) ≡ 1 ∷ 2 ∷ 3 ∷ []
unfolding sorted put_in_order
sorted_runs = refl

is_cold : get (λ c. c) first_of cold asked 0 ≡ none
unfolding get
is_cold = refl

is_fresh : compute client 20 asked ≡ some (between asked)
unfolding compute
is_fresh = refl

-- The distance between the first and the third point is 9, and after the exchange 61.
compute_cached_reordered_example :
    (compute_cached (λ c. c) first_of client 20 true cold asked 0 ≡ some (between asked, warm))
    × (compute_cached (λ c. c) first_of client 20 true warm exchanged 0
        ≡ some (between asked, warm))
compute_cached_reordered_example =
    compute_cached_reordered (λ c. c) first_of client 20 cold 0 asked exchanged (between asked)
      (Perm.swap 70 0 later) (omega arith) is_cold is_fresh

distances_run : (between asked 0 2 ≡ 9) × (between exchanged 0 2 ≡ 61)
distances_run = (refl, refl)
