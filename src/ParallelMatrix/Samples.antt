-- ===== src/ParallelMatrix/Samples.antt =====
-- Five points along a line, in batches of two, with a client that answers as OSRM documents.
use sfa_routing.Prelude.{ℕ, ◌+◌, ◌-◌, ◌<◌, ◌≡◌, refl, Option, some, List, [], ◌∷◌, arith, get_or}
use sfa_routing.ParallelMatrix.{Matrix, osrm_client, compute}
use sfa_routing.ParallelMatrix.Full.{IsTable, compute_full}

abbrev cost : ℕ → ℕ → ℕ
cost a b = (a - b) + (b - a)

abbrev table : List ℕ → List ℕ → List ℕ → Option Matrix
table coords sources dests =
    some (λ p q. cost (get_or coords (get_or sources p 0) 0) (get_or coords (get_or dests q 0) 0))

table-IsTable : IsTable cost table
unfolding IsTable
table-IsTable coords sources dests = (
  λ p q. cost (get_or coords (get_or sources p 0) 0) (get_or coords (get_or dests q 0) 0),
  refl,
  λ p q low high. refl,
)

abbrev points : List ℕ
points = 3 ∷ 10 ∷ 4 ∷ 8 ∷ 1 ∷ []

-- With the client of the repository.
compute_full_example :
    (m : Matrix) × (compute (osrm_client table) 2 points ≡ some m)
    × ((i j : ℕ) → i < 5 → j < 5 → m i j ≡ 0)
compute_full_example = compute_full cost (osrm_client table) table-IsTable points 2 (omega arith)
