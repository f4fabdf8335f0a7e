-- ===== src/ParallelMatrix.antt =====
-- `ParallelMatrixComputer` of backend/app/services/caching/parallel_matrix.py.
-- The answers of OSRM are parameters: the entries for the coordinates, the sources and the
-- destinations, or `none` where the client raises. A matrix is a function of its row and its column, and
-- a coordinate is a number. The order in which the batches are awaited does not matter to the
-- merge, which goes through their results in the order of the tasks. Durations and distances are
-- merged in the same way; the matrix here stands for either.

pub mod Cover
pub mod Full
pub mod Samples
use sfa_routing.Prelude.{
  range, ℕ, zero, suc, ◌+◌, ◌-◌, Bool, true, false, ◌&&◌, Option, none, some, List, [], ◌∷◌, ◌++◌,
  ltb, leb, ◌==◌, if◌then◌else◌, length, take, drop, min,
}

abbrev pub Matrix : Type 0
Matrix = ℕ → ℕ → ℕ

abbrev pub zeros : Matrix
zeros i j = 0

pub record Batch : Type 0 where
  pub i_start : ℕ
  pub i_end : ℕ
  pub j_start : ℕ
  pub j_end : ℕ

-- `range(start, n, batch_size)` with the ends, for at most `fuel` batches.
pub batch_ranges : ℕ → ℕ → ℕ → ℕ → List (ℕ × ℕ)
batch_ranges zero start batch_size n = []
batch_ranges (suc fuel) start batch_size n =
    let rest = batch_ranges fuel (start + batch_size) batch_size n in
    if ltb start n then (start, min (start + batch_size) n) ∷ rest else []

pub pair_with : ℕ × ℕ → List (ℕ × ℕ) → List Batch
pair_with (i_start, i_end) [] = []
pair_with (i_start, i_end) ((j_start, j_end) ∷ js) =
    record { i_start = i_start; i_end = i_end; j_start = j_start; j_end = j_end }
    ∷ pair_with (i_start, i_end) js

-- The tasks: each range of rows with each range of columns.
pub batches : List (ℕ × ℕ) → List (ℕ × ℕ) → List Batch
batches [] js = []
batches (i ∷ is) js = pair_with i js ++ batches is js

abbrev pub inside : ℕ → ℕ → ℕ → Bool
inside start stop i = leb start i && ltb i stop

-- `matrix[i_start:i_end, j_start:j_end] = batch`
pub write_batch : Batch → Matrix → Matrix → Matrix
write_batch b m matrix i j =
    if inside b.i_start b.i_end i && inside b.j_start b.j_end j
    then m (i - b.i_start) (j - b.j_start)
    else matrix i j

-- The client: the answers of `get_table`, and whether it takes the keyword `annotations`.
pub record OsrmClient : Type 0 where
  pub get_table : List ℕ → List ℕ → List ℕ → Option Matrix
  pub takes_annotations : Bool

-- `OSRMClient`, whose `get_table` has no parameter `annotations`.
abbrev pub osrm_client : (List ℕ → List ℕ → List ℕ → Option Matrix) → OsrmClient
osrm_client table = record { get_table = table; takes_annotations = false }

-- `get_table` with `annotations`, a TypeError where it is not taken.
pub get_annotated : OsrmClient → List ℕ → List ℕ → List ℕ → Option Matrix
get_annotated osrm coords sources dests =
    if osrm.takes_annotations then osrm.get_table coords sources dests else none

module _ (osrm : OsrmClient) where
  -- A batch that fails, by an answer or by the TypeError, is one of zeros.
  pub compute_batch : List ℕ → Batch → Matrix
  unfolding get_annotated
  compute_batch coords b =
      let sources = take (b.i_end - b.i_start) (drop b.i_start coords) in
      let dests = take (b.j_end - b.j_start) (drop b.j_start coords) in
      elim (get_annotated osrm (sources ++ dests) (range 0 (length sources))
        (range (length sources) (length dests))) [ none ↦ zeros | some m ↦ m ]

  pub merge : List ℕ → List Batch → Matrix → Matrix
  merge coords [] matrix = matrix
  merge coords (b ∷ bs) matrix = merge coords bs (write_batch b (compute_batch coords b) matrix)

  -- A small problem is one request for all pairs, whose exception is not caught (`none`). As many
  -- ranges as there are points are enough.
  unfoldable pub compute : ℕ → List ℕ → Option Matrix
  compute batch_size coords =
      let n = length coords in
      if n == 0
      then some zeros
      else if leb n batch_size
      then osrm.get_table coords (range 0 n) (range 0 n)
      else let ranges = batch_ranges n 0 batch_size n in
        some (merge coords (batches ranges ranges) zeros)

  -- The durations of the two matrices.
  abbrev pub compute_durations_only : ℕ → List ℕ → Option Matrix
  compute_durations_only batch_size coords = compute batch_size coords
