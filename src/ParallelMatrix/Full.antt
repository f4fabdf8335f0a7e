-- ===== src/ParallelMatrix/Full.antt =====
-- `compute`: the batches merged into one matrix.
use sfa_routing.Prelude.{
  range, length-range, ℕ, ◌+◌, ◌-◌, ◌≤◌, ◌<◌, ◌≡◌, refl, ap, ◌∙◌, Bool, true, false, ◌&&◌, ◌||◌,
  if◌then◌else◌, Option, some, List, [], ◌∷◌, ◌++◌, ◌⊎◌, inl, inr, arith, leb, ◌==◌, length, take,
  drop, get_or, Bool-cases, All,
}
use sfa_routing.ParallelMatrix.{
  Matrix, zeros, Batch, OsrmClient, get_annotated, batch_ranges, batches, inside, write_batch,
  compute_batch, merge, compute,
}
use sfa_routing.ParallelMatrix.Cover.{
  get_or-range, get_or-append_left, get_or-append_right, get_or-slice, length-slice, IsCovered,
  IsBlock, batch_ranges-Covers, batch_ranges-IsWithin, batches-IsBlock, batches-IsCovered,
}

-- What OSRM documents: an entry is the cost from its source to its destination.
unfoldable pub IsTable : (ℕ → ℕ → ℕ) → (List ℕ → List ℕ → List ℕ → Option Matrix) → Type 0
IsTable cost table =
    (coords sources dests : List ℕ)
    → (m : Matrix) × (table coords sources dests ≡ some m)
      × ((p q : ℕ)
          → p < length sources
          → q < length dests
          → m p q
            ≡ cost (get_or coords (get_or sources p 0) 0) (get_or coords (get_or dests q 0) 0))

module _ (cost : ℕ → ℕ → ℕ) (osrm : OsrmClient) (answers : IsTable cost osrm.get_table)
    (coords : List ℕ) where
  abbrev target : ℕ → ℕ → ℕ
  target i j = cost (get_or coords i 0) (get_or coords j 0)

  cost_eq : {a b c e : ℕ} → a ≡ c → b ≡ e → cost a b ≡ cost c e
  cost_eq p q = cc

  -- One request for the sources followed by the destinations.
  combined_request :
      (sources dests : List ℕ)
      → (m : Matrix) × (osrm.get_table
            (sources ++ dests)
            (range 0 (length sources))
            (range (length sources) (length dests))
          ≡ some m)
        × ((p q : ℕ)
            → p < length sources
            → q < length dests
            → m p q ≡ cost (get_or sources p 0) (get_or dests q 0))
  unfolding IsTable
  combined_request sources dests =
      let k : ℕ = length sources in
      let (m, e, entries) = answers (sources ++ dests) (range 0 k) (range k (length dests)) in
      (
        m,
        e,
        λ p q low high.
            let size_p = length-range 0 k in
            let size_q = length-range k (length dests) in
            let at_p : get_or (range 0 k) p 0 ≡ p = omega (arith, get_or-range 0 k p low) in
            let at_q = get_or-range k (length dests) q high in
            let source =
              ap (λ i. get_or (sources ++ dests) i 0) at_p
              ∙ get_or-append_left sources dests p low in
            let dest =
              ap (λ i. get_or (sources ++ dests) i 0) at_q
              ∙ (get_or-append_right sources dests (k + q) (omega arith)
                  ∙ ap (λ i. get_or dests i 0) (omega arith)) in
            entries p q (omega arith) (omega arith) ∙ cost_eq source dest,
      )

  compute_batch-target :
      (able : osrm.takes_annotations ≡ true) (b : Batch) (i j : ℕ)
      → IsBlock (length coords) b
      → inside b.i_start b.i_end i ≡ true
      → inside b.j_start b.j_end j ≡ true
      → compute_batch osrm coords b (i - b.i_start) (j - b.j_start) ≡ target i j
  unfolding compute_batch get_annotated
  compute_batch-target able b i j block h k =
      let rows : (b.i_start ≤ i) × (i < b.i_end) = ground arith in
      let columns : (b.j_start ≤ j) × (j < b.j_end) = ground arith in
      let sources = take (b.i_end - b.i_start) (drop b.i_start coords) in
      let dests = take (b.j_end - b.j_start) (drop b.j_start coords) in
      let (m, e, entries) = combined_request sources dests in
      let size_s = length-slice b.i_start b.i_end coords (block.0) in
      let size_d = length-slice b.j_start b.j_end coords (block.1) in
      rw (able, e, compute_batch)
        (entries (i - b.i_start) (j - b.j_start) (omega arith) (omega arith)
          ∙ cost_eq (get_or-slice b.i_start b.i_end coords i (rows.0) (rows.1))
              (get_or-slice b.j_start b.j_end coords j (columns.0) (columns.1)))

  write_batch-target :
      (able : osrm.takes_annotations ≡ true) (b : Batch) (matrix : Matrix) (i j : ℕ)
      → IsBlock (length coords) b
      → (matrix i j ≡ target i j)
        ⊎ ((inside b.i_start b.i_end i && inside b.j_start b.j_end j) ≡ true)
      → write_batch b (compute_batch osrm coords b) matrix i j ≡ target i j
  unfolding write_batch
  write_batch-target able b matrix i j block h =
      elim (Bool-cases (inside b.i_start b.i_end i && inside b.j_start b.j_end j)) [
        | inl hit ↦
            let rows : inside b.i_start b.i_end i ≡ true = ground arith in
            let columns : inside b.j_start b.j_end j ≡ true = ground arith in
            rw hit (compute_batch-target able b i j block rows columns)
        | inr miss ↦ rw miss (elim h [ inl old ↦ old | inr hit ↦ cc ])
      ]

  -- An entry that is right, or is still to come, is right in the end.
  merge-target :
      (able : osrm.takes_annotations ≡ true) (bs : List Batch) (matrix : Matrix) (i j : ℕ)
      → All (IsBlock (length coords)) bs
      → (matrix i j ≡ target i j) ⊎ IsCovered i j bs
      → merge osrm coords bs matrix i j ≡ target i j
  unfolding merge
  merge-target able [] matrix i j blocks (inl e) = e
  merge-target able [] matrix i j blocks (inr h) = absurd h
  merge-target able (b ∷ bs) matrix i j blocks (inl e) =
      merge-target able bs (write_batch b (compute_batch osrm coords b) matrix) i j (blocks.1)
        (inl (write_batch-target able b matrix i j (blocks.0) (inl e)))
  merge-target able (b ∷ bs) matrix i j blocks (inr (inl hit)) =
      merge-target able bs (write_batch b (compute_batch osrm coords b) matrix) i j (blocks.1)
        (inl (write_batch-target able b matrix i j (blocks.0) (inr hit)))
  merge-target able (b ∷ bs) matrix i j blocks (inr (inr later)) =
      merge-target able bs (write_batch b (compute_batch osrm coords b) matrix) i j (blocks.1)
        (inr later)

  -- The matrix of one request for all pairs.
  single_request :
      (m : Matrix) × (osrm.get_table coords (range 0 (length coords)) (range 0 (length coords))
        ≡ some m)
      × ((i j : ℕ) → i < length coords → j < length coords → m i j ≡ target i j)
  unfolding IsTable
  single_request =
      let n : ℕ = length coords in
      let (m, e, entries) = answers coords (range 0 n) (range 0 n) in
      (
        m,
        e,
        λ i j low high.
            let size = length-range 0 n in
            let at_i : get_or (range 0 n) i 0 ≡ i = omega (arith, get_or-range 0 n i low) in
            let at_j : get_or (range 0 n) j 0 ≡ j = omega (arith, get_or-range 0 n j high) in
            entries i j (omega arith) (omega arith)
            ∙ cost_eq (ap (λ k. get_or coords k 0) at_i) (ap (λ k. get_or coords k 0) at_j),
      )

  merge-zeros :
      (refused : osrm.takes_annotations ≡ false) (bs : List Batch) (matrix : Matrix)
      → ((i j : ℕ) → matrix i j ≡ 0)
      → (i j : ℕ) → merge osrm coords bs matrix i j ≡ 0
  unfolding merge write_batch compute_batch get_annotated
  merge-zeros refused [] matrix h i j = h i j
  merge-zeros refused (b ∷ bs) matrix h i j =
      merge-zeros refused bs (write_batch b (compute_batch osrm coords b) matrix)
        (λ p q. elim (Bool-cases (inside b.i_start b.i_end p && inside b.j_start b.j_end q)) [
          | inl hit ↦ rw (hit, refused) refl
          | inr miss ↦ rw miss (h p q)
        ])
        i j

  -- The entries where the batches are merged.
  merged :
      (able : Bool)
      → osrm.takes_annotations ≡ able
      → (batch_size i j : ℕ) → 1 ≤ batch_size
      → i < length coords
      → j < length coords
      → let ranges = batch_ranges (length coords) 0 batch_size (length coords) in
        merge osrm coords (batches ranges ranges) zeros i j ≡ (if able then target i j else 0)
  merged false refused batch_size i j positive low high =
      merge-zeros refused _ zeros (λ p q. refl) i j
  merged true able batch_size i j positive low high =
      let n : ℕ = length coords in
      let ranges = batch_ranges n 0 batch_size n in
      merge-target able (batches ranges ranges) zeros i j
        (batches-IsBlock n ranges ranges (batch_ranges-IsWithin n 0 batch_size n)
          (batch_ranges-IsWithin n 0 batch_size n))
        (inr (
          batches-IsCovered i j ranges ranges
            (batch_ranges-Covers n 0 batch_size n i positive (omega arith) (omega arith) low)
            (batch_ranges-Covers n 0 batch_size n j positive (omega arith) (omega arith) high)))

  -- If OSRM answers every request as it documents, then for every batch size of at least one the
  -- matrix is returned, and it has the cost of every pair if the points fit into one batch or the
  -- client's `get_table` takes `annotations`; otherwise it is zero everywhere.
  pub compute_full :
      (batch_size : ℕ)
      → 1 ≤ batch_size
      → (m : Matrix) × (compute osrm batch_size coords ≡ some m)
        × ((i j : ℕ)
            → i < length coords
            → j < length coords
            → m i j ≡ (
                if leb (length coords) batch_size || osrm.takes_annotations
                then cost (get_or coords i 0) (get_or coords j 0)
                else 0))
  unfolding compute
  compute_full batch_size positive = elim (Bool-cases (length coords == 0)) [
    | inl empty ↦ rw empty (zeros, refl, λ i j low high. absurd (ground arith))
    | inr some_point ↦ elim (Bool-cases (leb (length coords) batch_size)) [
      | inl small ↦ rw (some_point, small) single_request
      | inr large ↦
          rw (some_point, large)
            (
              _,
              refl,
              λ i j low high. merged osrm.takes_annotations refl batch_size i j positive low high,
            )
    ]
  ]
