-- ===== src/SpatialIndex/Rings.antt =====
-- `query_nearest` and its search through the rings of cells.
use mathlib.Core.List.{append-nil}
use sfa_routing.Prelude.{
  length-map, ℕ, zero, suc, ◌+◌, ◌≤◌, ◌<◌, ◌≡◌, refl, ap, ◌∙◌, false, List, [], ◌∷◌, ◌++◌, map,
  arith, ◌==◌, if◌then◌else◌, inl, inr, Bool-cases, length, leb,
}
use sfa_routing.SpatialIndex.{
  SpatialEntity, Index, collect, query_point, with_distance, search_rings,
}
use sfa_routing.SpatialIndex.Consistent.{count, count-append}
use sfa_routing.SpatialIndex.Queries.{times}

-- How often an entity is among the candidates.
pub times_found : ℕ → List (SpatialEntity × ℕ) → ℕ
times_found id [] = 0
times_found id ((e, d) ∷ cs) = (if e.id == id then 1 else 0) + times_found id cs

times_found-append :
    (id : ℕ) (xs ys : List (SpatialEntity × ℕ))
    → times_found id (xs ++ ys) ≡ times_found id xs + times_found id ys
unfolding times_found
times_found-append id [] ys = omega arith
times_found-append id ((e, d) ∷ xs) ys = omega (arith, times_found-append id xs ys)

count-le-collect :
    (s : Index) (id c : ℕ) (cells : List ℕ)
    → 1 ≤ times c cells
    → count id (s.bucket c) ≤ count id (collect s cells)
unfolding times collect
count-le-collect s id c [] h = absurd (omega arith)
count-le-collect s id c (x ∷ xs) h =
    let parts = count-append id (s.bucket x) (collect s xs) in
    elim (Bool-cases (x == c)) [
      | inl same ↦
          let e : x ≡ c = ground arith in
          let here : count id (s.bucket x) ≡ count id (s.bucket c) = rw e in omega arith
      | inr differs ↦
          let later : 1 ≤ times c xs = ground arith in
          omega (arith, count-le-collect s id c xs later)
    ]

module _ (latlng_to_cell : ℕ → ℕ → ℕ) (grid_disk : ℕ → ℕ → List ℕ)
    (distance : ℕ → ℕ → SpatialEntity → ℕ) (lat lon : ℕ) (s : Index) where
  times_found-map :
      (id : ℕ) (es : List SpatialEntity)
      → times_found id (map (with_distance latlng_to_cell grid_disk distance lat lon) es)
        ≡ count id es
  unfolding times_found count
  times_found-map id [] = refl
  times_found-map id (e ∷ es) = omega (arith, times_found-map id es)

  -- No ring takes a candidate away.
  search_rings-le :
      (left k n id : ℕ) (candidates : List (SpatialEntity × ℕ))
      → times_found id candidates
        ≤ times_found id
            (search_rings latlng_to_cell grid_disk distance left k n lat lon s candidates)
  unfolding search_rings
  search_rings-le zero k n id candidates = omega arith
  search_rings-le (suc left) k n id candidates =
      let new =
        map (with_distance latlng_to_cell grid_disk distance lat lon)
          (query_point latlng_to_cell grid_disk lat lon k s).0 in
      let found = candidates ++ new in
      elim (Bool-cases (leb n (length found))) [
        | inl enough ↦ rw enough (omega (arith, times_found-append id candidates new))
        | inr more ↦ rw more (
            omega (
              arith,
              times_found-append id candidates new,
              search_rings-le left (suc k) n id found,
            ))
      ]

  -- The first ring of a search is found.
  search_rings-first :
      (left k n id : ℕ) (candidates : List (SpatialEntity × ℕ))
      → times_found id candidates + count id (query_point latlng_to_cell grid_disk lat lon k s).0
        ≤ times_found id
            (search_rings latlng_to_cell grid_disk distance (suc left) k n lat lon s candidates)
  unfolding search_rings
  search_rings-first left k n id candidates =
      let es = (query_point latlng_to_cell grid_disk lat lon k s).0 in
      let new = map (with_distance latlng_to_cell grid_disk distance lat lon) es in
      let found = candidates ++ new in
      let sum = times_found-append id candidates new in
      let same = times_found-map id es in
      elim (Bool-cases (leb n (length found))) [
        | inl enough ↦ rw enough (omega arith)
        | inr more ↦ rw more (omega (arith, search_rings-le left (suc k) n id found))
      ]

  -- If the cell of the point holds an entity but fewer than `n`, the next ring, which has the cell
  -- of the point in it, adds the entity again.
  pub search_rings_repeats :
      (left n id : ℕ)
      → 1 ≤ count id (s.bucket (latlng_to_cell lat lon))
      → length (s.bucket (latlng_to_cell lat lon)) < n
      → 1 ≤ times (latlng_to_cell lat lon) (grid_disk (latlng_to_cell lat lon) 1)
      → 2
        ≤ times_found id
            (search_rings latlng_to_cell grid_disk distance (suc (suc left)) 0 n lat lon s [])
  unfolding search_rings query_point collect
  search_rings_repeats left n id held few center =
      let first =
        map (with_distance latlng_to_cell grid_disk distance lat lon)
          (collect s (latlng_to_cell lat lon ∷ [])) in
      let size : length first ≡ length (s.bucket (latlng_to_cell lat lon)) =
        length-map (collect s (latlng_to_cell lat lon ∷ []))
          (with_distance latlng_to_cell grid_disk distance lat lon)
        ∙ ap length (append-nil (s.bucket (latlng_to_cell lat lon))) in
      let more : leb n (length first) ≡ false = ground arith in
      let alone : count id (collect s (latlng_to_cell lat lon ∷ []))
          ≡ count id (s.bucket (latlng_to_cell lat lon)) =
        ap (count id) (append-nil (s.bucket (latlng_to_cell lat lon))) in
      let again =
        count-le-collect s id (latlng_to_cell lat lon) (grid_disk (latlng_to_cell lat lon) 1)
          center in
      rw more (
        omega (
          arith,
          search_rings-first left 1 n id first,
          times_found-map id (collect s (latlng_to_cell lat lon ∷ [])),
        ))
