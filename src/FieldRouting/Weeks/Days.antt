-- ===== src/FieldRouting/Weeks/Days.antt =====
-- One day of `_generate_plan`: the loop over the candidates.
use sfa_routing.Prelude.{
  ℕ, zero, suc, ◌+◌, ◌≤◌, ◌<◌, ◌≡◌, refl, ap, ◌∙◌, true, ◌&&◌, Option, none, some, List, [], ◌∷◌,
  ◌++◌, ◌⊎◌, inl, inr, arith, ◌==◌, All, All-append, Bool-cases, Option-cases, ltb, length,
}
use sfa_routing.FieldRouting.{TspLocation}
use sfa_routing.FieldRouting.Vrpc.{remove}
use sfa_routing.FieldRouting.Vrpc.Nearest.{Has, Has-All, remove-All}
use sfa_routing.Greedy.{closer}
use sfa_routing.FieldRouting.Weeks.{
  Counts, DayState, decrement, loc_by_id, is_due, is_candidate, candidates_of, find_nearest,
  distance_to, visit, total_time, run_day, plan_day, start_day, drop_candidate,
}
use sfa_routing.FieldRouting.Weeks.Counts.{
  visits, visits-append, visits-remove, All-other, left_of, keys, left_of-decrement, keys-decrement,
  AreDistinct,
}

module _ (locations : List TspLocation) (distances : ℕ → ℕ → ℕ) (offset : ℕ) where
  find_nearest-Has :
      (current : ℕ) (ids : List ℕ) (best : Option (ℕ × ℕ)) (p d : ℕ)
      → find_nearest locations distances offset current ids best ≡ some (p, d)
      → (best ≡ some (p, d)) ⊎ Has p ids
  unfolding find_nearest
  find_nearest-Has current [] best p d h = inl h
  find_nearest-Has current (x ∷ xs) best p d h =
      elim (Bool-cases (closer (distance_to locations distances offset current x) best)) [
        | inl nearer ↦ elim (find_nearest-Has current xs _ p d (rw nearer at h)) [
          | inl e ↦ inr (inl (ground arith))
          | inr later ↦ inr (inr later)
        ]
        | inr farther ↦ elim (find_nearest-Has current xs _ p d (rw farther at h)) [
          | inl e ↦ inl e
          | inr later ↦ inr (inr later)
        ]
      ]

  module _ (week day : ℕ) where
    -- A location with the identifier is due on the day.
    pub record IsDue (id : ℕ) : Type 0 where
      pub location : TspLocation
      pub found : loc_by_id locations id ≡ some location
      pub due : is_due week day location ≡ true

    -- What the loop of the day keeps, if the visits `before` remained in the morning.
    pub record IsDaily (before : Counts) (s : DayState) : Type 0 where
      pub counted : (y : ℕ) → visits y s.route + left_of y s.remaining ≡ left_of y before
      pub still_needed : All (λ y. 0 < left_of y s.remaining) s.candidates
      pub once : (y : ℕ) → visits y s.route + visits y s.candidates ≤ 1
      pub time : s.duration + s.available ≡ 480
      pub due_route : All IsDue s.route
      pub due_left : All IsDue s.candidates
      pub keys_kept : keys s.remaining ≡ keys before

    is_candidate-IsDue :
        (entry : ℕ × ℕ)
        → is_candidate locations distances offset week day entry ≡ true
        → IsDue (entry.0) × (0 < entry.1)
    is_candidate-IsDue (id, n) h = elim (Option-cases (loc_by_id locations id)) [
      | inl lost ↦ absurd (ground arith)
      | inr (l, e) ↦
          let both : ltb 0 n && is_due week day l ≡ true = rw (e, is_candidate) at h in
          (record { location = l; found = e; due = ground arith }, ground arith)
    ]

    abbrev candidates : Counts → List ℕ
    candidates = candidates_of locations distances offset week day

    candidates-visits :
        (y : ℕ) (counts : Counts) → visits y (candidates counts) ≤ visits y (keys counts)
    unfolding candidates_of
    candidates-visits y [] = omega arith
    candidates-visits y (e ∷ rest) =
        elim (Bool-cases (is_candidate locations distances offset week day e)) [
          | inl taken ↦ rw taken (omega (arith, candidates-visits y rest))
          | inr passed ↦ rw passed (omega (arith, candidates-visits y rest))
        ]

    candidates-IsDue : (counts : Counts) → All IsDue (candidates counts)
    unfolding candidates_of
    candidates-IsDue [] = tt
    candidates-IsDue (e ∷ rest) =
        elim (Bool-cases (is_candidate locations distances offset week day e)) [
          | inl taken ↦ rw taken ((is_candidate-IsDue e taken).0, candidates-IsDue rest)
          | inr passed ↦ rw passed (candidates-IsDue rest)
        ]

    candidates_needed :
        (counts : Counts) → AreDistinct counts → All (λ y. 0 < left_of y counts) (candidates counts)
    unfolding candidates_of
    candidates_needed [] h = tt
    candidates_needed ((k, n) ∷ rest) h =
        let apart : visits k (candidates rest) ≡ 0 =
          ground (arith, h k, candidates-visits k rest) in
        let ih = candidates_needed rest (λ y. omega (arith, h y)) in
        let others =
          All-other (λ y. 0 < left_of y rest) (λ y. 0 < left_of y ((k, n) ∷ rest)) k
            (candidates rest) (λ y ne p. ground arith) apart ih in
        elim (Bool-cases (is_candidate locations distances offset week day (k, n))) [
          | inl taken ↦
              let positive = (is_candidate-IsDue (k, n) taken).1 in rw taken (ground arith, others)
          | inr passed ↦ rw passed others
        ]

    start_day-IsDaily :
        (before : Counts)
        → AreDistinct before
        → IsDaily before (start_day before (candidates before))
    start_day-IsDaily before h = record {
      counted = λ y. omega arith;
      still_needed = candidates_needed before h;
      once = λ y. omega (arith, candidates-visits y before, h y);
      time = refl;
      due_route = tt;
      due_left = candidates-IsDue before;
      keys_kept = refl;
    }

    drop_candidate-IsDaily :
        (before : Counts) (s : DayState) (p : ℕ)
        → IsDaily before s
        → Has p s.candidates
        → IsDaily before (drop_candidate p s)
    drop_candidate-IsDaily before s p h held = record {
      counted = h.counted;
      still_needed = remove-All _ p s.candidates h.still_needed;
      once = λ y. omega (arith, h.once y, visits-remove y p s.candidates held);
      time = h.time;
      due_route = h.due_route;
      due_left = remove-All _ p s.candidates h.due_left;
      keys_kept = h.keys_kept;
    }

    -- The visit moves from the dictionary into the route.
    counted_after :
        (before : Counts) (s : DayState) (p y : ℕ)
        → visits y s.route + left_of y s.remaining ≡ left_of y before
        → 0 < left_of p s.remaining
        → visits y (s.route ++ p ∷ []) + left_of y (decrement p s.remaining) ≡ left_of y before
    counted_after before s p y h positive = elim (Bool-cases (p == y)) [
      | inl same ↦
          let e : p ≡ y = ground arith in
          ground (
            arith,
            ap (λ (x : ℕ). left_of x s.remaining) e,
            visits-append y s.route (p ∷ []),
            left_of-decrement y p s.remaining,
          )
      | inr other ↦
          ground (arith, visits-append y s.route (p ∷ []), left_of-decrement y p s.remaining)
    ]

    gone :
        (before : Counts) (s : DayState) (p : ℕ)
        → IsDaily before s
        → Has p s.candidates
        → visits p (remove p s.candidates) ≡ 0
    gone before s p h held = ground (arith, h.once p, visits-remove p p s.candidates held)

    visit-IsDaily :
        (before : Counts) (s : DayState) (p d : ℕ)
        → IsDaily before s
        → Has p s.candidates
        → IsDaily before (visit locations distances offset p d s)
    unfolding visit
    visit-IsDaily before s p d h held =
        elim (Bool-cases (ltb s.available (total_time locations distances offset p d))) [
          | inl long ↦ rw long (drop_candidate-IsDaily before s p h held)
          | inr short ↦ rw short (record {
            counted = λ y.
                counted_after before s p y (h.counted y)
                  (Has-All _ p s.candidates held h.still_needed);
            still_needed =
                All-other (λ y. 0 < left_of y s.remaining)
                  (λ y. 0 < left_of y (decrement p s.remaining)) p (remove p s.candidates)
                  (λ y ne q. ground (arith, left_of-decrement y p s.remaining))
                  (gone before s p h held) (remove-All _ p s.candidates h.still_needed);
            once = λ y. omega (
              arith,
              h.once y,
              visits-append y s.route (p ∷ []),
              visits-remove y p s.candidates held,
            );
            time = ground (arith, h.time);
            due_route =
                All-append IsDue s.route (p ∷ []) h.due_route
                  (Has-All IsDue p s.candidates held h.due_left, tt);
            due_left = remove-All IsDue p s.candidates h.due_left;
            keys_kept = keys-decrement p s.remaining ∙ h.keys_kept;
          })
        ]

    run_day-IsDaily :
        (fuel : ℕ) (before : Counts) (s : DayState)
        → IsDaily before s
        → IsDaily before (run_day locations distances offset fuel s)
    unfolding run_day
    run_day-IsDaily zero before s h = h
    run_day-IsDaily (suc fuel) before s h = elim (Bool-cases (ltb 0 s.available)) [
      | inr over ↦ rw (over, run_day) h
      | inl time ↦
          elim (Option-cases
            (find_nearest locations distances offset s.current s.candidates none)) [
              | inl nothing ↦ rw (time, nothing, run_day) h
              | inr ((p, d), found) ↦
                  elim (find_nearest-Has s.current s.candidates none p d found) [
                    | inl e ↦ absurd (ground arith)
                    | inr held ↦
                        rw (time, found, run_day)
                          (run_day-IsDaily fuel before (visit locations distances offset p d s)
                            (visit-IsDaily before s p d h held))
                  ]
            ]
    ]

    pub plan_day-IsDaily :
        (before : Counts)
        → AreDistinct before
        → IsDaily before (plan_day locations distances offset week day before)
    unfolding plan_day
    plan_day-IsDaily before h =
        run_day-IsDaily (length (candidates before)) before (start_day before (candidates before))
          (start_day-IsDaily before h)
