-- ===== src/WeeklyPlanner/Assignment/Bounds.antt =====
-- The number of visits of a day while `assign_to_days` places the clients of the clusters.
use sfa_routing.Prelude.{
  ℕ, zero, suc, ◌+◌, ◌-◌, ◌*◌, ◌%◌, ◌≤◌, ◌<◌, ◌≡◌, ap, ◌∙◌, subst, List, [], ◌∷◌, arith, inl, inr,
  ltb, Bool-cases, length, length-append, range, All,
}
use sfa_routing.Prelude.Perms.{length-perm}
use sfa_routing.WeeklyPlanner.{Client}
use sfa_routing.WeeklyPlanner.Assignment.{
  Clusters, Days, load, least, append_to, place_client, place_members, place_clusters,
}
use sfa_routing.WeeklyPlanner.Assignment.Placing.{
  all_visits, all_members, length-place_client, place_members-perm, place_client-perm,
  least-IsLeast,
}

-- No day has more visits than allowed.
abbrev pub Fits : ℕ → Days → Type 0
Fits max_per_day [] = Unit {0}
Fits max_per_day (day ∷ days) = (length day ≤ max_per_day) × Fits max_per_day days

pub append_to-Fits :
    (m : ℕ) (days : Days) (d : ℕ) (x : Client)
    → Fits m days
    → load days d < m
    → Fits m (append_to days d x)
append_to-Fits m [] d x h free = h
append_to-Fits m (day ∷ days) zero x h free = (omega (arith, length-append day (x ∷ []), free), h.1)
append_to-Fits m (day ∷ days) (suc d) x h free = (h.0, append_to-Fits m days d x h.1 free)

-- Days that are all full have at least as many visits as days times the allowed number.
full_days :
    (m : ℕ) (days : Days)
    → ((d : ℕ) → d < length days → m ≤ load days d)
    → length days * m ≤ length (all_visits days)
full_days m [] h = omega arith
full_days m (day ∷ days) h =
    let rest = full_days m days (λ d b. h (suc d) (omega (arith, b))) in
    let first : m ≤ length day = h 0 (omega arith) in
    omega (arith, rest, first, length-append day (all_visits days))

All-range_at : (P : ℕ → Type 0) (i n d : ℕ) → All P (range i n) → i ≤ d → d < i + n → P d
All-range_at P i zero d h low high = absurd (omega (arith, low, high))
All-range_at P i (suc n) d h low high = elim (Bool-cases (ltb i d)) [
  | inl above ↦ All-range_at P (suc i) n d h.1 (ground arith) (omega (arith, high))
  | inr at ↦ let e : i ≡ d = ground arith in subst P e h.0
]

module _ (n_days m : ℕ) where
  least_day-free :
      (days : Days)
      → 1 ≤ n_days
      → length days ≡ n_days
      → length (all_visits days) < n_days * m
      → load days (least (load days) 0 (range 1 (n_days - 1))) < m
  least_day-free days some_day e room =
      let chosen = least (load days) 0 (range 1 (n_days - 1)) in
      let smallest = least-IsLeast (load days) 0 (range 1 (n_days - 1)) in
      elim (Bool-cases (ltb (load days chosen) m)) [
        | inl free ↦ ground arith
        | inr full ↦
            let high : m ≤ load days chosen = ground arith in
            let all : (d : ℕ) → d < length days → load days chosen ≤ load days d = λ d b.
              All-range_at (λ k. load days chosen ≤ load days k) 0 (suc (n_days - 1)) d smallest
                (omega arith) (omega (arith, b, e)) in
            let much = full_days m days (λ d b. omega (arith, high, all d b)) in
            absurd (omega (arith, much, room, ap (λ k. k * m) e))
      ]

  place_client-Fits :
      (day : ℕ) (days : Days) (x : Client)
      → day < n_days
      → length days ≡ n_days
      → length (all_visits days) < n_days * m
      → Fits m days
      → Fits m (place_client n_days m day days x)
  unfolding place_client
  place_client-Fits day days x h e room fits = elim (Bool-cases (ltb (load days day) m)) [
    | inl free ↦ rw free (append_to-Fits m days day x fits (ground arith))
    | inr full ↦ rw full (
        append_to-Fits m days (least (load days) 0 (range 1 (n_days - 1))) x fits
          (least_day-free days (omega (arith, h)) e room))
  ]

  place_members-Fits :
      (day : ℕ) (members : List Client) (days : Days)
      → day < n_days
      → length days ≡ n_days
      → length members + length (all_visits days) ≤ n_days * m
      → Fits m days
      → Fits m (place_members n_days m day members days)
  unfolding place_members
  place_members-Fits day [] days h e room fits = fits
  place_members-Fits day (x ∷ xs) days h e room fits =
      let next = place_client n_days m day days x in
      let more = length-perm (place_client-perm n_days m day days x h e) in
      place_members-Fits day xs next h (length-place_client n_days m day days x ∙ e)
        (omega (arith, more, room)) (place_client-Fits day days x h e (omega (arith, room)) fits)

  -- With room for all clients no day gets too many.
  pub place_clusters-Fits :
      (clusters : Clusters) (days : Days)
      → 1 ≤ n_days
      → length days ≡ n_days
      → length (all_members clusters) + length (all_visits days) ≤ n_days * m
      → Fits m days
      → Fits m (place_clusters n_days m clusters days)
  unfolding place_clusters
  place_clusters-Fits [] days some_day e room fits = fits
  place_clusters-Fits ((id, members) ∷ rest) days some_day e room fits =
      let first =
        place_members-perm n_days m (id % n_days) members days (omega (arith, some_day)) e in
      let more = length-perm first.1 ∙ length-append members (all_visits days) in
      let parts = length-append members (all_members rest) in
      place_clusters-Fits rest (place_members n_days m (id % n_days) members days) some_day first.0
        (omega (arith, more, parts, room))
        (place_members-Fits (id % n_days) members days (omega (arith, some_day)) e
          (omega (arith, parts, room)) fits)
