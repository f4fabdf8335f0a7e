-- ===== src/WeeklyPlanner/Assignment/Placing.antt =====
-- The visits of the days while `assign_to_days` places the clients of the clusters.
use mathlib.Core.List.Perm
use mathlib.Core.List.{append_assoc, perm_middle, perm_append_comm}
use sfa_routing.Prelude.{
  ℕ, zero, suc, ◌+◌, ◌-◌, ◌%◌, ◌≤◌, ◌<◌, ◌≡◌, refl, ap, ◌∙◌, subst, List, [], ◌∷◌, ◌++◌, Perm,
  arith, inl, inr, ltb, Bool-cases, length, range, All,
}
use sfa_routing.WeeklyPlanner.{Client}
use sfa_routing.WeeklyPlanner.Assignment.{
  Clusters, Days, load, least, append_to, place_client, place_members, place_clusters,
}

-- All visits of the week.
abbrev pub all_visits : Days → List Client
all_visits [] = []
all_visits (day ∷ days) = day ++ all_visits days

abbrev pub all_members : Clusters → List Client
all_members [] = []
all_members ((id, members) ∷ rest) = members ++ all_members rest

pub append_to-perm :
    (days : Days) (d : ℕ) (x : Client)
    → d < length days
    → Perm (all_visits (append_to days d x)) (x ∷ all_visits days)
append_to-perm [] d x h = absurd (omega arith)
append_to-perm (day ∷ days) zero x h =
    rw (append_assoc day (x ∷ []) (all_visits days)) (perm_middle day (all_visits days))
append_to-perm (day ∷ days) (suc d) x h =
    Perm.trans (Perm.append_left day (append_to-perm days d x (omega (arith, h))))
      (perm_middle day (all_visits days))

pub length-append_to :
    (days : Days) (d : ℕ) (x : Client) → length (append_to days d x) ≡ length days
length-append_to [] d x = refl
length-append_to (day ∷ days) zero x = refl
length-append_to (day ∷ days) (suc d) x = ap suc (length-append_to days d x)

-- What holds of the days of a list holds of the least of them.
pub least-All :
    (P : ℕ → Type 0) (key : ℕ → ℕ) (best : ℕ) (ds : List ℕ)
    → P best
    → All P ds
    → P (least key best ds)
unfolding least
least-All P key best [] h hs = h
least-All P key best (d ∷ ds) h hs = elim (Bool-cases (ltb (key d) (key best))) [
  | inl less ↦ rw less (least-All P key d ds hs.0 hs.1)
  | inr more ↦ rw more (least-All P key best ds h hs.1)
]

abbrev pub IsLeast : (ℕ → ℕ) → ℕ → ℕ → List ℕ → Type 0
IsLeast key m best ds = (key m ≤ key best) × All (λ d. key m ≤ key d) ds

pub least-IsLeast : (key : ℕ → ℕ) (best : ℕ) (ds : List ℕ) → IsLeast key (least key best ds) best ds
unfolding least
least-IsLeast key best [] = (omega arith, tt)
least-IsLeast key best (d ∷ ds) = elim (Bool-cases (ltb (key d) (key best))) [
  | inl less ↦
      let same : least key d ds ≡ least key best (d ∷ ds) = rw less refl in
      let rest = least-IsLeast key d ds in
      let lower : key d < key best = ground arith in
      subst (λ m. IsLeast key m best (d ∷ ds)) same (omega (arith, rest.0, lower), (rest.0, rest.1))
  | inr more ↦
      let same : least key best ds ≡ least key best (d ∷ ds) = rw more refl in
      let rest = least-IsLeast key best ds in
      let higher : key best ≤ key d = ground arith in
      subst (λ m. IsLeast key m best (d ∷ ds)) same
        (rest.0, (omega (arith, rest.0, higher), rest.1))
]

pub All-range : (i n m : ℕ) → i + n ≤ m → All (λ d. d < m) (range i n)
All-range i zero m h = tt
All-range i (suc n) m h = (omega (arith, h), All-range (suc i) n m (omega (arith, h)))

module _ (n_days max_per_day : ℕ) where
  pub least_day-lt :
      (days : Days)
      → 1 ≤ n_days
      → length days ≡ n_days
      → least (load days) 0 (range 1 (n_days - 1)) < length days
  least_day-lt days some_day e =
      least-All (λ d. d < length days) (load days) 0 (range 1 (n_days - 1))
        (omega (arith, e, some_day)) (All-range 1 (n_days - 1) (length days) (omega (arith, e)))

  pub place_client-perm :
      (day : ℕ) (days : Days) (x : Client)
      → day < n_days
      → length days ≡ n_days
      → Perm (all_visits (place_client n_days max_per_day day days x)) (x ∷ all_visits days)
  unfolding place_client
  place_client-perm day days x h e = elim (Bool-cases (ltb (load days day) max_per_day)) [
    | inl free ↦ rw free (append_to-perm days day x (omega (arith, h, e)))
    | inr full ↦ rw full (
        append_to-perm days (least (load days) 0 (range 1 (n_days - 1))) x
          (least_day-lt days (omega (arith, h)) e))
  ]

  pub length-place_client :
      (day : ℕ) (days : Days) (x : Client)
      → length (place_client n_days max_per_day day days x) ≡ length days
  unfolding place_client
  length-place_client day days x = elim (Bool-cases (ltb (load days day) max_per_day)) [
    | inl free ↦ rw free (length-append_to days day x)
    | inr full ↦ rw full (length-append_to days (least (load days) 0 (range 1 (n_days - 1))) x)
  ]

  pub place_members-perm :
      (day : ℕ) (members : List Client) (days : Days)
      → day < n_days
      → length days ≡ n_days
      → (length (place_members n_days max_per_day day members days) ≡ n_days)
        × Perm
            (all_visits (place_members n_days max_per_day day members days))
            (members ++ all_visits days)
  unfolding place_members
  place_members-perm day [] days h e = (e, Perm.refl (all_visits days))
  place_members-perm day (x ∷ xs) days h e =
      let next = place_client n_days max_per_day day days x in
      let rest = place_members-perm day xs next h (length-place_client day days x ∙ e) in
      (
        rest.0,
        Perm.trans rest.1 (
            Perm.trans (Perm.append_left xs (place_client-perm day days x h e))
              (perm_middle xs (all_visits days))),
      )

  pub place_clusters-perm :
      (clusters : Clusters) (days : Days)
      → 1 ≤ n_days
      → length days ≡ n_days
      → (length (place_clusters n_days max_per_day clusters days) ≡ n_days)
        × Perm
            (all_visits (place_clusters n_days max_per_day clusters days))
            (all_members clusters ++ all_visits days)
  unfolding place_clusters
  place_clusters-perm [] days some_day e = (e, Perm.refl (all_visits days))
  place_clusters-perm ((id, members) ∷ rest) days some_day e =
      let next = place_members n_days max_per_day (id % n_days) members days in
      let first = place_members-perm (id % n_days) members days (omega (arith, some_day)) e in
      let later = place_clusters-perm rest next some_day first.0 in
      (
        later.0,
        Perm.trans later.1 (
            Perm.trans (Perm.append_left (all_members rest) first.1) (
              subst (λ l. Perm l ((members ++ all_members rest) ++ all_visits days))
                (append_assoc (all_members rest) members (all_visits days))
                (Perm.append_right (all_visits days)
                  (perm_append_comm (all_members rest) members)))),
      )
