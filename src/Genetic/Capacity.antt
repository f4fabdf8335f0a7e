-- ===== src/Genetic/Capacity.antt =====
-- `_split_into_routes` and the capacities of the vehicles.
use sfa_routing.Prelude.{ℕ, ◌+◌, ◌≡◌, sym, subst, true, List, [], ◌∷◌, ◌++◌, map, arith}
use sfa_routing.Prelude.Perms.{sum_by}
use sfa_routing.Problem.{Job, VehicleConfig}
use sfa_routing.Genetic.{
  Slot, capacity_of, fits, load_slot, assign_job, demand_at, assign_jobs, empty_slot,
  split_into_routes,
}
use sfa_routing.Genetic.Assigning.{overflow, fitted, NoRoom, assign_job-Assigned}
use sfa_routing.Genetic.Split.{
  routes_of, AreLoaded, capacities, assign_jobs-IsSplitting, empty-IsSplitting,
}

-- Every job finds a vehicle with room when its turn comes.
abbrev pub FindsRoom : List Job → List ℕ → List Slot → Type 0
FindsRoom jobs [] slots = Unit {0}
FindsRoom jobs (i ∷ is) slots =
    (¬ NoRoom (demand_at jobs i) slots) × FindsRoom jobs is (assign_job i (demand_at jobs i) slots)

abbrev pub WithinCapacity : List Slot → Type 0
WithinCapacity [] = Unit {0}
WithinCapacity (s ∷ ss) = (fits s.load s.capacity ≡ true) × WithinCapacity ss

loads-WithinCapacity :
    (job demand : ℕ) (before : List Slot) (s : Slot) (rest : List Slot)
    → fits (s.load + demand) s.capacity ≡ true
    → WithinCapacity (before ++ s ∷ rest)
    → WithinCapacity (before ++ load_slot job demand s ∷ rest)
loads-WithinCapacity job demand [] s rest room h = (room, h.1)
loads-WithinCapacity job demand (b ∷ before) s rest room h =
    (h.0, loads-WithinCapacity job demand before s rest room (h.1))

module _ (jobs : List Job) where
  assign_jobs-WithinCapacity :
      (is : List ℕ) (slots : List Slot)
      → FindsRoom jobs is slots
      → WithinCapacity slots
      → WithinCapacity (assign_jobs jobs is slots)
  unfolding assign_jobs
  assign_jobs-WithinCapacity [] slots f h = h
  assign_jobs-WithinCapacity (i ∷ is) [] f h = absurd (f.0 tt)
  assign_jobs-WithinCapacity (i ∷ is) (s ∷ ss) f h =
      let d : ℕ = demand_at jobs i in
      elim (assign_job-Assigned i d s ss) [
        | overflow l none_fits least above ↦ absurd (f.0 none_fits)
        | fitted l full room ↦ assign_jobs-WithinCapacity is (assign_job i d (s ∷ ss)) (f.1) (
            subst WithinCapacity (sym (l.loaded)) (
              loads-WithinCapacity i d l.before l.slot l.rest room
                (subst WithinCapacity (l.parts) h)))
      ]

  empty-WithinCapacity : (vs : List VehicleConfig) → WithinCapacity (map empty_slot vs)
  unfolding capacity_of
  empty-WithinCapacity [] = tt
  empty-WithinCapacity (v ∷ vs) = (ground arith, empty-WithinCapacity vs)

  -- The demand of each route is within the capacity of the vehicle at its place.
  abbrev pub RoutesFit : List VehicleConfig → List (List ℕ) → Type 0
  RoutesFit [] [] = Unit {0}
  RoutesFit [] (r ∷ rs) = ⊥
  RoutesFit (v ∷ vs) [] = ⊥
  RoutesFit (v ∷ vs) (r ∷ rs) =
      (fits (sum_by (demand_at jobs) r) (capacity_of v) ≡ true) × RoutesFit vs rs

  slots-RoutesFit :
      (vs : List VehicleConfig) (slots : List Slot)
      → capacities slots ≡ map capacity_of vs
      → AreLoaded jobs slots
      → WithinCapacity slots
      → RoutesFit vs (routes_of slots)
  slots-RoutesFit [] [] e l w = tt
  slots-RoutesFit [] (s ∷ ss) e l w = cc
  slots-RoutesFit (v ∷ vs) [] e l w = cc
  slots-RoutesFit (v ∷ vs) (s ∷ ss) e l w =
      let cap : s.capacity ≡ capacity_of v = cc in
      (rw (← l.0, ← cap) (w.0), slots-RoutesFit vs ss (cc) (l.1) (w.1))

  -- If every job finds room when its turn comes, no vehicle is overloaded.
  pub split_into_routes-RoutesFit :
      (v : VehicleConfig) (vs : List VehicleConfig) (chromosome : List ℕ)
      → FindsRoom jobs chromosome (map empty_slot (v ∷ vs))
      → RoutesFit (v ∷ vs) (split_into_routes jobs (v ∷ vs) chromosome)
  unfolding split_into_routes
  split_into_routes-RoutesFit v vs chromosome f =
      let slots = map empty_slot (v ∷ vs) in
      let h =
        assign_jobs-IsSplitting jobs (omega arith) chromosome (empty-IsSplitting jobs (v ∷ vs)) in
      slots-RoutesFit (v ∷ vs) (assign_jobs jobs chromosome slots) (h.caps_kept) (h.loads)
        (assign_jobs-WithinCapacity chromosome slots f (empty-WithinCapacity (v ∷ vs)))
