-- ===== src/Genetic/Split.antt =====
-- `_split_into_routes` and the routes of the vehicles.
use mathlib.Core.List.Perm
use mathlib.Core.List.{append_assoc, append-nil, perm_middle}
use sfa_routing.Prelude.{
  ℕ, ◌<◌, ◌≡◌, refl, sym, ap, ◌∙◌, subst, Option, List, [], ◌∷◌, ◌++◌, map, Perm, arith, length,
  max, length-map,
}
use sfa_routing.Prelude.Perms.{sum_by, sum_by-append}
use sfa_routing.Problem.{Job, VehicleConfig}
use sfa_routing.Genetic.{
  Slot, capacity_of, load_slot, assign_job, demand_at, assign_jobs, empty_slot, split_into_routes,
}
use sfa_routing.Genetic.Assigning.{Loads, assign_job-Assigned, Assigned-Loads}

-- All jobs of the vehicles, one route after the other.
abbrev pub all_jobs : List (List ℕ) → List ℕ
all_jobs [] = []
all_jobs (r ∷ rs) = r ++ all_jobs rs

abbrev pub routes_of : List Slot → List (List ℕ)
routes_of slots = map (λ s. s.route) slots

one_more-perm :
    (job : ℕ) (route rest : List ℕ) → Perm ((route ++ job ∷ []) ++ rest) (job ∷ (route ++ rest))
one_more-perm job route rest = rw (append_assoc route (job ∷ []) rest) (perm_middle route rest)

-- One job more, in one of the routes.
loads-perm :
    (job demand : ℕ) (before : List Slot) (s : Slot) (rest : List Slot)
    → Perm
        (all_jobs (routes_of (before ++ load_slot job demand s ∷ rest)))
        (job ∷ all_jobs (routes_of (before ++ s ∷ rest)))
loads-perm job demand [] s rest = one_more-perm job s.route (all_jobs (routes_of rest))
loads-perm job demand (b ∷ before) s rest =
    Perm.trans (Perm.append_left b.route (loads-perm job demand before s rest))
      (perm_middle b.route (all_jobs (routes_of (before ++ s ∷ rest))))

Loads-perm :
    {job demand : ℕ} {slots after : List Slot}
    → Loads job demand slots after
    → Perm (all_jobs (routes_of after)) (job ∷ all_jobs (routes_of slots))
Loads-perm {job} {demand} l = rw (l.loaded, l.parts) (loads-perm job demand l.before l.slot l.rest)

-- Every load is the demand of the jobs on the route.
abbrev pub AreLoaded : List Job → List Slot → Type 0
AreLoaded jobs [] = Unit {0}
AreLoaded jobs (s ∷ ss) = (s.load ≡ sum_by (demand_at jobs) s.route) × AreLoaded jobs ss

-- The vehicles in their order, each with its capacity.
abbrev pub capacities : List Slot → List (Option ℕ)
capacities slots = map (λ s. s.capacity) slots

module _ (jobs : List Job) (job : ℕ) where
  loads-AreLoaded :
      (before : List Slot) (s : Slot) (rest : List Slot)
      → AreLoaded jobs (before ++ s ∷ rest)
      → AreLoaded jobs (before ++ load_slot job (demand_at jobs job) s ∷ rest)
  loads-AreLoaded [] s rest h =
      (omega (arith, sum_by-append {0} (demand_at jobs) s.route (job ∷ []), h.0), h.1)
  loads-AreLoaded (b ∷ before) s rest h = (h.0, loads-AreLoaded before s rest (h.1))

  loads-capacities :
      (demand : ℕ) (before : List Slot) (s : Slot) (rest : List Slot)
      → capacities (before ++ load_slot job demand s ∷ rest) ≡ capacities (before ++ s ∷ rest)
  loads-capacities demand [] s rest = refl
  loads-capacities demand (b ∷ before) s rest =
      ap (λ t. b.capacity ∷ t) (loads-capacities demand before s rest)

assign_job-Loads :
    (job demand : ℕ) (slots : List Slot)
    → 0 < length slots
    → Loads job demand slots (assign_job job demand slots)
assign_job-Loads job demand [] h = absurd (omega arith)
assign_job-Loads job demand (s ∷ ss) h = Assigned-Loads (assign_job-Assigned job demand s ss)

-- What the split keeps while the jobs `done` are assigned.
pub record IsSplitting (jobs : List Job) (caps : List (Option ℕ)) (done : List ℕ)
    (slots : List Slot) : Type 0 where
  pub perm : Perm (all_jobs (routes_of slots)) done
  pub loads : AreLoaded jobs slots
  pub caps_kept : capacities slots ≡ caps

length-capacities : (slots : List Slot) → length (capacities slots) ≡ length slots
length-capacities slots = length-map slots (λ s. s.capacity)

module _ (jobs : List Job) {caps : List (Option ℕ)} (some_vehicle : 0 < length caps) where
  assign_job-IsSplitting :
      (i : ℕ) {done : List ℕ} {slots : List Slot}
      → IsSplitting jobs caps done slots
      → IsSplitting jobs caps (i ∷ done) (assign_job i (demand_at jobs i) slots)
  assign_job-IsSplitting i {slots = slots} h =
      let many : 0 < length slots =
        omega (arith, length-capacities slots, ap (length {A = Option ℕ}) (h.caps_kept)) in
      let l = assign_job-Loads i (demand_at jobs i) slots many in
      record {
        perm = Perm.trans (Loads-perm l) (Perm.cons i (h.perm));
        loads = subst (AreLoaded jobs) (sym (l.loaded)) (
            loads-AreLoaded jobs i l.before l.slot l.rest
              (subst (AreLoaded jobs) (l.parts) (h.loads)));
        caps_kept =
            ap capacities (l.loaded)
            ∙ (loads-capacities jobs i (demand_at jobs i) l.before l.slot l.rest
                ∙ (sym (ap capacities (l.parts)) ∙ h.caps_kept));
      }

  pub assign_jobs-IsSplitting :
      (is : List ℕ) {done : List ℕ} {slots : List Slot}
      → IsSplitting jobs caps done slots
      → IsSplitting jobs caps (is ++ done) (assign_jobs jobs is slots)
  unfolding assign_jobs
  assign_jobs-IsSplitting [] h = h
  assign_jobs-IsSplitting (i ∷ is) {done} {slots} h =
      let k = assign_jobs-IsSplitting is (assign_job-IsSplitting i h) in
      record {
        perm = Perm.trans (k.perm) (perm_middle is done);
        loads = k.loads;
        caps_kept = k.caps_kept;
      }

pub empty-IsSplitting :
    (jobs : List Job) (vehicles : List VehicleConfig)
    → IsSplitting jobs (map capacity_of vehicles) [] (map empty_slot vehicles)
empty-IsSplitting jobs [] = record { perm = Perm.refl []; loads = tt; caps_kept = refl }
empty-IsSplitting jobs (v ∷ vs) =
    let rest = empty-IsSplitting jobs vs in
    record {
      perm = rest.perm;
      loads = (refl, rest.loads);
      caps_kept = ap (λ t. capacity_of v ∷ t) (rest.caps_kept);
    }

-- The routes have exactly the genes of the chromosome, one route for each vehicle (one in all, if
-- there is no vehicle).
pub record IsSplit (vehicles : List VehicleConfig) (chromosome : List ℕ) (routes : List (List ℕ))
    : Type 0 where
  pub perm : Perm (all_jobs routes) chromosome
  pub one_each : length routes ≡ max 1 (length vehicles)

-- A split gives every gene of the chromosome to exactly one vehicle.
pub split_into_routes-IsSplit :
    (jobs : List Job) (vehicles : List VehicleConfig) (chromosome : List ℕ)
    → IsSplit vehicles chromosome (split_into_routes jobs vehicles chromosome)
unfolding split_into_routes
split_into_routes-IsSplit jobs [] chromosome = record {
  perm = rw append-nil (Perm.refl chromosome);
  one_each = omega arith;
}
split_into_routes-IsSplit jobs (v ∷ vs) chromosome =
    let slots = map empty_slot (v ∷ vs) in
    let h =
      assign_jobs-IsSplitting jobs (omega arith) chromosome (empty-IsSplitting jobs (v ∷ vs)) in
    record {
      perm =
          subst (Perm (all_jobs (routes_of (assign_jobs jobs chromosome slots))))
            (append-nil chromosome) (h.perm);
      one_each = omega (
        arith,
        length-map {0, 0} (assign_jobs jobs chromosome slots) (λ s. s.route),
        length-capacities (assign_jobs jobs chromosome slots),
        ap (length {A = Option ℕ}) (h.caps_kept),
        length-map {0, 0} vs capacity_of,
      );
    }
