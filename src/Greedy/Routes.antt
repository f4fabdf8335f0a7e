-- ===== src/Greedy/Routes.antt =====
-- `_build_route_for_vehicle` and its loop.
use mathlib.Core.List.Perm
use mathlib.Core.List.{append-nil, append_assoc}
use sfa_routing.Prelude.{
  ℕ, zero, suc, ◌+◌, ◌≤◌, ◌≡◌, refl, sym, ap, ◌∙◌, true, false, ◌==◌, replicate, Option, none, some,
  List, [], ◌∷◌, ◌++◌, Perm, arith, ltb, length, length-append, length-snoc, get_elem?,
  Option-cases, inl, inr, ◌⊎◌, ◌≢◌, Bool-cases, if◌then◌else◌,
}
use sfa_routing.Prelude.Perms.{length-perm}
use sfa_routing.Problem.{Location, Job, VehicleConfig, StepType, start, job, end, RouteStep, Route}
use sfa_routing.Greedy.{
  Build, contains, unassigned_from, find_nearest_feasible_job, visit, extend, begin,
  return_to_depot, to_route, build_route_for_vehicle,
}
use sfa_routing.Greedy.Nearest.{
  IsFeasible, IsNearest, find_nearest-IsNearest, find_nearest-none_iff,
}
use sfa_routing.Greedy.Remaining.{unassigned-take-perm}

-- The identifiers of the jobs that the steps serve, in their order.
abbrev pub served : List RouteStep → List ℕ
served [] = []
served (s ∷ ss) = elim s.job_id [ none ↦ served ss | some id ↦ id ∷ served ss ]

pub served-append : (xs ys : List RouteStep) → served (xs ++ ys) ≡ served xs ++ served ys
served-append [] ys = refl
served-append (x ∷ xs) ys = ground (arith, served-append xs ys)

-- The kinds of the steps, in their order.
abbrev pub kinds : List RouteStep → List StepType
kinds [] = []
kinds (s ∷ ss) = s.step_type ∷ kinds ss

kinds-append : (xs ys : List RouteStep) → kinds (xs ++ ys) ≡ kinds xs ++ kinds ys
kinds-append [] ys = refl
kinds-append (x ∷ xs) ys = ap (λ l. x.step_type ∷ l) (kinds-append xs ys)

replicate-snoc : (n : ℕ) (k : StepType) → replicate n k ++ k ∷ [] ≡ replicate (suc n) k
replicate-snoc zero k = refl
replicate-snoc (suc n) k = ap (λ l. k ∷ l) (replicate-snoc n k)

abbrev pub demand : Option Job → ℕ
demand none = 0
demand (some j) = j.demand_kg

abbrev pub total_demand : List Job → List ℕ → ℕ
total_demand jobs [] = 0
total_demand jobs (i ∷ is) = demand (get_elem? jobs i) + total_demand jobs is

module _ (calculate_distance : Location → Location → ℕ) (jobs : List Job) (assigned : List ℕ)
    (capacity : ℕ) where
  -- The jobs that are left when the indices `taken` are assigned too.
  abbrev pub left_over : List ℕ → List ℕ
  left_over taken = unassigned_from (taken ++ assigned) 0 jobs

  abbrev pub next : Build → Option ℕ
  next s =
      find_nearest_feasible_job calculate_distance s.current_location jobs
        (s.route_assigned ++ assigned) s.current_load capacity

  abbrev pub loop : ℕ → Build → Build
  loop fuel s = extend calculate_distance fuel jobs assigned capacity s

  pub record IsBuild (s : Build) : Type 0 where
    pub split : Perm (served s.steps ++ left_over s.route_assigned) (left_over [])
    pub within : s.current_load ≤ capacity
    pub load : s.current_load ≡ total_demand jobs s.route_assigned
    pub count : length s.steps ≡ suc (length s.route_assigned)
    pub order : kinds s.steps ≡ start ∷ replicate (length s.route_assigned) job

  left_over-take :
      (taken : List ℕ) (i : ℕ) (j : Job)
      → get_elem? jobs i ≡ some j
      → contains (taken ++ assigned) i ≡ false
      → Perm (j.id ∷ left_over (i ∷ taken)) (left_over taken)
  left_over-take taken i j at free =
      unassigned-take-perm (taken ++ assigned) i 0 i jobs j (omega arith) at free

  split-visit :
      (steps : List ℕ) (id : ℕ) (before after : List ℕ) {all : List ℕ}
      → Perm (id ∷ after) before
      → Perm (steps ++ before) all
      → Perm ((steps ++ id ∷ []) ++ after) all
  split-visit steps id before after p q = rw append_assoc (Perm.trans (Perm.append_left steps p) q)

  visit-IsBuild :
      (s : Build) (i : ℕ) (j : Job)
      → IsFeasible jobs (s.route_assigned ++ assigned) s.current_load capacity i j
      → IsBuild s
      → IsBuild (visit calculate_distance s i j)
  unfolding visit
  visit-IsBuild s i j f b = record {
    split = rw served-append (
        split-visit (served s.steps) j.id (left_over s.route_assigned)
          (left_over (i ∷ s.route_assigned)) (left_over-take s.route_assigned i j f.at_index f.free)
          b.split);
    within = f.fits;
    load = rw f.at_index (omega (arith, b.load));
    count = omega (arith, b.count, length-append {0} s.steps);
    order =
        rw (kinds-append, b.order)
          (ap (λ l. start ∷ l) (replicate-snoc (length s.route_assigned) job));
  }

  loop-none : (fuel : ℕ) (s : Build) → next s ≡ none → loop fuel s ≡ s
  unfolding extend
  loop-none zero s e = refl
  loop-none (suc fuel) s e = rw (e, extend)

  loop-some :
      (fuel i : ℕ) (s : Build) (j : Job)
      → next s ≡ some i
      → get_elem? jobs i ≡ some j
      → loop (suc fuel) s ≡ loop fuel (visit calculate_distance s i j)
  unfolding extend
  loop-some fuel i s j e at = rw (e, at, extend)

  abbrev pub Picks : Build → ℕ → Job → Type 0
  Picks s i j =
      (next s ≡ some i)
      × IsFeasible jobs (s.route_assigned ++ assigned) s.current_load capacity i j
      × IsNearest calculate_distance s.current_location (s.route_assigned ++ assigned)
          s.current_load capacity jobs i j

  next_cases : (s : Build) → (next s ≡ none) ⊎ ((i : ℕ) × (j : Job) × Picks s i j)
  next_cases s = elim (Option-cases (next s)) [
    | inl e ↦ inl e
    | inr (i, e) ↦
        let (j, f, n) =
          find_nearest-IsNearest calculate_distance s.current_location
            (s.route_assigned ++ assigned) s.current_load capacity jobs i e in
        inr (i, j, (e, f, n))
  ]

  -- The rule of the loop: what each visit of a picked job keeps, the loop keeps.
  pub loop_inv {ℓ} :
      (P : Build → Type ℓ)
      → ((s : Build) (i : ℕ) (j : Job) → Picks s i j → P s → P (visit calculate_distance s i j))
      → (fuel : ℕ) (s : Build) → P s
      → P (loop fuel s)
  loop_inv P keep zero s p = unfold extend in p
  loop_inv P keep (suc fuel) s p = elim (next_cases s) [
    | inl e ↦ rw (loop-none (suc fuel) s e) p
    | inr (i, j, c) ↦
        rw (loop-some fuel i s j c.0 c.1.at_index)
          (loop_inv P keep fuel (visit calculate_distance s i j) (keep s i j c p))
  ]

  pub loop-IsBuild : (fuel : ℕ) (s : Build) → IsBuild s → IsBuild (loop fuel s)
  loop-IsBuild = loop_inv IsBuild (λ s i j c b. visit-IsBuild s i j c.1 b)

  left_over-visit :
      (s : Build) (i : ℕ) (j : Job)
      → Picks s i j
      → suc (length (left_over (visit calculate_distance s i j).route_assigned))
        ≡ length (left_over s.route_assigned)
  unfolding visit
  left_over-visit s i j c = length-perm (left_over-take s.route_assigned i j c.1.at_index c.1.free)

  -- Fuel for the jobs that are left is enough: the loop ends because nothing more fits.
  pub loop-ends :
      (fuel : ℕ) (s : Build)
      → length (left_over s.route_assigned) ≤ fuel
      → next (loop fuel s) ≡ none
  loop-ends zero s h = elim (next_cases s) [
    | inl e ↦ unfold extend in e
    | inr (i, j, c) ↦ absurd (omega (arith, left_over-visit s i j c))
  ]
  loop-ends (suc fuel) s h = elim (next_cases s) [
    | inl e ↦ rw (loop-none (suc fuel) s e) e
    | inr (i, j, c) ↦
        rw (loop-some fuel i s j c.0 c.1.at_index)
          (loop-ends fuel (visit calculate_distance s i j) (omega (arith, left_over-visit s i j c)))
  ]

-- A route and the indices of its jobs.
pub record IsRoute (v : VehicleConfig) (jobs : List Job) (assigned : List ℕ)
    (r : Route × ℕ × List ℕ) : Type 0 where
  pub split :
      Perm
        (served r.0.steps ++ unassigned_from (r.2 ++ assigned) 0 jobs)
        (unassigned_from assigned 0 jobs)
  pub within : r.0.total_load ≤ v.capacity_kg
  pub load : r.0.total_load ≡ total_demand jobs r.2
  pub idle : (r.2 ≡ []) → length r.0.steps ≡ 1
  pub busy : (r.2 ≢ []) → length r.0.steps ≡ length r.2 + 2
  pub order :
      kinds r.0.steps
      ≡ start ∷ (replicate (length r.2) job ++ (if length r.2 == 0 then [] else end ∷ []))
  pub distance : r.1 ≡ r.0.total_distance_m
  pub full :
      (k : ℕ) (j : Job) → ¬ IsFeasible jobs (r.2 ++ assigned) r.0.total_load v.capacity_kg k j

module _ (calculate_distance : Location → Location → ℕ) (v : VehicleConfig) (jobs : List Job)
    (assigned : List ℕ) (depot : Location) (clock : ℕ) where
  abbrev built : Build
  built = extend calculate_distance (length jobs) jobs assigned v.capacity_kg (begin v depot clock)

  length-unassigned-le :
      (taken : List ℕ) (i : ℕ) (js : List Job) → length (unassigned_from taken i js) ≤ length js
  unfolding unassigned_from
  length-unassigned-le taken i [] = omega arith
  length-unassigned-le taken i (j ∷ js) = ground (arith, length-unassigned-le taken (suc i) js)

  begin-IsBuild : IsBuild calculate_distance jobs assigned v.capacity_kg (begin v depot clock)
  unfolding begin
  begin-IsBuild = record {
    split = Perm.refl _;
    within = omega arith;
    load = refl;
    count = refl;
    order = refl;
  }

  built-IsBuild : IsBuild calculate_distance jobs assigned v.capacity_kg built
  built-IsBuild =
      loop-IsBuild calculate_distance jobs assigned v.capacity_kg (length jobs) _ begin-IsBuild

  built-ends : next calculate_distance jobs assigned v.capacity_kg built ≡ none
  built-ends =
      loop-ends calculate_distance jobs assigned v.capacity_kg (length jobs) _
        (unfold begin in length-unassigned-le assigned 0 jobs)

  abbrev returned : Build → Build
  returned s = return_to_depot calculate_distance depot s

  served-return : (s : Build) → served (returned s).steps ≡ served s.steps
  unfolding return_to_depot
  served-return s = elim (Bool-cases (ltb 1 (length s.steps))) [
    | inl more ↦ rw (more, served-append) (append-nil (served s.steps))
    | inr less ↦ rw less
  ]

  taken-return : (s : Build) → (returned s).route_assigned ≡ s.route_assigned
  unfolding return_to_depot
  taken-return s = ground arith

  load-return : (s : Build) → (returned s).current_load ≡ s.current_load
  unfolding return_to_depot
  load-return s = ground arith

  steps-return :
      (s : Build)
      → length (returned s).steps
        ≡ (if ltb 1 (length s.steps) then length s.steps + 1 else length s.steps)
  unfolding return_to_depot
  steps-return s = elim (Bool-cases (ltb 1 (length s.steps))) [
    | inl more ↦ rw (more, length-snoc)
    | inr less ↦ rw less
  ]

  kinds-return :
      (s : Build)
      → kinds (returned s).steps
        ≡ kinds s.steps ++ (if ltb 1 (length s.steps) then end ∷ [] else [])
  unfolding return_to_depot
  kinds-return s = elim (Bool-cases (ltb 1 (length s.steps))) [
    | inl more ↦ rw (more, kinds-append) refl
    | inr less ↦ rw less (sym (append-nil (kinds s.steps)))
  ]

  built-order :
      kinds (returned built).steps
      ≡ start
        ∷ (replicate (length built.route_assigned) job
            ++ (if length built.route_assigned == 0 then [] else end ∷ []))
  built-order =
      let b = built-IsBuild in
      kinds-return built ∙ elim (Bool-cases (length built.route_assigned == 0)) [
        | inl none_taken ↦
            let short : ltb 1 (length built.steps) ≡ false = ground (arith, b.count) in
            rw (short, none_taken, b.order) refl
        | inr some_taken ↦
            let long : ltb 1 (length built.steps) ≡ true = ground (arith, b.count) in
            rw (long, some_taken, b.order) refl
      ]

  built-full :
      (k : ℕ) (j : Job)
      → ¬ IsFeasible jobs (built.route_assigned ++ assigned) built.current_load v.capacity_kg k j
  built-full =
      (find_nearest-none_iff calculate_distance built.current_location
          (built.route_assigned ++ assigned) built.current_load v.capacity_kg jobs).0
        built-ends

  -- The route serves the jobs that it takes from those that were left, each once; its load is their
  -- demand and within the vehicle's capacity; its steps are the start, the jobs and then the end, or
  -- the start alone if there is no job; and no job that is left would still fit.
  pub build_route_for_vehicle-IsRoute :
      IsRoute v jobs assigned
        (build_route_for_vehicle calculate_distance v jobs assigned depot clock)
  unfolding build_route_for_vehicle to_route
  build_route_for_vehicle-IsRoute = record {
    split = rw (served-return, taken-return) built-IsBuild.split;
    within = rw load-return built-IsBuild.within;
    load = rw (load-return, taken-return) built-IsBuild.load;
    idle = λ e. ground (arith, steps-return built, taken-return built, built-IsBuild.count);
    busy = λ e. ground (arith, steps-return built, taken-return built, built-IsBuild.count);
    order = rw taken-return built-order;
    distance = refl;
    full = rw (load-return, taken-return) built-full;
  }
