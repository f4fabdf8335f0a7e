-- ===== src/FieldRouting/Weeks.antt =====
-- `SinglePlanSolver` of backend/app/services/planning/field_routing.py: four weeks of six days.
-- The haversine distance is the parameter `haversine`, in hundredths of a kilometre, so that
-- `int(best_distance / 0.5)` is a division by 50 and `round(…, 2)` changes nothing. A dictionary is
-- the list of its entries in the order of their keys' entry. The exceptions are left out: nothing
-- that the model uses raises one.
pub mod Days
pub mod Counts
pub mod Plans
pub mod Undue
pub mod Samples
use sfa_routing.Prelude.{
  ℕ, zero, suc, ◌+◌, ◌-◌, ◌*◌, ◌/◌, ◌%◌, Bool, true, false, not, ◌&&◌, Option, none, some, List, [],
  ◌∷◌, ◌++◌, map, max, ltb, leb, ◌==◌, if◌then◌else◌, length, get_elem?,
}
use sfa_routing.Prelude.Int.{ℤ}
use sfa_routing.Greedy.{closer, contains}
use sfa_routing.FieldRouting.{
  Intensity, three_times_a_week, two_times_a_week, once_a_week, once_in_two_weeks, once_a_month,
  TspLocation, StartLocation, TspRequest, DayRoute, WeekPlan, TspSingleResponse, success,
  invalid_input_format,
}
use sfa_routing.FieldRouting.Vrpc.{remove}

-- `INTENSITY_COEFFICIENT`, in quarters.
pub intensity_coefficient : Intensity → ℕ
intensity_coefficient three_times_a_week = 12
intensity_coefficient two_times_a_week = 8
intensity_coefficient once_a_week = 4
intensity_coefficient once_in_two_weeks = 2
intensity_coefficient once_a_month = 1

-- `INTENSITY_DAYS`
pub intensity_days : Intensity → List ℕ
intensity_days three_times_a_week = 1 ∷ 3 ∷ 5 ∷ []
intensity_days two_times_a_week = 1 ∷ 4 ∷ []
intensity_days once_a_week = 1 ∷ []
intensity_days once_in_two_weeks = 1 ∷ []
intensity_days once_a_month = 1 ∷ []

abbrev pub weeks_planned : ℕ
weeks_planned = 4

abbrev pub days_per_week : ℕ
days_per_week = 6

abbrev pub working_minutes_per_day : ℕ
working_minutes_per_day = 480

abbrev pub Counts : Type 0
Counts = List (ℕ × ℕ)

-- `requirements[id] = n`
pub put : ℕ → ℕ → Counts → Counts
put id n [] = (id, n) ∷ []
put id n ((k, m) ∷ rest) = if k == id then (id, n) ∷ rest else (k, m) ∷ put id n rest

-- `remaining_visits[id] -= 1`
pub decrement : ℕ → Counts → Counts
decrement id [] = []
decrement id ((k, m) ∷ rest) = if k == id then (k, m - 1) ∷ rest else (k, m) ∷ decrement id rest

pub required : TspLocation → ℕ
unfolding intensity_coefficient
required l = max 1 (intensity_coefficient l.intensity * weeks_planned / 4)

pub visit_requirements : List TspLocation → Counts → Counts
visit_requirements [] counts = counts
visit_requirements (l ∷ ls) counts = visit_requirements ls (put l.id (required l) counts)

-- `loc_by_id[id]`: the last location with the identifier.
pub loc_by_id : List TspLocation → ℕ → Option TspLocation
loc_by_id [] id = none
loc_by_id (l ∷ ls) id = elim (loc_by_id ls id) [
  | some found ↦ some found
  | none ↦ if l.id == id then some l else none
]

-- `loc_ids.index(id)`
pub index_of : List TspLocation → ℕ → ℕ
index_of [] id = 0
index_of (l ∷ ls) id = if l.id == id then 0 else suc (index_of ls id)

-- The two tests of a location on a day: its working days, and the pattern of its intensity.
pub fits_pattern : Intensity → ℕ → ℕ → Bool
unfolding intensity_days
fits_pattern three_times_a_week week day = contains (intensity_days three_times_a_week) day
fits_pattern two_times_a_week week day = contains (intensity_days two_times_a_week) day
fits_pattern once_a_week week day = contains (intensity_days once_a_week) day
fits_pattern once_in_two_weeks week day = week % 2 == 1 && day == 1
fits_pattern once_a_month week day = week == 1 && day == 1

pub is_due : ℕ → ℕ → TspLocation → Bool
is_due week day l = contains l.working_days day && fits_pattern l.intensity week day

pub record DayState : Type 0 where
  pub route : List ℕ
  pub duration : ℕ
  pub distance : ℕ
  pub available : ℕ
  pub remaining : Counts
  pub candidates : List ℕ
  pub current : ℕ

abbrev pub start_day : Counts → List ℕ → DayState
start_day remaining candidates = record {
  route = [];
  duration = 0;
  distance = 0;
  available = working_minutes_per_day;
  remaining = remaining;
  candidates = candidates;
  current = 0;
}

abbrev pub drop_candidate : ℕ → DayState → DayState
drop_candidate id s = record s { candidates = remove id s.candidates }

-- `if day_route: days.append(…)`
pub add_day : ℕ → DayState → List DayRoute → List DayRoute
add_day day s days =
    if length s.route == 0
    then days
    else record {
      day_number = day;
      route = s.route;
      total_duration = s.duration;
      total_distance = s.distance;
    }
      ∷ days

module _ (haversine : ℤ → ℤ → ℤ → ℤ → ℕ) where
  -- `all_coords`: the start, if there is one, and the locations.
  pub all_coords : List TspLocation → Option StartLocation → List (ℤ × ℤ)
  all_coords ls start =
      let rest = map (λ (l : TspLocation). (l.latitude, l.longitude)) ls in
      elim start [ none ↦ rest | some s ↦ (s.latitude, s.longitude) ∷ rest ]

  abbrev between : Option (ℤ × ℤ) → Option (ℤ × ℤ) → ℕ
  between (some a) (some b) = haversine (a.0) (a.1) (b.0) (b.1)
  between _ _ = 0

  pub distance_matrix : List TspLocation → Option StartLocation → ℕ → ℕ → ℕ
  unfolding all_coords
  distance_matrix ls start i j =
      if i == j
      then 0
      else between (get_elem? (all_coords ls start) i) (get_elem? (all_coords ls start) j)

module _ (locations : List TspLocation) (distances : ℕ → ℕ → ℕ) (offset : ℕ) where
  abbrev pub is_candidate : ℕ → ℕ → ℕ × ℕ → Bool
  is_candidate week day (id, left) = elim (loc_by_id locations id) [
    | none ↦ false
    | some l ↦ ltb 0 left && is_due week day l
  ]

  -- `for loc_id, remaining in remaining_visits.items()`
  pub candidates_of : ℕ → ℕ → Counts → List ℕ
  candidates_of week day [] = []
  candidates_of week day (entry ∷ rest) =
      let others = candidates_of week day rest in
      if is_candidate week day entry then entry.0 ∷ others else others

  abbrev pub distance_to : ℕ → ℕ → ℕ
  distance_to current id = distances current (index_of locations id + offset)

  pub find_nearest : ℕ → List ℕ → Option (ℕ × ℕ) → Option (ℕ × ℕ)
  find_nearest current [] best = best
  find_nearest current (id ∷ ids) best =
      find_nearest current ids
        (if closer (distance_to current id) best then some (id, distance_to current id) else best)

  abbrev pub visit_duration_of : ℕ → ℕ
  visit_duration_of id = elim (loc_by_id locations id) [ none ↦ 0 | some l ↦ l.visit_duration ]

  abbrev pub total_time : ℕ → ℕ → ℕ
  total_time id distance = distance / 50 + visit_duration_of id

  -- The body of the loop for the nearest candidate.
  pub visit : ℕ → ℕ → DayState → DayState
  visit id distance s =
      let time = total_time id distance in
      if ltb s.available time then drop_candidate id s else record {
        route = s.route ++ id ∷ [];
        duration = s.duration + time;
        distance = s.distance + distance;
        available = s.available - time;
        remaining = decrement id s.remaining;
        candidates = remove id s.candidates;
        current = index_of locations id + offset;
      }

  -- `while candidates and available_time > 0`, on fuel: each round takes one candidate away.
  pub run_day : ℕ → DayState → DayState
  run_day zero s = s
  run_day (suc fuel) s =
      let go_on : DayState = elim (find_nearest s.current s.candidates none) [
        | none ↦ s
        | some (id, d) ↦ run_day fuel (visit id d s)
      ] in
      if ltb 0 s.available then go_on else s

  pub plan_day : ℕ → ℕ → Counts → DayState
  plan_day week day remaining =
      let candidates = candidates_of week day remaining in
      run_day (length candidates) (start_day remaining candidates)

  -- `for day_num in range(1, 7)`, with the days that are left.
  pub plan_days : ℕ → ℕ → ℕ → Counts → List DayRoute × Counts
  plan_days week zero day remaining = ([], remaining)
  plan_days week (suc left) day remaining =
      let s = plan_day week day remaining in
      let rest = plan_days week left (suc day) s.remaining in (add_day day s (rest.0), rest.1)

  pub plan_weeks : ℕ → ℕ → Counts → List WeekPlan × Counts
  plan_weeks zero week remaining = ([], remaining)
  plan_weeks (suc left) week remaining =
      let (days, after) = plan_days week days_per_week 1 remaining in
      let rest = plan_weeks left (suc week) after in
      (record { week_number = week; days = days } ∷ (rest.0), rest.1)

pub start_offset : Option StartLocation → ℕ
start_offset none = 0
start_offset (some s) = 1

pub generate_plan : List TspLocation → (ℕ → ℕ → ℕ) → ℕ → List WeekPlan
generate_plan ls distances offset =
    (plan_weeks ls distances offset weeks_planned 1 (visit_requirements ls [])).0

pub solve_single : (ℤ → ℤ → ℤ → ℤ → ℕ) → TspRequest → TspSingleResponse
solve_single haversine r =
    if length r.locations == 0
    then record { code = invalid_input_format; weeks = none }
    else record {
      code = success;
      weeks = some (
          generate_plan r.locations (distance_matrix haversine r.locations r.start_location)
            (start_offset r.start_location));
    }
