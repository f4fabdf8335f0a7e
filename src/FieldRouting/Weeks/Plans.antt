-- ===== src/FieldRouting/Weeks/Plans.antt =====
-- `_generate_plan`: the days of the four weeks, and the visits of a location in them.
use sfa_routing.Prelude.{
  ℕ, zero, suc, ◌+◌, ◌≤◌, ◌<◌, ◌≡◌, refl, sym, ap, ◌∙◌, subst, false, none, some, List, [], ◌∷◌,
  inl, inr, arith, ◌==◌, All, Bool-cases, length,
}
use sfa_routing.Prelude.Int.{ℤ}
use sfa_routing.Prelude.Perms.{sum_by}
use sfa_routing.FieldRouting.{TspLocation, TspRequest, success, DayRoute, WeekPlan}
use sfa_routing.FieldRouting.Weeks.{
  Counts, DayState, put, required, visit_requirements, loc_by_id, add_day, plan_day, plan_days,
  plan_weeks, generate_plan, solve_single, distance_matrix, start_offset, weeks_planned,
  days_per_week,
}
use sfa_routing.FieldRouting.Weeks.Counts.{
  visits, left_of, left_of-put, keys, AreDistinct, visit_requirements-AreDistinct,
}
use sfa_routing.FieldRouting.Weeks.Days.{IsDue, IsDaily, plan_day-IsDaily}

abbrev pub days_visits : ℕ → List DayRoute → ℕ
days_visits id days = sum_by (λ (d : DayRoute). visits id d.route) days

-- How often the plan visits the location.
abbrev pub weeks_visits : ℕ → List WeekPlan → ℕ
weeks_visits id weeks = sum_by (λ (w : WeekPlan). days_visits id w.days) weeks

left_of-requirements :
    (ls : List TspLocation) (counts : Counts) (id : ℕ)
    → left_of id (visit_requirements ls counts)
      ≡ (elim (loc_by_id ls id) as (λ o. ℕ) [ none ↦ left_of id counts | some l ↦ required l ])
unfolding visit_requirements loc_by_id
left_of-requirements [] counts id = refl
left_of-requirements (l ∷ ls) counts id = ground (
  arith,
  left_of-requirements ls (put l.id (required l) counts) id,
  left_of-put id l.id (required l) counts,
)

module _ (locations : List TspLocation) (distances : ℕ → ℕ → ℕ) (offset : ℕ) where
  -- A day within the working time, on which no location stands twice and each one is due.
  pub record IsDayRoute (week : ℕ) (d : DayRoute) : Type 0 where
    pub within : d.total_duration ≤ 480
    pub once : (id : ℕ) → visits id d.route ≤ 1
    pub due : All (IsDue locations distances offset week d.day_number) d.route

  abbrev pub AreWeeks : List WeekPlan → Type 0
  AreWeeks weeks = All (λ (w : WeekPlan). All (IsDayRoute w.week_number) w.days) weeks

  empty_visits : (id : ℕ) (xs : List ℕ) → length xs ≡ 0 → visits id xs ≡ 0
  empty_visits id [] h = refl
  empty_visits id (x ∷ xs) h = absurd (omega arith)

  add_day-visits :
      (id day : ℕ) (s : DayState) (days : List DayRoute)
      → days_visits id (add_day day s days) ≡ visits id s.route + days_visits id days
  unfolding add_day
  add_day-visits id day s days = elim (Bool-cases (length s.route == 0)) [
    | inl empty ↦ rw empty (omega (arith, empty_visits id s.route (ground arith)))
    | inr full ↦ rw full refl
  ]

  add_day-All :
      (week day : ℕ) (before : Counts) (s : DayState) (days : List DayRoute)
      → IsDaily locations distances offset week day before s
      → All (IsDayRoute week) days
      → All (IsDayRoute week) (add_day day s days)
  unfolding add_day
  add_day-All week day before s days h rest = elim (Bool-cases (length s.route == 0)) [
    | inl empty ↦ rw empty rest
    | inr full ↦ rw full (
      record {
        within = omega (arith, h.time);
        once = λ id. omega (arith, h.once id);
        due = h.due_route;
      },
      rest,
    )
  ]

  record IsWeek (week : ℕ) (before : Counts) (days : List DayRoute) (after : Counts) : Type 0 where
    routes : All (IsDayRoute week) days
    counted : (id : ℕ) → days_visits id days + left_of id after ≡ left_of id before
    keys_kept : keys after ≡ keys before

  AreDistinct-keys : (c d : Counts) → keys d ≡ keys c → AreDistinct c → AreDistinct d
  AreDistinct-keys c d e h = subst (λ ks. (y : ℕ) → visits y ks ≤ 1) (sym e) h

  abbrev days_of : ℕ → ℕ → ℕ → Counts → List DayRoute × Counts
  days_of = plan_days locations distances offset

  plan_days-IsWeek :
      (week left day : ℕ) (before : Counts)
      → AreDistinct before
      → IsWeek week before (days_of week left day before).0 (days_of week left day before).1
  unfolding plan_days
  plan_days-IsWeek week zero day before h = record {
    routes = tt;
    counted = λ id. omega arith;
    keys_kept = refl;
  }
  plan_days-IsWeek week (suc left) day before h =
      let s = plan_day locations distances offset week day before in
      let daily = plan_day-IsDaily locations distances offset week day before h in
      let ih =
        plan_days-IsWeek week left (suc day) s.remaining
          (AreDistinct-keys before s.remaining daily.keys_kept h) in
      record {
        routes = add_day-All week day before s _ daily ih.routes;
        counted = λ id. omega (
          arith,
          add_day-visits id day s (days_of week left (suc day) s.remaining).0,
          daily.counted id,
          ih.counted id,
        );
        keys_kept = ih.keys_kept ∙ daily.keys_kept;
      }

  record ArePlanned (before : Counts) (weeks : List WeekPlan) (after : Counts) : Type 0 where
    routes : AreWeeks weeks
    counted : (id : ℕ) → weeks_visits id weeks + left_of id after ≡ left_of id before

  abbrev weeks_of : ℕ → ℕ → Counts → List WeekPlan × Counts
  weeks_of = plan_weeks locations distances offset

  plan_weeks-ArePlanned :
      (left week : ℕ) (before : Counts)
      → AreDistinct before
      → ArePlanned before (weeks_of left week before).0 (weeks_of left week before).1
  unfolding plan_weeks
  plan_weeks-ArePlanned zero week before h = record { routes = tt; counted = λ id. omega arith }
  plan_weeks-ArePlanned (suc left) week before h =
      let w = plan_days-IsWeek week days_per_week 1 before h in
      let after = (days_of week days_per_week 1 before).1 in
      let ih =
        plan_weeks-ArePlanned left (suc week) after (AreDistinct-keys before after w.keys_kept h) in
      record {
        routes = (w.routes, ih.routes);
        counted = λ id. omega (arith, w.counted id, ih.counted id);
      }

  required_left :
      (id : ℕ) (l : TspLocation)
      → loc_by_id locations id ≡ some l
      → left_of id (visit_requirements locations []) ≡ required l
  required_left id l e = left_of-requirements locations [] id ∙ (rw e refl)

  generate_plan-ArePlanned :
      ArePlanned
        (visit_requirements locations [])
        (generate_plan locations distances offset)
        (weeks_of weeks_planned 1 (visit_requirements locations [])).1
  unfolding generate_plan
  generate_plan-ArePlanned =
      plan_weeks-ArePlanned weeks_planned 1 (visit_requirements locations [])
        (visit_requirements-AreDistinct locations)

  -- Every day of the plan keeps to the working time and visits each location at most once and only
  -- when it is due; and in the four weeks a location has at most the visits that it requires.
  pub generate_plan-AreWeeks :
      AreWeeks (generate_plan locations distances offset)
      × ((id : ℕ) (l : TspLocation)
          → loc_by_id locations id ≡ some l
          → weeks_visits id (generate_plan locations distances offset) ≤ required l)
  generate_plan-AreWeeks =
      let p = generate_plan-ArePlanned in
      (p.routes, λ id l e. omega (arith, p.counted id, required_left id l e))

  plan_weeks-length :
      (left week : ℕ) (before : Counts) → length (weeks_of left week before).0 ≡ left
  unfolding plan_weeks
  plan_weeks-length zero week before = refl
  plan_weeks-length (suc left) week before =
      ap suc (plan_weeks-length left (suc week) (days_of week days_per_week 1 before).1)

  pub generate_plan-length : length (generate_plan locations distances offset) ≡ 4
  unfolding generate_plan
  generate_plan-length = plan_weeks-length 4 1 (visit_requirements locations [])

pub solve_single-success :
    (haversine : ℤ → ℤ → ℤ → ℤ → ℕ) (r : TspRequest)
    → 0 < length r.locations
    → solve_single haversine r ≡ record {
      code = success;
      weeks = some (
          generate_plan r.locations
            (distance_matrix haversine r.locations r.start_location)
            (start_offset r.start_location));
    }
unfolding solve_single
solve_single-success haversine r h =
    let some_location : (length r.locations == 0) ≡ false = ground arith in rw some_location refl
