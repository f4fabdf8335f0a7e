-- ===== src/Problem/Calendar.antt =====
-- The calendar checks of `RoutingProblem` in backend/app/services/solvers/solver_interface.py.
use sfa_routing.Prelude.{
  ℕ, ◌+◌, ◌*◌, Bool, true, false, not, ◌&&◌, ◌||◌, Option, none, some, List, [], ◌∷◌, leb, ◌==◌,
  if◌then◌else◌,
}
use sfa_routing.Problem.{RegionalConstraints, RoutingProblem, Time}

-- The order of two times of day.
abbrev pub minutes : Time → ℕ
minutes t = t.hour * 60 + t.minute

abbrev pub within : Time → Time → Time → Bool
within lo hi t = leb (minutes lo) (minutes t) && leb (minutes t) (minutes hi)

abbrev at : ℕ → ℕ → Time
at h m = record { hour = h; minute = m }

unfoldable pub for_uzbekistan : RegionalConstraints
for_uzbekistan = record {
  lunch_break_start = at 13 0;
  lunch_break_end = at 14 0;
  friday_prayer_start = some (at 12 0);
  friday_prayer_end = some (at 13 30);
  morning_peak_start = at 8 0;
  morning_peak_end = at 9 30;
  evening_peak_start = at 17 0;
  evening_peak_end = at 19 0;
  summer_early_start = true;
  ramadan_adjusted_hours = false;
  payday_dates = 5 ∷ 20 ∷ [];
}

unfoldable pub for_kazakhstan : RegionalConstraints
for_kazakhstan = record {
  lunch_break_start = at 13 0;
  lunch_break_end = at 14 0;
  friday_prayer_start = none;
  friday_prayer_end = none;
  morning_peak_start = at 7 30;
  morning_peak_end = at 10 0;
  evening_peak_start = at 17 0;
  evening_peak_end = at 20 0;
  summer_early_start = true;
  ramadan_adjusted_hours = false;
  payday_dates = 10 ∷ 25 ∷ [];
}

unfoldable pub get_regional_constraints : RoutingProblem → RegionalConstraints
unfolding for_uzbekistan
get_regional_constraints p = elim p.regional_constraints [ some c ↦ c | none ↦ for_uzbekistan ]

unfoldable pub is_within_lunch_break : RoutingProblem → Time → Bool
unfolding get_regional_constraints
is_within_lunch_break p t =
    let c = get_regional_constraints p in
    if not p.respect_lunch_break then false else within c.lunch_break_start c.lunch_break_end t

-- Both ends of the interval have to be there.
within_optional : Option Time → Option Time → Time → Bool
within_optional (some lo) (some hi) t = within lo hi t
within_optional _ _ t = false

unfoldable pub is_within_friday_prayer : RoutingProblem → Time → ℕ → Bool
unfolding get_regional_constraints within_optional
is_within_friday_prayer p t weekday =
    let c = get_regional_constraints p in
    if not p.respect_friday_prayer || not (weekday == 4)
    then false
    else within_optional c.friday_prayer_start c.friday_prayer_end t

-- `abs(day - payday) <= 3` for some payday of the list.
unfoldable pub near_payday : List ℕ → ℕ → Bool
near_payday [] day = false
near_payday (payday ∷ rest) day =
    (leb day (payday + 3) && leb payday (day + 3)) || near_payday rest day

-- `planning_date` is the day of the month.
unfoldable pub check_payday_period : RoutingProblem → Bool
unfolding get_regional_constraints near_payday
check_payday_period p = elim p.planning_date [
  | none ↦ p.is_payday_period
  | some day ↦ near_payday (get_regional_constraints p).payday_dates day
]
