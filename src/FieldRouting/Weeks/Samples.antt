-- ===== src/FieldRouting/Weeks/Samples.antt =====
-- Two shops along a line: one is visited twice a week, one once a week but never on Mondays.
use sfa_routing.Prelude.{ℕ, ◌+◌, ◌-◌, ◌*◌, ◌≤◌, ◌≡◌, refl, false, some, List, [], ◌∷◌}
use sfa_routing.Prelude.Int.{pos}
use sfa_routing.Greedy.{contains}
use sfa_routing.FieldRouting.{TspLocation, Intensity, two_times_a_week, once_a_week}
use sfa_routing.FieldRouting.Weeks.{
  generate_plan, plan_day, run_day, visit, find_nearest, candidates_of, is_due, fits_pattern,
  intensity_days, required, decrement, loc_by_id, index_of,
}
use sfa_routing.FieldRouting.Weeks.Plans.{AreWeeks, weeks_visits, generate_plan-AreWeeks}
use sfa_routing.FieldRouting.Weeks.Undue.{generate_plan_skips_weekly}

abbrev shop : ℕ → ℕ → Intensity → List ℕ → TspLocation
shop id x intensity days = record {
  id = id;
  latitude = pos x;
  longitude = pos 0;
  intensity = intensity;
  visit_duration = 30;
  working_days = days;
}

abbrev kiosk : TspLocation
kiosk = shop 8 40 once_a_week (2 ∷ 3 ∷ 4 ∷ [])

abbrev shops : List TspLocation
shops = shop 7 10 two_times_a_week (1 ∷ 2 ∷ 3 ∷ 4 ∷ 5 ∷ []) ∷ kiosk ∷ []

abbrev along : ℕ → ℕ → ℕ
along i j = 100 * ((i - j) + (j - i))

monday_runs : (plan_day shops along 1 1 1 ((7, 8) ∷ (8, 4) ∷ [])).route ≡ 7 ∷ []
unfolding plan_day run_day visit find_nearest candidates_of is_due fits_pattern intensity_days
    decrement loc_by_id index_of contains
monday_runs = refl

generate_plan-AreWeeks_example :
    AreWeeks shops along 1 (generate_plan shops along 1)
    × ((id : ℕ) (l : TspLocation)
        → loc_by_id shops id ≡ some l
        → weeks_visits id (generate_plan shops along 1) ≤ required l)
generate_plan-AreWeeks_example = generate_plan-AreWeeks shops along 1

kiosk_found : loc_by_id shops 8 ≡ some kiosk
unfolding loc_by_id
kiosk_found = refl

never_on_monday : contains kiosk.working_days 1 ≡ false
unfolding contains
never_on_monday = refl

generate_plan_skips_weekly_example :
    (required kiosk ≡ 4) × (weeks_visits 8 (generate_plan shops along 1) ≡ 0)
generate_plan_skips_weekly_example =
    generate_plan_skips_weekly shops along 1 8 kiosk kiosk_found refl never_on_monday
