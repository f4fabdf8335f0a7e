-- ===== src/FieldRouting/Weeks/Undue.antt =====
-- Locations that the plan of the four weeks never finds due.
use sfa_routing.Prelude.{
  ℕ, ◌≡◌, refl, ap, subst, true, false, Bool, ◌&&◌, some, List, [], ◌∷◌, inl, inr, arith, ◌==◌, All,
  Bool-cases,
}
use sfa_routing.Greedy.{contains}
use sfa_routing.FieldRouting.{TspLocation, once_a_week, DayRoute, WeekPlan}
use sfa_routing.FieldRouting.Weeks.{
  required, loc_by_id, is_due, fits_pattern, intensity_days, generate_plan,
}
use sfa_routing.FieldRouting.Weeks.Counts.{visits}
use sfa_routing.FieldRouting.Weeks.Days.{IsDue}
use sfa_routing.FieldRouting.Weeks.Plans.{
  days_visits, weeks_visits, IsDayRoute, AreWeeks, generate_plan-AreWeeks,
}

module _ (locations : List TspLocation) (distances : ℕ → ℕ → ℕ) (offset : ℕ) where
  undue-visits :
      (id week day : ℕ) (l : TspLocation) (route : List ℕ)
      → loc_by_id locations id ≡ some l
      → is_due week day l ≡ false
      → All (IsDue locations distances offset week day) route
      → visits id route ≡ 0
  undue-visits id week day l [] e h all = refl
  undue-visits id week day l (x ∷ xs) e h all = elim (Bool-cases (x == id)) [
    | inl same ↦
        let at : x ≡ id = ground arith in
        let this : all.0.location ≡ l = ground (arith, all.0.found, ap (loc_by_id locations) at) in
        absurd (ground (arith, all.0.due, ap (is_due week day) this))
    | inr other ↦ rw other (omega (arith, undue-visits id week day l xs e h all.1))
  ]

  undue_days :
      (id week : ℕ) (l : TspLocation) (days : List DayRoute)
      → loc_by_id locations id ≡ some l
      → ((w d : ℕ) → is_due w d l ≡ false)
      → All (IsDayRoute locations distances offset week) days
      → days_visits id days ≡ 0
  undue_days id week l [] e h all = refl
  undue_days id week l (d ∷ ds) e h all = omega (
    arith,
    undue-visits id week d.day_number l d.route e (h week d.day_number) all.0.due,
    undue_days id week l ds e h all.1,
  )

  undue_weeks :
      (id : ℕ) (l : TspLocation) (weeks : List WeekPlan)
      → loc_by_id locations id ≡ some l
      → ((w d : ℕ) → is_due w d l ≡ false)
      → AreWeeks locations distances offset weeks
      → weeks_visits id weeks ≡ 0
  undue_weeks id l [] e h all = refl
  undue_weeks id l (w ∷ ws) e h all =
      omega (arith, undue_days id w.week_number l w.days e h all.0, undue_weeks id l ws e h all.1)

  &&-false : (b : Bool) → (b && false) ≡ false
  &&-false true = refl
  &&-false false = refl

  weekly_undue :
      (l : TspLocation) (w d : ℕ)
      → l.intensity ≡ once_a_week
      → contains l.working_days 1 ≡ false
      → is_due w d l ≡ false
  unfolding is_due fits_pattern intensity_days contains
  weekly_undue l w d i off = rw i (elim (Bool-cases (1 == d)) [
    | inl monday ↦
        let e : 1 ≡ d = ground arith in
        let rest : contains l.working_days d ≡ false =
          subst (λ (k : ℕ). contains l.working_days k ≡ false) e off in
        rw rest refl
    | inr later ↦ rw later (&&-false (contains l.working_days d))
  ])

  -- A location that is to be visited once a week, but does not work on Mondays, requires four
  -- visits and gets none, whatever the distances are.
  pub generate_plan_skips_weekly :
      (id : ℕ) (l : TspLocation)
      → loc_by_id locations id ≡ some l
      → l.intensity ≡ once_a_week
      → contains l.working_days 1 ≡ false
      → (required l ≡ 4) × (weeks_visits id (generate_plan locations distances offset) ≡ 0)
  unfolding required
  generate_plan_skips_weekly id l e i off = (
    rw i refl,
    undue_weeks id l _ e (λ w d. weekly_undue l w d i off)
        (generate_plan-AreWeeks locations distances offset).0,
  )
