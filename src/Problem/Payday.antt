-- ===== src/Problem/Payday.antt =====
-- `RoutingProblem.check_payday_period` and the list of the paydays.
use mathlib.Core.Logic.{∥∥₁_elim}
use mathlib.Core.List.{Mem, mem-cons, not-mem-nil, mem-cons_self, mem-cons_of_mem}
use sfa_routing.Prelude.{
  ℕ, ◌+◌, ◌≤◌, ◌≡◌, true, ◌&&◌, List, [], ◌∷◌, some, arith, leb, inl, inr, Bool-cases,
}
use sfa_routing.Problem.{RoutingProblem}
use sfa_routing.Problem.Calendar.{near_payday, check_payday_period, get_regional_constraints}

-- A payday at most three days before or after the day.
pub record PaydayNear (paydays : List ℕ) (day : ℕ) : Type 0 where
  pub payday : ℕ
  pub listed : Mem payday paydays
  pub before : day ≤ payday + 3
  pub after : payday ≤ day + 3

near_payday_sound :
    (paydays : List ℕ) (day : ℕ) → near_payday paydays day ≡ true → PaydayNear paydays day
unfolding near_payday
near_payday_sound [] day h = absurd (ground arith)
near_payday_sound (p ∷ ps) day h = elim (Bool-cases (leb day (p + 3) && leb p (day + 3))) [
  | inl near ↦ record {
    payday = p;
    listed = mem-cons_self;
    before = ground arith;
    after = ground arith;
  }
  | inr far ↦
      let later = near_payday_sound ps day (ground arith) in
      record {
        payday = later.payday;
        listed = mem-cons_of_mem p later.listed;
        before = later.before;
        after = later.after;
      }
]

near_payday_complete :
    (paydays : List ℕ) (day payday : ℕ)
    → Mem payday paydays
    → day ≤ payday + 3
    → payday ≤ day + 3
    → near_payday paydays day ≡ true
unfolding near_payday
near_payday_complete [] day payday m h k = absurd (not-mem-nil m)
near_payday_complete (p ∷ ps) day payday m h k = ∥∥₁_elim (mem-cons.0 m) (hlevel) (λ c. elim c [
  | inl e ↦ ground arith
  | inr t ↦ ground (arith, near_payday_complete ps day payday t h k)
])

-- For a known day the payday period is on exactly if a payday of the region is at most three days
-- away from it.
pub check_payday_period-PaydayNear :
    (p : RoutingProblem) (day : ℕ)
    → p.planning_date ≡ some day
    → (check_payday_period p ≡ true → PaydayNear (get_regional_constraints p).payday_dates day)
      × (PaydayNear (get_regional_constraints p).payday_dates day → check_payday_period p ≡ true)
unfolding check_payday_period
check_payday_period-PaydayNear p day known = rw known (
  (λ h. near_payday_sound (get_regional_constraints p).payday_dates day h),
  (λ n.
      near_payday_complete (get_regional_constraints p).payday_dates day n.payday n.listed n.before
        n.after),
)
