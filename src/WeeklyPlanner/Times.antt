-- ===== src/WeeklyPlanner/Times.antt =====
-- The times of day and the scores of `WeeklyPlanner`.
use sfa_routing.Prelude.{
  ℕ, ◌+◌, ◌/◌, ◌%◌, ◌≤◌, ◌<◌, ◌≡◌, refl, arith, Bool, Option, none, some, true, false,
  if◌then◌else◌,
}
use sfa_routing.Prelude.Dates.{Date}
use sfa_routing.Problem.{ClientCategory, a, b, c}
use sfa_routing.WeeklyPlanner.{
  Clock, Client, Planner, Signals, time_to_seconds, seconds_to_time, add_minutes,
  calculate_client_priority, category_points, stock_points, debt_points, is_payday_period,
}

-- A time that `datetime.time` accepts.
abbrev pub IsClock : Clock → Type 0
IsClock t = (t.hour < 24) × (t.minute < 60) × (t.second < 60)

pub clock_eq : {t u : Clock} → t.hour ≡ u.hour → t.minute ≡ u.minute → t.second ≡ u.second → t ≡ u
clock_eq e f g = λ i. record { hour = e i; minute = f i; second = g i }

-- The conversions are inverse to each other, up to whole days.
pub seconds_to_time-time_to_seconds :
    (t : Clock) (n : ℕ)
    → IsClock t
    → (seconds_to_time (time_to_seconds t) ≡ t)
      × (time_to_seconds (seconds_to_time n) ≡ n % 86400)
      × IsClock (seconds_to_time n)
unfolding seconds_to_time time_to_seconds
seconds_to_time-time_to_seconds t n h = (
  clock_eq (omega (arith, h.0, h.1, h.2)) (omega (arith, h.0, h.1, h.2))
      (omega (arith, h.0, h.1, h.2)),
  omega arith,
  (omega arith, omega arith, omega arith),
)

-- The time of day of a number of minutes.
abbrev pub clock_at : ℕ → Clock
clock_at m = record { hour = (m / 60) % 24; minute = m % 60; second = 0 }

pub add_minutes-clock_at : (m k : ℕ) → add_minutes (clock_at m) k ≡ clock_at (m + k)
unfolding add_minutes
add_minutes-clock_at m k = clock_eq (omega arith) (omega arith) refl

category_points-le : (k : ClientCategory) → category_points k ≤ 20
category_points-le a = omega arith
category_points-le b = omega arith
category_points-le c = omega arith

stock_points-le : (o : Option ℕ) → stock_points o ≤ 30
stock_points-le none = omega arith
stock_points-le (some days) = ground arith

debt_points-le : (payday : Bool) (o : Option ℕ) → debt_points payday o ≤ 25
debt_points-le payday none = omega arith
debt_points-le payday (some debt) = ground arith

promo_points-le : (promo : Bool) → (if promo then 15 else 0) ≤ 15
promo_points-le true = omega arith
promo_points-le false = omega arith

-- A score is the sum of the points of the four signals and at most 90: the cap of 100 never applies.
pub calculate_client_priority-le :
    (w : Planner) (s : Signals) (x : Client) (d : Date)
    → (calculate_client_priority w s x d
        ≡ category_points x.category
          + stock_points (s.stock_levels x.id)
          + debt_points (is_payday_period w d) (s.debts x.id)
          + (if s.active_promos x.id then 15 else 0))
      × (calculate_client_priority w s x d ≤ 90)
unfolding calculate_client_priority
calculate_client_priority-le w s x d =
    let p = category_points-le x.category in
    let q = stock_points-le (s.stock_levels x.id) in
    let r = debt_points-le (is_payday_period w d) (s.debts x.id) in
    let t = promo_points-le (s.active_promos x.id) in
    (omega (arith, p, q, r, t), omega (arith, p, q, r, t))
