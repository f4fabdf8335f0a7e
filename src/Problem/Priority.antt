-- ===== src/Problem/Priority.antt =====
-- `Job.calculate_priority_score` of backend/app/services/solvers/solver_interface.py.
-- The score is counted in hundredths of a point.
use sfa_routing.Prelude.{ℕ, ◌+◌, ◌*◌, Bool, Option, none, some, min, ltb, if◌then◌else◌}
use sfa_routing.Problem.{Job}

unfoldable pub stock_bonus : Option ℕ → ℕ
stock_bonus none = 0
stock_bonus (some days) = if ltb days 3 then 3000 else if ltb days 7 then 1500 else 0

unfoldable pub debt_bonus : ℕ → Bool → ℕ
debt_bonus debt is_payday = if ltb 0 debt then if is_payday then 2500 else 1000 else 0

unfoldable pub churn_bonus : ℕ → ℕ
churn_bonus risk = if ltb 70 risk then 2500 else if ltb 50 risk then 1000 else 0

-- A value of `v` units gives `v / 100` points, which is `v` hundredths.
unfoldable pub value_bonus : ℕ → ℕ
value_bonus value = if ltb 0 value then min value 2000 else 0

unfoldable pub calculate_priority_score : Job → Bool → ℕ
unfolding stock_bonus debt_bonus churn_bonus value_bonus
calculate_priority_score j is_payday =
    min
      (j.priority * 1000
        + stock_bonus j.stock_days_remaining
        + debt_bonus j.outstanding_debt is_payday
        + (if j.has_active_promo then 1500 else 0)
        + (if j.is_new_client then 2000 else 0)
        + churn_bonus j.churn_risk_score
        + value_bonus j.expected_order_value)
      10000
