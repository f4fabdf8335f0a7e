-- ===== src/Problem/Checks.antt =====
-- A visit that becomes urgent, and a planning date three days after a payday.
use sfa_routing.Prelude.{◌≡◌, refl, true, false, some, [], ◌∷◌, arith}
use sfa_routing.Problem.{Job, RoutingProblem}
use sfa_routing.Problem.Samples.{job_at, problem, jobs, vans}
use sfa_routing.Problem.Priority.{
  calculate_priority_score, stock_bonus, debt_bonus, churn_bonus, value_bonus,
}
use sfa_routing.Problem.Calendar.{
  check_payday_period, near_payday, get_regional_constraints, for_uzbekistan,
}
use sfa_routing.Problem.Urgency.{IsAsUrgent}

abbrev calm : Job
calm = record (job_at 1 0 100) { stock_days_remaining = some 6; outstanding_debt = 5 }

abbrev pressing : Job
pressing = record calm {
  stock_days_remaining = some 2;
  is_new_client = true;
  churn_risk_score = 80;
}

priority_runs :
    (calculate_priority_score calm false ≡ 3500) × (calculate_priority_score pressing true ≡ 10000)
unfolding calculate_priority_score stock_bonus debt_bonus churn_bonus value_bonus
priority_runs = (refl, refl)

pressing-IsAsUrgent : IsAsUrgent calm pressing
pressing-IsAsUrgent = record {
  priority = omega arith;
  stock = omega arith;
  debt = omega arith;
  promo = λ e. e;
  new_client = λ e. refl;
  churn = omega arith;
  order_value = omega arith;
}

-- The 23rd of a month.
abbrev planned : RoutingProblem
planned = record (problem jobs vans) { planning_date = some 23 }

payday_runs : (check_payday_period planned ≡ true) × (near_payday (5 ∷ 20 ∷ []) 24 ≡ false)
unfolding check_payday_period near_payday get_regional_constraints for_uzbekistan
payday_runs = (refl, refl)
