-- ===== src/Problem/Urgency.antt =====
-- `Job.calculate_priority_score` and the factors of two jobs.
use sfa_routing.Prelude.{
  ℕ, ◌≤◌, ◌≡◌, refl, Bool, true, false, Option, none, some, arith, if◌then◌else◌,
}
use sfa_routing.Problem.{Job}
use sfa_routing.Problem.Priority.{
  stock_bonus, debt_bonus, churn_bonus, value_bonus, calculate_priority_score,
}

-- A flag that is set stays set.
abbrev Implies : Bool → Bool → Type 0
Implies b c = b ≡ true → c ≡ true

-- The second stock lasts at most as long as the first; an unknown stock is no reason for a visit.
abbrev pub LastsLess : Option ℕ → Option ℕ → Type 0
LastsLess none o = Unit {0}
LastsLess (some days) none = ⊥
LastsLess (some days) (some fewer) = fewer ≤ days

-- The second job is in every factor at least as urgent as the first.
pub record IsAsUrgent (j k : Job) : Type 0 where
  pub priority : j.priority ≤ k.priority
  pub stock : LastsLess j.stock_days_remaining k.stock_days_remaining
  pub debt : j.outstanding_debt ≤ k.outstanding_debt
  pub promo : Implies j.has_active_promo k.has_active_promo
  pub new_client : Implies j.is_new_client k.is_new_client
  pub churn : j.churn_risk_score ≤ k.churn_risk_score
  pub order_value : j.expected_order_value ≤ k.expected_order_value

stock_bonus-le : (o p : Option ℕ) → LastsLess o p → stock_bonus o ≤ stock_bonus p
unfolding stock_bonus
stock_bonus-le none p h = omega arith
stock_bonus-le (some days) none h = absurd h
stock_bonus-le (some days) (some fewer) h = ground arith

debt_bonus-le : (a b : ℕ) (p q : Bool) → a ≤ b → Implies p q → debt_bonus a p ≤ debt_bonus b q
unfolding debt_bonus
debt_bonus-le a b true true h i = ground arith
debt_bonus-le a b true false h i = let e : false ≡ true = i refl in absurd (ground arith)
debt_bonus-le a b false true h i = ground arith
debt_bonus-le a b false false h i = ground arith

churn_bonus-le : (a b : ℕ) → a ≤ b → churn_bonus a ≤ churn_bonus b
unfolding churn_bonus
churn_bonus-le a b h = ground arith

value_bonus-le : (a b : ℕ) → a ≤ b → value_bonus a ≤ value_bonus b
unfolding value_bonus
value_bonus-le a b h = ground arith

flag-le : (n : ℕ) (b c : Bool) → Implies b c → (if b then n else 0) ≤ (if c then n else 0)
flag-le n true true i = omega arith
flag-le n true false i = let e : false ≡ true = i refl in absurd (ground arith)
flag-le n false c i = omega arith

-- A job that is in every factor at least as urgent as another has at least its score, also if only
-- its day is a payday; and no score is above 100 points.
pub calculate_priority_score-le :
    (j k : Job) (p q : Bool)
    → IsAsUrgent j k
    → Implies p q
    → (calculate_priority_score j p ≤ calculate_priority_score k q)
      × (calculate_priority_score k q ≤ 10000)
unfolding calculate_priority_score
calculate_priority_score-le j k p q u i = (
  omega (
    arith,
    u.priority,
    stock_bonus-le j.stock_days_remaining k.stock_days_remaining u.stock,
    debt_bonus-le j.outstanding_debt k.outstanding_debt p q u.debt i,
    flag-le 1500 j.has_active_promo k.has_active_promo u.promo,
    flag-le 2000 j.is_new_client k.is_new_client u.new_client,
    churn_bonus-le j.churn_risk_score k.churn_risk_score u.churn,
    value_bonus-le j.expected_order_value k.expected_order_value u.order_value,
  ),
  omega arith,
)
