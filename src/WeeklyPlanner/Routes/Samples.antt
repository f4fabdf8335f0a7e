-- ===== src/WeeklyPlanner/Routes/Samples.antt =====
-- Inputs and tests of `WeeklyPlanner`.
use mathlib.Core.List.Perm
use mathlib.Core.List.{append-nil}
use sfa_routing.Prelude.{
  ℕ, ◌+◌, ◌≤◌, ◌≡◌, refl, sym, ap, subst, false, Option, none, some, List, [], ◌∷◌, map, Perm,
  arith, length, length-map, range,
}
use sfa_routing.Prelude.Int.{pos}
use sfa_routing.Prelude.Dates.{Date}
use sfa_routing.Genetic.Cuts.{range-Nodup}
use sfa_routing.Problem.{
  ClientCategory, a, b, c, uzbekistan, SolverType, greedy, Job, RouteStep, job, RoutingProblem,
  SolutionResult,
}
use sfa_routing.Problem.Calendar.{for_uzbekistan}
use sfa_routing.Factory.{
  Attempt, raises, solved, job_steps, solve_with_fallback, try_solvers, fallback_order, alternative,
  get_solver, registered,
}
use sfa_routing.WeeklyPlanner.{Client, Agent, Clock, Planner, Signals}
use sfa_routing.WeeklyPlanner.Assignment.{assign_to_days}
use sfa_routing.WeeklyPlanner.Assignment.Weeks.{
  Partitions, Labels, IsAssigned, assign_to_days-IsAssigned, all_indices,
}
use sfa_routing.WeeklyPlanner.Routes.{optimize_day_route, count_visits, generate_weekly_plan}
use sfa_routing.WeeklyPlanner.Routes.Coverage.{AnswersJobs, first_jobs, generate_weekly_plan-le}
use sfa_routing.WeeklyPlanner.Routes.Fallback.{timetable, optimize_day_route_fallback}

abbrev shop : ℕ → ClientCategory → Client
shop id k = record {
  id = id;
  name = "shop";
  category = k;
  latitude = pos (41000000 + id);
  longitude = pos 69000000;
  visit_duration_minutes = 20;
  time_window_start = none;
  time_window_end = none;
}

abbrev shops : List Client
shops = shop 1 a ∷ shop 2 b ∷ shop 3 c ∷ []

abbrev seller : Agent
seller = record {
  id = 70;
  name = "seller";
  start = (pos 41000000, pos 69000000);
  end = none;
  work_start = record { hour = 9; minute = 30 };
  work_end = record { hour = 18; minute = 0 };
  max_visits_per_day = 2;
}

abbrev tashkent : Planner
tashkent = record { region = uzbekistan; constraints = for_uzbekistan }

abbrev calm : Signals
calm = record { stock_levels = λ i. none; debts = λ i. none; active_promos = λ i. false }

abbrev summer_day : Date
summer_day = record { year = 2024; month = 7; day = 1 }

abbrev draw : ℕ → ℕ
draw n = 1000 + n

-- All clients in one cluster.
abbrev one_cluster : List Client → ℕ → Option (List (ℕ × List ℕ))
one_cluster clients n = some ((0, range 0 (length clients)) ∷ [])

abbrev zero_labels : List Client → ℕ → List ℕ
zero_labels clients n = map (λ (x : Client). 0) clients

-- The jobs one after the other, from 10:00 on.
abbrev steps_of : List Job → List RouteStep
steps_of [] = []
steps_of (j ∷ js) =
    record {
      job_id = some j.id;
      location = j.location;
      arrival_time = 36000;
      departure_time = 37200;
      distance_from_previous_m = 5000;
      duration_from_previous_s = 600;
      load_after = 0;
      step_type = job;
    }
    ∷ steps_of js

abbrev answer : RoutingProblem → SolverType → SolutionResult
answer p t = record {
  routes =
      record {
        vehicle_id = some 70;
        vehicle_name = "seller";
        steps = steps_of p.jobs;
        total_distance_m = 10000;
        total_duration_s = 1200;
        total_load = 0;
      }
      ∷ [];
  unassigned_jobs = [];
  total_distance_m = 10000;
  total_duration_s = 1200;
  computation_time_ms = 1;
  solver_used = t;
}

abbrev in_order : RoutingProblem → SolverType → Attempt
in_order p t = solved (answer p t)

abbrev broken : RoutingProblem → SolverType → Attempt
broken p t = raises

one_cluster-Partitions : Partitions one_cluster zero_labels
one_cluster-Partitions clients n found e =
    let same : (0, range 0 (length clients)) ∷ [] ≡ found = cc e in
    subst (λ l. Perm (all_indices l) (range 0 (length clients))) same
      (subst (λ l. Perm l (range 0 (length clients))) (sym (append-nil (range 0 (length clients))))
        (Perm.refl (range 0 (length clients))))

zero_labels-Labels : Labels one_cluster zero_labels
zero_labels-Labels clients n = length-map clients (λ (x : Client). 0)

job_steps-steps_of : (js : List Job) → job_steps (steps_of js) ≡ length js
unfolding job_steps
job_steps-steps_of [] = refl
job_steps-steps_of (j ∷ js) = omega (arith, job_steps-steps_of js)

in_order-AnswersJobs : AnswersJobs in_order
in_order-AnswersJobs p t r e =
    let same : answer p t ≡ r = cc e in omega (arith, job_steps-steps_of p.jobs, ap first_jobs same)

assign_to_days-IsAssigned_example :
    IsAssigned 3 2 shops (assign_to_days one_cluster zero_labels 3 2 shops)
assign_to_days-IsAssigned_example =
    assign_to_days-IsAssigned one_cluster zero_labels 3 2 shops (omega arith) one_cluster-Partitions
      zero_labels-Labels

generate_weekly_plan-le_example :
    let plan =
      generate_weekly_plan draw in_order
        (greedy ∷ [])
        one_cluster
        zero_labels
        tashkent
        calm
        seller
        shops
        summer_day
        1 in
    (plan.total_visits ≡ count_visits plan.daily_plans)
    × (length plan.daily_plans ≡ 5)
    × (plan.coverage_rate.0 ≤ plan.coverage_rate.1)
generate_weekly_plan-le_example =
    generate_weekly_plan-le draw in_order (greedy ∷ []) one_cluster zero_labels tashkent calm seller
      shops summer_day 1 in_order-AnswersJobs one_cluster-Partitions zero_labels-Labels
      (range-Nodup 1 3)

optimize_day_route_fallback_example :
    optimize_day_route draw broken (greedy ∷ []) tashkent seller shops summer_day [] ≡ record {
      date = summer_day;
      visits = timetable 570 1 shops;
      total_distance = 0;
      total_duration_minutes = 0;
    }
unfolding solve_with_fallback try_solvers fallback_order alternative get_solver registered
optimize_day_route_fallback_example =
    optimize_day_route_fallback draw broken (greedy ∷ []) tashkent seller shops summer_day []
      (omega arith, omega arith) refl

abbrev last_second : Clock
last_second = record { hour = 23; minute = 59; second = 59 }
