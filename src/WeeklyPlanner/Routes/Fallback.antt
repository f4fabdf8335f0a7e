-- ===== src/WeeklyPlanner/Routes/Fallback.antt =====
-- The plan of a day when no solver answers, and the visits of a solution.
use sfa_routing.Prelude.{
  ℕ, suc, ◌+◌, ◌*◌, ◌<◌, ◌≡◌, refl, sym, ap, ◌∙◌, false, List, [], ◌∷◌, arith,
}
use sfa_routing.Prelude.Dates.{Date}
use sfa_routing.Problem.{Time, b, SolverType, vroom, RoutingProblem}
use sfa_routing.Factory.{Attempt, all_failed, solve_with_fallback}
use sfa_routing.WeeklyPlanner.{Client, Agent, PlannedVisit, Planner, clock}
use sfa_routing.WeeklyPlanner.Times.{clock_at, clock_eq, add_minutes-clock_at}
use sfa_routing.WeeklyPlanner.Routes.{
  fallback_visits, create_fallback_plan, day_problem, read_outcome, optimize_day_route,
}

-- The visits one after the other, 15 minutes apart, in minutes from midnight on.
abbrev pub timetable : ℕ → ℕ → List Client → List PlannedVisit
timetable minutes n [] = []
timetable minutes n (x ∷ xs) =
    record {
      client_id = x.id;
      client_name = x.name;
      sequence_number = n;
      planned_time = clock_at minutes;
      estimated_arrival = clock_at minutes;
      estimated_departure = clock_at (minutes + x.visit_duration_minutes);
      distance_from_previous = 0;
      duration_from_previous_minutes = 0;
      latitude = x.latitude;
      longitude = x.longitude;
      priority_score = 0;
      is_during_lunch = false;
      client_category = b;
    }
    ∷ timetable (minutes + (x.visit_duration_minutes + 15)) (suc n) xs

fallback_visits-timetable :
    (minutes n : ℕ) (clients : List Client)
    → fallback_visits (clock_at minutes) n clients ≡ timetable minutes n clients
unfolding fallback_visits
fallback_visits-timetable minutes n [] = refl
fallback_visits-timetable minutes n (x ∷ xs) =
    let later = minutes + (x.visit_duration_minutes + 15) in
    rw
      (
        add_minutes-clock_at minutes x.visit_duration_minutes,
        add_minutes-clock_at minutes (x.visit_duration_minutes + 15),
        fallback_visits-timetable later (suc n) xs,
      )
      refl

-- A time of day that `datetime.time` accepts.
abbrev pub IsTime : Time → Type 0
IsTime t = (t.hour < 24) × (t.minute < 60)

clock-clock_at : (t : Time) → IsTime t → clock_at (t.hour * 60 + t.minute) ≡ clock t
clock-clock_at t h = clock_eq (omega (arith, h.0, h.1)) (omega (arith, h.0, h.1)) refl

module _ (uuid4 : ℕ → ℕ) (attempt : RoutingProblem → SolverType → Attempt)
    (solvers : List SolverType) (w : Planner) (agent : Agent) where
  -- When every solver fails, the plan of a day visits each client once, in the given order, numbered
  -- from 1 on, from the start of the agent's work on (whatever the season), for the visit's duration
  -- and with 15 minutes between two visits; times after midnight start again at 0:00.
  pub optimize_day_route_fallback :
      (clients : List Client) (d : Date) (priorities : List (ℕ × ℕ))
      → IsTime agent.work_start
      → solve_with_fallback
          (attempt (day_problem uuid4 w agent clients d priorities))
          solvers
          (day_problem uuid4 w agent clients d priorities)
          vroom
        ≡ all_failed
      → optimize_day_route uuid4 attempt solvers w agent clients d priorities ≡ record {
        date = d;
        visits = timetable (agent.work_start.hour * 60 + agent.work_start.minute) 1 clients;
        total_distance = 0;
        total_duration_minutes = 0;
      }
  unfolding optimize_day_route read_outcome create_fallback_plan
  optimize_day_route_fallback [] d priorities h failed = refl
  optimize_day_route_fallback (x ∷ xs) d priorities h failed =
      let minutes = agent.work_start.hour * 60 + agent.work_start.minute in
      let visits : fallback_visits (clock agent.work_start) 1 (x ∷ xs)
          ≡ timetable minutes 1 (x ∷ xs) =
        ap (λ t. fallback_visits t 1 (x ∷ xs)) (sym (clock-clock_at agent.work_start h))
        ∙ fallback_visits-timetable minutes 1 (x ∷ xs) in
      ap (λ o. read_outcome uuid4 attempt solvers w agent (x ∷ xs) d priorities o) failed
      ∙ ap
          (λ (l : List PlannedVisit). record {
            date = d;
            visits = l;
            total_distance = 0;
            total_duration_minutes = 0;
          })
          visits
