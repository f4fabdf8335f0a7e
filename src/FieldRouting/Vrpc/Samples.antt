-- ===== src/FieldRouting/Vrpc/Samples.antt =====
-- Three points along a line and one truck, whose weights need two loops.
use sfa_routing.Prelude.{ℕ, zero, suc, true, ◌+◌, ◌-◌, ◌*◌, ◌≡◌, refl, none, some, [], ◌∷◌, arith}
use sfa_routing.Prelude.Int.{ℤ, pos, pos_part}
use sfa_routing.FieldRouting.{truck, VrpcPoint, VrpcRequest, success, weight_exceeds_capacity}
use sfa_routing.FieldRouting.Vrpc.{
  consider, scan, take_point, fill_loop, close_loop, drive_loops, serve_vehicle, serve_vehicles,
  to_response, round_loop, round_2, point_weight, max_distance, solve_greedy, solve, all_urls,
  url_of, failed, distance_matrix, duration_matrix,
}
use sfa_routing.FieldRouting.Vrpc.Answers.{Answers, solve_greedy-Answers}
use sfa_routing.FieldRouting.Vrpc.Refusals.{IsPlannable, IsEachServable, solve_refuses_loops}

abbrev line : ℤ → ℤ → ℤ → ℤ → ℕ
line lat1 lng1 lat2 lng2 =
    ((pos_part lat1 - pos_part lat2) + (pos_part lat2 - pos_part lat1)) * 10003

abbrev point : ℕ → ℕ → VrpcPoint
point x weight = record { lat = pos x; lng = pos 0; weight = weight }

abbrev request : VrpcRequest
request = record {
  depot = record { lat = pos 0; lng = pos 0 };
  points = point 50 3 ∷ point 25 2 ∷ point 75 4 ∷ [];
  vehicles = record { type = truck; capacity = 5 } ∷ [];
  max_cycle_distance = some 1600000;
  urls = record {
    car_url = none;
    truck_url = some "http://osrm";
    walking_url = none;
    cycling_url = none;
  };
}

-- The sums are rounded to hundredths.
solve_greedy_runs :
    solve_greedy request (duration_matrix line request) (distance_matrix line request) ≡ record {
      code = success;
      vehicles = some (
          (record { route = 1 ∷ 0 ∷ []; distance = 1000000; duration = 120000 }
            ∷ record { route = 2 ∷ []; distance = 1500000; duration = 180000 }
            ∷ [])
          ∷ []);
      total_distance = some 2500000;
      total_duration = some 300000;
    }
unfolding solve_greedy to_response round_loop round_2 serve_vehicles serve_vehicle drive_loops
    close_loop fill_loop take_point scan consider point_weight max_distance distance_matrix
    duration_matrix
solve_greedy_runs = refl

solve_greedy-Answers_example :
    Answers
      (distance_matrix line request)
      (duration_matrix line request)
      request
      (solve_greedy request (duration_matrix line request) (distance_matrix line request))
solve_greedy-Answers_example =
    solve_greedy-Answers (distance_matrix line request) (duration_matrix line request) request

urls_given : all_urls request.urls request.vehicles ≡ true
unfolding all_urls url_of
urls_given = refl

each_alone : IsEachServable line request
unfolding distance_matrix point_weight max_distance
each_alone zero low high alone = absurd (omega arith)
each_alone (suc zero) low high alone = alone.0 (record { fits = omega arith; within = refl })
each_alone (suc (suc zero)) low high alone = alone.0 (record { fits = omega arith; within = refl })
each_alone (suc (suc (suc zero))) low high alone =
    alone.0 (record { fits = omega arith; within = refl })
each_alone (suc (suc (suc (suc p)))) low high alone = absurd (omega arith)

solve_refuses_loops_example :
    IsPlannable line request × (solve line request ≡ failed weight_exceeds_capacity)
solve_refuses_loops_example = solve_refuses_loops line request urls_given (omega arith) each_alone
