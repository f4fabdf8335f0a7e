-- ===== src/FieldRouting.antt =====
-- The data of backend/app/schemas/field_routing.py for the two services of
-- backend/app/services/planning/field_routing.py, which the children model.
-- An identifier is a number, a latitude and a longitude are signed micro-degrees, and a weight is
-- counted in thousandths. Distances and durations are counted in hundredths of a metre and of a
-- second, so that `round(…, 2)` changes nothing. Error texts are left out.
pub mod Vrpc
pub mod Clusters
pub mod Weeks
use sfa_routing.Prelude.{ℕ, Option, List, String}
use sfa_routing.Prelude.Int.{ℤ}

pub data TspKind : Type 0 where
  auto single : TspKind

pub data Intensity : Type 0 where
  three_times_a_week two_times_a_week once_a_week once_in_two_weeks once_a_month : Intensity

pub data VehicleType : Type 0 where
  car truck walking cycling : VehicleType

pub record TspLocation : Type 0 where
  pub id : ℕ
  pub latitude : ℤ
  pub longitude : ℤ
  pub intensity : Intensity
  pub visit_duration : ℕ
  pub working_days : List ℕ

pub record StartLocation : Type 0 where
  pub latitude : ℤ
  pub longitude : ℤ

pub record TspRequest : Type 0 where
  pub kind : TspKind
  pub locations : List TspLocation
  pub start_location : Option StartLocation

pub record DayRoute : Type 0 where
  pub day_number : ℕ
  pub route : List ℕ
  pub total_duration : ℕ
  pub total_distance : ℕ

pub record WeekPlan : Type 0 where
  pub week_number : ℕ
  pub days : List DayRoute

pub record TspSingleResponse : Type 0 where
  pub code : ℕ
  pub weeks : Option (List WeekPlan)

pub record TspAutoResponse : Type 0 where
  pub code : ℕ
  pub plans : Option (List (List WeekPlan))

pub record VrpcDepot : Type 0 where
  pub lat : ℤ
  pub lng : ℤ

pub record VrpcPoint : Type 0 where
  pub lat : ℤ
  pub lng : ℤ
  pub weight : ℕ

pub record VrpcVehicle : Type 0 where
  pub type : VehicleType
  pub capacity : ℕ

pub record VrpcUrls : Type 0 where
  pub car_url : Option String
  pub truck_url : Option String
  pub walking_url : Option String
  pub cycling_url : Option String

pub record VrpcRequest : Type 0 where
  pub depot : VrpcDepot
  pub points : List VrpcPoint
  pub vehicles : List VrpcVehicle
  pub max_cycle_distance : Option ℕ
  pub urls : VrpcUrls

pub record VrpcLoop : Type 0 where
  pub route : List ℕ
  pub distance : ℕ
  pub duration : ℕ

pub record VrpcResponse : Type 0 where
  pub code : ℕ
  pub vehicles : Option (List (List VrpcLoop))
  pub total_distance : Option ℕ
  pub total_duration : Option ℕ

abbrev pub success : ℕ
success = 100

abbrev pub invalid_input_format : ℕ
invalid_input_format = 101

abbrev pub url_not_found_for_vehicle : ℕ
url_not_found_for_vehicle = 103

abbrev pub weight_exceeds_capacity : ℕ
weight_exceeds_capacity = 106

abbrev pub no_solution_found : ℕ
no_solution_found = 109
