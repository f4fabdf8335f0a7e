-- ===== src/GeoSecurity.antt =====
-- `LocationAnonymizer` of backend/app/services/security/geo_security.py.
-- Coordinates are signed micro-degrees, so that the original precision of six decimals is exact, and
-- moments are seconds. `h3_centroid` is the centre of the H3 cell of resolution 5, or `none` where the
-- library is missing; areas, cell names and the audit logger are left out.
pub mod Windows
pub mod Samples
use sfa_routing.Prelude.{
  ℕ, zero, suc, ◌+◌, ◌-◌, ◌*◌, ◌/◌, ◌%◌, Bool, true, false, Option, none, some, List, [], ◌∷◌, ◌++◌,
  ltb, leb, ◌==◌, if◌then◌else◌, length, get_or,
}
use sfa_routing.Prelude.Int.{ℤ, pos, negsuc, ◌+ℤ◌, ◌-ℤ◌}

pub data AnonymizationLevel : Type 0 where
  none_level low medium high very_high : AnonymizationLevel

-- `10 ** (6 - PRECISION_MAP[level])`: the unit of rounding in micro-degrees.
pub rounding_unit : AnonymizationLevel → ℕ
rounding_unit none_level = 1
rounding_unit low = 1000
rounding_unit medium = 10000
rounding_unit high = 100000
rounding_unit very_high = 1000000

-- The integer next to a / b, and the even one of two.
pub round_half_even : ℕ → ℕ → ℕ
round_half_even a b =
    let q = a / b in
    let twice = 2 * (a % b) in if ltb twice b then q else if ltb b twice then q + 1 else q + q % 2

-- `round(sum / count, precision)`
pub round_mean : ℤ → ℕ → ℕ → ℤ
round_mean (pos a) count unit = pos (round_half_even a (count * unit) * unit)
round_mean (negsuc a) count unit = pos 0 -ℤ pos (round_half_even (suc a) (count * unit) * unit)

-- A point of a trajectory: latitude, longitude and time.
pub record Point : Type 0 where
  pub latitude : ℤ
  pub longitude : ℤ
  pub time : ℕ

abbrev pub Place : Type 0
Place = ℤ × ℤ

-- The mean of `count` places is their sum with their number.
pub record Mean : Type 0 where
  pub latitudes : ℤ
  pub longitudes : ℤ
  pub count : ℕ

pub round_place : Mean → AnonymizationLevel → Place
round_place m level = (
  round_mean m.latitudes m.count (rounding_unit level),
  round_mean m.longitudes m.count (rounding_unit level),
)

pub sum_latitudes : List Point → ℤ
sum_latitudes [] = pos 0
sum_latitudes (p ∷ ps) = p.latitude +ℤ sum_latitudes ps

pub sum_longitudes : List Point → ℤ
sum_longitudes [] = pos 0
sum_longitudes (p ∷ ps) = p.longitude +ℤ sum_longitudes ps

-- `sorted(points, key=lambda p: p[2])`
pub insert_point : Point → List Point → List Point
insert_point p [] = p ∷ []
insert_point p (q ∷ qs) =
    let rest = insert_point p qs in if leb p.time q.time then p ∷ q ∷ qs else q ∷ rest

pub sort_points : List Point → List Point
sort_points [] = []
sort_points (p ∷ ps) = insert_point p (sort_points ps)

abbrev pub time_of : Option Point → ℕ
time_of none = 0
time_of (some p) = p.time

abbrev pub middle : List Point → ℕ → Option Point
middle [] i = none
middle (p ∷ ps) zero = some p
middle (p ∷ ps) (suc i) = middle ps i

module _ (h3_centroid : Mean → Option Place) where
  -- `anonymize`, on a mean of places.
  pub anonymize : Mean → AnonymizationLevel → Place
  anonymize m very_high = elim (h3_centroid m) [ none ↦ round_place m high | some p ↦ p ]
  anonymize m level = round_place m level

  -- `_anonymize_window`
  pub anonymize_window : List Point → AnonymizationLevel → Point
  anonymize_window points level =
      let m : Mean = record {
        latitudes = sum_latitudes points;
        longitudes = sum_longitudes points;
        count = length points;
      } in
      let place = anonymize m level in
      record {
        latitude = place.0;
        longitude = place.1;
        time = time_of (middle points (length points / 2));
      }

  -- The loop, with the start and the points of the window.
  pub cloak : AnonymizationLevel → ℕ → ℕ → List Point → List Point → List Point
  cloak level seconds window_start window_points [] = anonymize_window window_points level ∷ []
  cloak level seconds window_start window_points (p ∷ ps) =
      let same = cloak level seconds window_start (window_points ++ p ∷ []) ps in
      let fresh = cloak level seconds p.time (p ∷ []) ps in
      if leb (p.time - window_start) seconds
      then same
      else anonymize_window window_points level ∷ fresh

  abbrev pub start_cloak : AnonymizationLevel → ℕ → List Point → List Point
  start_cloak level seconds [] = []
  start_cloak level seconds (p ∷ ps) = cloak level seconds p.time (p ∷ []) ps

  pub anonymize_trajectory : List Point → AnonymizationLevel → ℕ → List Point
  anonymize_trajectory points level temporal_window_minutes =
      start_cloak level (temporal_window_minutes * 60) (sort_points points)
