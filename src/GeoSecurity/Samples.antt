-- ===== src/GeoSecurity/Samples.antt =====
-- Inputs and tests of `LocationAnonymizer`.
use sfa_routing.Prelude.{ℕ, ◌*◌, ◌≡◌, refl, Option, none, List, [], ◌∷◌}
use sfa_routing.Prelude.Int.{pos, ◌+ℤ◌}
use sfa_routing.GeoSecurity.{
  medium, Point, Place, Mean, rounding_unit, round_half_even, round_mean, round_place,
  sum_latitudes, sum_longitudes, insert_point, sort_points, anonymize, anonymize_window, cloak,
  anonymize_trajectory,
}
use sfa_routing.GeoSecurity.Windows.{IsTrajectory, anonymize_trajectory-IsTrajectory}

abbrev no_h3 : Mean → Option Place
no_h3 m = none

abbrev point : ℕ → ℕ → ℕ → Point
point lat lon t = record { latitude = pos lat; longitude = pos lon; time = t }

-- The second point is the earliest; the last one is more than 15 minutes later.
abbrev walk : List Point
walk =
    point 41314159 69271828 1300 ∷ point 41312000 69270000 1000 ∷ point 41355000 69205000 2500 ∷ []

-- 41.3130795 rounds to 41.31 and 41.355 to the even 41.36.
walk_runs :
    anonymize_trajectory no_h3 walk medium 15
    ≡ point 41310000 69270000 1300 ∷ point 41360000 69200000 2500 ∷ []
unfolding anonymize_trajectory cloak anonymize_window anonymize round_place round_mean
    round_half_even rounding_unit sort_points insert_point sum_latitudes sum_longitudes ◌+ℤ◌
walk_runs = refl

anonymize_trajectory-IsTrajectory_example :
    IsTrajectory no_h3 medium (15 * 60) walk (anonymize_trajectory no_h3 walk medium 15)
anonymize_trajectory-IsTrajectory_example = anonymize_trajectory-IsTrajectory no_h3 walk medium 15
