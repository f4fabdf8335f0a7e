-- ===== src/RateLimiter/Samples.antt =====
-- A limit of two requests a minute.
use sfa_routing.Prelude.{◌≡◌, refl, [], ◌∷◌}
use sfa_routing.RateLimiter.{remove_old, is_stamp, add_stamp, new_client, is_rate_limited, serve}

serve_runs : (serve 2 60 (10 ∷ 20 ∷ 25 ∷ 75 ∷ []) new_client).admitted ≡ 20 ∷ 10 ∷ []
unfolding serve is_rate_limited remove_old add_stamp is_stamp
serve_runs = refl
