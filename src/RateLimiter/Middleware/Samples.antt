-- ===== src/RateLimiter/Middleware/Samples.antt =====
-- A client with one request a minute beside an address without a key; the handler counts its runs.
use sfa_routing.Prelude.{
  ℕ, ◌+◌, ◌*◌, ◌≤◌, ◌≡◌, refl, Bool, true, false, Option, none, some, List, [], ◌∷◌, arith,
}
use sfa_routing.RateLimiter.{new_client, is_rate_limited, remove_old, add_stamp, is_stamp}
use sfa_routing.RateLimiter.Window.{recent}
use sfa_routing.RateLimiter.Middleware.{
  Request, client, ip, client_id, limit_of, second, window, Arrival, Server, same_key, put,
  rate_limit_middleware,
}
use sfa_routing.RateLimiter.Middleware.Bounds.{
  serve_all, let_through, outages, rate_limit_middleware_bounded,
}
use sfa_routing.RateLimiter.Middleware.Refusals.{run_all, serve_all-app}

abbrev counting : Request → ℕ → ℕ × Option ℕ
counting r n = (n + 1, some 200)

abbrev known : Request
known = record { api_client = some (record { id = 7; rate_limit_per_minute = 1 }); host = 4 }

abbrev stranger : Request
stranger = record { api_client = none; host = 4 }

-- A request at a second, whose handler takes ten seconds.
abbrev at : Request → ℕ → Bool → Arrival
at r n up = record { request = r; now = n * second; later = (n + 10) * second; up = up }

abbrev morning : List Arrival
morning = at known 1 true ∷ at stranger 2 true ∷ at known 3 true ∷ at known 4 false ∷ []

abbrev start : Server counting
start = record { buckets = λ j. new_client; app = 0 }

limits :
    (same_key (client 7) (client 7) ≡ true → limit_of known ≡ 1)
    × (same_key (ip 4) (client 7) ≡ true → limit_of stranger ≡ 1)
unfolding limit_of same_key
limits = (λ h. refl, λ h. cc)

rate_limit_middleware_bounded_example :
    let log = (serve_all counting (client 7) 1 morning (start, [])).1 in
    recent window (5 * second) (let_through (client 7) log)
    ≤ 1 + recent window (5 * second) (outages (client 7) log)
unfolding client_id
rate_limit_middleware_bounded_example =
    rate_limit_middleware_bounded counting (client 7) 1 0 morning (5 * second) (omega arith)
      (limits.0, (limits.1, (limits.0, (limits.0, tt)))) (omega arith)

-- The client's second request is refused, and the one while Redis fails passes.
morning_runs :
    let (server, log) = serve_all counting (client 7) 1 morning (start, []) in
    (let_through (client 7) log ≡ 4000000 ∷ 1000000 ∷ []) × (server.app ≡ 4)
unfolding serve_all let_through rate_limit_middleware is_rate_limited remove_old add_stamp is_stamp
    same_key put
morning_runs = (refl, refl)

-- All four requests have run, although one was refused.
serve_all-app_example :
    (serve_all counting (client 7) 1 morning (start, [])).0.app ≡ run_all counting morning 0
serve_all-app_example = serve_all-app counting (client 7) 1 morning start []
