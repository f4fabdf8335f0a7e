-- ===== src/RateLimiter/Middleware/Refusals.antt =====
-- Refused requests: the middleware beside the dependency, and the handler.
use sfa_routing.Prelude.{ℕ, ◌≡◌, refl, true, Option, none, some, List, [], ◌∷◌, arith, ◌↔◌}
use sfa_routing.RateLimiter.Middleware.{
  Request, Key, Arrival, Server, refusal, answer_of, rate_limit_middleware, rate_limit_check,
}
use sfa_routing.RateLimiter.Middleware.Bounds.{Log, is_answered, serve_all}

-- The application without the middleware: the handler on each request.
abbrev pub run_all : {App : Type 0} → (Request → App → App × Option ℕ) → List Arrival → App → App
run_all handler [] app = app
run_all handler (a ∷ arrivals) app = run_all handler arrivals (handler a.request app).0

module _ {App : Type 0} (handler : Request → App → App × Option ℕ) (k : Key) (limit : ℕ) where
  -- Whatever requests arrive and whatever their limits are, the middleware leaves the application in
  -- the state that the handler leaves when every one of the requests reaches it without a middleware:
  -- a refused request has run, too, and only its answer is another one.
  pub serve_all-app :
      (arrivals : List Arrival) (s : Server handler) (log : Log)
      → (serve_all handler k limit arrivals (s, log)).0.app ≡ run_all handler arrivals s.app
  unfolding serve_all rate_limit_middleware
  serve_all-app [] s log = refl
  serve_all-app (a ∷ arrivals) s log =
      serve_all-app arrivals (rate_limit_middleware handler a s).0
        ((a, (rate_limit_middleware handler a s).1) ∷ log)

module _ {App : Type 0} (handler : Request → App → App × Option ℕ) (a : Arrival)
    (s : Server handler) (response : ℕ) (app : App)
    (ran : handler a.request s.app ≡ (app, some response)) where
  -- The dependency with no limit of its own leaves the buckets that the middleware leaves, and lets
  -- through exactly the requests for which the middleware passes the answer of the handler on.
  pub rate_limit_check-rate_limit_middleware :
      let (after, answer) = rate_limit_middleware handler a s in
      let (buckets, refused) = rate_limit_check none a s.buckets in
      (buckets ≡ after.buckets) × ((refused ≡ none) ↔ (is_answered answer ≡ true))
  unfolding rate_limit_middleware rate_limit_check answer_of refusal
  rate_limit_check-rate_limit_middleware = rw ran (refl, ground arith)
