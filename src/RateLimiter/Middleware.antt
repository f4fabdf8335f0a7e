-- ===== src/RateLimiter/Middleware.antt =====
-- `rate_limit_middleware` and `create_rate_limit_dependency` of backend/app/core/rate_limiter.py,
-- and `is_rate_limited` as they call it: one bucket for each caller, and a Redis that may fail.
-- Times are in microseconds. `call_next` is the parameter `handler`, where `none` is an exception.

pub mod Bounds
pub mod Refusals
pub mod Samples
use sfa_routing.Prelude.{
  ℕ, zero, suc, ◌+◌, ◌*◌, ◌/◌, Bool, true, false, Option, none, some, List, [], ◌∷◌, ◌==◌,
  if◌then◌else◌,
}
use sfa_routing.Prelude.Int.{ℤ, sub_ℕ}
use sfa_routing.RateLimiter.{Client, is_rate_limited}

pub record ApiClient : Type 0 where
  pub id : ℕ
  pub rate_limit_per_minute : ℕ

pub record Request : Type 0 where
  pub api_client : Option ApiClient
  pub host : ℕ

-- The text after `rate_limit:`; an address carries the prefix `ip:`, so it is no client's id.
pub data Key : Type 0 where
  client ip : ℕ → Key

pub same_key : Key → Key → Bool
same_key (client a) (client b) = a == b
same_key (client a) (ip b) = false
same_key (ip a) (client b) = false
same_key (ip a) (ip b) = a == b

pub client_id : Request → Key
client_id r = elim r.api_client [ none ↦ ip r.host | some c ↦ client c.id ]

abbrev pub default_limit : ℕ
default_limit = 10

pub limit_of : Request → ℕ
limit_of r = elim r.api_client [ none ↦ default_limit | some c ↦ c.rate_limit_per_minute ]

abbrev pub second : ℕ
second = 1000000

abbrev pub window : ℕ
window = 60000000

-- `limit` is missing where Redis did not answer.
pub record Info : Type 0 where
  pub limit : Option ℕ
  pub remaining : ℕ
  pub reset : ℕ

abbrev pub Buckets : Type 0
Buckets = Key → Client

pub put : Key → Client → Buckets → Buckets
put k c buckets j = if same_key k j then c else buckets j

-- `up` says whether Redis answers; the pipeline is executed as a whole or not at all.
pub check_limit : Bool → ℕ → ℕ → Key → Buckets → Buckets × Bool × Info
check_limit false limit now key buckets =
    (buckets, false, record { limit = none; remaining = limit; reset = 0 })
check_limit true limit now key buckets =
    let (c, limited, remaining) = is_rate_limited limit window now (buckets key) in
    (
      put key c buckets,
      limited,
      record { limit = some limit; remaining = remaining; reset = (now + window) / second },
    )

-- The three headers X-RateLimit.
pub record Headers : Type 0 where
  pub limit : ℕ
  pub remaining : ℕ
  pub reset : ℕ

abbrev pub or_else : Option ℕ → ℕ → ℕ
or_else none d = d
or_else (some n) d = n

pub headers_of : ℕ → Info → Headers
headers_of limit info = record {
  limit = or_else info.limit limit;
  remaining = info.remaining;
  reset = info.reset;
}

-- `too_many` is the exception with status 429: its `Retry-After` and its other headers.
pub data Answer : Type 0 where
  answered : ℕ → Headers → Answer
  too_many : ℤ → Headers → Answer
  raised : Answer

-- A request, the times at which the limiter and the exception read the clock, and Redis.
pub record Arrival : Type 0 where
  pub request : Request
  pub now : ℕ
  pub later : ℕ
  pub up : Bool

pub refusal : ℕ → ℕ → Info → Answer
refusal limit later info =
    too_many (sub_ℕ info.reset (later / second))
      (record { limit = limit; remaining = 0; reset = info.reset })

module _ {App : Type 0} (handler : Request → App → App × Option ℕ) where
  pub record Server : Type 0 where
    pub buckets : Buckets
    pub app : App

  pub answer_of : ℕ → ℕ → Bool → Info → Option ℕ → Answer
  unfolding headers_of refusal
  answer_of limit later limited info none = raised
  answer_of limit later limited info (some response) =
      if limited then refusal limit later info else answered response (headers_of limit info)

  pub rate_limit_middleware : Arrival → Server → Server × Answer
  unfolding client_id limit_of check_limit answer_of
  rate_limit_middleware a s =
      let limit = limit_of a.request in
      let (buckets, limited, info) = check_limit a.up limit a.now (client_id a.request) s.buckets in
      let (app, response) = handler a.request s.app in
      (record { buckets = buckets; app = app }, answer_of limit a.later limited info response)

-- `requests_per_minute or 10`, and the client's own limit where no limit is given.
pub dependency_limit : Option ℕ → Request → ℕ
unfolding limit_of
dependency_limit none r = limit_of r
dependency_limit (some n) r = if n == 0 then default_limit else n

-- `none` lets the request through, `some` is the exception with its `Retry-After`.
pub rate_limit_check : Option ℕ → Arrival → Buckets → Buckets × Option ℕ
unfolding client_id dependency_limit check_limit
rate_limit_check requests_per_minute a buckets =
    let limit = dependency_limit requests_per_minute a.request in
    let (after, limited, info) = check_limit a.up limit a.now (client_id a.request) buckets in
    (after, if limited then some 60 else none)
