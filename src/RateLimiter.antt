-- ===== src/RateLimiter.antt =====
-- `RateLimiter.is_rate_limited` of backend/app/core/rate_limiter.py for one client whose Redis
-- answers. The sorted set of the client is the list of its timestamps. Times are in microseconds.
-- `admitted` is not in the code: it records the requests that were let through.

pub mod Window
pub mod Middleware
pub mod Samples
use sfa_routing.Prelude.{
  ℕ, zero, suc, ◌+◌, ◌-◌, Bool, true, false, List, [], ◌∷◌, ◌++◌, ltb, leb, ◌==◌, if◌then◌else◌,
  length,
}

-- `zremrangebyscore(key, 0, now - window)`
pub remove_old : ℕ → ℕ → List ℕ → List ℕ
remove_old window now [] = []
remove_old window now (s ∷ ss) =
    let rest = remove_old window now ss in if ltb now (s + window) then s ∷ rest else rest

pub is_stamp : ℕ → List ℕ → Bool
is_stamp now [] = false
is_stamp now (s ∷ ss) = if s == now then true else is_stamp now ss

-- `zadd(key, {str(now): now})`: a member that is there already stays one.
pub add_stamp : ℕ → List ℕ → List ℕ
unfolding is_stamp
add_stamp now ss = if is_stamp now ss then ss else now ∷ ss

pub record Client : Type 0 where
  pub stamps : List ℕ
  pub admitted : List ℕ

abbrev pub new_client : Client
new_client = record { stamps = []; admitted = [] }

-- The new state, whether the request is limited, and the `remaining` of the answer.
pub is_rate_limited : ℕ → ℕ → ℕ → Client → Client × Bool × ℕ
is_rate_limited limit window now c =
    let kept = remove_old window now c.stamps in
    let limited = leb limit (length kept) in
    (
      record {
        stamps = add_stamp now kept;
        admitted = if limited then c.admitted else now ∷ c.admitted;
      },
      limited,
      limit - length kept - 1,
    )

-- The requests of a client, one after the other.
pub serve : ℕ → ℕ → List ℕ → Client → Client
serve limit window [] c = c
serve limit window (now ∷ later) c = serve limit window later (is_rate_limited limit window now c).0
