-- ===== src/Idempotency.antt =====
-- `IdempotencyMiddleware.dispatch` of backend/app/core/middleware/idempotency.py.
-- `call_next` is the parameter `handler`: what its k-th run answers, where `none` is an exception.
-- `cache` is the `CacheService` of backend/app/core/cache.py; `broken` says that a call of it raises.

pub mod Repeats
pub mod Samples
use mathlib.Core.Option
use sfa_routing.Prelude.{
  ℕ, zero, suc, ◌+◌, Bool, true, false, ◌&&◌, not, Option, none, some, List, [], ◌∷◌, ltb, leb,
  ◌==◌, if◌then◌else◌,
}

pub data Method : Type 0 where
  get head options post put patch delete : Method

pub is_mutating : Method → Bool
is_mutating get = false
is_mutating head = false
is_mutating options = false
is_mutating post = true
is_mutating put = true
is_mutating patch = true
is_mutating delete = true

-- The keys in the cache, and how often the handler has run.
pub record Server : Type 0 where
  pub stored : ℕ → Bool
  pub runs : ℕ

abbrev pub store : ℕ → Bool → (ℕ → Bool) → ℕ → Bool
store key b stored k = if k == key then b else stored k

-- The keyword for the time to live: `CacheService.set` has the parameter `ttl`, and any other keyword
-- is a TypeError (`none`). The middleware calls it with `expire`.
pub data Keyword : Type 0 where
  ttl expire : Keyword

pub cache_set : Keyword → ℕ → (ℕ → Bool) → Option (ℕ → Bool)
cache_set ttl key stored = some (store key true stored)
cache_set expire key stored = none

-- `none` is an exception that leaves the middleware.
abbrev pub Response : Type 0
Response = Option ℕ

abbrev pub conflict : ℕ
conflict = 409

module _ (handler : ℕ → Option ℕ) where
  pub call_next : Server → Server × Response
  call_next s = (record s { runs = s.runs + 1 }, handler s.runs)

  -- The body of the `try` from the mark on, and its `except`. An exception of the mark runs the
  -- handler, and one of the handler runs it once more.
  pub process : ℕ → Server → Server × Response
  unfolding call_next cache_set
  process key s = elim (cache_set expire key s.stored) [
    | none ↦ call_next s
    | some stored ↦
        let (after, response) = call_next (record s { stored = stored }) in
        elim response [
          | none ↦ call_next after
          | some status ↦ (
            (if leb 500 status
                then record after { stored = store key false after.stored }
                else after),
            some status,
          )
        ]
  ]

  -- `key` is the header, which counts as missing if it is empty.
  pub dispatch : Method → Option ℕ → Bool → Server → Server × Response
  unfolding call_next process
  dispatch method none broken s = call_next s
  dispatch method (some key) broken s =
      if not (is_mutating method)
      then call_next s
      else if broken
      then call_next s
      else if s.stored key
      then (s, some conflict)
      else process key s

  -- Requests one after the other, with their answers.
  pub dispatch_all : List (Method × Option ℕ × Bool) → Server → Server × List Response
  unfolding dispatch
  dispatch_all [] s = (s, [])
  dispatch_all ((method, key, broken) ∷ requests) s =
      let (after, response) = dispatch method key broken s in
      let (last, responses) = dispatch_all requests after in (last, response ∷ responses)
