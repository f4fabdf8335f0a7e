-- ===== src/RateLimiter/Middleware/Bounds.antt =====
-- How many requests of a caller the middleware lets through, for any order of the callers.
use sfa_routing.Prelude.{
  ℕ, ◌+◌, ◌≤◌, ◌<◌, ◌≡◌, Bool, true, false, ◌&&◌, not, Option, List, [], ◌∷◌, arith, if◌then◌else◌,
  inl, inr, Bool-cases, Option-cases, All, ap, map, ==_iff,
}
use sfa_routing.RateLimiter.{Client, new_client, is_rate_limited}
use sfa_routing.RateLimiter.Window.{
  recent, recent-cons, recent-nil, Increasing, last_time, IsLimited, IsLimited-mono,
  is_rate_limited-IsLimited, new_client-IsLimited,
}
use sfa_routing.RateLimiter.Middleware.{
  Request, Key, client, ip, same_key, client_id, limit_of, window, put, check_limit, Answer,
  answered, too_many, raised, Arrival, Server, refusal, answer_of, rate_limit_middleware,
}

abbrev pub Log : Type 0
Log = List (Arrival × Answer)

abbrev pub is_answered : Answer → Bool
is_answered (answered _ _) = true
is_answered (too_many _ _) = false
is_answered raised = false

-- The times of the requests of a caller that were let through, the latest first.
unfoldable pub let_through : Key → Log → List ℕ
let_through k [] = []
let_through k ((a, r) ∷ log) =
    let rest = let_through k log in
    if same_key (client_id a.request) k && is_answered r then a.now ∷ rest else rest

-- The times of the requests of a caller at which Redis did not answer.
pub outages : Key → Log → List ℕ
outages k [] = []
outages k ((a, r) ∷ log) =
    let rest = outages k log in
    if same_key (client_id a.request) k && not a.up then a.now ∷ rest else rest

same_key-eq : (j k : Key) → same_key j k ≡ true → j ≡ k
unfolding same_key
same_key-eq (client a) (client b) h = ap client ((==_iff a b).0 h)
same_key-eq (client a) (ip b) h = cc
same_key-eq (ip a) (client b) h = cc
same_key-eq (ip a) (ip b) h = ap ip ((==_iff a b).0 h)

same_key_refl : (k : Key) → same_key k k ≡ true
unfolding same_key
same_key_refl (client a) = ground arith
same_key_refl (ip a) = ground arith

module _ (limit now : ℕ) (c : Client) where
  admitted-full :
      (is_rate_limited limit window now c).1 ≡ true
      → (is_rate_limited limit window now c).0.admitted ≡ c.admitted
  unfolding is_rate_limited
  admitted-full full = rw full

  admitted-free :
      (is_rate_limited limit window now c).1 ≡ false
      → (is_rate_limited limit window now c).0.admitted ≡ now ∷ c.admitted
  unfolding is_rate_limited
  admitted-free free = rw free

recent-cons_more :
    (w t now : ℕ) (xs ys zs : List ℕ)
    → recent w t xs ≤ recent w t ys + recent w t zs
    → recent w t (now ∷ xs) ≤ recent w t ys + recent w t (now ∷ zs)
unfolding recent
recent-cons_more w t now xs ys zs h = omega arith

module _ {App : Type 0} (handler : Request → App → App × Option ℕ) (k : Key) (limit : ℕ) where
  record Counts (last : ℕ) (s : Server handler) (log : Log) : Type 0 where
    limited : IsLimited limit window last (s.buckets k)
    counted :
        (t : ℕ)
        → recent window t (let_through k log)
          ≤ recent window t (s.buckets k).admitted + recent window t (outages k log)

  module _ (a : Arrival) (last : ℕ) (s : Server handler) (log : Log) (later : last < a.now)
      (inv : Counts last s log) where
    abbrev after : Server handler
    after = (rate_limit_middleware handler a s).0

    abbrev longer : Log
    longer = (a, (rate_limit_middleware handler a s).1) ∷ log

    bucket_kept : same_key (client_id a.request) k ≡ false → after.buckets k ≡ s.buckets k
    unfolding rate_limit_middleware check_limit put
    bucket_kept other = elim (Bool-cases a.up) [ inl e ↦ rw (e, other) | inr e ↦ rw e ]

    bucket_unread : a.up ≡ false → after.buckets k ≡ s.buckets k
    unfolding rate_limit_middleware check_limit
    bucket_unread down = rw down

    bucket_checked :
        client_id a.request ≡ k
        → limit_of a.request ≡ limit
        → a.up ≡ true
        → after.buckets k ≡ (is_rate_limited limit window a.now (s.buckets k)).0
    unfolding rate_limit_middleware check_limit put
    bucket_checked key its up = rw (up, key, its, same_key_refl k)

    through_one :
        (t : ℕ)
        → recent window t (let_through k longer) ≤ recent window t (a.now ∷ let_through k log)
    unfolding let_through
    through_one t =
        elim (Bool-cases (same_key (client_id a.request) k && is_answered longer_answer)) [
          | inl e ↦ rw e (omega arith)
          | inr e ↦ rw e ((recent-cons window t a.now (let_through k log)).0)
        ]
      where
        longer_answer : Answer
        longer_answer = (rate_limit_middleware handler a s).1

    refused-is_answered :
        client_id a.request ≡ k
        → limit_of a.request ≡ limit
        → a.up ≡ true
        → (is_rate_limited limit window a.now (s.buckets k)).1 ≡ true
        → is_answered (rate_limit_middleware handler a s).1 ≡ false
    unfolding rate_limit_middleware check_limit answer_of refusal
    refused-is_answered key its up full = elim (Option-cases (handler a.request s.app).1) [
      | inl e ↦ rw (up, key, its, e)
      | inr (r, e) ↦ rw (up, key, its, e, full)
    ]

    through_none :
        is_answered (rate_limit_middleware handler a s).1 ≡ false
        → let_through k longer ≡ let_through k log
    unfolding let_through
    through_none e = ground arith

    outages_down :
        same_key (client_id a.request) k ≡ true
        → a.up ≡ false
        → outages k longer ≡ a.now ∷ outages k log
    unfolding outages
    outages_down same down = ground arith

    outages_up : a.up ≡ true → outages k longer ≡ outages k log
    unfolding outages
    outages_up up = ground arith

    other-Counts : same_key (client_id a.request) k ≡ false → Counts a.now after longer
    unfolding let_through outages
    other-Counts other = record {
      limited = rw (bucket_kept other) (IsLimited-mono a.now (omega arith) inv.limited);
      counted = λ t. rw (other, bucket_kept other) (inv.counted t);
    }

    outage-Counts :
        same_key (client_id a.request) k ≡ true → a.up ≡ false → Counts a.now after longer
    outage-Counts same down = record {
      limited = rw (bucket_unread down) (IsLimited-mono a.now (omega arith) inv.limited);
      counted = λ t.
          rw (bucket_unread down, outages_down same down)
            (let one = through_one t in
              let more =
                recent-cons_more window t a.now (let_through k log) (s.buckets k).admitted
                  (outages k log) (inv.counted t) in
              omega arith);
    }

    checked-Counts :
        client_id a.request ≡ k
        → limit_of a.request ≡ limit
        → a.up ≡ true
        → Counts a.now after longer
    checked-Counts key its up = record {
      limited =
          rw (bucket_checked key its up)
            (is_rate_limited-IsLimited limit window a.now last (s.buckets k) later inv.limited);
      counted = λ t.
          rw (bucket_checked key its up, outages_up up)
            (elim (Bool-cases (is_rate_limited limit window a.now (s.buckets k)).1) [
              | inl full ↦
                  rw
                    (
                      admitted-full limit a.now (s.buckets k) full,
                      through_none (refused-is_answered key its up full),
                    )
                    (inv.counted t)
              | inr free ↦ rw (admitted-free limit a.now (s.buckets k) free) (
                  let one = through_one t in
                  let more =
                    recent-cons_more window t a.now (let_through k log) (outages k log)
                      (s.buckets k).admitted (let old = inv.counted t in omega arith) in
                  omega arith)
            ]);
    }

    step-Counts :
        (same_key (client_id a.request) k ≡ true → limit_of a.request ≡ limit)
        → Counts a.now after longer
    step-Counts its = elim (Bool-cases (same_key (client_id a.request) k)) [
      | inr other ↦ other-Counts other
      | inl same ↦ elim (Bool-cases a.up) [
        | inl up ↦ checked-Counts (same_key-eq (client_id a.request) k same) (its same) up
        | inr down ↦ outage-Counts same down
      ]
    ]

  unfoldable pub serve_all : List Arrival → Server handler × Log → Server handler × Log
  serve_all [] s = s
  serve_all (a ∷ later) s =
      serve_all later
        (let (after, answer) = rate_limit_middleware handler a s.0 in (after, (a, answer) ∷ s.1))

  abbrev pub Limits : List Arrival → Type 0
  Limits =
      All (λ (a : Arrival). same_key (client_id a.request) k ≡ true → limit_of a.request ≡ limit)

  serve_all-Counts :
      (arrivals : List Arrival) (last : ℕ) (s : Server handler) (log : Log)
      → Increasing last (map (λ a. a.now) arrivals)
      → Limits arrivals
      → Counts last s log
      → let (after, whole) = serve_all arrivals (s, log) in
        Counts (last_time last (map (λ a. a.now) arrivals)) after whole
  unfolding serve_all
  serve_all-Counts [] last s log order its inv = inv
  serve_all-Counts (a ∷ rest) last s log order its inv =
      serve_all-Counts rest a.now (rate_limit_middleware handler a s).0
        ((a, (rate_limit_middleware handler a s).1) ∷ log) (order.1) (its.1)
        (step-Counts a last s log (order.0) inv (its.0))

  start-Counts : (app : App) → Counts 0 (record { buckets = λ j. new_client; app = app }) []
  unfolding let_through
  start-Counts app = record {
    limited = new_client-IsLimited limit window;
    counted = λ t. recent-nil window t (recent window t [] + recent window t (outages k []));
  }

  -- Requests of any callers arrive in any order, at increasing times, and pass through the middleware,
  -- which starts with empty buckets. Those of the caller `k` all carry the same limit. Then the number
  -- of the requests of `k` that the middleware lets through in a minute which ends at or after the last
  -- arrival is at most that limit and the number of its requests in that minute at which Redis did not
  -- answer, whatever the handler does.
  pub rate_limit_middleware_bounded :
      (app : App) (arrivals : List Arrival) (t : ℕ)
      → Increasing 0 (map (λ a. a.now) arrivals)
      → Limits arrivals
      → last_time 0 (map (λ a. a.now) arrivals) ≤ t
      → let log = (serve_all arrivals (record { buckets = λ j. new_client; app = app }, [])).1 in
        recent window t (let_through k log) ≤ limit + recent window t (outages k log)
  rate_limit_middleware_bounded app arrivals t order its h =
      let c =
        serve_all-Counts arrivals 0 (record { buckets = λ j. new_client; app = app }) [] order its
          (start-Counts app) in
      let few = c.limited.bounded t h in let many = c.counted t in omega arith
