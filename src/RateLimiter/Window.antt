-- ===== src/RateLimiter/Window.antt =====
-- The requests of one client in a window of time.
use sfa_routing.Prelude.{
  ℕ, ◌+◌, ◌≤◌, ◌<◌, ◌≡◌, refl, true, false, List, [], ◌∷◌, arith, ltb, leb, if◌then◌else◌, length,
  inl, inr, Bool-cases, All,
}
use sfa_routing.RateLimiter.{
  remove_old, is_stamp, add_stamp, Client, new_client, is_rate_limited, serve,
}

-- The times in the window that ends at `t`.
unfoldable pub recent : ℕ → ℕ → List ℕ → ℕ
recent window t [] = 0
recent window t (s ∷ ss) = (if ltb t (s + window) then 1 else 0) + recent window t ss

abbrev pub Increasing : ℕ → List ℕ → Type 0
Increasing last [] = Unit {0}
Increasing last (now ∷ later) = (last < now) × Increasing now later

abbrev pub last_time : ℕ → List ℕ → ℕ
last_time last [] = last
last_time last (now ∷ later) = last_time now later

pub length-remove_old :
    (window now : ℕ) (ss : List ℕ) → length (remove_old window now ss) ≡ recent window now ss
unfolding remove_old recent
length-remove_old window now [] = refl
length-remove_old window now (s ∷ ss) = ground (arith, length-remove_old window now ss)

-- What is old at `now` is old later.
recent-remove_old :
    (window now t : ℕ) (ss : List ℕ)
    → now ≤ t
    → recent window t (remove_old window now ss) ≡ recent window t ss
unfolding remove_old recent
recent-remove_old window now t [] h = refl
recent-remove_old window now t (s ∷ ss) h = ground (arith, recent-remove_old window now t ss h)

recent_mono : (window now t : ℕ) (ss : List ℕ) → now ≤ t → recent window t ss ≤ recent window now ss
unfolding recent
recent_mono window now t [] h = omega arith
recent_mono window now t (s ∷ ss) h = ground (arith, recent_mono window now t ss h)

pub recent-nil : (window t n : ℕ) → recent window t [] ≤ n
unfolding recent
recent-nil window t n = omega arith

-- All stamps are before `last`.
abbrev pub Before : ℕ → List ℕ → Type 0
Before last ss = All (λ s. s ≤ last) ss

new-is_stamp : (now : ℕ) (ss : List ℕ) → All (λ s. s < now) ss → is_stamp now ss ≡ false
unfolding is_stamp
new-is_stamp now [] h = refl
new-is_stamp now (s ∷ ss) h = ground (arith, new-is_stamp now ss (h.1))

pub record IsLimited (limit window last : ℕ) (c : Client) : Type 0 where
  pub bounded : (t : ℕ) → last ≤ t → recent window t c.admitted ≤ limit
  pub stamped : (t : ℕ) → last ≤ t → recent window t c.admitted ≤ recent window t c.stamps
  pub before : Before last c.stamps

remove_old-Before :
    (window now last : ℕ) (ss : List ℕ)
    → last < now
    → Before last ss
    → All (λ s. s < now) (remove_old window now ss)
unfolding remove_old
remove_old-Before window now last [] h b = tt
remove_old-Before window now last (s ∷ ss) h b = elim (Bool-cases (ltb now (s + window))) [
  | inl young ↦ rw young (omega arith, remove_old-Before window now last ss h (b.1))
  | inr old ↦ rw old (remove_old-Before window now last ss h (b.1))
]

below-Before : (now : ℕ) (ss : List ℕ) → All (λ s. s < now) ss → Before now ss
below-Before now [] h = tt
below-Before now (s ∷ ss) h = (omega arith, below-Before now ss (h.1))

pub recent-cons :
    (window t now : ℕ) (ss : List ℕ)
    → (recent window t ss ≤ recent window t (now ∷ ss))
      × (recent window t (now ∷ ss) ≤ 1 + recent window t ss)
unfolding recent
recent-cons window t now ss = ground arith

pub recent-cons_le :
    (window t now : ℕ) (xs ys : List ℕ)
    → recent window t xs ≤ recent window t ys
    → recent window t (now ∷ xs) ≤ recent window t (now ∷ ys)
unfolding recent
recent-cons_le window t now xs ys h = omega arith

Before_mono : (last now : ℕ) (ss : List ℕ) → last ≤ now → Before last ss → Before now ss
Before_mono last now [] h b = tt
Before_mono last now (s ∷ ss) h b = (omega arith, Before_mono last now ss h (b.1))

-- The invariant stays while a client is idle.
pub IsLimited-mono :
    {limit window last : ℕ} (now : ℕ) {c : Client}
    → last ≤ now
    → IsLimited limit window last c
    → IsLimited limit window now c
IsLimited-mono {last} now {c} h inv = record {
  bounded = λ t k. inv.bounded t (omega arith);
  stamped = λ t k. inv.stamped t (omega arith);
  before = Before_mono last now c.stamps h inv.before;
}

module _ (limit window : ℕ) where
  pub is_rate_limited-IsLimited :
      (now last : ℕ) (c : Client)
      → last < now
      → IsLimited limit window last c
      → IsLimited limit window now (is_rate_limited limit window now c).0
  unfolding is_rate_limited add_stamp
  is_rate_limited-IsLimited now last c h inv = elim (Bool-cases (leb limit (length kept))) [
    | inl full ↦
        rw (full, fresh)
          (record {
            bounded = λ t k. inv.bounded t (omega arith);
            stamped = λ t k.
                let a = inv.stamped t (omega arith) in
                let b = recent-remove_old window now t c.stamps k in
                let d = (recent-cons window t now kept).0 in omega arith;
            before = (omega arith, below-Before now kept young);
          })
    | inr free ↦
        rw (free, fresh)
          (record {
            bounded = λ t k.
                let room : length kept < limit = ground arith in
                let a = inv.stamped t (omega arith) in
                let b = recent_mono window now t c.stamps k in
                let size = length-remove_old window now c.stamps in
                let d = (recent-cons window t now c.admitted).1 in omega arith;
            stamped = λ t k.
                let a = inv.stamped t (omega arith) in
                let b = recent-remove_old window now t c.stamps k in
                recent-cons_le window t now c.admitted kept (omega arith);
            before = (omega arith, below-Before now kept young);
          })
  ]
    where
      kept : List ℕ
      kept = remove_old window now c.stamps

      young : All (λ s. s < now) kept
      young = remove_old-Before window now last c.stamps h inv.before

      fresh : is_stamp now kept ≡ false
      fresh = new-is_stamp now kept young

  serve-IsLimited :
      (times : List ℕ) (last : ℕ) (c : Client)
      → Increasing last times
      → IsLimited limit window last c
      → IsLimited limit window (last_time last times) (serve limit window times c)
  unfolding serve
  serve-IsLimited [] last c h inv = inv
  serve-IsLimited (now ∷ later) last c h inv =
      serve-IsLimited later now (is_rate_limited limit window now c).0 (h.1)
        (is_rate_limited-IsLimited now last c (h.0) inv)

  pub new_client-IsLimited : IsLimited limit window 0 new_client
  new_client-IsLimited = record {
    bounded = λ t k. recent-nil window t limit;
    stamped = λ t k. recent-nil window t (recent window t []);
    before = tt;
  }

  -- For requests of one client at increasing times, the number of those that were let through in a
  -- window which ends at or after the last request is at most the limit.
  pub serve_bounded :
      (times : List ℕ) (t : ℕ)
      → Increasing 0 times
      → last_time 0 times ≤ t
      → recent window t (serve limit window times new_client).admitted ≤ limit
  serve_bounded times t h k =
      (serve-IsLimited times 0 new_client h new_client-IsLimited).bounded t k

-- A request that is refused counts against the client all the same: the time of every request is
-- stamped, and while the stamps of a full window are young no request is let through.
pub refused_counts :
    (limit window now : ℕ) (c : Client)
    → limit ≤ recent window now c.stamps
    → is_stamp now (remove_old window now c.stamps) ≡ false
    → ((is_rate_limited limit window now c).1 ≡ true)
      × ((is_rate_limited limit window now c).0.admitted ≡ c.admitted)
      × ((is_rate_limited limit window now c).0.stamps ≡ now ∷ remove_old window now c.stamps)
unfolding is_rate_limited add_stamp
refused_counts limit window now c h fresh =
    let full : leb limit (length (remove_old window now c.stamps)) ≡ true =
      ground (arith, length-remove_old window now c.stamps) in
    rw (full, fresh) (refl, refl, refl)
