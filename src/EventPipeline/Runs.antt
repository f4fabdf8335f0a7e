-- ===== src/EventPipeline/Runs.antt =====
-- Sequences of submissions to the event pipeline and of steps of its workers.
use sfa_routing.Prelude.{
  ◌⊎◌, ℕ, suc, ◌+◌, ◌≤◌, ◌<◌, ◌≡◌, refl, ap, ◌∙◌, Bool, false, none, List, [], ◌∷◌, ◌++◌, arith,
  inl, inr, Bool-cases, length, length-append, Option-cases,
}
use sfa_routing.EventPipeline.{
  RoutingEvent, Call, Handler, gps_deviation_handler, traffic_handler, order_change_handler,
  can_handle, order_call, Handled, raised, done, pick, Pipeline, new_pipeline, is_full, submit,
  handle_gps, handle_traffic, handle_order, handle, submit_follow_up, run_handlers, process_event,
  work,
}
use sfa_routing.EventPipeline.Queue.{length-pick}

-- No handler gives a follow-up event, since no deviation is calculated and no agent is found.
abbrev IsQuiet : Handled → Type 0
IsQuiet (raised told) = Unit {0}
IsQuiet (done told next) = next ≡ none

pub room_within :
    (p : Pipeline) (size : ℕ)
    → p.max_queue_size ≡ size
    → is_full p ≡ false
    → 0 < size
    → length p.queue + 1 ≤ size
room_within p size bound room positive = ground arith

module _ (serves : Call → Bool) (fresh : RoutingEvent → ℕ × ℕ) where
  handle-IsQuiet : (h : Handler) (e : RoutingEvent) → IsQuiet (handle serves fresh h e)
  unfolding handle handle_gps handle_traffic handle_order
  handle-IsQuiet gps_deviation_handler e = elim (Option-cases e.agent_id) [
    | inl nobody ↦ rw (nobody, handle_gps) refl
    | inr (agent, q) ↦ rw (q, handle_gps) refl
  ]
  handle-IsQuiet traffic_handler e = refl
  handle-IsQuiet order_change_handler e = elim (Option-cases e.agent_id) [
    | inl nobody ↦ rw (nobody, handle_order) refl
    | inr (agent, q) ↦ elim (Option-cases (order_call e.event_type agent)) [
      | inl nothing ↦ rw (q, nothing, handle_order) refl
      | inr (call, c) ↦ elim (Bool-cases (serves call)) [
        | inl answers ↦ rw (q, c, answers, handle_order) refl
        | inr fails ↦ rw (q, c, fails, handle_order) tt
      ]
    ]
  ]

  -- The handlers change nothing but what is sent.
  pub record IsSameQueue (p q : Pipeline) : Type 0 where
    pub queue : q.queue ≡ p.queue
    pub size : q.max_queue_size ≡ p.max_queue_size
    pub processed : q.events_processed ≡ p.events_processed
    pub dropped : q.events_dropped ≡ p.events_dropped

  Handled-cases :
      (h : Handler) (e : RoutingEvent)
      → ((told : List ℕ) × (handle serves fresh h e ≡ raised told))
        ⊎ ((told : List ℕ) × (handle serves fresh h e ≡ done told none))
  Handled-cases h e = cases (handle serves fresh h e) (handle-IsQuiet h e)
    where
      cases :
          (r : Handled)
          → IsQuiet r
          → ((told : List ℕ) × (r ≡ raised told)) ⊎ ((told : List ℕ) × (r ≡ done told none))
      cases (raised told) q = inl (told, refl)
      cases (done told next) q = inr (told, ap (done told) q)

  pub run_handlers-IsSameQueue :
      (hs : List Handler) (e : RoutingEvent) (p : Pipeline)
      → IsSameQueue p (run_handlers serves fresh hs e p)
  unfolding run_handlers submit_follow_up
  run_handlers-IsSameQueue [] e p = record {
    queue = refl;
    size = refl;
    processed = refl;
    dropped = refl;
  }
  run_handlers-IsSameQueue (h ∷ hs) e p = elim (Bool-cases (can_handle h e.event_type)) [
    | inr other ↦ rw (other, run_handlers) (run_handlers-IsSameQueue hs e p)
    | inl its ↦ elim (Handled-cases h e) [
      | inl (told, q) ↦
          rw (its, q, run_handlers)
            (record { queue = refl; size = refl; processed = refl; dropped = refl })
      | inr (told, q) ↦
          let rest = run_handlers-IsSameQueue hs e (record p { sent = p.sent ++ told }) in
          rw (its, q, run_handlers)
            (record {
              queue = rest.queue;
              size = rest.size;
              processed = rest.processed;
              dropped = rest.dropped;
            })
    ]
  ]

  -- The states that are reached from an empty pipeline, with the number of submissions.
  pub data Run (handlers : List Handler) (size : ℕ) : ℕ → Pipeline → Type 0 where
    started : {n : ℕ} {p : Pipeline} → n ≡ 0 → p ≡ new_pipeline size → Run handlers size n p
    submitted :
        {n k : ℕ} {p q : Pipeline} (e : RoutingEvent)
        → Run handlers size k p
        → n ≡ suc k
        → q ≡ (submit e p).0
        → Run handlers size n q
    worked :
        {n : ℕ} {p q : Pipeline}
        → Run handlers size n p
        → q ≡ work serves fresh handlers p
        → Run handlers size n q

  -- Every submitted event is in the queue, was processed, or was dropped because the queue was
  -- full; a bounded queue keeps to its bound.
  pub record IsAccounted (size submissions : ℕ) (p : Pipeline) : Type 0 where
    pub bound : p.max_queue_size ≡ size
    pub within : 0 < size → length p.queue ≤ size
    pub conserved : submissions ≡ length p.queue + p.events_processed + p.events_dropped

  submit-IsAccounted :
      (size k : ℕ) (e : RoutingEvent) (p : Pipeline)
      → IsAccounted size k p
      → IsAccounted size (suc k) (submit e p).0
  unfolding submit
  submit-IsAccounted size k e p h = elim (Bool-cases (is_full p)) [
    | inl full ↦
        rw full
          (record { bound = h.bound; within = h.within; conserved = omega (arith, h.conserved) })
    | inr room ↦
        let longer = length-append {0} p.queue (e ∷ []) in
        let limit = h.bound in
        rw room (record {
          bound = h.bound;
          within =
              λ positive. (let room_left = room_within p size limit room positive in omega arith);
          conserved = omega (arith, h.conserved);
        })
  ]

  work-IsAccounted :
      (handlers : List Handler) (size k : ℕ) (p : Pipeline) (queue : List RoutingEvent)
      → p.queue ≡ queue
      → IsAccounted size k p
      → IsAccounted size k (work serves fresh handlers p)
  unfolding work process_event
  work-IsAccounted handlers size k p [] e h = rw (e, work) h
  work-IsAccounted handlers size k p (x ∷ xs) e h =
      let (best, rest) = pick x xs in
      let same = run_handlers-IsSameQueue handlers best (record p { queue = rest }) in
      let shorter = length-pick x xs in
      let long = ap (length {A = RoutingEvent}) e in
      rw (e, work)
        (record {
          bound = same.size ∙ h.bound;
          within = λ positive.
              let old = h.within positive in
              let new = ap (length {A = RoutingEvent}) (same.queue) in omega arith;
          conserved =
              let all = h.conserved in
              let new = ap (length {A = RoutingEvent}) (same.queue) in
              let processed = same.processed in let dropped = same.dropped in omega arith;
        })

  pub Run-IsAccounted :
      (handlers : List Handler) (size : ℕ) {n : ℕ} {p : Pipeline}
      → Run handlers size n p
      → IsAccounted size n p
  Run-IsAccounted handlers size (started e q) =
      rw (e, q) (record { bound = refl; within = λ k. omega arith; conserved = omega arith })
  Run-IsAccounted handlers size (submitted {k = k} {p = p} event r e q) =
      rw (e, q) (submit-IsAccounted size k event p (Run-IsAccounted handlers size r))
  Run-IsAccounted handlers size (worked {n = n} {p = p} r q) =
      rw q (work-IsAccounted handlers size n p p.queue refl (Run-IsAccounted handlers size r))
