-- ===== src/EventPipeline/Workers/Accounts.antt =====
-- Where the submitted events are, whatever the workers do.
use sfa_routing.Prelude.{
  ℕ, zero, suc, ◌+◌, ◌≤◌, ◌<◌, ◌≡◌, refl, ap, ◌∙◌, Bool, true, Option, none, some, List, [], ◌∷◌,
  ◌++◌, arith, subst, All, ◌||◌, if◌then◌else◌, get_elem?, set, replicate, length, length-append,
  length-replicate, length-set, inl, inr, Bool-cases, Option-cases,
}
use sfa_routing.EventPipeline.{
  RoutingEvent, Call, Handler, before, pick, is_full, submit, process_event,
}
use sfa_routing.EventPipeline.Queue.{length-pick}
use sfa_routing.EventPipeline.Runs.{room_within, run_handlers-IsSameQueue}
use sfa_routing.EventPipeline.Workers.{
  Workers, new_workers, start, in_work, stop, submit_event, take_from, take_event, finish_event,
  Operation, starts, stops, submits, takes, finishes, step, steps,
}

in_work-append : (xs ys : List (Option RoutingEvent)) → in_work (xs ++ ys) ≡ in_work xs + in_work ys
unfolding in_work
in_work-append [] ys = omega arith
in_work-append (none ∷ xs) ys = in_work-append xs ys
in_work-append (some e ∷ xs) ys = omega (arith, in_work-append xs ys)

in_work-replicate : (n : ℕ) → in_work (replicate n none) ≡ 0
unfolding in_work
in_work-replicate zero = refl
in_work-replicate (suc n) = in_work-replicate n

in_work-take :
    (ts : List (Option RoutingEvent)) (i : ℕ) (e : RoutingEvent)
    → get_elem? ts i ≡ some none
    → in_work (set ts i (some e)) ≡ suc (in_work ts)
unfolding in_work
in_work-take [] i e h = cc
in_work-take (none ∷ ts) zero e h = refl
in_work-take (some f ∷ ts) zero e h = cc
in_work-take (none ∷ ts) (suc i) e h = in_work-take ts i e h
in_work-take (some f ∷ ts) (suc i) e h = omega (arith, in_work-take ts i e h)

in_work-finish :
    (ts : List (Option RoutingEvent)) (i : ℕ) (e : RoutingEvent)
    → get_elem? ts i ≡ some (some e)
    → suc (in_work (set ts i none)) ≡ in_work ts
unfolding in_work
in_work-finish [] i e h = cc
in_work-finish (none ∷ ts) zero e h = cc
in_work-finish (some f ∷ ts) zero e h = refl
in_work-finish (none ∷ ts) (suc i) e h = in_work-finish ts i e h
in_work-finish (some f ∷ ts) (suc i) e h = omega (arith, in_work-finish ts i e h)

-- With how many submissions there were.
pub record IsBalanced (size max_concurrent submissions : ℕ) (w : Workers) : Type 0 where
  pub bound : w.pipeline.max_queue_size ≡ size
  pub within : 0 < size → length w.pipeline.queue ≤ size
  pub conserved :
      submissions
      ≡ length w.pipeline.queue
        + in_work w.tasks
        + w.pipeline.events_processed
        + w.pipeline.events_dropped
  pub tasks : length w.tasks ≡ (if w.running then max_concurrent else 0)

module _ (size max_concurrent k : ℕ) (w : Workers) (h : IsBalanced size max_concurrent k w) where
  start-IsBalanced : IsBalanced size max_concurrent k (start max_concurrent w)
  unfolding start
  start-IsBalanced = elim (Bool-cases w.running) [
    | inl on ↦ simp on h
    | inr off ↦
        let empty : length w.tasks ≡ 0 = h.tasks ∙ ap (λ b. if b then max_concurrent else 0) off in
        let more = in_work-append w.tasks (replicate max_concurrent none) in
        let idle = in_work-replicate max_concurrent in
        let longer = length-append {0} w.tasks (replicate max_concurrent none) in
        let new = length-replicate {0} {A = Option RoutingEvent} max_concurrent none in
        simp off (record {
          bound = h.bound;
          within = h.within;
          conserved = omega (arith, h.conserved);
          tasks = omega arith;
        })
  ]

  stop-IsBalanced : (told : List ℕ) → IsBalanced size max_concurrent k (stop told w)
  unfolding stop in_work
  stop-IsBalanced told = record {
    bound = h.bound;
    within = h.within;
    conserved = omega (arith, h.conserved);
    tasks = refl;
  }

  submit_event-IsBalanced :
      (e : RoutingEvent) → IsBalanced size max_concurrent (suc k) (submit_event e w)
  unfolding submit_event submit
  submit_event-IsBalanced e = elim (Bool-cases (is_full w.pipeline)) [
    | inl full ↦ rw full (record {
      bound = h.bound;
      within = h.within;
      conserved = omega (arith, h.conserved);
      tasks = h.tasks;
    })
    | inr room ↦
        let longer = length-append {0} w.pipeline.queue (e ∷ []) in
        rw room (record {
          bound = h.bound;
          within = λ positive.
              let left = room_within w.pipeline size h.bound room positive in omega arith;
          conserved = omega (arith, h.conserved);
          tasks = h.tasks;
        })
  ]

  take_from-IsBalanced :
      (queue : List RoutingEvent) (i : ℕ)
      → w.pipeline.queue ≡ queue
      → get_elem? w.tasks i ≡ some none
      → IsBalanced size max_concurrent k (take_from queue i w)
  unfolding take_from
  take_from-IsBalanced [] i e idle = h
  take_from-IsBalanced (x ∷ xs) i e idle =
      let (best, rest) = pick x xs in
      let long = ap (length {A = RoutingEvent}) e in
      let shorter = length-pick x xs in
      let one = in_work-take w.tasks i best idle in
      record {
        bound = h.bound;
        within = λ positive. (let old = h.within positive in omega arith);
        conserved = omega (arith, h.conserved);
        tasks = length-set w.tasks i (some best) ∙ h.tasks;
      }

  take_event-IsBalanced : (i : ℕ) → IsBalanced size max_concurrent k (take_event i w)
  unfolding take_event
  take_event-IsBalanced i = elim (Option-cases (get_elem? w.tasks i)) [
    | inl outside ↦ rw (outside, take_event) h
    | inr (t, there) ↦ elim (Option-cases t) [
      | inl idle ↦
          let it = there ∙ ap some idle in
          rw (it, take_event) (take_from-IsBalanced w.pipeline.queue i refl it)
      | inr (e, busy) ↦ let it = there ∙ ap some busy in rw (it, take_event) h
    ]
  ]

  finish_event-IsBalanced :
      (serves : Call → Bool) (fresh : RoutingEvent → ℕ × ℕ) (handlers : List Handler) (i : ℕ)
      → IsBalanced size max_concurrent k (finish_event serves fresh handlers i w)
  unfolding finish_event process_event
  finish_event-IsBalanced serves fresh handlers i = elim (Option-cases (get_elem? w.tasks i)) [
    | inl outside ↦ rw (outside, finish_event) h
    | inr (t, there) ↦ elim (Option-cases t) [
      | inl idle ↦ let it = there ∙ ap some idle in rw (it, finish_event) h
      | inr (e, busy) ↦
          let it = there ∙ ap some busy in
          let same = run_handlers-IsSameQueue serves fresh handlers e w.pipeline in
          let one = in_work-finish w.tasks i e it in
          let queue = ap (length {A = RoutingEvent}) same.queue in
          rw (it, finish_event)
            (record {
              bound = same.size ∙ h.bound;
              within = λ positive. (let old = h.within positive in omega arith);
              conserved = omega (arith, h.conserved, same.processed, same.dropped);
              tasks = length-set w.tasks i none ∙ h.tasks;
            })
    ]
  ]

abbrev pub submissions : List Operation → ℕ
submissions [] = 0
submissions (submits e ∷ os) = suc (submissions os)
submissions (starts ∷ os) = submissions os
submissions (stops told ∷ os) = submissions os
submissions (takes i ∷ os) = submissions os
submissions (finishes i ∷ os) = submissions os

abbrev pub submitted : List Operation → List RoutingEvent
submitted [] = []
submitted (submits e ∷ os) = e ∷ submitted os
submitted (starts ∷ os) = submitted os
submitted (stops told ∷ os) = submitted os
submitted (takes i ∷ os) = submitted os
submitted (finishes i ∷ os) = submitted os

-- No two events have the same priority and the same time, so that one of any two is before the other
-- and the queue never has to compare the events themselves, which is a TypeError.
unfoldable pub AreUntied : List RoutingEvent → Type 0
AreUntied [] = Unit {0}
AreUntied (e ∷ es) = All (λ (f : RoutingEvent). (before e f || before f e) ≡ true) es × AreUntied es

module _ (serves : Call → Bool) (fresh : RoutingEvent → ℕ × ℕ) (handlers : List Handler)
    (size max_concurrent : ℕ) where
  abbrev Balanced : ℕ → Workers → Type 0
  Balanced k w = IsBalanced size max_concurrent k w

  steps-Balanced :
      (os : List Operation) (k : ℕ) (w : Workers)
      → Balanced k w
      → Balanced (k + submissions os) (steps serves fresh handlers max_concurrent os w)
  unfolding steps step
  steps-Balanced [] k w h =
      let same : k ≡ k + submissions [] = omega arith in subst (λ n. Balanced n w) same h
  steps-Balanced (starts ∷ os) k w h =
      steps-Balanced os k (start max_concurrent w) (start-IsBalanced size max_concurrent k w h)
  steps-Balanced (stops told ∷ os) k w h =
      steps-Balanced os k (stop told w) (stop-IsBalanced size max_concurrent k w h told)
  steps-Balanced (submits e ∷ os) k w h =
      let e' : k + suc (submissions os) ≡ suc k + submissions os = omega arith in
      rw e' (
        steps-Balanced os (suc k) (submit_event e w)
          (submit_event-IsBalanced size max_concurrent k w h e))
  steps-Balanced (takes i ∷ os) k w h =
      steps-Balanced os k (take_event i w) (take_event-IsBalanced size max_concurrent k w h i)
  steps-Balanced (finishes i ∷ os) k w h =
      steps-Balanced os k (finish_event serves fresh handlers i w)
        (finish_event-IsBalanced size max_concurrent k w h serves fresh handlers i)

  -- If no two submitted events have the same priority and the same time, then
  -- whatever the order of starting, stopping, submitting and of the halves of the workers' rounds is:
  -- the submissions are those in the queue, in work, processed and dropped together; a queue with a
  -- bound above zero keeps to it; and there are as many tasks as configured while the pipeline runs,
  -- and none otherwise.
  pub steps-IsBalanced :
      (os : List Operation)
      → AreUntied (submitted os)
      → IsBalanced size max_concurrent
          (submissions os)
          (steps serves fresh handlers max_concurrent os (new_workers size))
  unfolding in_work
  steps-IsBalanced os untied =
      let same : 0 + submissions os ≡ submissions os = omega arith in
      subst (λ n. Balanced n (steps serves fresh handlers max_concurrent os (new_workers size)))
        same
        (steps-Balanced os 0 (new_workers size) (record {
          bound = refl;
          within = λ positive. omega arith;
          conserved = refl;
          tasks = refl;
        }))
