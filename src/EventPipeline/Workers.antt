-- ===== src/EventPipeline/Workers.antt =====
-- The workers of `EventPipeline` in backend/app/services/realtime/event_pipeline.py: `start`, `stop`
-- and the two halves of a round, between which other workers and `submit` run. A task is idle or has
-- an event in work. A task that is cancelled in its work counts the event as processed, in `finally`.

pub mod Accounts
pub mod Samples
use sfa_routing.Prelude.{
  ℕ, zero, suc, ◌+◌, Bool, true, false, Option, none, some, List, [], ◌∷◌, ◌++◌, if◌then◌else◌,
  get_elem?, set, replicate,
}
use sfa_routing.EventPipeline.{
  RoutingEvent, Call, Handler, pick, Pipeline, new_pipeline, submit, process_event,
}

pub record Workers : Type 0 where
  pub pipeline : Pipeline
  pub running : Bool
  pub tasks : List (Option RoutingEvent)

abbrev pub new_workers : ℕ → Workers
new_workers size = record { pipeline = new_pipeline size; running = false; tasks = [] }

pub start : ℕ → Workers → Workers
start max_concurrent w =
    if w.running
    then w
    else record w { running = true; tasks = w.tasks ++ replicate max_concurrent none }

-- The events in work.
pub in_work : List (Option RoutingEvent) → ℕ
in_work [] = 0
in_work (none ∷ ts) = in_work ts
in_work (some e ∷ ts) = suc (in_work ts)

-- `told` is what the handlers of the cancelled tasks have sent.
pub stop : List ℕ → Workers → Workers
unfolding in_work
stop told w = record {
  pipeline = record w.pipeline {
    events_processed = w.pipeline.events_processed + in_work w.tasks;
    sent = w.pipeline.sent ++ told;
  };
  running = false;
  tasks = [];
}

pub submit_event : RoutingEvent → Workers → Workers
submit_event e w = record w { pipeline = (submit e w.pipeline).0 }

pub take_from : List RoutingEvent → ℕ → Workers → Workers
take_from [] i w = w
take_from (e ∷ es) i w =
    let (best, rest) = pick e es in
    record w { pipeline = record w.pipeline { queue = rest }; tasks = set w.tasks i (some best) }

-- `queue.get()` of the task `i`, if it is idle.
pub take_event : ℕ → Workers → Workers
unfolding take_from
take_event i w = elim (get_elem? w.tasks i) [
  | none ↦ w
  | some t ↦ elim t [ none ↦ take_from w.pipeline.queue i w | some e ↦ w ]
]

pub data Operation : Type 0 where
  starts : Operation
  stops : List ℕ → Operation
  submits : RoutingEvent → Operation
  takes finishes : ℕ → Operation

module _ (serves : Call → Bool) (fresh : RoutingEvent → ℕ × ℕ) (handlers : List Handler) where
  -- The task `i` works its event off.
  pub finish_event : ℕ → Workers → Workers
  finish_event i w = elim (get_elem? w.tasks i) [
    | none ↦ w
    | some t ↦ elim t [
      | none ↦ w
      | some e ↦ record w {
        pipeline = process_event serves fresh handlers e w.pipeline;
        tasks = set w.tasks i none;
      }
    ]
  ]

  pub step : ℕ → Operation → Workers → Workers
  unfolding start stop submit_event take_event finish_event
  step max_concurrent starts w = start max_concurrent w
  step max_concurrent (stops told) w = stop told w
  step max_concurrent (submits e) w = submit_event e w
  step max_concurrent (takes i) w = take_event i w
  step max_concurrent (finishes i) w = finish_event i w

  pub steps : ℕ → List Operation → Workers → Workers
  unfolding step
  steps max_concurrent [] w = w
  steps max_concurrent (o ∷ os) w = steps max_concurrent os (step max_concurrent o w)
