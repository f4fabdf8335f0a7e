-- ===== src/EventPipeline/Workers/Samples.antt =====
-- Two workers and three events, one of which is in work when the pipeline stops.
use sfa_routing.Prelude.{◌+◌, ℕ, ◌≡◌, refl, Bool, true, some, List, [], ◌∷◌}
use sfa_routing.EventPipeline.{
  RoutingEvent, order_urgent, gps_update, EventType, EventPriority, normal, high, Call, before,
  value, pick, submit, process_event, run_handlers, can_handle, handle, handle_order, order_call,
  submit_follow_up, all_handlers,
}
use sfa_routing.EventPipeline.Workers.{
  Workers, new_workers, Operation, starts, stops, submits, takes, finishes, steps,
}
use sfa_routing.EventPipeline.Workers.Accounts.{IsBalanced, AreUntied, submitted, steps-IsBalanced}

abbrev event : ℕ → EventType → EventPriority → RoutingEvent
event id t p = record {
  event_type = t;
  timestamp = 100 + id;
  event_id = id;
  priority = p;
  agent_id = some 9;
  order_id = some 4;
}

abbrev serves : Call → Bool
serves c = true

abbrev fresh : RoutingEvent → ℕ × ℕ
fresh e = (e.timestamp, e.event_id + 1)

abbrev day : List Operation
day =
    submits (event 1 gps_update normal)
    ∷ submits (event 2 order_urgent high)
    ∷ submits (event 3 gps_update normal)
    ∷ starts
    ∷ takes 0
    ∷ takes 1
    ∷ finishes 0
    ∷ stops []
    ∷ []

abbrev evening : Workers
evening = steps serves fresh all_handlers 2 day (new_workers 5)

untied : AreUntied (submitted day)
unfolding AreUntied before value
untied = ((refl, (refl, tt)), ((refl, tt), (tt, tt)))

steps-IsBalanced_example : IsBalanced 5 2 3 evening
steps-IsBalanced_example = steps-IsBalanced serves fresh all_handlers 5 2 day untied

-- The cancelled event counts as processed, and the third one stays in the queue.
day_runs :
    (evening.pipeline.events_processed ≡ 2)
    × (evening.pipeline.queue ≡ event 3 gps_update normal ∷ [])
    × (evening.pipeline.sent ≡ 9 ∷ [])
unfolding steps submit process_event run_handlers can_handle handle handle_order order_call
    submit_follow_up pick before value
day_runs = (refl, refl, refl)
