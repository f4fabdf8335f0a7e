-- ===== src/EventPipeline/Samples.antt =====
-- A pipeline with room for two events.
use sfa_routing.Prelude.{◌+◌, ℕ, ◌≡◌, refl, Bool, true, some, [], ◌∷◌}
use sfa_routing.EventPipeline.{
  RoutingEvent, EventType, EventPriority, order_urgent, gps_update, normal, high, Call, before,
  value, pick, Pipeline, new_pipeline, submit, work, process_event, run_handlers, can_handle,
  handle, handle_order, order_call, submit_follow_up, all_handlers,
}

abbrev event : ℕ → EventType → EventPriority → RoutingEvent
event id t p = record {
  event_type = t;
  timestamp = 100 + id;
  event_id = id;
  priority = p;
  agent_id = some 9;
  order_id = some 4;
}

abbrev serves : Call → Bool
serves c = true

abbrev fresh : RoutingEvent → ℕ × ℕ
fresh e = (e.timestamp, e.event_id + 1)

pick_runs :
    (pick
      (event 1 gps_update normal)
      (event 2 order_urgent high ∷ event 3 gps_update normal ∷ [])).0
    ≡ event 2 order_urgent high
unfolding pick before value
pick_runs = refl

-- Three submissions, of which one is dropped, and one round of a worker.
abbrev full : Pipeline
full =
    (submit (event 3 gps_update normal)
      (submit (event 2 order_urgent high)
        (submit (event 1 gps_update normal) (new_pipeline 2)).0).0).0

abbrev worked_once : Pipeline
worked_once = work serves fresh all_handlers full

worked_runs : worked_once.sent ≡ 9 ∷ []
unfolding work process_event run_handlers can_handle handle handle_order order_call submit_follow_up
    submit pick before value
worked_runs = refl
