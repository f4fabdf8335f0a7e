-- ===== src/EventPipeline.antt =====
-- `EventPipeline` and its handlers of backend/app/services/realtime/event_pipeline.py.
-- The asyncio priority queue is a list from which the best entry is taken. The model is that of
-- queues in which no two entries have the same priority and the same time: for two that have, Python
-- compares the events themselves, which raises a TypeError.
-- `serves` says whether a call of the rerouting service returns (or raises), and `fresh` gives the
-- time and the identifier of the event that a handler makes. Sent messages are the
-- agents whose topics they go to.

pub mod Queue
pub mod Runs
pub mod Workers
pub mod Samples
use sfa_routing.Prelude.{
  ℕ, zero, suc, ◌+◌, Bool, true, false, ◌&&◌, ◌||◌, Option, none, some, List, [], ◌∷◌, ◌++◌, ltb,
  leb, ◌==◌, if◌then◌else◌, length,
}

pub data EventType : Type 0 where
  gps_update gps_deviation gps_lost traffic_incident traffic_cleared road_closure : EventType
  order_cancelled order_urgent order_added order_time_changed agent_break agent_offline : EventType
  agent_available route_optimized feasibility_check alert_generated : EventType

pub data EventPriority : Type 0 where
  low normal high critical : EventPriority

pub value : EventPriority → ℕ
value low = 1
value normal = 5
value high = 10
value critical = 20

pub record RoutingEvent : Type 0 where
  pub event_type : EventType
  pub timestamp : ℕ
  pub event_id : ℕ
  pub priority : EventPriority
  pub agent_id : Option ℕ
  pub order_id : Option ℕ

-- The calls of the rerouting service.
pub data Call : Type 0 where
  reroute_agent_visits remove_and_reoptimize prioritize_order insert_order : ℕ → Call

pub data Handler : Type 0 where
  gps_deviation_handler traffic_handler order_change_handler : Handler

pub can_handle : Handler → EventType → Bool
can_handle gps_deviation_handler gps_update = true
can_handle traffic_handler traffic_incident = true
can_handle traffic_handler road_closure = true
can_handle order_change_handler order_cancelled = true
can_handle order_change_handler order_urgent = true
can_handle order_change_handler order_added = true
can_handle order_change_handler order_time_changed = true
can_handle h t = false

abbrev pub deviation_threshold_meters : ℕ
deviation_threshold_meters = 500

-- `_calculate_deviation` is not written yet and returns 0.
pub calculate_deviation : RoutingEvent → ℕ
calculate_deviation e = 0

-- `_find_affected_agents` is not written yet and returns no agent.
pub find_affected_agents : RoutingEvent → List ℕ
find_affected_agents e = []

-- The new event of a handler, with the time and the identifier that it gets.
abbrev pub follow_up : EventType → Option ℕ → ℕ × ℕ → RoutingEvent
follow_up t agent (now, id) = record {
  event_type = t;
  timestamp = now;
  event_id = id;
  priority = normal;
  agent_id = agent;
  order_id = none;
}

-- What a handler does: it sends messages, and raises or may return an event.
pub data Handled : Type 0 where
  raised : List ℕ → Handled
  done : List ℕ → Option RoutingEvent → Handled

-- The call for an order event, if there is one.
pub order_call : EventType → ℕ → Option Call
order_call order_cancelled agent = some (remove_and_reoptimize agent)
order_call order_urgent agent = some (prioritize_order agent)
order_call order_added agent = some (insert_order agent)
order_call t agent = none

-- `before a b`: the tuple (-priority, timestamp) of `a` is less than that of `b`.
pub before : RoutingEvent → RoutingEvent → Bool
before a b =
    ltb (value b.priority) (value a.priority)
    || ((value a.priority == value b.priority) && ltb a.timestamp b.timestamp)

-- The best, which is before all others where no two are alike, and the others.
pub pick : RoutingEvent → List RoutingEvent → RoutingEvent × List RoutingEvent
pick e [] = (e, [])
pick e (x ∷ xs) =
    let (best, rest) = pick (if before x e then x else e) xs in
    (best, (if before x e then e else x) ∷ rest)

pub record Pipeline : Type 0 where
  pub queue : List RoutingEvent
  pub max_queue_size : ℕ
  pub events_processed : ℕ
  pub events_dropped : ℕ
  pub sent : List ℕ

abbrev pub new_pipeline : ℕ → Pipeline
new_pipeline size = record {
  queue = [];
  max_queue_size = size;
  events_processed = 0;
  events_dropped = 0;
  sent = [];
}

-- asyncio takes a size of zero as no limit.
abbrev pub is_full : Pipeline → Bool
is_full p = ltb 0 p.max_queue_size && leb p.max_queue_size (length p.queue)

pub submit : RoutingEvent → Pipeline → Pipeline × Bool
submit e p =
    if is_full p
    then (record p { events_dropped = p.events_dropped + 1 }, false)
    else (record p { queue = p.queue ++ e ∷ [] }, true)

module _ (serves : Call → Bool) (fresh : RoutingEvent → ℕ × ℕ) where
  -- The loop over the affected agents: each is rerouted and told. With whether it ended.
  pub reroute_all : List ℕ → List ℕ → List ℕ × Bool
  reroute_all [] sent = (sent, true)
  reroute_all (a ∷ agents) sent =
      let rest = reroute_all agents (sent ++ a ∷ []) in
      if serves (reroute_agent_visits a) then rest else (sent, false)

  pub handle_gps : RoutingEvent → Option ℕ → Handled
  unfolding calculate_deviation
  handle_gps e none = done [] none
  handle_gps e (some agent) =
      if ltb deviation_threshold_meters (calculate_deviation e)
      then (if serves (reroute_agent_visits agent)
          then done (agent ∷ []) (some (follow_up route_optimized (some agent) (fresh e)))
          else raised [])
      else done [] none

  pub handle_traffic : RoutingEvent → List ℕ → Handled
  handle_traffic e [] = done [] none
  handle_traffic e (a ∷ agents) =
      let (told, ended) = reroute_all (a ∷ agents) [] in
      if ended then done told (some (follow_up alert_generated none (fresh e))) else raised told

  pub handle_order : RoutingEvent → Option ℕ → Handled
  unfolding order_call
  handle_order e none = done [] none
  handle_order e (some agent) = elim (order_call e.event_type agent) [
    | none ↦ done (agent ∷ []) none
    | some call ↦ if serves call then done (agent ∷ []) none else raised []
  ]

  pub handle : Handler → RoutingEvent → Handled
  unfolding find_affected_agents
  handle gps_deviation_handler e = handle_gps e e.agent_id
  handle traffic_handler e = handle_traffic e (find_affected_agents e)
  handle order_change_handler e = handle_order e e.agent_id

  pub submit_follow_up : Option RoutingEvent → Pipeline → Pipeline
  submit_follow_up none p = p
  submit_follow_up (some e) p = (submit e p).0

  -- The loop over the handlers; an exception ends it.
  pub run_handlers : List Handler → RoutingEvent → Pipeline → Pipeline
  run_handlers [] e p = p
  run_handlers (h ∷ hs) e p = elim (can_handle h e.event_type) [
    | false ↦ run_handlers hs e p
    | true ↦ elim (handle h e) [
      | raised told ↦ record p { sent = p.sent ++ told }
      | done told next ↦
          run_handlers hs e (submit_follow_up next (record p { sent = p.sent ++ told }))
    ]
  ]

  pub process_event : List Handler → RoutingEvent → Pipeline → Pipeline
  process_event handlers e p =
      let after = run_handlers handlers e p in
      record after { events_processed = after.events_processed + 1 }

  -- One round of a worker; with nothing in the queue it waits again.
  pub work : List Handler → Pipeline → Pipeline
  work handlers p = elim p.queue [
    | [] ↦ p
    | e ∷ es ↦
        let (best, rest) = pick e es in process_event handlers best (record p { queue = rest })
  ]

abbrev pub all_handlers : List Handler
all_handlers = gps_deviation_handler ∷ traffic_handler ∷ order_change_handler ∷ []
