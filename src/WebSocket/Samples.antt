-- ===== src/WebSocket/Samples.antt =====
-- Socket 7 subscribes twice to topic 1 and disconnects.
use sfa_routing.Prelude.{◌≡◌, refl, some, if◌then◌else◌, ◌==◌}
use sfa_routing.WebSocket.{Manager, new_manager, connect, subscribe, disconnect, broadcast}
use sfa_routing.WebSocket.Delivery.{
  copies, Reachable, initial, connected, subscribed, broadcast-disconnect,
}

abbrev joined : Manager
joined = subscribe 7 1 (subscribe 7 1 (connect 7 100 new_manager))

joined-Reachable : Reachable joined
joined-Reachable = subscribed 7 1 (subscribed 7 1 (connected 7 100 (initial refl) refl) refl) refl

broadcast-disconnect_example :
    copies 7 (broadcast (some 1) (disconnect 7 100 joined))
    ≡ (if 7 == 7 then 0 else copies 7 (broadcast (some 1) joined))
broadcast-disconnect_example = broadcast-disconnect joined-Reachable 7 100 1 7
