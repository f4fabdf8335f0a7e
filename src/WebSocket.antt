-- ===== src/WebSocket.antt =====
-- `WebSocketManager` of backend/app/services/realtime/websocket_manager.py.
-- A dictionary is a list of its entries in the order of their keys' entry; a socket is a number.
-- A message goes to a list of sockets; a failed send is logged and changes nothing.

pub mod Delivery
pub mod Samples
use sfa_routing.Prelude.{
  ℕ, zero, suc, ◌+◌, ◌-◌, Bool, true, false, not, Option, none, some, List, [], ◌∷◌, ◌++◌, ltb, leb,
  ◌==◌, if◌then◌else◌, length,
}

abbrev pub Table : Type 0
Table = List (ℕ × List ℕ)

pub record Manager : Type 0 where
  pub active_connections : Table
  pub subscriptions : Table

abbrev pub new_manager : Manager
new_manager = record { active_connections = []; subscriptions = [] }

pub holds : ℕ → List ℕ → Bool
holds w [] = false
holds w (x ∷ xs) = if x == w then true else holds w xs

-- `list.remove`: the first occurrence.
pub remove_first : ℕ → List ℕ → List ℕ
remove_first w [] = []
remove_first w (x ∷ xs) = let rest = remove_first w xs in if x == w then xs else x ∷ rest

pub entry : ℕ → Table → List ℕ
entry k [] = []
entry k ((j, ws) ∷ t) = let rest = entry k t in if j == k then ws else rest

-- The list of a key after `f`, with an empty list for a key that is not there.
pub modify : ℕ → (List ℕ → List ℕ) → Table → Table
modify k f [] = (k, f []) ∷ []
modify k f ((j, ws) ∷ t) =
    let rest = modify k f t in if j == k then (j, f ws) ∷ t else (j, ws) ∷ rest

abbrev pub add_last : ℕ → List ℕ → List ℕ
add_last w ws = ws ++ w ∷ []

abbrev pub add_new : ℕ → List ℕ → List ℕ
add_new w ws = if holds w ws then ws else ws ++ w ∷ []

pub connect : ℕ → ℕ → Manager → Manager
connect w user m = record m { active_connections = modify user (add_last w) m.active_connections }

pub subscribe : ℕ → ℕ → Manager → Manager
subscribe w topic m = record m { subscriptions = modify topic (add_new w) m.subscriptions }

-- The entry of the user, without the socket, and without the key if nothing is left.
pub leave : ℕ → ℕ → Table → Table
leave w user [] = []
leave w user ((j, ws) ∷ t) =
    let rest = leave w user t in
    let left = remove_first w ws in
    if j == user then (if length left == 0 then t else (j, left) ∷ t) else (j, ws) ∷ rest

pub unsubscribe_all : ℕ → Table → Table
unsubscribe_all w [] = []
unsubscribe_all w ((j, ws) ∷ t) = (j, remove_first w ws) ∷ unsubscribe_all w t

pub disconnect : ℕ → ℕ → Manager → Manager
disconnect w user m = record {
  active_connections = leave w user m.active_connections;
  subscriptions = unsubscribe_all w m.subscriptions;
}

pub all_sockets : Table → List ℕ
all_sockets [] = []
all_sockets ((j, ws) ∷ t) = ws ++ all_sockets t

-- The sockets that a message is sent to. The empty topic counts as none.
pub broadcast : Option ℕ → Manager → List ℕ
broadcast (some topic) m = entry topic m.subscriptions
broadcast none m = all_sockets m.active_connections

pub send_personal_message : ℕ → Manager → List ℕ
send_personal_message user m = entry user m.active_connections
