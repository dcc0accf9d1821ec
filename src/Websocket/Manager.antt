-- ===== src/Websocket/Manager.antt =====
-- `ConnectionManager` of backend/app/websocket/manager.py. A WebSocket is the number of its
-- object; whether `accept` and `send_json` succeed is the client's choice, an argument.
pub mod View
pub mod Broadcast
pub mod Refinement
pub mod Validity
mod Tests
use ai_secure_collaboration.Prelude.{
  ℕ, Bool, true, false, not, Option, none, some, List, [], ◌∷◌, filter, if◌then◌else◌,
}
use ai_secure_collaboration.Prelude.Dict.{Dict, contains, add, discard, lookup, insert, erase}

-- `active_connections`: the local sockets of each room.
pub record ConnectionManager : Type 0 where
  pub active_connections : Dict (List ℕ)

-- `__init__`
abbrev pub new_manager : ConnectionManager
new_manager = record { active_connections = [] }

-- The set of a room, after `if room_id not in ...: ... = set()`.
unfoldable pub room_sockets : Option (List ℕ) → List ℕ
room_sockets none = []
room_sockets (some sockets) = sockets

-- `none` is an `accept` that raised.
pub connect : Bool → ℕ → ℕ → ConnectionManager → Option ConnectionManager
unfolding room_sockets
connect accepted websocket room_id m =
    if accepted
    then some (record {
      active_connections =
          insert room_id (add websocket (room_sockets (lookup room_id m.active_connections)))
            m.active_connections;
    })
    else none

-- What is left of a room is written back, or the room is deleted.
unfoldable pub shrink : ℕ → List ℕ → Dict (List ℕ) → Dict (List ℕ)
shrink room_id [] rooms = erase room_id rooms
shrink room_id (s ∷ sockets) rooms = insert room_id (s ∷ sockets) rooms

unfoldable pub disconnect_in : Option (List ℕ) → ℕ → ℕ → ConnectionManager → ConnectionManager
unfolding shrink
disconnect_in none websocket room_id m = m
disconnect_in (some sockets) websocket room_id m = record {
  active_connections = shrink room_id (discard websocket sockets) m.active_connections;
}

pub disconnect : ℕ → ℕ → ConnectionManager → ConnectionManager
unfolding disconnect_in
disconnect websocket room_id m =
    disconnect_in (lookup room_id m.active_connections) websocket room_id m

-- The loop over the dead sockets.
pub purge : List ℕ → ℕ → ConnectionManager → ConnectionManager
purge [] room_id m = m
purge (ws ∷ dead) room_id m = purge dead room_id (disconnect ws room_id m)

-- What other tasks do while the sends are awaited.
pub data Event : Type 0 where
  connected : ℕ → ℕ → Event
  disconnected : ℕ → ℕ → Event

unfoldable pub or_same : Option ConnectionManager → ConnectionManager → ConnectionManager
or_same none m = m
or_same (some m') m = m'

pub step : Event → ConnectionManager → ConnectionManager
unfolding or_same
step (connected websocket room_id) m = or_same (connect true websocket room_id m) m
step (disconnected websocket room_id) m = disconnect websocket room_id m

pub run_events : List Event → ConnectionManager → ConnectionManager
run_events [] m = m
run_events (e ∷ events) m = run_events events (step e m)

-- The sockets that get the payload, and the manager afterwards. The set is read before the sends,
-- and the dead sockets are purged from what the other tasks have left.
pub broadcast_local : (ℕ → Bool) → List Event → ℕ → ConnectionManager → List ℕ × ConnectionManager
broadcast_local sends others room_id m =
    let sockets = room_sockets (lookup room_id m.active_connections) in
    let dead_sockets = filter (λ ws. not (sends ws)) sockets in
    (filter sends sockets, purge dead_sockets room_id (run_events others m))
