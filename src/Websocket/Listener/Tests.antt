-- ===== src/Websocket/Listener/Tests.antt =====
-- A message that is published for a room with a live and a dead socket.
use ai_secure_collaboration.Prelude.{ℕ, ◌≡◌, Bool, ◌&&◌, ◌==◌, some, List, [], ◌∷◌}
use ai_secure_collaboration.Prelude.Dict.{contains}
use ai_secure_collaboration.External.Concrete.Tally.{local_numerals}
use ai_secure_collaboration.Services.Chat.{publish_event, online}
use ai_secure_collaboration.Services.Chat.LocalWire.{local_wire}
use ai_secure_collaboration.Websocket.Manager.{ConnectionManager}
use ai_secure_collaboration.Websocket.Manager.View.{has}
use ai_secure_collaboration.Websocket.Listener.{pmessage, on_message}
use ai_secure_collaboration.Websocket.Listener.Routing.{published_reaches_room}

-- Sockets 1 and 2 in the system's room, 1 of them alive.
abbrev system_room : ConnectionManager
system_room = record { active_connections = (0, 2 ∷ 1 ∷ []) ∷ [] }

abbrev answers : ℕ → Bool
answers ws = ws == 1

published_reaches_room_example :
    let p = publish_event local_numerals local_wire 7 0 (online 3) in
    (sockets : List ℕ) × ((on_message local_numerals local_wire.loads answers []
        (pmessage p.channel p.payload)
        system_room).0
      ≡ some (online 3, sockets))
    × ((w : ℕ) → contains w sockets ≡ (answers w && has system_room 0 w))
published_reaches_room_example =
    published_reaches_room local_numerals local_wire answers [] system_room 7 0 (online 3)
