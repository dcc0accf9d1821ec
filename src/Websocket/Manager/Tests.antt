-- ===== src/Websocket/Manager/Tests.antt =====
-- Runs of the connection manager, and the theorems about it at concrete managers.
use ai_secure_collaboration.Prelude.{ℕ, ◌≡◌, refl, Bool, List, [], ◌∷◌, ◌==◌, filter}
use ai_secure_collaboration.Prelude.Dict.{contains, add, discard, lookup, insert, erase}
use ai_secure_collaboration.Websocket.Manager.{
  ConnectionManager, new_manager, connect, disconnect, Event, connected, disconnected, step,
  run_events, purge, broadcast_local,
}
use ai_secure_collaboration.Websocket.Manager.View.{IsValid}
use ai_secure_collaboration.Websocket.Manager.Validity.{run_commands, reachable-IsValid}
use ai_secure_collaboration.Websocket.Manager.Refinement.{
  perform, Command, change, broadcast, nobody, Simulates, new_manager-Simulates,
}

abbrev traffic : List Event
traffic = connected 1 10 ∷ connected 2 10 ∷ connected 3 11 ∷ disconnected 3 11 ∷ connected 2 10 ∷ []

-- Two sockets in room 10.
abbrev lobby : ConnectionManager
lobby = record { active_connections = (10, 2 ∷ 1 ∷ []) ∷ [] }

run_events-traffic : run_events traffic new_manager ≡ lobby
unfolding run_events step connect disconnect add discard contains lookup insert erase filter
run_events-traffic = refl

-- Socket 2 is dead, and socket 7 joins while the sends are awaited.
abbrev alive : ℕ → Bool
alive ws = ws == 1

broadcast_lobby :
    broadcast_local alive (connected 7 10 ∷ []) 10 lobby
    ≡ (1 ∷ [], record { active_connections = (10, 7 ∷ 1 ∷ []) ∷ [] })
unfolding broadcast_local purge run_events step connect disconnect add discard contains lookup
    insert erase filter
broadcast_lobby = refl

abbrev session_commands : List Command
session_commands =
    change (connected 1 10)
    ∷ change (connected 2 10)
    ∷ broadcast alive (connected 7 10 ∷ []) 10
    ∷ change (disconnected 1 10)
    ∷ []

new_manager-Simulates_example : Simulates session_commands new_manager nobody
new_manager-Simulates_example = new_manager-Simulates session_commands

-- After the commands only socket 7 joined while socket 2 died.
session_end :
    run_commands session_commands new_manager ≡ record { active_connections = (10, 7 ∷ []) ∷ [] }
unfolding run_commands perform broadcast_local purge run_events step connect disconnect add discard
    contains lookup insert erase filter
session_end = refl

reachable-IsValid_example : IsValid (run_commands session_commands new_manager)
reachable-IsValid_example = reachable-IsValid session_commands
