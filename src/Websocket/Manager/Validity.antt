-- ===== src/Websocket/Manager/Validity.antt =====
-- What holds of every manager that connections, disconnections and broadcasts reach.
use ai_secure_collaboration.Prelude.{List, [], ◌∷◌}
use ai_secure_collaboration.Websocket.Manager.{ConnectionManager, new_manager}
use ai_secure_collaboration.Websocket.Manager.View.{IsValid, new_manager-IsValid, step-IsValid}
use ai_secure_collaboration.Websocket.Manager.Broadcast.{broadcast-IsValid}
use ai_secure_collaboration.Websocket.Manager.Refinement.{Command, change, broadcast, perform}

-- The manager after commands, one after the other.
unfoldable pub run_commands : List Command → ConnectionManager → ConnectionManager
run_commands [] m = m
run_commands (c ∷ commands) m = run_commands commands (perform c m).1

perform-IsValid : (c : Command) (m : ConnectionManager) → IsValid m → IsValid (perform c m).1
unfolding perform
perform-IsValid (change e) m v = step-IsValid e m v
perform-IsValid (broadcast sends others room_id) m v = broadcast-IsValid sends others room_id m v

run_commands-IsValid :
    (commands : List Command) (m : ConnectionManager)
    → IsValid m
    → IsValid (run_commands commands m)
unfolding run_commands
run_commands-IsValid [] m v = v
run_commands-IsValid (c ∷ commands) m v =
    run_commands-IsValid commands (perform c m).1 (perform-IsValid c m v)

-- After any connections, disconnections and broadcasts from the start, also with other tasks that connect
-- and disconnect during the broadcasts, no room is kept without a socket, no room is kept twice, and no room
-- holds a socket twice.
pub reachable-IsValid : (commands : List Command) → IsValid (run_commands commands new_manager)
reachable-IsValid commands = run_commands-IsValid commands new_manager new_manager-IsValid
