-- ===== src/Websocket/Manager/Refinement.antt =====
-- The connection manager refines a plain set of pairs of a room and a socket.
use ai_secure_collaboration.Prelude.{
  ℕ, ◌≡◌, refl, ◌∙◌, ap, Bool, false, not, ◌&&◌, ◌||◌, List, [], ◌∷◌, ◌==◌, if◌then◌else◌,
}
use ai_secure_collaboration.Prelude.Dict.{contains, lookup}
use ai_secure_collaboration.Websocket.Manager.{
  ConnectionManager, new_manager, Event, connected, disconnected, step, run_events, broadcast_local,
}
use ai_secure_collaboration.Websocket.Manager.View.{
  has, has-connect, has-disconnect, connect_accepted,
}
use ai_secure_collaboration.Websocket.Manager.Broadcast.{broadcast_delivers, broadcast_purges}

-- What a client of the manager asks for; `sends` tells which sends succeed, and `others` is what other
-- tasks do while they are awaited.
pub data Command : Type 0 where
  change : Event → Command
  broadcast : (sends : ℕ → Bool) (others : List Event) (room_id : ℕ) → Command

-- The sockets that get a payload, and the manager afterwards.
unfoldable pub perform : Command → ConnectionManager → List ℕ × ConnectionManager
perform (change e) m = ([], step e m)
perform (broadcast sends others room_id) m = broadcast_local sends others room_id m

-- The abstract manager: which socket is in which room.
abbrev pub Pairs : Type 0
Pairs = ℕ → ℕ → Bool

abbrev pub nobody : Pairs
nobody r w = false

unfoldable pub event_pairs : Event → Pairs → Pairs
event_pairs (connected ws room) p r w = (r == room && w == ws) || p r w
event_pairs (disconnected ws room) p r w = if r == room && w == ws then false else p r w

unfoldable pub events_pairs : List Event → Pairs → Pairs
events_pairs [] p = p
events_pairs (e ∷ events) p = events_pairs events (event_pairs e p)

-- Who gets a payload, as a test, and the pairs afterwards.
unfoldable pub command_pairs : Command → Pairs → (ℕ → Bool) × Pairs
command_pairs (change e) p = (λ w. false, event_pairs e p)
command_pairs (broadcast sends others room) p = (
  λ w. sends w && p room w,
  λ r w. if r == room && p room w && not (sends w) then false else events_pairs others p r w,
)

abbrev pub Represents : ConnectionManager → Pairs → Type 0
Represents m p = (r w : ℕ) → has m r w ≡ p r w

-- Every command gives the sockets that the abstract manager gives, and the managers match in the end.
pub Simulates : List Command → ConnectionManager → Pairs → Type 0
Simulates [] m p = Represents m p
Simulates (c ∷ commands) m p =
    ((w : ℕ) → contains w (perform c m).0 ≡ (command_pairs c p).0 w)
    × Simulates commands (perform c m).1 (command_pairs c p).1

event_pairs-step :
    (e : Event) (m : ConnectionManager) (p : Pairs)
    → Represents m p
    → Represents (step e m) (event_pairs e p)
unfolding step event_pairs
event_pairs-step (connected ws room) m p rep r w =
    let (m', e) = connect_accepted ws room m in
    rw e (has-connect ws room r w m m' e ∙ ap (λ b. (r == room && w == ws) || b) (rep r w))
event_pairs-step (disconnected ws room) m p rep r w =
    has-disconnect ws room r w m ∙ ap (λ b. if r == room && w == ws then false else b) (rep r w)

events_pairs-run :
    (events : List Event) (m : ConnectionManager) (p : Pairs)
    → Represents m p
    → Represents (run_events events m) (events_pairs events p)
unfolding run_events events_pairs
events_pairs-run [] m p rep = rep
events_pairs-run (e ∷ events) m p rep =
    events_pairs-run events (step e m) (event_pairs e p) (event_pairs-step e m p rep)

command_pairs-perform :
    (c : Command) (m : ConnectionManager) (p : Pairs)
    → Represents m p
    → ((w : ℕ) → contains w (perform c m).0 ≡ (command_pairs c p).0 w)
      × Represents (perform c m).1 (command_pairs c p).1
unfolding perform command_pairs contains
command_pairs-perform (change e) m p rep = (λ w. refl, event_pairs-step e m p rep)
command_pairs-perform (broadcast sends others room) m p rep = (
  λ w. broadcast_delivers sends others room m w ∙ ap (λ b. sends w && b) (rep room w),
  λ r w.
      broadcast_purges sends others room m r w
      ∙ rw (rep room w, events_pairs-run others m p rep r w) refl,
)

simulation :
    (commands : List Command) (m : ConnectionManager) (p : Pairs)
    → Represents m p
    → Simulates commands m p
unfolding Simulates
simulation [] m p rep = rep
simulation (c ∷ commands) m p rep =
    let (sockets, next) = command_pairs-perform c m p rep in
    (sockets, simulation commands (perform c m).1 (command_pairs c p).1 next)

-- A new manager behaves, through any connections, disconnections and broadcasts, like an empty set of pairs
-- of a room and a socket: each broadcast reaches the same sockets, and the pairs are the same in the end.
pub new_manager-Simulates : (commands : List Command) → Simulates commands new_manager nobody
unfolding has lookup contains
new_manager-Simulates commands = simulation commands new_manager nobody (λ r w. refl)
