-- ===== src/Websocket/Manager/View.antt =====
-- The connection manager as a set of pairs of a room and a socket, and its invariant.
use ai_secure_collaboration.Prelude.{
  ℕ, ◌≡◌, Bool, true, false, ◌&&◌, ◌||◌, Option, none, some, List, [], ◌∷◌, arith, ◌==◌,
  if◌then◌else◌, Option-cases, inl, inr, Bool-cases, not, refl,
}
use ai_secure_collaboration.Prelude.Dict.{
  Dict, contains, contains-add, contains-discard, Distinct, add, discard, lookup, lookup-insert,
  lookup-erase, insert, keys, Distinct-insert, Distinct-erase, Distinct-filter,
}
use ai_secure_collaboration.Websocket.Manager.{
  ConnectionManager, room_sockets, connect, shrink, disconnect, new_manager, purge, step,
  run_events, Event, connected, disconnected,
}

-- `websocket in active_connections.get(room_id, set())`
unfoldable pub has : ConnectionManager → ℕ → ℕ → Bool
unfolding room_sockets
has m room ws = contains ws (room_sockets (lookup room m.active_connections))

-- A room that is kept has a socket, and holds none twice.
abbrev pub RoomOk : Option (List ℕ) → Type 0
RoomOk none = Unit
RoomOk (some []) = ⊥
RoomOk (some (ws ∷ sockets)) = Distinct (ws ∷ sockets)

pub record IsValid (m : ConnectionManager) : Type 0 where
  pub rooms : (room : ℕ) → RoomOk (lookup room m.active_connections)
  -- No room is kept twice.
  pub distinct : Distinct (keys m.active_connections)

-- An accepted connection adds exactly its own pair.
pub has-connect :
    (ws room r w : ℕ) (m m' : ConnectionManager)
    → connect true ws room m ≡ some m'
    → has m' r w ≡ ((r == room && w == ws) || has m r w)
unfolding connect has
has-connect ws room r w m m' h =
    let sockets = room_sockets (lookup room m.active_connections) in
    ground
      (arith, lookup-insert room r (add ws sockets) m.active_connections, contains-add ws w sockets)

-- A connection that is accepted is registered.
pub connect_accepted :
    (ws room : ℕ) (m : ConnectionManager)
    → (m' : ConnectionManager) × (connect true ws room m ≡ some m')
unfolding connect
connect_accepted ws room m = (_, refl)

lookup-shrink :
    (room r w : ℕ) (sockets : List ℕ) (rooms : Dict (List ℕ))
    → contains w (room_sockets (lookup r (shrink room sockets rooms)))
      ≡ (if r == room then contains w sockets else contains w (room_sockets (lookup r rooms)))
unfolding shrink room_sockets contains
lookup-shrink room r w [] rooms = ground (arith, lookup-erase room r rooms)
lookup-shrink room r w (s ∷ sockets) rooms =
    ground (arith, lookup-insert room r (s ∷ sockets) rooms)

-- A disconnection removes exactly its own pair.
pub has-disconnect :
    (ws room r w : ℕ) (m : ConnectionManager)
    → has (disconnect ws room m) r w ≡ (if r == room && w == ws then false else has m r w)
unfolding has disconnect contains
has-disconnect ws room r w m = elim (Option-cases (lookup room m.active_connections)) [
  | inl e ↦ ground arith
  | inr (sockets, e) ↦ ground (
    arith,
    lookup-shrink room r w (discard ws sockets) m.active_connections,
    contains-discard ws w sockets,
  )
]

-- An insertion of a set with an element, or of nothing, keeps every room in order.
insert-RoomOk :
    (room r : ℕ) (sockets : List ℕ) (rooms : Dict (List ℕ))
    → RoomOk (some sockets)
    → RoomOk (lookup r rooms)
    → RoomOk (lookup r (insert room sockets rooms))
insert-RoomOk room r sockets rooms new old = rw lookup-insert (if-RoomOk (r == room))
  where
    if-RoomOk : (b : Bool) → RoomOk (if b then some sockets else lookup r rooms)
    if-RoomOk true = new
    if-RoomOk false = old

add-RoomOk : (ws : ℕ) (o : Option (List ℕ)) → RoomOk o → RoomOk (some (add ws (room_sockets o)))
unfolding add room_sockets contains
add-RoomOk ws none h = (refl, tt)
add-RoomOk ws (some []) h = absurd h
add-RoomOk ws (some (s ∷ sockets)) h = elim (Bool-cases (contains ws (s ∷ sockets))) [
  | inl e ↦ rw e h
  | inr e ↦ rw e (e, h)
]

shrink-RoomOk :
    (room r : ℕ) (sockets : List ℕ) (rooms : Dict (List ℕ))
    → Distinct sockets
    → RoomOk (lookup r rooms)
    → RoomOk (lookup r (shrink room sockets rooms))
unfolding shrink
shrink-RoomOk room r (s ∷ sockets) rooms d old = insert-RoomOk room r (s ∷ sockets) rooms d old
shrink-RoomOk room r [] rooms d old = rw lookup-erase (if-RoomOk (r == room))
  where
    if-RoomOk : (b : Bool) → RoomOk (if b then none else lookup r rooms)
    if-RoomOk true = tt
    if-RoomOk false = old

shrink-Distinct :
    (room : ℕ) (sockets : List ℕ) (rooms : Dict (List ℕ))
    → Distinct (keys rooms)
    → Distinct (keys (shrink room sockets rooms))
unfolding shrink
shrink-Distinct room [] rooms d = Distinct-erase room rooms d
shrink-Distinct room (s ∷ sockets) rooms d = Distinct-insert room (s ∷ sockets) rooms d

pub new_manager-IsValid : IsValid new_manager
unfolding lookup keys
new_manager-IsValid = record { rooms = λ room. tt; distinct = tt }

connect-IsValid :
    (ws room : ℕ) (m m' : ConnectionManager)
    → IsValid m
    → connect true ws room m ≡ some m'
    → IsValid m'
unfolding connect
connect-IsValid ws room m m' v h =
    let sockets = add ws (room_sockets (lookup room m.active_connections)) in
    let e : record { active_connections = insert room sockets m.active_connections } ≡ m' = cc in
    rw (← e) (record {
      rooms = λ r.
          insert-RoomOk room r sockets m.active_connections
            (add-RoomOk ws (lookup room m.active_connections) (v.rooms room)) (v.rooms r);
      distinct = Distinct-insert room sockets m.active_connections v.distinct;
    })

RoomOk-Distinct : (sockets : List ℕ) → RoomOk (some sockets) → Distinct sockets
RoomOk-Distinct [] h = tt
RoomOk-Distinct (s ∷ sockets) h = h

disconnect-IsValid :
    (ws room : ℕ) (m : ConnectionManager) → IsValid m → IsValid (disconnect ws room m)
unfolding disconnect discard
disconnect-IsValid ws room m v = elim (Option-cases (lookup room m.active_connections)) [
  | inl e ↦ rw e v
  | inr (sockets, e) ↦ rw e (record {
    rooms = λ r.
        shrink-RoomOk room r (discard ws sockets) m.active_connections
          (Distinct-filter (λ x. not (x == ws)) sockets
            (RoomOk-Distinct sockets (rw e at (v.rooms room))))
          (v.rooms r);
    distinct = shrink-Distinct room (discard ws sockets) m.active_connections v.distinct;
  })
]

pub purge-IsValid :
    (dead : List ℕ) (room : ℕ) (m : ConnectionManager) → IsValid m → IsValid (purge dead room m)
unfolding purge
purge-IsValid [] room m v = v
purge-IsValid (ws ∷ dead) room m v =
    purge-IsValid dead room (disconnect ws room m) (disconnect-IsValid ws room m v)

pub step-IsValid : (e : Event) (m : ConnectionManager) → IsValid m → IsValid (step e m)
unfolding step
step-IsValid (connected ws room) m v = elim (Option-cases (connect true ws room m)) [
  | inl e ↦ rw e v
  | inr (m', e) ↦ rw e (connect-IsValid ws room m m' v e)
]
step-IsValid (disconnected ws room) m v = disconnect-IsValid ws room m v

pub run_events-IsValid :
    (events : List Event) (m : ConnectionManager) → IsValid m → IsValid (run_events events m)
unfolding run_events
run_events-IsValid [] m v = v
run_events-IsValid (e ∷ events) m v = run_events-IsValid events (step e m) (step-IsValid e m v)

-- For a socket that is not in the room, an accepted connection and then the disconnection of the same
-- pair leave the set of pairs as it was.
pub disconnect-connect :
    (ws room r w : ℕ) (m m' : ConnectionManager)
    → has m room ws ≡ false
    → connect true ws room m ≡ some m'
    → has (disconnect ws room m') r w ≡ has m r w
disconnect-connect ws room r w m m' fresh h =
    ground (arith, has-disconnect ws room r w m', has-connect ws room r w m m' h)
