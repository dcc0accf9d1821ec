-- ===== src/Websocket/Manager/Broadcast.antt =====
-- A broadcast delivers to the live sockets of its room and drops the dead ones.
use ai_secure_collaboration.Prelude.{
  ℕ, ◌≡◌, Bool, false, not, ◌&&◌, Option, none, some, List, [], ◌∷◌, arith, ◌==◌, if◌then◌else◌,
  filter,
}
use ai_secure_collaboration.Prelude.Dict.{
  contains, contains-filter, Distinct, Distinct-filter, lookup,
}
use ai_secure_collaboration.Websocket.Manager.{
  ConnectionManager, room_sockets, disconnect, Event, run_events, purge, broadcast_local,
}
use ai_secure_collaboration.Websocket.Manager.View.{
  has, has-disconnect, IsValid, RoomOk, purge-IsValid, run_events-IsValid,
}

has-purge :
    (dead : List ℕ) (room r w : ℕ) (m : ConnectionManager)
    → has (purge dead room m) r w ≡ (if r == room && contains w dead then false else has m r w)
unfolding purge contains
has-purge [] room r w m = ground arith
has-purge (ws ∷ dead) room r w m =
    ground (arith, has-purge dead room r w (disconnect ws room m), has-disconnect ws room r w m)

room_sockets-Distinct : (o : Option (List ℕ)) → RoomOk o → Distinct (room_sockets o)
unfolding room_sockets
room_sockets-Distinct none h = tt
room_sockets-Distinct (some []) h = tt
room_sockets-Distinct (some (s ∷ sockets)) h = h

module _ (sends : ℕ → Bool) (others : List Event) (room : ℕ) (m : ConnectionManager) where
  -- The payload reaches exactly the sockets that were in the room when the broadcast began and whose
  -- send succeeds.
  pub broadcast_delivers :
      (w : ℕ) → contains w (broadcast_local sends others room m).0 ≡ (sends w && has m room w)
  unfolding broadcast_local has
  broadcast_delivers w =
      ground (arith, contains-filter sends w (room_sockets (lookup room m.active_connections)))

  -- In a valid manager no socket gets the payload twice.
  pub broadcast_once : IsValid m → Distinct (broadcast_local sends others room m).0
  unfolding broadcast_local
  broadcast_once v =
      Distinct-filter sends (room_sockets (lookup room m.active_connections))
        (room_sockets-Distinct (lookup room m.active_connections) (v.rooms room))

  -- Whatever other tasks connect and disconnect while the sends are awaited, afterwards a pair of a
  -- room and a socket is there exactly if those tasks left it there, unless the room is the one of
  -- the broadcast and the socket was in it at the beginning and its send failed: then it is gone.
  pub broadcast_purges :
      (r w : ℕ)
      → has (broadcast_local sends others room m).1 r w ≡ (
          if r == room && has m room w && not (sends w)
          then false
          else has (run_events others m) r w)
  unfolding broadcast_local
  broadcast_purges r w =
      let sockets = room_sockets (lookup room m.active_connections) in
      let dead = filter (λ ws. not (sends ws)) sockets in
      unfold has in
      ground (
        arith,
        has-purge dead room r w (run_events others m),
        contains-filter (λ (ws : ℕ). not (sends ws)) w sockets,
      )

  -- A broadcast keeps the manager valid.
  pub broadcast-IsValid : IsValid m → IsValid (broadcast_local sends others room m).1
  unfolding broadcast_local
  broadcast-IsValid v = purge-IsValid _ room (run_events others m) (run_events-IsValid others m v)
