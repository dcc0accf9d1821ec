-- ===== src/Websocket/Endpoint/Cleanup.antt =====
-- What is left of a socket when its endpoint is done.
use ai_secure_collaboration.Prelude.{
  ℕ, ◌≡◌, refl, true, false, Option, some, List, [], ◌∷◌, ◌++◌, Str, ==_iff, arith,
}
use ai_secure_collaboration.External.Sql.{Sql}
use ai_secure_collaboration.External.Redis.{Redis}
use ai_secure_collaboration.External.Numerals.{Numerals}
use ai_secure_collaboration.Models.{User}
use ai_secure_collaboration.Services.Auth.{Jwt, Settings}
use ai_secure_collaboration.Services.Chat.{
  Wire, offline, publish_event, track_user_disconnected, is_online,
}
use ai_secure_collaboration.Services.Endpoints.{handshake}
use ai_secure_collaboration.Websocket.Manager.View.{has, has-disconnect, connect_accepted}
use ai_secure_collaboration.Websocket.Endpoint.{
  Node, Input, Incoming, leave, serve, serve_user, enter, receive_loop, websocket_endpoint, publish,
}

module _ (sql : Sql) (redis : Redis) (jwt : Jwt) (settings : Settings) (numerals : Numerals)
    (wire : Wire) (loads : Str → Option Incoming) (workspace_id room_id websocket : ℕ) where
  -- What the cleanup of a user's socket leaves, after the state `before`.
  pub record Left (user : User) (before after : Node sql redis) : Type 0 where
    pub socket_gone : has after.manager room_id websocket ≡ false
    pub user_gone : is_online redis workspace_id user.id after.cache ≡ false
    pub announced :
        after.published
        ≡ before.published ++ (publish_event numerals wire workspace_id 0 (offline user.id) ∷ [])
    pub stored : after.db ≡ before.db

  leave-Left :
      (user : User) (n : Node sql redis)
      → Left user n (leave sql redis numerals wire workspace_id room_id user loads websocket n)
  unfolding leave publish track_user_disconnected is_online
  leave-Left user n = record {
    socket_gone = ground (arith, has-disconnect websocket room_id room_id websocket n.manager);
    user_gone =
        rw (is_online, redis.srem_view workspace_id user.id n.cache)
          (rw ((==_iff workspace_id workspace_id).1 refl, (==_iff user.id user.id).1 refl) refl);
    announced = refl;
    stored = refl;
  }

  -- Whatever the client sends, and whatever other tasks do to the node in between: where the handshake lets a
  -- user in and the connection is accepted, in the end this socket is in the room no more, the user is not
  -- among those online in the workspace, and the last event that the endpoint published says so.
  pub websocket_endpoint_cleanup :
      (now : ℕ) (token : Option Str) (inputs : List (Input sql redis)) (user : User)
      (n : Node sql redis)
      → handshake sql jwt settings numerals now token workspace_id room_id n.db ≡ some user
      → (before : Node sql redis) × Left user before (
          websocket_endpoint sql redis jwt settings numerals wire loads now token workspace_id
            room_id websocket true inputs n)
  unfolding websocket_endpoint serve_user serve
  websocket_endpoint_cleanup now token inputs user n h =
      let (manager, e) = connect_accepted websocket room_id n.manager in
      let before =
        receive_loop sql redis numerals wire workspace_id room_id user loads inputs
          (enter sql redis numerals wire workspace_id room_id user loads manager n) in
      (before, rw (h, e) (leave-Left user before))
