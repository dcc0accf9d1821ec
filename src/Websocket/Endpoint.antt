-- ===== src/Websocket/Endpoint.antt =====
-- `websocket_endpoint` of backend/app/websocket/endpoints.py after the handshake: presence, the receive loop,
-- and the cleanup. The state is what the node and its services hold; between two messages of this socket the
-- other tasks may change it in any way.
pub mod Cleanup
pub mod Delivery
mod Tests
use ai_secure_collaboration.Prelude.{
  ℕ, Bool, true, false, Option, none, some, List, [], ◌∷◌, ◌++◌, Str, codes, str_eq, strip,
  is_empty, if◌then◌else◌,
}
use ai_secure_collaboration.External.Sql.{Sql}
use ai_secure_collaboration.External.Redis.{Redis}
use ai_secure_collaboration.External.Numerals.{Numerals}
use ai_secure_collaboration.Core.Action.{Result, ok, err}
use ai_secure_collaboration.Models.{User, ChatMessage, Database}
use ai_secure_collaboration.Repositories.{Session}
use ai_secure_collaboration.Services.Auth.{Jwt, Settings}
use ai_secure_collaboration.Services.Notifications.{or_text}
use ai_secure_collaboration.Services.Chat.{
  Author, Event, message, typing, Wire, Published, publish_event, persist_message,
  track_user_connected, track_user_disconnected,
}
use ai_secure_collaboration.Services.Endpoints.{handshake}
use ai_secure_collaboration.Websocket.Manager.{ConnectionManager, connect, disconnect}

-- `event.get("content", "")`
pub data Content : Type 0 where
  missing not_text : Content
  text : Str → Content

-- What a client sends, after `json.loads`; `is_typing` is JSON text, if it is there.
pub data Incoming : Type 0 where
  not_a_dict : Incoming
  dict : (event_type : Option Str) (content : Content) (is_typing : Option Str) → Incoming

module _ (sql : Sql) (redis : Redis) where
  pub record Node : Type 0 where
    pub db : Database sql
    pub cache : redis.State
    pub manager : ConnectionManager
    pub published : List Published

  -- What happens while the socket is open: a text that is received at a time, or something elsewhere.
  pub data Input : Type 0 where
    received : ℕ → Str → Input
    elsewhere : (Node → Node) → Input

  -- Whether the loop goes on, or has ended with an exception.
  pub data Flow : Type 0 where
    going ended : Node → Flow

  unfoldable pub publish : Published → Node → Node
  publish p n = record n { published = n.published ++ (p ∷ []) }

  unfoldable pub author_of : User → Author
  author_of user = record {
    id = user.id;
    email = user.email;
    full_name = user.full_name;
    role = user.role;
    is_active = user.is_active;
  }

  module _ (numerals : Numerals) (wire : Wire) (workspace_id room_id : ℕ) (user : User) where
    -- The session that is opened for a message; `msg.id` of no row is an exception.
    unfoldable pub publish_message : Result (Option ChatMessage) × Session sql redis → Node → Flow
    unfolding publish author_of publish_event
    publish_message (ok (some msg), s) n = going (
        publish (publish_event numerals wire workspace_id room_id (message msg (author_of user)))
          (record n { db = s.durable }))
    publish_message (ok none, s) n = ended (record n { db = s.durable })
    publish_message (err e, s) n = ended (record n { db = s.durable })

    unfoldable pub send_content : ℕ → Str → Node → Flow
    unfolding publish_message
    send_content now content n =
        if is_empty content
        then going n
        else publish_message
            (persist_message sql redis now room_id user.id content
              (record { db = n.db; durable = n.db; cache = some n.cache }))
            n

    -- A. chat message
    unfoldable pub receive_message : ℕ → Content → Node → Flow
    unfolding send_content
    receive_message now missing n = going n
    receive_message now not_text n = ended n
    receive_message now (text content) n = send_content now (strip content) n

    unfoldable pub or_false : Option Str → Str
    or_false none = codes "false"
    or_false (some is_typing) = is_typing

    -- B. typing indicator
    unfoldable pub receive_typing : Option Str → Node → Flow
    unfolding or_false publish
    receive_typing is_typing n = going (
        publish
          (publish_event numerals wire workspace_id room_id
            (typing user.id (or_text user.full_name user.email) (or_false is_typing)))
          n)

    unfoldable pub is_type : Option Str → Str → Bool
    is_type none t = false
    is_type (some s) t = str_eq s t

    -- The body of the loop, on the result of `json.loads`.
    unfoldable pub receive : ℕ → Option Incoming → Node → Flow
    unfolding receive_message receive_typing is_type
    receive now none n = going n
    receive now (some not_a_dict) n = ended n
    receive now (some (dict event_type content is_typing)) n =
        if is_type event_type (codes "message")
        then receive_message now content n
        else if is_type event_type (codes "typing")
        then receive_typing is_typing n
        else going n

    module _ (loads : Str → Option Incoming) where
      -- The loop, until the client disconnects or an exception is raised.
      unfoldable pub receive_loop : List Input → Node → Node
      unfolding receive
      receive_loop [] n = n
      receive_loop (elsewhere change ∷ inputs) n = receive_loop inputs (change n)
      receive_loop (received now data_str ∷ inputs) n = elim (receive now (loads data_str) n) [
        | going n' ↦ receive_loop inputs n'
        | ended n' ↦ n'
      ]

      -- `track_user_connected` after the connection was registered
      unfoldable pub enter : ConnectionManager → Node → Node
      unfolding publish
      enter manager n =
          let (p, cache) = track_user_connected numerals wire redis workspace_id user.id n.cache in
          publish p (record n { manager = manager; cache = cache })

      -- The `finally` block.
      unfoldable pub leave : ℕ → Node → Node
      unfolding publish
      leave websocket n =
          let (p, cache) =
            track_user_disconnected numerals wire redis workspace_id user.id n.cache in
          publish p (record n { manager = disconnect websocket room_id n.manager; cache = cache })

      -- `none` is an `accept` that raised, before the `try`.
      unfoldable pub serve : ℕ → Option ConnectionManager → List Input → Node → Node
      unfolding enter receive_loop leave
      serve websocket none inputs n = n
      serve websocket (some manager) inputs n =
          leave websocket (receive_loop inputs (enter manager n))

  module _ (jwt : Jwt) (settings : Settings) (numerals : Numerals) (wire : Wire)
      (loads : Str → Option Incoming) where
    unfoldable pub serve_user : ℕ → ℕ → Option User → ℕ → Bool → List Input → Node → Node
    unfolding serve
    serve_user workspace_id room_id none websocket accepted inputs n = n
    serve_user workspace_id room_id (some user) websocket accepted inputs n =
        serve numerals wire workspace_id room_id user loads websocket
          (connect accepted websocket room_id n.manager) inputs n

    unfoldable pub websocket_endpoint : ℕ → Option Str → ℕ → ℕ → ℕ → Bool → List Input → Node → Node
    unfolding serve_user
    websocket_endpoint now token workspace_id room_id websocket accepted inputs n =
        serve_user workspace_id room_id
          (handshake sql jwt settings numerals now token workspace_id room_id n.db) websocket
          accepted inputs n
