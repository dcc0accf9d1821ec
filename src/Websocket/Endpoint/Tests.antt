-- ===== src/Websocket/Endpoint/Tests.antt =====
-- A member's socket, from the handshake to the cleanup, and a message on the way.
use ai_secure_collaboration.Prelude.{
  ◌≡◌, refl, true, none, some, Option, [], ◌∷◌, codes, Str, strip, is_empty, str_eq, filter,
}
use ai_secure_collaboration.External.Concrete.LocalRedis.{local_redis, empty_redis}
use ai_secure_collaboration.External.Concrete.LocalSql.{local_sql, insert_row, fresh_id, clashes}
use ai_secure_collaboration.External.Concrete.Tally.{local_numerals}
use ai_secure_collaboration.Models.{ChatMessage}
use ai_secure_collaboration.Repositories.{create, commit}
use ai_secure_collaboration.Services.Auth.LocalJwt.{local_jwt}
use ai_secure_collaboration.Services.Chat.{message, publish_event, persist_message}
use ai_secure_collaboration.Services.Chat.LocalWire.{local_wire}
use ai_secure_collaboration.Services.Endpoints.Tests.{
  keys, member_account, chat_database, bearer, handshake_run,
}
use ai_secure_collaboration.Websocket.Manager.{new_manager}
use ai_secure_collaboration.Websocket.Endpoint.{
  Node, Incoming, going, text, dict, received, author_of, receive, websocket_endpoint,
}
use ai_secure_collaboration.Websocket.Endpoint.Cleanup.{Left, websocket_endpoint_cleanup}
use ai_secure_collaboration.Websocket.Endpoint.Delivery.{Sent, receive-Sent}

abbrev node : Node local_sql local_redis
node = record { db = chat_database; cache = empty_redis; manager = new_manager; published = [] }

-- Every text is taken as that of a chat message.
abbrev loads : Str → Option Incoming
loads s = some (dict (some (codes "message")) (text s) none)

abbrev hello : Str
unfolding codes
hello = codes " hello "

websocket_endpoint_cleanup_example :
    (before : Node local_sql local_redis) × Left local_sql local_redis local_jwt keys local_numerals
      local_wire loads 7 4 9 member_account before
      (websocket_endpoint local_sql local_redis local_jwt keys local_numerals local_wire loads 20
        (some bearer)
        7
        4
        9
        true
        (received 21 hello ∷ [])
        node)
websocket_endpoint_cleanup_example =
    websocket_endpoint_cleanup local_sql local_redis local_jwt keys local_numerals local_wire loads
      7 4 9 20 (some bearer) (received 21 hello ∷ []) member_account node handshake_run

abbrev sent_row : ChatMessage
sent_row = record { id = 3; room_id = 4; user_id = 3; content = strip hello; created_at = 21 }

abbrev node_after : Node local_sql local_redis
node_after = record node {
  db = record chat_database { messages = sent_row ∷ chat_database.messages };
  published =
      publish_event local_numerals local_wire 7 4
        (message sent_row (author_of local_sql local_redis member_account))
      ∷ [];
}

receive_run :
    receive local_sql local_redis local_numerals local_wire 7 4 member_account 21 (loads hello) node
    ≡ going node_after
unfolding receive persist_message create commit insert_row fresh_id clashes codes strip is_empty
    str_eq filter hello
receive_run = refl

receive-Sent_example :
    Sent local_sql local_redis local_numerals local_wire 7 4 member_account 21
      (strip hello)
      node
      node_after
unfolding strip is_empty hello
receive-Sent_example =
    receive-Sent local_sql local_redis local_numerals local_wire 7 4 member_account 21 hello none
      node node_after refl receive_run
