-- ===== src/Services/Chat.antt =====
-- `ChatService` of backend/app/services/chat.py and backend/app/repositories/chat.py: rooms, the
-- history of a room, the presence sets, and the events that are published.
pub mod History
pub mod LocalWire
use ai_secure_collaboration.Prelude.{
  ◌≡◌, ◌∷◌, ◌++◌, Str, Option, ℕ, Bool, not, Option, none, some, List, [], ◌∷◌, ◌++◌, filter,
  reverse, take, Str, codes, ◌==◌,
}
use ai_secure_collaboration.External.Sql.{Sql}
use ai_secure_collaboration.External.Numerals.{Numerals}
use ai_secure_collaboration.External.Redis.{Redis, Keyspace}
use ai_secure_collaboration.Core.Exceptions.{Error, insufficient_permissions_exception, not_found}
use ai_secure_collaboration.Core.Action.{
  Action, Result, ok, err, pure, gets, raise, or_raise, raise_if, modify, ◌>>=◌, ◌>>◌,
}
use ai_secure_collaboration.Models.{UserRole, ChatRoom, ChatMessage, WorkspaceMember, Database}
use ai_secure_collaboration.Repositories.{
  Session, room_repo, message_repo, get, select, create, commit, refresh, get_by_workspace_and_user,
}
use ai_secure_collaboration.Services.Workspaces.{is_found}

pub chat_boundary : Error
chat_boundary =
    insufficient_permissions_exception
      (codes "You must be a member of this workspace to perform chat operations.")

pub room_not_found : Error
room_not_found = not_found (codes "Chat room not found.")

-- `limit(n)` on a query; `None` is no limit.
abbrev pub up_to : {A : Type 0} → Option ℕ → List A → List A
up_to none xs = xs
up_to (some limit) xs = take limit xs

module _ (sql : Sql) where
  -- `ChatRoomRepository.get_by_workspace`: ascending is descending the other way round.
  unfoldable pub get_by_workspace : ℕ → Database sql → List ChatRoom
  get_by_workspace workspace_id d = reverse (
      sql.order_desc (λ r. r.created_at)
        (select sql (room_repo sql) (λ r. r.workspace_id == workspace_id) d))

  -- `ChatMessageRepository.get_room_history`
  unfoldable pub latest_messages : ℕ → Option ℕ → Database sql → List ChatMessage
  latest_messages room_id limit d = reverse (
      up_to limit (
        sql.order_desc (λ m. m.created_at)
          (select sql (message_repo sql) (λ m. m.room_id == room_id) d)))

  module _ (redis : Redis) where
    -- `_verify_workspace_membership`
    unfoldable pub verify_chat_membership : ℕ → ℕ → Action (Session sql redis) (Unit {0})
    verify_chat_membership workspace_id user_id = do
      membership ← gets (λ s. get_by_workspace_and_user sql workspace_id user_id s.db)
      raise_if (not (is_found membership)) chat_boundary

    -- `now` is the column's server default.
    unfoldable pub create_room : ℕ → ℕ → Str → ℕ → Action (Session sql redis) ChatRoom
    unfolding verify_chat_membership
    create_room now workspace_id name current_user_id = do
      verify_chat_membership workspace_id current_user_id
      room ←
          create sql (room_repo sql) redis
            (λ id. record { id = id; name = name; workspace_id = workspace_id; created_at = now })
      commit sql redis
      refresh sql (room_repo sql) redis room

    unfoldable pub list_rooms : ℕ → ℕ → Action (Session sql redis) (List ChatRoom)
    unfolding verify_chat_membership
    list_rooms workspace_id current_user_id = do
      verify_chat_membership workspace_id current_user_id
      gets (λ s. get_by_workspace workspace_id s.db)

    unfoldable pub get_room_history : ℕ → ℕ → ℕ → Action (Session sql redis) (List ChatMessage)
    unfolding verify_chat_membership
    get_room_history room_id current_user_id limit = do
      found ← gets (λ s. get sql (room_repo sql) room_id s.db)
      room ← or_raise found room_not_found
      verify_chat_membership room.workspace_id current_user_id
      gets (λ s. latest_messages room_id (some limit) s.db)

    -- The row that is returned is the one that is found under the new id.
    unfoldable pub persist_message :
        ℕ → ℕ → ℕ → Str → Action (Session sql redis) (Option ChatMessage)
    persist_message now room_id user_id content = do
      message ← create sql (message_repo sql) redis (λ id. record {
        id = id;
        room_id = room_id;
        user_id = user_id;
        content = content;
        created_at = now;
      })
      commit sql redis
      gets (λ s. get sql (message_repo sql) message.id s.db)

-- Who a message is from, as `websocket_endpoint` sends it.
pub record Author : Type 0 where
  pub id : ℕ
  pub email : Str
  pub full_name : Option Str
  pub role : UserRole
  pub is_active : Bool

-- The events that are published: `online` and `offline` with the user, `message` with the row and its
-- author, and `typing` with the user, the name and the JSON text of `is_typing`.
pub data Event : Type 0 where
  online offline : ℕ → Event
  message : ChatMessage → Author → Event
  typing : ℕ → Str → Str → Event

-- `json.dumps` and `json.loads` on events
pub record Wire : Type 0 where
  pub dumps : Event → Str
  pub loads : Str → Option Event
  pub loads-dumps : (e : Event) → loads (dumps e) ≡ some e

-- What PUBLISH sends.
pub record Published : Type 0 where
  pub channel : Str
  pub payload : Str

module _ (numerals : Numerals) (wire : Wire) where
  unfoldable pub channel_of : ℕ → ℕ → Str
  channel_of workspace_id room_id =
      codes "workspace"
      ++ (58 ∷ (numerals.str workspace_id ++ (58 ∷ (codes "room" ++ (58 ∷ numerals.str room_id)))))

  unfoldable pub publish_event : ℕ → ℕ → Event → Published
  unfolding channel_of
  publish_event workspace_id room_id event = record {
    channel = channel_of workspace_id room_id;
    payload = wire.dumps event;
  }

  module _ (redis : Redis) where
    -- Room 0 is the system's room. The set that SMEMBERS gives is `is_online`, without its order.
    unfoldable pub track_user_connected : ℕ → ℕ → redis.State → Published × redis.State
    unfolding publish_event
    track_user_connected workspace_id user_id s =
        (publish_event workspace_id 0 (online user_id), redis.sadd workspace_id user_id s)

    unfoldable pub track_user_disconnected : ℕ → ℕ → redis.State → Published × redis.State
    unfolding publish_event
    track_user_disconnected workspace_id user_id s =
        (publish_event workspace_id 0 (offline user_id), redis.srem workspace_id user_id s)

-- `int(uid) for uid in online_ids`, as a test
unfoldable pub is_online : (redis : Redis) → ℕ → ℕ → redis.State → Bool
is_online redis workspace_id user_id s = (redis.view s).online workspace_id user_id
