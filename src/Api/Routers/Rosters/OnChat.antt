-- ===== src/Api/Routers/Rosters/OnChat.antt =====
-- The endpoints on chat rooms and on users leave the workspaces and their members alone.
use ai_secure_collaboration.Prelude.{ℕ, refl, inl, inr, [], ◌∷◌, Str, Option-cases, Bool-cases}
use ai_secure_collaboration.Models.{User, UserRole, ChatRoom, Database, room_schema}
use ai_secure_collaboration.Repositories
use ai_secure_collaboration.Repositories.{get, create, commit, room_repo, get_by_workspace_and_user}
use ai_secure_collaboration.Schemas.{is_chat_room_create}
use ai_secure_collaboration.Services.Auth.{check_role, role_in}
use ai_secure_collaboration.Services.Chat
use ai_secure_collaboration.Api.{Platform, one_room, rooms, messages}
use ai_secure_collaboration.Api.Routers.{
  ChatRequest, create_chat_room, list_chat_rooms, get_chat_history, UsersRequest, get_my_profile,
  test_admin_route, chat_endpoint, users_endpoint,
}
use ai_secure_collaboration.Api.Routers.Rosters.{SameRosters, opened, answered}

module _ (p : Platform) where
  module _ (now : ℕ) (task_id : Str) (current_user : User) (d : Database p.sql)
      (cache : p.redis.State) where
    create_room-SameRosters :
        (workspace_id : ℕ) (name : Str)
        → SameRosters p d
            (Chat.create_room p.sql p.redis now workspace_id name current_user.id
              (opened p d cache)).1.durable
    unfolding Chat.create_room Chat.verify_chat_membership create commit Repositories.refresh
    create_room-SameRosters workspace_id name =
        let make : ℕ → ChatRoom =
          λ id. record { id = id; name = name; workspace_id = workspace_id; created_at = now } in
        elim (Option-cases (get_by_workspace_and_user p.sql workspace_id current_user.id d)) [
          | inl f ↦ rw f (refl, refl)
          | inr (m, f) ↦ elim (Option-cases (p.sql.insert room_schema make d.rooms)) [
            | inl clash ↦ rw f (rw clash (refl, refl))
            | inr ((row, t), k) ↦ elim (Bool-cases (p.sql.reloads room_schema row.id t)) [
              | inl there ↦ rw f (rw k (rw there (refl, refl)))
              | inr gone ↦ rw f (rw k (rw gone (refl, refl)))
            ]
          ]
        ]

    list_rooms-SameRosters :
        (workspace_id : ℕ)
        → SameRosters p d
            (Chat.list_rooms p.sql p.redis workspace_id current_user.id
              (opened p d cache)).1.durable
    unfolding Chat.list_rooms Chat.verify_chat_membership
    list_rooms-SameRosters workspace_id =
        elim (Option-cases (get_by_workspace_and_user p.sql workspace_id current_user.id d)) [
          | inl f ↦ rw f (refl, refl)
          | inr (m, f) ↦ rw f (refl, refl)
        ]

    history-SameRosters :
        (room_id limit : ℕ)
        → SameRosters p d
            (Chat.get_room_history p.sql p.redis room_id current_user.id limit
              (opened p d cache)).1.durable
    unfolding Chat.get_room_history Chat.verify_chat_membership
    history-SameRosters room_id limit =
        elim (Option-cases (get p.sql (room_repo p.sql) room_id d)) [
          | inl e ↦ rw e (refl, refl)
          | inr (room, e) ↦
              elim (Option-cases
                (get_by_workspace_and_user p.sql room.workspace_id current_user.id d)) [
                  | inl f ↦ rw e (rw f (refl, refl))
                  | inr (m, f) ↦ rw e (rw f (refl, refl))
                ]
        ]

    pub chat-SameRosters :
        (request : ChatRequest)
        → SameRosters p d
            (chat_endpoint p now task_id current_user request (opened p d cache)).1.durable
    unfolding chat_endpoint
    chat-SameRosters (create_chat_room workspace_id r) = elim (Bool-cases (is_chat_room_create r)) [
      | inr broken ↦ rw broken (refl, refl)
      | inl valid ↦ rw valid (
          answered p one_room
            (Chat.create_room p.sql p.redis now workspace_id r.name current_user.id)
            (opened p d cache) (create_room-SameRosters workspace_id r.name))
    ]
    chat-SameRosters (list_chat_rooms workspace_id) =
        answered p rooms (Chat.list_rooms p.sql p.redis workspace_id current_user.id)
          (opened p d cache) (list_rooms-SameRosters workspace_id)
    chat-SameRosters (get_chat_history room_id limit) =
        answered p messages (Chat.get_room_history p.sql p.redis room_id current_user.id limit)
          (opened p d cache) (history-SameRosters room_id limit)

    pub users-SameRosters :
        (request : UsersRequest)
        → SameRosters p d
            (users_endpoint p now task_id current_user request (opened p d cache)).1.durable
    unfolding users_endpoint check_role
    users-SameRosters get_my_profile = (refl, refl)
    users-SameRosters test_admin_route =
        elim (Bool-cases (role_in current_user.role (UserRole.admin ∷ []))) [
          | inl e ↦ rw e (refl, refl)
          | inr e ↦ rw e (refl, refl)
        ]
