-- ===== src/Services/Endpoints.antt =====
-- The handlers of backend/app/api/v1/endpoints/jobs.py, the transcript that
-- backend/app/api/v1/endpoints/ai.py sends to the language model, and the handshake of
-- backend/app/websocket/endpoints.py.
pub mod Handshake
pub mod Search
pub mod Summary
pub mod Health
pub mod Transcript
pub mod Tests
use ai_secure_collaboration.Prelude.{
  ℕ, Bool, true, false, not, Option, none, some, List, [], ◌∷◌, ◌++◌, Str, codes, is_empty, reverse,
  filter, head?, ◌==◌, if◌then◌else◌,
}
use ai_secure_collaboration.External.Sql.{Sql}
use ai_secure_collaboration.External.Redis.{Redis, queue_dlq}
use ai_secure_collaboration.External.Json.{Json, Payload}
use ai_secure_collaboration.Core.Exceptions.{Error, not_found, http_exception}
use ai_secure_collaboration.Core.Action.{
  Action, Result, ok, err, pure, gets, raise, or_raise, raise_if, modify, ◌>>=◌, ◌>>◌,
}
use ai_secure_collaboration.Models.{User, ChatMessage, Database}
use ai_secure_collaboration.Repositories.{
  Session, user_repo, room_repo, get, get_by_workspace_and_user,
}
use ai_secure_collaboration.Worker.Queue.{enqueue}
use ai_secure_collaboration.Services.Workspaces.{is_found}
use ai_secure_collaboration.External.Numerals.{Numerals}
use ai_secure_collaboration.Services.Auth.{Jwt, Settings, subject_of, access_type, user_by_number}
use ai_secure_collaboration.Services.Chat.{latest_messages}

module _ (redis : Redis) (json : Json) where
  -- Payloads that do not decode are passed over.
  unfoldable pub decoded : List Str → List Payload
  decoded [] = []
  decoded (item ∷ items) =
      let tasks = decoded items in
      elim (json.loads item) [ none ↦ tasks | some payload ↦ payload ∷ tasks ]

  -- `lrange("queue:dlq", 0, -1)`, from head to tail
  unfoldable pub get_dlq_tasks : redis.State → List Payload
  unfolding decoded
  get_dlq_tasks s = decoded ((redis.view s).lists queue_dlq)

  unfoldable pub trigger_simulated_failure : ℕ → Str → redis.State → redis.State
  trigger_simulated_failure now task_id s =
      (enqueue redis json now task_id (codes "mock_failed_task") none none none 2 s).1

pub ai_boundary : Error
ai_boundary =
    http_exception 403
      (codes "Access Denied: You must be a member of this workspace to access its AI context.")
      false

module _ (sql : Sql) (redis : Redis) where
  unfoldable pub verify_ai_membership : ℕ → ℕ → Action (Session sql redis) (Unit {0})
  verify_ai_membership workspace_id user_id = do
    membership ← gets (λ s. get_by_workspace_and_user sql workspace_id user_id s.db)
    raise_if (not (is_found membership)) ai_boundary

  -- The checks of `summarize_chat`, and the messages of the transcript in the order of its lines.
  unfoldable pub transcript_messages :
      ℕ → ℕ → Option ℕ → Action (Session sql redis) (List ChatMessage)
  unfolding verify_ai_membership
  transcript_messages room_id current_user_id limit = do
    found ← gets (λ s. get sql (room_repo sql) room_id s.db)
    room ← or_raise found (not_found (codes "Chat room not found."))
    verify_ai_membership room.workspace_id current_user_id
    messages ← gets (λ s. latest_messages sql room_id limit s.db)
    pure (reverse messages)

module _ (sql : Sql) (jwt : Jwt) (settings : Settings) (numerals : Numerals) where
  -- The two checks in the database; `none` is a socket that is closed with a policy violation.
  unfoldable pub member_gate : ℕ → ℕ → Database sql → User → Option User
  member_gate workspace_id user_id d user =
      if is_found (get_by_workspace_and_user sql workspace_id user_id d) then some user else none

  unfoldable pub user_gate : ℕ → ℕ → Database sql → Option User → Option User
  unfolding member_gate
  user_gate workspace_id user_id d none = none
  user_gate workspace_id user_id d (some user) =
      if user.is_active then member_gate workspace_id user_id d user else none

  unfoldable pub number_gate : ℕ → Database sql → Option (Option ℕ) → Option User
  unfolding user_gate
  number_gate workspace_id d (some (some user_id)) =
      user_gate workspace_id user_id d (get sql (user_repo sql) user_id d)
  number_gate workspace_id d _ = none

  unfoldable pub subject_gate : ℕ → Database sql → Option Str → Option User
  unfolding number_gate
  subject_gate workspace_id d none = none
  subject_gate workspace_id d (some user_id_str) =
      number_gate workspace_id d (numerals.number user_id_str)

  -- The handshake for a workspace and a room: the user whose socket is accepted.
  unfoldable pub handshake : ℕ → Option Str → ℕ → ℕ → Database sql → Option User
  unfolding subject_gate subject_of
  handshake now none workspace_id room_id d = none
  handshake now (some token) workspace_id room_id d =
      if is_empty token
      then none
      else subject_gate workspace_id d
          (subject_of access_type (jwt.decode now token settings.jwt_secret_key))
