-- ===== src/Api/Routers.antt =====
-- The workspaces, notes, chat, users and auth routers of backend/app/api/v1/endpoints: one request for each endpoint,
-- and its handler.

pub mod Rosters
pub mod Ownership
pub mod Admission
mod Tests
pub mod Reachable
use ai_secure_collaboration.Prelude.{codes, ◌++◌, ◌⊎◌, inl, inr, Option, ℕ, Str, [], ◌∷◌}
use ai_secure_collaboration.Core.Action.{Action, pure, ◌>>=◌, ◌>>◌}
use ai_secure_collaboration.Models.{User, UserRole}
use ai_secure_collaboration.Schemas.{
  UserCreate, WorkspaceCreate, is_workspace_create, WorkspaceMemberAdd, is_member_add, NoteCreate,
  is_note_create, NoteUpdate, is_note_update, ChatRoomCreate, is_chat_room_create, PageParams,
  is_page_params, is_user_create,
}
use ai_secure_collaboration.Services.Notifications.{or_text}
use ai_secure_collaboration.Services.Auth.{
  check_role, authenticate_user, login_user, logout_user, refresh_session,
}
use ai_secure_collaboration.Services.Users.{register_user}
use ai_secure_collaboration.Services.Workspaces
use ai_secure_collaboration.Services.Notes
use ai_secure_collaboration.Services.Chat
use ai_secure_collaboration.Api.{
  Platform, S, Response, authenticated, validated, no_content, one_user, one_workspace, workspaces,
  one_member, members, one_note, note_page, one_room, rooms, messages, welcome_admin, Server,
  tokens, in_session,
}

-- endpoints/workspaces.py
pub data WorkspacesRequest : Type 0 where
  create_workspace : WorkspaceCreate → WorkspacesRequest
  list_workspaces : WorkspacesRequest
  invite_member : ℕ → WorkspaceMemberAdd → WorkspacesRequest
  list_members : ℕ → WorkspacesRequest

-- endpoints/notes.py
pub data NotesRequest : Type 0 where
  create_note : ℕ → NoteCreate → NotesRequest
  list_notes : ℕ → (tag search : Option Str) → PageParams → NotesRequest
  get_note : ℕ → NotesRequest
  update_note : ℕ → NoteUpdate → NotesRequest
  delete_note : ℕ → NotesRequest

-- endpoints/chat.py
pub data ChatRequest : Type 0 where
  create_chat_room : ℕ → ChatRoomCreate → ChatRequest
  list_chat_rooms : ℕ → ChatRequest
  get_chat_history : (room_id limit : ℕ) → ChatRequest

-- endpoints/users.py
pub data UsersRequest : Type 0 where
  get_my_profile test_admin_route : UsersRequest

-- endpoints/auth.py
pub data AuthRequest : Type 0 where
  register : UserCreate → AuthRequest
  login : (username password : Str) → AuthRequest
  logout : (token : Str) → AuthRequest
  refresh : (refresh_token : Str) → AuthRequest

-- The endpoints of the workspaces, notes, chat and users routers, which all have `Depends(get_current_user)`.
pub data Request : Type 0 where
  on_workspaces : WorkspacesRequest → Request
  on_notes : NotesRequest → Request
  on_chat : ChatRequest → Request
  on_users : UsersRequest → Request

module _ (p : Platform) (now : ℕ) (task_id : Str) where
  unfoldable pub workspaces_endpoint : User → WorkspacesRequest → Action (S p) Response
  workspaces_endpoint current_user (create_workspace workspace_in) = do
    validated p (is_workspace_create workspace_in)
    w ←
        Workspaces.create_workspace p.sql p.redis workspace_in.name workspace_in.description
          current_user.id
    pure (one_workspace w)
  workspaces_endpoint current_user list_workspaces = do
    ws ← Workspaces.list_user_workspaces p.sql p.redis current_user.id
    pure (workspaces ws)
  workspaces_endpoint current_user (invite_member workspace_id member_in) = do
    validated p (is_member_add p.is_email member_in)
    m ←
        Workspaces.add_workspace_member p.sql p.redis p.json now task_id workspace_id
          member_in.email member_in.role current_user.id
    pure (one_member m)
  workspaces_endpoint current_user (list_members workspace_id) = do
    ms ← Workspaces.list_workspace_members p.sql p.redis workspace_id current_user.id
    pure (members ms)

  unfoldable pub notes_endpoint : User → NotesRequest → Action (S p) Response
  notes_endpoint current_user (create_note workspace_id note_in) = do
    validated p (is_note_create note_in)
    n ←
        Notes.create_note p.sql p.redis p.json p.lower p.numerals.str now task_id workspace_id
          note_in.title note_in.content current_user.id note_in.tags
    pure (one_note n)
  notes_endpoint current_user (list_notes workspace_id tag search page_params) = do
    validated p (is_page_params page_params)
    found ←
        Notes.list_notes_in_workspace p.sql p.redis p.lower p.like workspace_id current_user.id
          page_params.offset page_params.limit tag search
    pure (
        note_page (record {
          items = found.0;
          total = found.1;
          limit = page_params.limit;
          offset = page_params.offset;
        }))
  notes_endpoint current_user (get_note note_id) = do
    n ← Notes.get_note p.sql p.redis note_id current_user.id
    pure (one_note n)
  notes_endpoint current_user (update_note note_id note_in) = do
    validated p (is_note_update note_in)
    n ←
        Notes.update_note p.sql p.redis p.json p.lower p.numerals.str now task_id note_id
          note_in.title note_in.content note_in.tags current_user.id
    pure (one_note n)
  notes_endpoint current_user (delete_note note_id) = do
    Notes.delete_note p.sql p.redis note_id current_user.id
    pure no_content

  unfoldable pub chat_endpoint : User → ChatRequest → Action (S p) Response
  chat_endpoint current_user (create_chat_room workspace_id room_in) = do
    validated p (is_chat_room_create room_in)
    r ← Chat.create_room p.sql p.redis now workspace_id room_in.name current_user.id
    pure (one_room r)
  chat_endpoint current_user (list_chat_rooms workspace_id) = do
    rs ← Chat.list_rooms p.sql p.redis workspace_id current_user.id
    pure (rooms rs)
  chat_endpoint current_user (get_chat_history room_id limit) = do
    ms ← Chat.get_room_history p.sql p.redis room_id current_user.id limit
    pure (messages ms)

  unfoldable pub users_endpoint : User → UsersRequest → Action (S p) Response
  users_endpoint current_user get_my_profile = pure (one_user current_user)
  users_endpoint current_user test_admin_route = do
    admin ← λ s. (check_role (UserRole.admin ∷ []) current_user, s)
    pure (
        welcome_admin (
          codes "Welcome Admin "
          ++ (or_text admin.full_name admin.email ++ codes "! RBAC validation succeeded.")))

  unfoldable pub endpoint : User → Request → Action (S p) Response
  unfolding workspaces_endpoint notes_endpoint chat_endpoint users_endpoint
  endpoint current_user (on_workspaces request) = workspaces_endpoint current_user request
  endpoint current_user (on_notes request) = notes_endpoint current_user request
  endpoint current_user (on_chat request) = chat_endpoint current_user request
  endpoint current_user (on_users request) = users_endpoint current_user request

  unfoldable pub protected : {A : Type 0} → Str → (User → Action (S p) A) → Action (S p) A
  unfolding authenticated
  protected token handler = do current_user ← authenticated p now token; handler current_user

  -- A method of the service that needs Redis only.
  unfoldable pub on_cache : {A : Type 0} → Action p.redis.State A → Action (Server p) A
  on_cache m server = let (r, cache) = m server.cache in (r, record server { cache = cache })

  unfoldable pub token_pair : Str × Str → Response
  token_pair pair = tokens (record { access_token = pair.0; refresh_token = pair.1 })

  unfoldable pub auth_endpoint : AuthRequest → Action (Server p) Response
  unfolding in_session authenticated on_cache token_pair
  auth_endpoint (register user_in) = in_session p (do
    validated p (is_user_create p.is_email user_in)
    user ←
        register_user p.sql p.redis p.json p.hash now task_id user_in.email user_in.password
          user_in.full_name
    pure (one_user user))
  auth_endpoint (login username password) = do
    user ← λ server. (authenticate_user p.sql p.verify username password server.db, server)
    pair ← on_cache (login_user p.sql p.jwt p.settings p.numerals p.redis now user)
    pure (token_pair pair)
  auth_endpoint (logout token) = do
    current_user ← in_session p (authenticated p now token)
    on_cache (logout_user p.sql p.jwt p.settings p.numerals p.redis current_user.id)
    pure no_content
  auth_endpoint (refresh refresh_token) = do
    pair ← λ server.
        on_cache
          (refresh_session p.sql p.jwt p.settings p.numerals p.redis now refresh_token server.db)
          server
    pure (token_pair pair)

  -- A request to the application, with the bearer token where one is needed.
  unfoldable pub serve : Str → AuthRequest ⊎ Request → Action (Server p) Response
  unfolding auth_endpoint endpoint protected in_session
  serve token (inl request) = auth_endpoint request
  serve token (inr request) =
      in_session p (protected token (λ current_user. endpoint current_user request))
