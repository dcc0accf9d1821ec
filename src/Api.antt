-- ===== src/Api.antt =====
-- The HTTP API: backend/app/api/v1. A request meets FastAPI's checks of its body and `Depends`; each
-- opens a session, which is closed in the end.
pub mod Routers
use ai_secure_collaboration.Prelude.{Option, none, some, ℕ, Bool, not, Str, List}
use ai_secure_collaboration.External.Sql.{Sql}
use ai_secure_collaboration.External.Redis.{Redis}
use ai_secure_collaboration.External.Json.{Json}
use ai_secure_collaboration.External.Numerals.{Numerals}
use ai_secure_collaboration.Core.Exceptions.{Error}
use ai_secure_collaboration.Core.Action.{Action, Result, ok, err, raise_if}
use ai_secure_collaboration.Models.{
  Database, User, Workspace, WorkspaceMember, Note, ChatRoom, ChatMessage,
}
use ai_secure_collaboration.Repositories.{Session}
use ai_secure_collaboration.Services.Auth.{Jwt, Settings, get_current_user}

-- What the application runs on: `hash` and `verify` are those of passwords, `is_email` is the test of
-- `EmailStr`, and `invalid` answers a body that breaks a rule of its schema.
pub record Platform : Type 1 where
  pub sql : Sql
  pub redis : Redis
  pub json : Json
  pub jwt : Jwt
  pub settings : Settings
  pub numerals : Numerals
  pub hash : Str → Str
  pub verify : Str → Str → Bool
  pub lower : Str → Str
  pub like : Str → Str → Bool
  pub is_email : Str → Bool
  pub invalid : Error

-- `app.schemas.token.Token`
pub record Token : Type 0 where
  pub access_token : Str
  pub refresh_token : Str

-- `app.schemas.pagination.Page`
pub record Page : Type 0 where
  pub items : List Note
  pub total : ℕ
  pub limit : ℕ
  pub offset : ℕ

-- What the endpoints return.
pub data Response : Type 0 where
  no_content : Response
  one_user : User → Response
  tokens : Token → Response
  one_workspace : Workspace → Response
  workspaces : List Workspace → Response
  one_member : WorkspaceMember → Response
  members : List WorkspaceMember → Response
  one_note : Note → Response
  note_page : Page → Response
  one_room : ChatRoom → Response
  rooms : List ChatRoom → Response
  messages : List ChatMessage → Response
  welcome_admin : Str → Response

module _ (p : Platform) where
  abbrev pub S : Type 0
  S = Session p.sql p.redis

  -- What outlives a request.
  pub record Server : Type 0 where
    pub db : Database p.sql
    pub cache : p.redis.State

  -- `get_current_user` on the session of the request
  unfoldable pub authenticated : ℕ → Str → Action S User
  authenticated now token s = (get_current_user p.sql p.jwt p.settings p.numerals now token s.db, s)

  abbrev pub validated : Bool → Action S (Unit {0})
  validated valid = raise_if (not valid) p.invalid

  unfoldable pub or_cache : p.redis.State → Option p.redis.State → p.redis.State
  or_cache cache none = cache
  or_cache cache (some cache') = cache'

  -- `get_db`: what was not committed is dropped.
  unfoldable pub in_session : {A : Type 0} → Action S A → Action Server A
  unfolding or_cache
  in_session handler server =
      let (r, s) =
        handler (record { db = server.db; durable = server.db; cache = some server.cache }) in
      (r, record { db = s.durable; cache = or_cache server.cache s.cache })
