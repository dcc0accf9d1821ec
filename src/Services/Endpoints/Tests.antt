-- ===== src/Services/Endpoints/Tests.antt =====
-- The theorems about the endpoints, at a room with two messages and a socket of its member.
use ai_secure_collaboration.Prelude.{
  ℕ, ◌≡◌, refl, true, none, some, [], ◌∷◌, Str, codes, In, filter, str_eq, is_empty,
}
use ai_secure_collaboration.External.Concrete.LocalRedis.{local_redis}
use ai_secure_collaboration.External.Concrete.LocalSql.{local_sql, sort_desc}
use ai_secure_collaboration.Core.Action.{ok}
use ai_secure_collaboration.Models.{
  User, UserRole, WorkspaceMember, WorkspaceRole, ChatMessage, Database,
}
use ai_secure_collaboration.Repositories.{Session}
use ai_secure_collaboration.Services.Auth.{
  Settings, access_type, subject_of, create_access_token, access_claims,
}
use ai_secure_collaboration.External.Concrete.Tally.{local_numerals, tally, count, number}
use ai_secure_collaboration.Services.Auth.LocalJwt.{
  local_jwt, encode, decode, parse, is_valid, read_claims,
}
use ai_secure_collaboration.Services.Chat.{latest_messages}
use ai_secure_collaboration.Services.Endpoints.{
  transcript_messages, verify_ai_membership, handshake, subject_gate, number_gate, user_gate,
  member_gate,
}
use ai_secure_collaboration.Services.Endpoints.Summary.{ChatSummary, summary_prompt}
use ai_secure_collaboration.Services.Endpoints.Handshake.{handshake_guarded}

abbrev pub keys : Settings
keys = record {
  jwt_secret_key = codes "access-key";
  jwt_refresh_secret_key = codes "refresh-key";
  access_token_expire_minutes = 30;
  refresh_token_expire_days = 7;
}

abbrev pub member_account : User
member_account = record {
  id = 3;
  email = 1 ∷ [];
  hashed_password = codes "hash";
  full_name = none;
  role = UserRole.member;
  is_active = true;
}

abbrev pub line : ℕ → ChatMessage
line at = record { id = at; room_id = 4; user_id = 3; content = codes "hi"; created_at = at }

abbrev pub chat_database : Database local_sql
chat_database = record {
  users = member_account ∷ [];
  workspaces = [];
  members = record { id = 1; workspace_id = 7; user_id = 3; role = WorkspaceRole.member } ∷ [];
  tags = [];
  notes = [];
  chunks = [];
  rooms = record { id = 4; name = codes "general"; workspace_id = 7; created_at = 2 } ∷ [];
  messages = line 1 ∷ line 2 ∷ [];
}

abbrev chat_session : Session local_sql local_redis
chat_session = record { db = chat_database; durable = chat_database; cache = none }

summary_run :
    transcript_messages local_sql local_redis 4 3 (some 5) chat_session
    ≡ (ok (line 2 ∷ line 1 ∷ []), chat_session)
unfolding transcript_messages verify_ai_membership latest_messages filter sort_desc
summary_run = refl

abbrev digest_answer : ChatSummary
digest_answer = record {
  room_id = 4;
  summary = summary_prompt local_numerals local_sql chat_database (line 2 ∷ line 1 ∷ []);
  message_count = 2;
}

abbrev pub bearer : Str
bearer = create_access_token local_jwt keys 10 (local_numerals.str 3)

pub handshake_run :
    handshake local_sql local_jwt keys local_numerals 20 (some bearer) 7 4 chat_database
    ≡ some member_account
unfolding handshake subject_gate number_gate user_gate member_gate subject_of create_access_token
    access_claims encode decode parse is_valid read_claims number tally count str_eq is_empty codes
    filter
handshake_run = refl

handshake_guarded_example :
    In member_account chat_database.users
    × (member_account.is_active ≡ true)
    × ((subject : Str) × (subject_of access_type (local_jwt.decode 20 bearer keys.jwt_secret_key)
          ≡ some subject)
        × (local_numerals.number subject ≡ some (some 3)))
    × ((mine : WorkspaceMember) × In mine chat_database.members
        × (mine.workspace_id ≡ 7)
        × (mine.user_id ≡ 3))
handshake_guarded_example =
    handshake_guarded local_sql local_jwt keys local_numerals 20 bearer 7 4 chat_database
      member_account handshake_run
