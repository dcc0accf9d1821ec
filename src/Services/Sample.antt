-- ===== src/Services/Sample.antt =====
-- A workspace with an owner, a note and a room, and a user to invite, for the tests of the services.
use ai_secure_collaboration.Prelude.{ℕ, true, none, [], ◌∷◌, Str, codes}
use ai_secure_collaboration.External.Concrete.LocalRedis.{local_redis}
use ai_secure_collaboration.External.Concrete.LocalSql.{local_sql}
use ai_secure_collaboration.Models.{
  User, UserRole, WorkspaceMember, WorkspaceRole, Note, ChatRoom, ChatMessage, Database,
}
use ai_secure_collaboration.Repositories.{Session}

abbrev pub person : ℕ → Str → User
person id email = record {
  id = id;
  email = email;
  hashed_password = codes "hash";
  full_name = none;
  role = UserRole.member;
  is_active = true;
}

abbrev pub owner_row : WorkspaceMember
owner_row = record { id = 1; workspace_id = 1; user_id = 1; role = WorkspaceRole.owner }

abbrev pub note : Note
note = record {
  id = 5;
  title = codes "plan";
  content = none;
  workspace_id = 1;
  owner_id = 1;
  created_at = 3;
  tags = [];
}

abbrev pub room : ChatRoom
room = record { id = 4; name = codes "general"; workspace_id = 1; created_at = 2 }

abbrev pub message : ℕ → ChatMessage
message id = record { id = id; room_id = 4; user_id = 1; content = codes "hi"; created_at = id }

abbrev pub database : Database local_sql
database = record {
  users = person 1 (1 ∷ []) ∷ person 2 (2 ∷ []) ∷ [];
  workspaces = record { id = 1; name = codes "team"; description = none; owner_id = 1 } ∷ [];
  members = owner_row ∷ [];
  tags = [];
  notes = note ∷ [];
  chunks =
      record { id = 1; note_id = 5; chunk_index = 0; content = codes "text"; embedding = [] } ∷ [];
  rooms = room ∷ [];
  messages = message 1 ∷ message 2 ∷ message 3 ∷ [];
}

abbrev pub session : Session local_sql local_redis
session = record { db = database; durable = database; cache = none }

abbrev pub invited_row : WorkspaceMember
invited_row = record { id = 2; workspace_id = 1; user_id = 2; role = WorkspaceRole.admin }
