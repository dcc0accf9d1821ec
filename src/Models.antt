-- ===== src/Models.antt =====
-- The entities of backend/app/models, their constraints, and the tables together. A note carries its
-- tags; a time is a number.
pub mod Vectors
use ai_secure_collaboration.Prelude.{ℕ, Bool, false, ◌&&◌, Option, List, Str, str_eq, ◌==◌}
use ai_secure_collaboration.External.Sql.{Schema, Sql}

pub data UserRole : Type 0 where
  admin member : UserRole

pub record User : Type 0 where
  pub id : ℕ
  pub email : Str
  pub hashed_password : Str
  pub full_name : Option Str
  pub role : UserRole
  pub is_active : Bool

pub data WorkspaceRole : Type 0 where
  owner admin member : WorkspaceRole

pub record Workspace : Type 0 where
  pub id : ℕ
  pub name : Str
  pub description : Option Str
  pub owner_id : ℕ

pub record WorkspaceMember : Type 0 where
  pub id : ℕ
  pub workspace_id : ℕ
  pub user_id : ℕ
  pub role : WorkspaceRole

pub record Tag : Type 0 where
  pub id : ℕ
  pub name : Str

pub record Note : Type 0 where
  pub id : ℕ
  pub title : Str
  pub content : Option Str
  pub workspace_id : ℕ
  pub owner_id : ℕ
  pub created_at : ℕ
  pub tags : List Tag

pub record NoteChunk : Type 0 where
  pub id : ℕ
  pub note_id : ℕ
  pub chunk_index : ℕ
  pub content : Str
  -- as `PGVector` gives it to the database
  pub embedding : Str

pub record ChatRoom : Type 0 where
  pub id : ℕ
  pub name : Str
  pub workspace_id : ℕ
  pub created_at : ℕ

pub record ChatMessage : Type 0 where
  pub id : ℕ
  pub room_id : ℕ
  pub user_id : ℕ
  pub content : Str
  pub created_at : ℕ

-- `email` is unique.
abbrev pub user_schema : Schema User
user_schema = record { id_of = λ u. u.id; conflicts = λ u v. str_eq u.email v.email }

abbrev pub workspace_schema : Schema Workspace
workspace_schema = record { id_of = λ w. w.id; conflicts = λ v w. false }

-- uq_workspace_member_workspace_user
abbrev pub member_schema : Schema WorkspaceMember
member_schema = record {
  id_of = λ m. m.id;
  conflicts = λ m n. m.workspace_id == n.workspace_id && m.user_id == n.user_id;
}

-- `name` is unique.
abbrev pub tag_schema : Schema Tag
tag_schema = record { id_of = λ t. t.id; conflicts = λ s t. str_eq s.name t.name }

abbrev pub note_schema : Schema Note
note_schema = record { id_of = λ n. n.id; conflicts = λ m n. false }

abbrev pub room_schema : Schema ChatRoom
room_schema = record { id_of = λ r. r.id; conflicts = λ q r. false }

abbrev pub message_schema : Schema ChatMessage
message_schema = record { id_of = λ m. m.id; conflicts = λ l m. false }

abbrev pub chunk_schema : Schema NoteChunk
chunk_schema = record { id_of = λ c. c.id; conflicts = λ b c. false }

pub record Database (sql : Sql) : Type 0 where
  pub users : sql.Table User
  pub workspaces : sql.Table Workspace
  pub members : sql.Table WorkspaceMember
  pub tags : sql.Table Tag
  pub notes : sql.Table Note
  pub chunks : sql.Table NoteChunk
  pub rooms : sql.Table ChatRoom
  pub messages : sql.Table ChatMessage
