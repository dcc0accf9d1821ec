-- ===== src/Repositories.antt =====
-- The database session and backend/app/repositories: the generic repository and the queries of each
-- entity. A session reads its own uncommitted writes.
use ai_secure_collaboration.Prelude.{
  ℕ, Bool, ◌&&◌, Option, none, some, List, [], ◌∷◌, filter, head?, take, drop, Str, str_eq, ◌==◌,
  ◌++◌, if◌then◌else◌,
}
use ai_secure_collaboration.External.Sql.{Sql, Schema}
use ai_secure_collaboration.External.Redis.{Redis}
use ai_secure_collaboration.Core.Exceptions.{integrity_error, database_error}
use ai_secure_collaboration.Core.Action.{Action, ok, err}
use ai_secure_collaboration.Models.{
  User, user_schema, Workspace, workspace_schema, WorkspaceMember, member_schema, Tag, tag_schema,
  Note, note_schema, NoteChunk, chunk_schema, ChatRoom, room_schema, ChatMessage, message_schema,
  Database,
}

-- `db` is what the session sees, `durable` what it has committed; `cache` is
-- `redis_service.client`, if it is there.
pub record Session (sql : Sql) (redis : Redis) : Type 0 where
  pub db : Database sql
  pub durable : Database sql
  pub cache : Option redis.State

-- One repository: its constraints and its table.
pub record Repository (sql : Sql) (A : Type 0) : Type 0 where
  pub schema : Schema A
  pub table : Database sql → sql.Table A
  pub with_table : sql.Table A → Database sql → Database sql

module _ (sql : Sql) where
  abbrev pub user_repo : Repository sql User
  user_repo = record {
    schema = user_schema;
    table = λ d. d.users;
    with_table = λ t d. record d { users = t };
  }

  abbrev pub workspace_repo : Repository sql Workspace
  workspace_repo = record {
    schema = workspace_schema;
    table = λ d. d.workspaces;
    with_table = λ t d. record d { workspaces = t };
  }

  abbrev pub member_repo : Repository sql WorkspaceMember
  member_repo = record {
    schema = member_schema;
    table = λ d. d.members;
    with_table = λ t d. record d { members = t };
  }

  abbrev pub tag_repo : Repository sql Tag
  tag_repo = record {
    schema = tag_schema;
    table = λ d. d.tags;
    with_table = λ t d. record d { tags = t };
  }

  abbrev pub note_repo : Repository sql Note
  note_repo = record {
    schema = note_schema;
    table = λ d. d.notes;
    with_table = λ t d. record d { notes = t };
  }

  abbrev pub chunk_repo : Repository sql NoteChunk
  chunk_repo = record {
    schema = chunk_schema;
    table = λ d. d.chunks;
    with_table = λ t d. record d { chunks = t };
  }

  abbrev pub room_repo : Repository sql ChatRoom
  room_repo = record {
    schema = room_schema;
    table = λ d. d.rooms;
    with_table = λ t d. record d { rooms = t };
  }

  abbrev pub message_repo : Repository sql ChatMessage
  message_repo = record {
    schema = message_schema;
    table = λ d. d.messages;
    with_table = λ t d. record d { messages = t };
  }

module _ (sql : Sql) {A : Type 0} (repo : Repository sql A) where
  open sql use {rows}

  -- `select(model).filter(condition)`, and its first row
  abbrev pub select : (A → Bool) → Database sql → List A
  select condition d = filter condition (rows (repo.table d))

  abbrev pub first : (A → Bool) → Database sql → Option A
  first condition d = head? (select condition d)

  -- `BaseRepository.get`
  abbrev pub get : ℕ → Database sql → Option A
  get id d = first (λ r. repo.schema.id_of r == id) d

  -- `BaseRepository.get_multi`
  unfoldable pub get_multi : ℕ → ℕ → Database sql → List A
  get_multi skip limit d = take limit (drop skip (rows (repo.table d)))

  module _ (redis : Redis) where
    -- The rows are written to the session's view; a violated constraint raises.
    unfoldable pub stored : Option (A × sql.Table A) → Action (Session sql redis) A
    stored none s = (err integrity_error, s)
    stored (some (row, t)) s = (ok row, record s { db = repo.with_table t s.db })

    -- `BaseRepository.create`
    unfoldable pub create : (ℕ → A) → Action (Session sql redis) A
    unfolding stored
    create make s = stored (sql.insert repo.schema make (repo.table s.db)) s

    unfoldable pub updated : A → Option (sql.Table A) → Action (Session sql redis) A
    updated obj none s = (err integrity_error, s)
    updated obj (some t) s = (ok obj, record s { db = repo.with_table t s.db })

    -- `BaseRepository.update`: the assignments are made on the object and on its row.
    unfoldable pub update : A → (A → A) → Action (Session sql redis) A
    unfolding updated
    update obj change s =
        updated (change obj)
          (sql.update repo.schema (repo.schema.id_of obj) change (repo.table s.db)) s

    -- `refresh` of the session, after a commit
    unfoldable pub refresh : A → Action (Session sql redis) A
    refresh obj s =
        if sql.reloads repo.schema (repo.schema.id_of obj) (repo.table s.db)
        then (ok obj, s)
        else (err database_error, s)

    unfoldable pub deleted : ℕ → Option A → Action (Session sql redis) (Option A)
    deleted id none s = (ok none, s)
    deleted id (some obj) s = (
      ok (some obj),
      record s {
        db = repo.with_table (sql.delete (λ r. repo.schema.id_of r == id) (repo.table s.db)) s.db;
      },
    )

    -- `BaseRepository.delete`
    unfoldable pub delete : ℕ → Action (Session sql redis) (Option A)
    unfolding deleted
    delete id s = deleted id (get id s.db) s

module _ (sql : Sql) (redis : Redis) where
  -- `await db.commit()`
  unfoldable pub commit : Action (Session sql redis) (Unit {0})
  commit s = (ok tt, record s { durable = s.db })

  -- The session is closed at the end of a request: what is not committed is gone.
  unfoldable pub close : Session sql redis → Session sql redis
  close s = record s { db = s.durable }

module _ (sql : Sql) where
  -- `UserRepository.get_by_email`
  abbrev pub get_by_email : Str → Database sql → Option User
  get_by_email email d = first sql (user_repo sql) (λ u. str_eq u.email email) d

  -- `WorkspaceMemberRepository.get_by_workspace_and_user`
  abbrev pub get_by_workspace_and_user : ℕ → ℕ → Database sql → Option WorkspaceMember
  get_by_workspace_and_user workspace_id user_id d =
      first sql (member_repo sql) (λ m. m.workspace_id == workspace_id && m.user_id == user_id) d

  -- `WorkspaceMemberRepository.get_members_by_workspace`
  unfoldable pub get_members_by_workspace : ℕ → Database sql → List WorkspaceMember
  get_members_by_workspace workspace_id d =
      select sql (member_repo sql) (λ m. m.workspace_id == workspace_id) d

  -- The join: a workspace comes once for each of its membership rows that meets the filter.
  unfoldable pub joined : List Workspace → List WorkspaceMember → List Workspace
  joined workspaces [] = []
  joined workspaces (m ∷ members) =
      filter (λ w. m.workspace_id == w.id) workspaces ++ joined workspaces members

  -- `WorkspaceRepository.get_workspaces_for_user`
  unfoldable pub get_workspaces_for_user : ℕ → Database sql → List Workspace
  get_workspaces_for_user user_id d =
      joined (sql.rows d.workspaces) (select sql (member_repo sql) (λ m. m.user_id == user_id) d)
