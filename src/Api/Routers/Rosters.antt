-- ===== src/Api/Routers/Rosters.antt =====
-- What it means to leave the workspaces and their members alone.
pub mod OnNotes
pub mod OnChat
use ai_secure_collaboration.Prelude.{
  ℕ, ◌≡◌, refl, ap, inl, inr, Option, some, List, [], ◌∷◌, Str, Option-cases, Bool-cases,
}
use ai_secure_collaboration.Core.Action.{Action, ok, continue, Result-cases}
use ai_secure_collaboration.Models.{User, UserRole, Note, ChatRoom, Database, room_schema}
use ai_secure_collaboration.Repositories.{
  get, create, commit, note_repo, room_repo, get_by_workspace_and_user,
}
use ai_secure_collaboration.Schemas.{
  is_note_create, is_note_update, is_page_params, is_chat_room_create,
}
use ai_secure_collaboration.Services.Auth.{check_role, role_in}
use ai_secure_collaboration.Services.Notes
use ai_secure_collaboration.Services.Notes.Access.{delete_note-Deleted, refused_deletion}
use ai_secure_collaboration.Services.Notes.Writing.{create_note-Written, create_note_atomic}
use ai_secure_collaboration.Services.Notes.Editing.{update_note-frame}
use ai_secure_collaboration.Services.Chat
use ai_secure_collaboration.Api.{
  Platform, S, Response, one_note, note_page, no_content, one_room, rooms, messages,
}
use ai_secure_collaboration.Api.Routers.{
  NotesRequest, create_note, list_notes, get_note, update_note, delete_note, ChatRequest,
  create_chat_room, list_chat_rooms, get_chat_history, UsersRequest, get_my_profile,
  test_admin_route, notes_endpoint, chat_endpoint, users_endpoint,
}

module _ (p : Platform) where
  -- The same workspaces with the same members.
  abbrev pub SameRosters : Database p.sql → Database p.sql → Type 0
  SameRosters d d' = (d'.workspaces ≡ d.workspaces) × (d'.members ≡ d.members)

  -- The session that a request begins with.
  abbrev pub opened : Database p.sql → p.redis.State → S p
  opened d cache = record { db = d; durable = d; cache = some cache }

  -- What is answered does not matter.
  pub answered :
      {A B : Type 0} (f : A → B) (m : Action (S p) A) (s : S p)
      → SameRosters s.durable (m s).1.durable
      → SameRosters s.durable
          (let (r, s') = m s in continue r (λ a s''. (ok (f a), s'')) s').1.durable
  answered f m s h = elim (Result-cases (m s)) [
    | inl (e, s', r) ↦ rw r (rw r at h)
    | inr (a, s', r) ↦ rw r (rw r at h)
  ]
