-- ===== src/Services/Notes.antt =====
-- `NoteService` of backend/app/services/note.py and the queries of backend/app/repositories/note.py.
-- `lower` is Python's case mapping.
pub mod Access
pub mod Pages
pub mod Tags
pub mod Tagging
pub mod Queueing
pub mod Writing
mod Tests
pub mod Editing
pub mod Retagging
pub mod Updating
use ai_secure_collaboration.Prelude.{
  ℕ, Bool, true, false, not, ◌&&◌, ◌||◌, Option, none, some, List, [], ◌∷◌, ◌++◌, length, filter,
  head?, take, drop, Str, codes, is_empty, strip, starts_with, str_eq, ◌==◌, if◌then◌else◌,
}
use ai_secure_collaboration.External.Sql.{Sql}
use ai_secure_collaboration.External.Redis.{Redis}
use ai_secure_collaboration.External.Json.{Json}
use ai_secure_collaboration.Core.Exceptions.{
  integrity_error, Error, insufficient_permissions_exception, not_found,
}
use ai_secure_collaboration.Core.Action.{
  Action, Result, ok, err, pure, gets, raise, or_raise, raise_if, modify, ◌>>=◌, ◌>>◌,
}
use ai_secure_collaboration.Models.{Tag, Note, NoteChunk, WorkspaceMember, Database}
use ai_secure_collaboration.Repositories.{
  Session, tag_repo, note_repo, get, first, select, create, update, delete, commit, refresh,
  get_by_workspace_and_user,
}
use ai_secure_collaboration.Worker.Queue.{enqueue}
use ai_secure_collaboration.Services.Workspaces.{is_manager, is_found}

pub note_not_found : Error
note_not_found = not_found (codes "Note not found.")

pub note_boundary : Error
note_boundary =
    insufficient_permissions_exception
      (codes "You must belong to this workspace to perform note operations.")

pub not_in_workspace : Error
not_in_workspace = insufficient_permissions_exception (codes "You do not belong to this workspace.")

pub delete_denied : Error
delete_denied =
    insufficient_permissions_exception
      (codes "Only the note owner or workspace admins can delete this note.")

-- `if cleaned.startswith("#"): cleaned = cleaned[1:]`
unfoldable pub drop_hash : Str → Str
drop_hash s = if starts_with s (35 ∷ []) then drop 1 s else s

module _ (lower : Str → Str) where
  -- `name.strip().lower()`
  unfoldable pub folded : Str → Str
  folded name = lower (strip name)

  unfoldable pub cleaned_name : Str → Str
  unfolding folded drop_hash
  cleaned_name name = drop_hash (folded name)

  module _ (sql : Sql) where
    -- `TagRepository.get_by_name`
    unfoldable pub get_by_name : Str → Database sql → Option Tag
    unfolding folded
    get_by_name name d = first sql (tag_repo sql) (λ t. str_eq t.name (folded name)) d

    module _ (redis : Redis) where
      unfoldable pub found_or_create : Str → Option Tag → Action (Session sql redis) Tag
      found_or_create name (some tag) = pure tag
      found_or_create name none =
          create sql (tag_repo sql) redis (λ id. record { id = id; name = name })

      -- `TagRepository.get_or_create_by_name`
      unfoldable pub get_or_create_by_name : Str → Action (Session sql redis) Tag
      unfolding cleaned_name get_by_name found_or_create
      get_or_create_by_name name = do
        tag ← gets (λ s. get_by_name (cleaned_name name) s.db)
        found_or_create (cleaned_name name) tag

      -- The loop over the tag names; blank names are passed over.
      unfoldable pub resolve_tags : List Str → Action (Session sql redis) (List Tag)
      resolve_tags [] = pure []
      resolve_tags (name ∷ names) =
          if is_empty (strip name)
          then resolve_tags names
          else do tag ← get_or_create_by_name name; rest ← resolve_tags names; pure (tag ∷ rest)

-- `query.filter(...)` on the search text: `like` is ILIKE with the text between wildcards.
unfoldable pub matches_search : (Str → Str → Bool) → Option Str → Note → Bool
matches_search like none n = true
matches_search like (some search) n =
    is_empty search
    || like search n.title
    || (elim n.content [ none ↦ false | some c ↦ like search c ])

unfoldable pub has_tag : Str → List Tag → Bool
has_tag name [] = false
has_tag name (t ∷ tags) = str_eq t.name name || has_tag name tags

-- The join with the tags, on the cleaned tag name.
unfoldable pub matches_tag : (Str → Str) → Option Str → Note → Bool
unfolding has_tag cleaned_name
matches_tag lower none n = true
matches_tag lower (some tag) n = is_empty tag || has_tag (cleaned_name lower tag) n.tags

module _ (sql : Sql) (lower : Str → Str) (like : Str → Str → Bool) where
  -- The conditions that both queries share.
  unfoldable pub page_condition : ℕ → Option Str → Option Str → Note → Bool
  page_condition workspace_id tag search n =
      n.workspace_id == workspace_id && matches_search like search n && matches_tag lower tag n

  -- `NoteRepository.get_paginated_notes`: the page and the total.
  unfoldable pub get_paginated_notes :
      ℕ → ℕ → ℕ → Option Str → Option Str → Database sql → List Note × ℕ
  unfolding page_condition
  get_paginated_notes workspace_id skip limit tag search d =
      let found = select sql (note_repo sql) (page_condition workspace_id tag search) d in
      (take limit (drop skip (sql.order_desc (λ n. n.created_at) found)), length found)

module _ (sql : Sql) (redis : Redis) where
  unfoldable pub verify_workspace_membership : Error → ℕ → ℕ → Action (Session sql redis) (Unit {0})
  verify_workspace_membership e workspace_id user_id = do
    membership ← gets (λ s. get_by_workspace_and_user sql workspace_id user_id s.db)
    raise_if (not (is_found membership)) e

  unfoldable pub get_note : ℕ → ℕ → Action (Session sql redis) Note
  unfolding verify_workspace_membership
  get_note note_id current_user_id = do
    found ← gets (λ s. get sql (note_repo sql) note_id s.db)
    note ← or_raise found note_not_found
    verify_workspace_membership note_boundary note.workspace_id current_user_id
    pure note

  unfoldable pub list_notes_in_workspace :
      (Str → Str)
      → (Str → Str → Bool)
      → ℕ
      → ℕ
      → ℕ
      → ℕ
      → Option Str
      → Option Str
      → Action (Session sql redis) (List Note × ℕ)
  unfolding verify_workspace_membership
  list_notes_in_workspace lower like workspace_id current_user_id skip limit tag search = do
    verify_workspace_membership note_boundary workspace_id current_user_id
    gets (λ s. get_paginated_notes sql lower like workspace_id skip limit tag search s.db)

  -- The rows that go with a note: ON DELETE CASCADE on its chunks.
  unfoldable pub cascade_chunks : ℕ → Database sql → Database sql
  cascade_chunks note_id d = record d { chunks = sql.delete (λ c. c.note_id == note_id) d.chunks }

  -- `note.owner_id != user and membership.role not in [OWNER, ADMIN]`
  unfoldable pub may_not_delete : Note → WorkspaceMember → ℕ → Bool
  may_not_delete note membership user_id =
      not (note.owner_id == user_id) && not (is_manager membership.role)

  unfoldable pub delete_note : ℕ → ℕ → Action (Session sql redis) (Unit {0})
  unfolding may_not_delete cascade_chunks
  delete_note note_id current_user_id = do
    found ← gets (λ s. get sql (note_repo sql) note_id s.db)
    note ← or_raise found note_not_found
    mine ← gets (λ s. get_by_workspace_and_user sql note.workspace_id current_user_id s.db)
    membership ← or_raise mine not_in_workspace
    raise_if (may_not_delete note membership current_user_id) delete_denied
    obj ← delete sql (note_repo sql) redis note.id
    modify (λ s. record s { db = cascade_chunks note.id s.db })
    commit sql redis

-- Two rows of `note_tags` with one key: a tag that stands twice among those that are added to a note.
unfoldable pub has_tag_id : ℕ → List Tag → Bool
has_tag_id id [] = false
has_tag_id id (t ∷ tags) = t.id == id || has_tag_id id tags

unfoldable pub repeats_tag : List Tag → Bool
unfolding has_tag_id
repeats_tag [] = false
repeats_tag (t ∷ tags) = has_tag_id t.id tags || repeats_tag tags

-- The tags that a note does not have yet.
unfoldable pub added_tags : List Tag → List Tag → List Tag
unfolding has_tag_id
added_tags old tags = filter (λ t. not (has_tag_id t.id old)) tags

module _ (sql : Sql) (redis : Redis) (json : Json) (lower : Str → Str) (show : ℕ → Str) where
  -- The `try` around the queue: nothing happens without a client. `show` is `str` on integers.
  unfoldable pub queue_embeddings : ℕ → Str → ℕ → Session sql redis → Session sql redis
  queue_embeddings now task_id note_id s = record s {
    cache = elim s.cache [
      | none ↦ none
      | some c ↦
          some
            (enqueue redis json now task_id (codes "generate_note_embeddings")
              (some (show note_id ∷ [])) none none 3 c).1
    ];
  }

  unfoldable pub create_note :
      ℕ → Str → ℕ → Str → Option Str → ℕ → List Str → Action (Session sql redis) Note
  unfolding verify_workspace_membership
  create_note now task_id workspace_id title content owner_id tag_names = do
    verify_workspace_membership sql redis note_boundary workspace_id owner_id
    tags_instances ← resolve_tags lower sql redis tag_names
    raise_if (repeats_tag tags_instances) integrity_error
    note ← create sql (note_repo sql) redis (λ id. record {
      id = id;
      title = title;
      content = content;
      workspace_id = workspace_id;
      owner_id = owner_id;
      created_at = now;
      tags = tags_instances;
    })
    commit sql redis
    modify (queue_embeddings now task_id note.id)
    pure note

  -- `updates`: only what is given is assigned.
  unfoldable pub with_updates : Option Str → Option Str → Note → Note
  with_updates title content n = record n {
    title = elim title [ none ↦ n.title | some t ↦ t ];
    content = elim content [ none ↦ n.content | some c ↦ some c ];
  }

  -- `note.tags = tags_instances` where tags are given, flushed by the commit.
  unfoldable pub retag : Option (List Str) → Note → Action (Session sql redis) Note
  retag none note = pure note
  retag (some tag_names) note = do
    tags_instances ← resolve_tags lower sql redis tag_names
    raise_if (repeats_tag (added_tags note.tags tags_instances)) integrity_error
    update sql (note_repo sql) redis note (λ n. record n { tags = tags_instances })

  unfoldable pub update_note :
      ℕ
      → Str
      → ℕ
      → Option Str
      → Option Str
      → Option (List Str)
      → ℕ
      → Action (Session sql redis) Note
  unfolding verify_workspace_membership with_updates retag
  update_note now task_id note_id title content tag_names current_user_id = do
    found ← gets (λ s. get sql (note_repo sql) note_id s.db)
    note ← or_raise found note_not_found
    verify_workspace_membership sql redis note_boundary note.workspace_id current_user_id
    edited ← update sql (note_repo sql) redis note (with_updates title content)
    retagged ← retag tag_names edited
    commit sql redis
    refreshed ← refresh sql (note_repo sql) redis retagged
    modify (queue_embeddings now task_id refreshed.id)
    pure refreshed
