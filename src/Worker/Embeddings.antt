-- ===== src/Worker/Embeddings.antt =====
-- `generate_note_embeddings` of backend/app/workers/worker.py. `embed` is the model's text for the vector
-- that `AIService.generate_embedding` gives.
pub mod Indexing
mod Tests
use ai_secure_collaboration.Prelude.{
  ℕ, ◌+◌, Bool, Option, none, some, List, [], ◌∷◌, ◌++◌, Str, codes, is_empty, ◌==◌, if◌then◌else◌,
}
use ai_secure_collaboration.External.Sql.{Sql}
use ai_secure_collaboration.External.Redis.{Redis}
use ai_secure_collaboration.Core.Action.{Action, Result, ok, err, pure, gets, modify, ◌>>=◌, ◌>>◌}
use ai_secure_collaboration.Models.{Note, NoteChunk, Database}
use ai_secure_collaboration.Repositories.{
  Session, note_repo, chunk_repo, get, create, commit, close,
}
use ai_secure_collaboration.Worker.Chunks.{chunk_text}

-- `note.title or "Untitled"`
unfoldable pub title_of : Note → Str
title_of note = if is_empty note.title then codes "Untitled" else note.title

-- `note.content or ""`
unfoldable pub content_of : Note → Str
content_of note = elim note.content [ none ↦ [] | some content ↦ content ]

-- The chunks, or the sentence that stands for an empty document. The loop always ends for 500 and 100.
unfoldable pub or_no_body : Option (List Str) → List Str
or_no_body none = codes "(This document has no content body)" ∷ []
or_no_body (some []) = codes "(This document has no content body)" ∷ []
or_no_body (some (chunk ∷ chunks)) = chunk ∷ chunks

unfoldable pub contextualized : Str → Str → Str
contextualized title chunk_body =
    codes "Note Title: "
    ++ (title ++ ((10 ∷ []) ++ (codes "Content:" ++ ((10 ∷ []) ++ chunk_body))))

-- One entry of `chunk_objects`, which becomes a row.
pub record ChunkData : Type 0 where
  pub note_id : ℕ
  pub chunk_index : ℕ
  pub content : Str
  pub embedding : Str

module _ (embed : Str → Str) where
  -- The loop over `enumerate(chunks)`.
  unfoldable pub chunk_objects : ℕ → Str → ℕ → List Str → List ChunkData
  unfolding contextualized
  chunk_objects note_id title idx [] = []
  chunk_objects note_id title idx (chunk_body ∷ chunks) =
      let contextualized_chunk = contextualized title chunk_body in
      record {
        note_id = note_id;
        chunk_index = idx;
        content = contextualized_chunk;
        embedding = embed contextualized_chunk;
      }
      ∷ chunk_objects note_id title (idx + 1) chunks

unfoldable pub new_chunk : ChunkData → ℕ → NoteChunk
new_chunk c id = record {
  id = id;
  note_id = c.note_id;
  chunk_index = c.chunk_index;
  content = c.content;
  embedding = c.embedding;
}

module _ (sql : Sql) (redis : Redis) where
  -- `delete(NoteChunk).filter(NoteChunk.note_id == note_id)`
  unfoldable pub wipe_chunks : ℕ → Session sql redis → Session sql redis
  wipe_chunks note_id s = record s {
    db = record s.db { chunks = sql.delete (λ c. c.note_id == note_id) s.db.chunks };
  }

  -- The rows that are added, as the commit writes them.
  unfoldable pub add_chunks : List ChunkData → Action (Session sql redis) (List NoteChunk)
  unfolding new_chunk
  add_chunks [] = pure []
  add_chunks (c ∷ chunks) = do
    row ← create sql (chunk_repo sql) redis (new_chunk c)
    rows ← add_chunks chunks
    pure (row ∷ rows)

  -- `rollback` and the raise of the exception
  unfoldable pub or_rollback : Result (List NoteChunk) → Action (Session sql redis) (List NoteChunk)
  or_rollback (ok rows) = pure rows
  or_rollback (err e) = λ s. (err e, close sql redis s)

  -- The `try` block.
  unfoldable pub flush_chunks : ℕ → List ChunkData → Action (Session sql redis) (List NoteChunk)
  unfolding wipe_chunks add_chunks or_rollback
  flush_chunks note_id chunks s =
      let (r, s') =
        (do modify (wipe_chunks note_id); rows ← add_chunks chunks; commit sql redis; pure rows)
          s in
      or_rollback r s'

  unfoldable pub embed_found :
      (Str → Str) → ℕ → Option Note → Action (Session sql redis) (List NoteChunk)
  unfolding title_of content_of or_no_body chunk_objects flush_chunks
  embed_found embed note_id none = pure []
  embed_found embed note_id (some note) = flush_chunks note_id (
      chunk_objects embed note_id (title_of note) 0
        (or_no_body (chunk_text (content_of note) 500 100)))

  -- The rows that were written; a note that is not there is passed over.
  unfoldable pub generate_note_embeddings :
      (Str → Str) → ℕ → Action (Session sql redis) (List NoteChunk)
  unfolding embed_found
  generate_note_embeddings embed note_id s =
      embed_found embed note_id (get sql (note_repo sql) note_id s.db) s
