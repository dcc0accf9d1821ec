-- ===== src/Worker/Embeddings/Tests.antt =====
-- The embeddings of a note without a text, where each text is its own embedding.
use ai_secure_collaboration.Prelude.{
  ℕ, ◌≡◌, refl, none, List, [], ◌∷◌, codes, Str, is_empty, filter,
}
use ai_secure_collaboration.External.Concrete.LocalRedis.{local_redis}
use ai_secure_collaboration.External.Concrete.LocalSql.{local_sql, insert_row, fresh_id, clashes}
use ai_secure_collaboration.Core.Action.{ok}
use ai_secure_collaboration.Models.{Note, NoteChunk, Database}
use ai_secure_collaboration.Repositories.{Session, create, commit}
use ai_secure_collaboration.Worker.Chunks.{chunk_text}
use ai_secure_collaboration.Worker.Embeddings.{contextualized, generate_note_embeddings}
use ai_secure_collaboration.Worker.Embeddings.Indexing.{Indexed, generate_note_embeddings-Indexed}

abbrev blank_note : Note
blank_note = record {
  id = 5;
  title = [];
  content = none;
  workspace_id = 1;
  owner_id = 1;
  created_at = 3;
  tags = [];
}

abbrev chunk_row : ℕ → ℕ → Str → Str → NoteChunk
chunk_row id note_id content embedding = record {
  id = id;
  note_id = note_id;
  chunk_index = 0;
  content = content;
  embedding = embedding;
}

abbrev with_chunks : List NoteChunk → Session local_sql local_redis
with_chunks chunks =
    let d : Database local_sql = record {
      users = [];
      workspaces = [];
      members = [];
      tags = [];
      notes = blank_note ∷ [];
      chunks = chunks;
      rooms = [];
      messages = [];
    } in
    record { db = d; durable = d; cache = none }

abbrev placeholder : Str
unfolding codes
placeholder = codes "Note Title: Untitled\nContent:\n(This document has no content body)"

abbrev kept_chunk : NoteChunk
kept_chunk = chunk_row 2 6 (65 ∷ []) (66 ∷ [])

abbrev new_row : NoteChunk
new_row = chunk_row 3 5 placeholder placeholder

embeddings_run :
    generate_note_embeddings local_sql local_redis
      (λ s. s)
      5
      (with_chunks (chunk_row 1 5 (67 ∷ []) (68 ∷ []) ∷ kept_chunk ∷ []))
    ≡ (ok (new_row ∷ []), with_chunks (new_row ∷ kept_chunk ∷ []))
unfolding generate_note_embeddings chunk_text contextualized is_empty commit create insert_row
    fresh_id clashes filter codes
embeddings_run = refl

generate_note_embeddings-Indexed_example :
    Indexed local_sql local_redis
      (λ s. s)
      5
      (with_chunks (chunk_row 1 5 (67 ∷ []) (68 ∷ []) ∷ kept_chunk ∷ []))
      (with_chunks (new_row ∷ kept_chunk ∷ []))
      (new_row ∷ [])
unfolding filter
generate_note_embeddings-Indexed_example =
    generate_note_embeddings-Indexed local_sql local_redis (λ s. s) 5 blank_note
      (with_chunks (chunk_row 1 5 (67 ∷ []) (68 ∷ []) ∷ kept_chunk ∷ []))
      (with_chunks (new_row ∷ kept_chunk ∷ [])) (new_row ∷ []) refl embeddings_run
