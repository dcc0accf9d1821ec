-- ===== src/Services/Endpoints/Search/Tests.antt =====
-- A search and an answer in a workspace with two chunks, for its member.
use ai_secure_collaboration.Prelude.{ℕ, ◌≡◌, refl, none, [], ◌∷◌, Str, filter}
use ai_secure_collaboration.External.Concrete.LocalRedis.{local_redis}
use ai_secure_collaboration.External.Concrete.LocalSql.{local_sql}
use ai_secure_collaboration.External.Concrete.Tally.{natural_floats, local_numerals}
use ai_secure_collaboration.External.Concrete.NearestFirst.{
  length_vectors, length_distance, size, sort_near,
}
use ai_secure_collaboration.Core.Action.{ok}
use ai_secure_collaboration.Models.{Note, NoteChunk, Database, WorkspaceRole}
use ai_secure_collaboration.Repositories.{Session}
use ai_secure_collaboration.Services.Endpoints.{verify_ai_membership}
use ai_secure_collaboration.Services.Endpoints.Search.{
  SearchMatch, semantic_search, RagResponse, retrieval_augmented_generation, rag_prompt,
}
use ai_secure_collaboration.Services.Endpoints.Search.Scope.{
  Scoped, semantic_search-Scoped, retrieval_augmented_generation-Scoped,
}

abbrev workspace_note : ℕ → ℕ → Note
workspace_note id workspace_id = record {
  id = id;
  title = 84 ∷ [];
  content = none;
  workspace_id = workspace_id;
  owner_id = 1;
  created_at = 3;
  tags = [];
}

abbrev indexed : ℕ → ℕ → Str → NoteChunk
indexed id note_id text = record {
  id = id;
  note_id = note_id;
  chunk_index = 0;
  content = text;
  embedding = text;
}

abbrev indexed_session : Session local_sql local_redis
indexed_session =
    let d : Database local_sql = record {
      users = [];
      workspaces = [];
      members = record { id = 1; workspace_id = 7; user_id = 3; role = WorkspaceRole.member } ∷ [];
      tags = [];
      notes = workspace_note 5 7 ∷ workspace_note 6 8 ∷ [];
      chunks = indexed 1 5 (1 ∷ 1 ∷ 1 ∷ []) ∷ indexed 2 6 (1 ∷ []) ∷ indexed 3 5 (1 ∷ []) ∷ [];
      rooms = [];
      messages = [];
    } in
    record { db = d; durable = d; cache = none }

abbrev match : Str → ℕ → SearchMatch natural_floats
match text score = record {
  note_id = 5;
  note_title = 84 ∷ [];
  chunk_index = 0;
  content = text;
  score = score;
}

-- The chunk of the other workspace is not found, and the nearer one comes first.
search_run :
    semantic_search natural_floats length_vectors local_sql local_redis
      (λ s. s)
      7
      (1 ∷ [])
      10
      3
      indexed_session
    ≡ (ok (match (1 ∷ []) 1 ∷ match (1 ∷ 1 ∷ 1 ∷ []) 0 ∷ []), indexed_session)
unfolding semantic_search verify_ai_membership length_distance size sort_near filter
search_run = refl

semantic_search-Scoped_example :
    Scoped natural_floats length_vectors local_sql local_redis
      (λ s. s)
      7
      (1 ∷ [])
      10
      3
      indexed_session
      (match (1 ∷ []) 1 ∷ match (1 ∷ 1 ∷ 1 ∷ []) 0 ∷ [])
    × (indexed_session ≡ indexed_session)
semantic_search-Scoped_example =
    semantic_search-Scoped natural_floats length_vectors local_sql local_redis (λ s. s) 7 (1 ∷ [])
      10 3 indexed_session indexed_session (match (1 ∷ []) 1 ∷ match (1 ∷ 1 ∷ 1 ∷ []) 0 ∷ [])
      search_run

-- The model answers with what it is asked.
abbrev answer : RagResponse natural_floats
answer = record {
  query = 1 ∷ [];
  answer =
      rag_prompt natural_floats local_numerals (1 ∷ [])
        (match (1 ∷ []) 1 ∷ match (1 ∷ 1 ∷ 1 ∷ []) 0 ∷ []);
  sources = match (1 ∷ []) 1 ∷ match (1 ∷ 1 ∷ 1 ∷ []) 0 ∷ [];
}

answer_run :
    retrieval_augmented_generation natural_floats local_numerals length_vectors local_sql
      local_redis
      (λ s. s)
      (λ prompt instruction. prompt)
      7
      (1 ∷ [])
      3
      indexed_session
    ≡ (ok answer, indexed_session)
unfolding retrieval_augmented_generation semantic_search verify_ai_membership length_distance size
    sort_near filter
answer_run = refl

retrieval_augmented_generation-Scoped_example :
    Scoped natural_floats length_vectors local_sql local_redis
      (λ s. s)
      7
      (1 ∷ [])
      3
      3
      indexed_session
      answer.sources
    × (answer.answer ≡ rag_prompt natural_floats local_numerals (1 ∷ []) answer.sources)
    × (indexed_session ≡ indexed_session)
retrieval_augmented_generation-Scoped_example =
    retrieval_augmented_generation-Scoped natural_floats length_vectors local_sql local_redis
      (λ s. s) local_numerals (λ prompt instruction. prompt) 7 (1 ∷ []) 3 indexed_session
      indexed_session answer answer_run
