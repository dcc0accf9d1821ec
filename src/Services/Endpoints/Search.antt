-- ===== src/Services/Endpoints/Search.antt =====
-- The semantic search and the retrieval of backend/app/api/v1/endpoints/ai.py. `embed` is the text of the
-- vector of `generate_embedding`, and `complete` is `generate_completion`.
pub mod Scope
mod Tests
use ai_secure_collaboration.Prelude.{
  ℕ, ◌+◌, Bool, not, ◌&&◌, Option, none, some, List, [], ◌∷◌, ◌++◌, map, take, filter, Str, codes,
  is_empty, ◌==◌, if◌then◌else◌,
}
use ai_secure_collaboration.External.Sql.{Sql}
use ai_secure_collaboration.External.Redis.{Redis}
use ai_secure_collaboration.External.Floats.{Floats}
use ai_secure_collaboration.External.Numerals.{Numerals}
use ai_secure_collaboration.External.PgVector.{PgVector}
use ai_secure_collaboration.Core.Action.{Action, Result, ok, err, pure, gets, ◌>>=◌, ◌>>◌}
use ai_secure_collaboration.Models.{Note, NoteChunk, Database}
use ai_secure_collaboration.Repositories.{Session}
use ai_secure_collaboration.Services.Endpoints.{verify_ai_membership}

-- The join on `Note.id == NoteChunk.note_id`, filtered on the workspace.
unfoldable pub joined_notes : ℕ → List NoteChunk → List Note → List (NoteChunk × Note)
joined_notes workspace_id [] notes = []
joined_notes workspace_id (c ∷ chunks) notes =
    map (λ n. (c, n)) (filter (λ n. n.id == c.note_id && n.workspace_id == workspace_id) notes)
    ++ joined_notes workspace_id chunks notes

module _ (floats : Floats) where
  open floats use {Float, of_nat, minus, maximum}

  pub record SearchMatch : Type 0 where
    pub note_id : ℕ
    pub note_title : Str
    pub chunk_index : ℕ
    pub content : Str
    pub score : Float

  -- `float(distance or 0.0)`
  unfoldable pub or_zero : Option Float → Float
  or_zero none = of_nat 0
  or_zero (some distance) = distance

  module _ (vectors : PgVector floats) (sql : Sql) where
    -- `distance_expr`
    unfoldable pub distance_of : Str → NoteChunk × Note → Option Float
    distance_of query_vector row = vectors.distance row.0.embedding query_vector

    -- The statement.
    unfoldable pub nearest_rows : Str → ℕ → ℕ → Database sql → List (NoteChunk × Note)
    unfolding joined_notes distance_of
    nearest_rows query_vector workspace_id limit d =
        vectors.nearest (distance_of query_vector) limit
          (joined_notes workspace_id (sql.rows d.chunks) (sql.rows d.notes))

    unfoldable pub match_of : Str → NoteChunk × Note → SearchMatch
    unfolding or_zero distance_of
    match_of query_vector row = record {
      note_id = row.0.note_id;
      note_title = row.1.title;
      chunk_index = row.0.chunk_index;
      content = row.0.content;
      score =
          maximum (minus (of_nat 1) (or_zero (distance_of query_vector row)))
            (minus (of_nat 0) (of_nat 1));
    }

    module _ (redis : Redis) (embed : Str → Str) where
      unfoldable pub semantic_search :
          ℕ → Str → ℕ → ℕ → Action (Session sql redis) (List SearchMatch)
      unfolding nearest_rows match_of
      semantic_search workspace_id q limit current_user_id = do
        verify_ai_membership sql redis workspace_id current_user_id
        rows ← gets (λ s. nearest_rows (embed q) workspace_id limit s.db)
        pure (map (match_of (embed q)) rows)

  pub record RagResponse : Type 0 where
    pub query : Str
    pub answer : Str
    pub sources : List SearchMatch

  module _ (numerals : Numerals) where
    -- The loop over `enumerate(matches)`, from `idx` on.
    unfoldable pub context_text : ℕ → List SearchMatch → Str
    context_text idx [] = []
    context_text idx (m ∷ matches) =
        (10 ∷ [])
        ++ (codes "[CHUNK "
            ++ (numerals.str (idx + 1)
                ++ (codes "] (Source Note: '"
                    ++ (m.note_title
                        ++ (codes "', ID: "
                            ++ (numerals.str m.note_id
                                ++ (codes ")"
                                    ++ ((10 ∷ [])
                                        ++ (m.content
                                            ++ ((10 ∷ [])
                                                ++ context_text (idx + 1) matches))))))))))

    unfoldable pub or_nothing_found : Str → Str
    or_nothing_found context =
        if is_empty context then codes "No matching notes found." else context

    unfoldable pub rag_prompt : Str → List SearchMatch → Str
    unfolding context_text or_nothing_found
    rag_prompt query matches =
        codes "Context Snippets:"
        ++ ((10 ∷ [])
            ++ (or_nothing_found (context_text 0 matches)
                ++ ((10 ∷ 10 ∷ [])
                    ++ (codes "User Question:"
                        ++ ((10 ∷ [])
                            ++ (query
                                ++ ((10 ∷ 10 ∷ [])
                                    ++ codes
                                        "Answer the user's question clearly with markdown formatting.")))))))

    abbrev pub rag_instruction : Str
    rag_instruction =
        codes
          "You are a highly secure, intelligent assistant. Answer the user's question using ONLY the provided workspace notes context. Inject explicit numbered citations matching the source note titles when stating facts. If the context contains no relevant details to answer, state that clearly."

    module _ (vectors : PgVector floats) (sql : Sql) (redis : Redis) (embed : Str → Str)
        (complete : Str → Str → Str) where
      unfoldable pub retrieval_augmented_generation :
          ℕ → Str → ℕ → Action (Session sql redis) RagResponse
      unfolding rag_prompt
      retrieval_augmented_generation workspace_id query current_user_id = do
        verify_ai_membership sql redis workspace_id current_user_id
        matches ← semantic_search vectors sql redis embed workspace_id query 3 current_user_id
        pure (record {
          query = query;
          answer = complete (rag_prompt query matches) rag_instruction;
          sources = matches;
        })
