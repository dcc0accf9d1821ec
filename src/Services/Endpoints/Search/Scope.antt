-- ===== src/Services/Endpoints/Search/Scope.antt =====
-- What a search finds and what the language model is shown: chunks of the caller's workspace.
use ai_secure_collaboration.Prelude.{
  ℕ, ◌≡◌, refl, sym, ap, ◌∙◌, inl, inr, arith, In, In-filter, In-append, List, [], ◌∷◌, map, filter,
  take, length, Str, ◌==◌, ◌&&◌, Option-cases, head?-filter, ◌≤◌, true, ◌↔◌,
}
use ai_secure_collaboration.External.Sql.{Sql}
use ai_secure_collaboration.External.Redis.{Redis}
use ai_secure_collaboration.External.Floats.{Floats}
use ai_secure_collaboration.External.Numerals.{Numerals}
use ai_secure_collaboration.External.PgVector.{PgVector, Ascending}
use ai_secure_collaboration.Core.Action.{ok, Result-cases}
use ai_secure_collaboration.Models.{Note, NoteChunk, WorkspaceMember}
use ai_secure_collaboration.Repositories.{Session, get_by_workspace_and_user}
use ai_secure_collaboration.Services.Endpoints.{verify_ai_membership}
use ai_secure_collaboration.Services.Endpoints.Search.{
  joined_notes, SearchMatch, distance_of, nearest_rows, match_of, semantic_search, RagResponse,
  rag_prompt, rag_instruction, retrieval_augmented_generation,
}

In-map_pair :
    (c : NoteChunk) (row : NoteChunk × Note) (notes : List Note)
    → In row (map (λ n. (c, n)) notes)
    → (row.0 ≡ c) × In row.1 notes
In-map_pair c row [] i = absurd i
In-map_pair c row (n ∷ notes) (inl e) = (ap (λ r. r.0) e, inl (ap (λ r. r.1) e))
In-map_pair c row (n ∷ notes) (inr i) = let (a, b) = In-map_pair c row notes i in (a, inr b)

In-joined_notes :
    (workspace_id : ℕ) (row : NoteChunk × Note) (chunks : List NoteChunk) (notes : List Note)
    → In row (joined_notes workspace_id chunks notes)
    → In row.0 chunks
      × In row.1 notes
      × (row.1.id ≡ row.0.note_id)
      × (row.1.workspace_id ≡ workspace_id)
unfolding joined_notes
In-joined_notes workspace_id row [] notes i = absurd i
In-joined_notes workspace_id row (c ∷ chunks) notes i =
    let test = λ (n : Note). n.id == c.note_id && n.workspace_id == workspace_id in
    elim (In-append row (map (λ n. (c, n)) (filter test notes))
      (joined_notes workspace_id chunks notes) i) [
        | inl here ↦
            let (same, kept) = In-map_pair c row (filter test notes) here in
            let (stored, meets) = In-filter test row.1 notes kept in
            let owner : row.0.note_id ≡ c.note_id = ap (λ x. x.note_id) same in
            (inl same, stored, ground (arith, meets, owner), ground (arith, meets))
        | inr later ↦
            let (a, b, c, d) = In-joined_notes workspace_id row chunks notes later in
            (inr a, b, c, d)
      ]

module _ (floats : Floats) (vectors : PgVector floats) (sql : Sql) (redis : Redis)
    (embed : Str → Str) where
  open sql use {rows}

  -- What is found for a query in a workspace, for one of its members.
  pub record Scoped (workspace_id : ℕ) (query : Str) (limit user_id : ℕ) (s : Session sql redis)
      (matches : List (SearchMatch floats)) : Type 0 where
    pub membership : WorkspaceMember
    pub membership_stored : In membership (rows s.db.members)
    pub here : (membership.workspace_id ≡ workspace_id) × (membership.user_id ≡ user_id)
    pub found : List (NoteChunk × Note)
    pub formatted : matches ≡ map (match_of floats vectors sql (embed query)) found
    pub scoped :
        (row : NoteChunk × Note)
        → In row found
        → In row.0 (rows s.db.chunks)
          × In row.1 (rows s.db.notes)
          × (row.1.id ≡ row.0.note_id)
          × (row.1.workspace_id ≡ workspace_id)
    pub nearest_first :
        Ascending (vectors.no_farther) (distance_of floats vectors sql (embed query)) found
    pub at_most : length found ≤ limit
    pub complete :
        vectors.is_exact ≡ true
        → (all : List (NoteChunk × Note)) × Ascending
            (vectors.no_farther)
            (distance_of floats vectors sql (embed query))
            all
          × ((row : NoteChunk × Note)
              → In row all
                ↔ In row (joined_notes workspace_id (rows s.db.chunks) (rows s.db.notes)))
          × (length all ≡ length (joined_notes workspace_id (rows s.db.chunks) (rows s.db.notes)))
          × (found ≡ take limit all)

  -- A search that succeeds: the caller has a membership of the workspace; every match is a stored chunk of
  -- a stored note of that workspace; they stand nearest first, at most `limit` of them; where the database
  -- scans the whole table, and not an approximate index, they are the first `limit` of all the chunks of the
  -- workspace's notes, nearest first; and nothing is changed.
  pub semantic_search-Scoped :
      (workspace_id : ℕ) (query : Str) (limit user_id : ℕ) (s s' : Session sql redis)
      (matches : List (SearchMatch floats))
      → semantic_search floats vectors sql redis embed workspace_id query limit user_id s
        ≡ (ok matches, s')
      → Scoped workspace_id query limit user_id s matches × (s' ≡ s)
  unfolding semantic_search nearest_rows verify_ai_membership
  semantic_search-Scoped workspace_id query limit user_id s s' matches h =
      elim (Option-cases (get_by_workspace_and_user sql workspace_id user_id s.db)) [
        | inl e ↦ cc (e, h)
        | inr (mine, e) ↦
            let joined = joined_notes workspace_id (rows s.db.chunks) (rows s.db.notes) in
            let key = distance_of floats vectors sql (embed query) in
            let found = vectors.nearest key limit joined in
            let run : semantic_search floats vectors sql redis embed workspace_id query limit
                  user_id s
                ≡ (ok (map (match_of floats vectors sql (embed query)) found), s) =
              rw e refl in
            let both = sym run ∙ h in
            let (stored, keys) = head?-filter _ mine (rows s.db.members) e in
            let same : map (match_of floats vectors sql (embed query)) found ≡ matches = cc both in
            (
              record {
                membership = mine;
                membership_stored = stored;
                here = (ground (arith, keys), ground (arith, keys));
                found = found;
                formatted = sym same;
                scoped = λ row i.
                    In-joined_notes workspace_id row (rows s.db.chunks) (rows s.db.notes)
                      (vectors.nearest_In key limit joined row i);
                nearest_first = vectors.nearest_Ascending key limit joined;
                at_most = vectors.nearest_length key limit joined;
                complete = λ exact. (
                  vectors.order_by key joined,
                  vectors.order_by_Ascending key joined,
                  vectors.order_by_In key joined,
                  vectors.order_by_length key joined,
                  vectors.nearest_exact key limit joined exact,
                );
              },
              sym (ap (λ r. r.1) both),
            )
      ]

  -- An answer that is given: it is what the model says of the query and of the sources, which are at most
  -- three and found in the workspace for one of its members; and nothing is changed.
  pub retrieval_augmented_generation-Scoped :
      (numerals : Numerals) (complete : Str → Str → Str) (workspace_id : ℕ) (query : Str)
      (user_id : ℕ) (s s' : Session sql redis) (response : RagResponse floats)
      → retrieval_augmented_generation floats numerals vectors sql redis embed complete workspace_id
          query user_id s
        ≡ (ok response, s')
      → Scoped workspace_id query 3 user_id s response.sources
        × (response.answer
            ≡ complete
                (rag_prompt floats numerals query response.sources)
                (rag_instruction floats numerals))
        × (s' ≡ s)
  unfolding retrieval_augmented_generation verify_ai_membership
  retrieval_augmented_generation-Scoped numerals complete workspace_id query user_id s s' response
        h =
      elim (Option-cases (get_by_workspace_and_user sql workspace_id user_id s.db)) [
        | inl e ↦ cc (e, h)
        | inr (mine, e) ↦
            elim (Result-cases
              (semantic_search floats vectors sql redis embed workspace_id query 3 user_id s)) [
                | inl (x, s₁, r) ↦ cc (e, r, h)
                | inr (matches, s₁, r) ↦
                    let (scoped, still) =
                      semantic_search-Scoped workspace_id query 3 user_id s s₁ matches r in
                    let answer : RagResponse floats = record {
                      query = query;
                      answer =
                          complete (rag_prompt floats numerals query matches)
                            (rag_instruction floats numerals);
                      sources = matches;
                    } in
                    let run : retrieval_augmented_generation floats numerals vectors sql redis embed
                          complete workspace_id query user_id s
                        ≡ (ok answer, s₁) =
                      rw e (rw r refl) in
                    let both = sym run ∙ h in
                    let same : answer ≡ response = cc both in
                    (rw (← same) scoped, rw (← same) refl, sym (ap (λ r. r.1) both) ∙ still)
              ]
      ]
