-- ===== src/Worker/Embeddings/Indexing.antt =====
-- The index of a note after its embeddings were generated.
use ai_secure_collaboration.Prelude.{
  ℕ, ◌≡◌, ◌≢◌, ◌↔◌, ◌⊎◌, refl, sym, ap, ◌∙◌, inl, inr, some, List, [], ◌∷◌, map, In, Str, arith,
  Option-cases, head?-filter, ==_iff,
}
use ai_secure_collaboration.External.Sql.{Sql, deleted_rows}
use ai_secure_collaboration.External.Redis.{Redis}
use ai_secure_collaboration.Core.Exceptions.{Error}
use ai_secure_collaboration.Core.Action.{Result-cases, ok, err}
use ai_secure_collaboration.Models.{Note, NoteChunk, chunk_schema}
use ai_secure_collaboration.Repositories.{Session, note_repo, get, create, stored, commit, close}
use ai_secure_collaboration.Worker.Chunks.{chunk_text}
use ai_secure_collaboration.Worker.Chunks.Progress.{chunk_text_total}
use ai_secure_collaboration.Worker.Embeddings.{
  title_of, content_of, or_no_body, ChunkData, chunk_objects, new_chunk, wipe_chunks, add_chunks,
  or_rollback, flush_chunks, generate_note_embeddings, embed_found,
}

-- What a row says, without its id.
abbrev pub data_of : NoteChunk → ChunkData
data_of c = record {
  note_id = c.note_id;
  chunk_index = c.chunk_index;
  content = c.content;
  embedding = c.embedding;
}

module _ (sql : Sql) (redis : Redis) where
  open sql use {rows, insert_some}

  -- What the loop adds to the table of chunks, and nothing else.
  record Rows (cs : List ChunkData) (s s' : Session sql redis) (made : List NoteChunk)
      : Type 0 where
    pub data_made : map data_of made ≡ cs
    pub table : (x : NoteChunk) → In x (rows s'.db.chunks) ↔ (In x (rows s.db.chunks) ⊎ In x made)
    pub rest : s' ≡ record s { db = record s.db { chunks = s'.db.chunks } }

  add_chunks-Rows :
      (cs : List ChunkData) (s s' : Session sql redis) (made : List NoteChunk)
      → add_chunks sql redis cs s ≡ (ok made, s')
      → Rows cs s s' made
  unfolding add_chunks create stored
  add_chunks-Rows [] s s' made h =
      let none_made : [] ≡ made = cc h in
      let still : s ≡ s' = ap (λ r. r.1) h in
      record {
        data_made = rw (← none_made) refl;
        table = λ x.
            rw (← none_made, ← still) (λ i. inl i, λ i. elim i [ inl a ↦ a | inr b ↦ absurd b ]);
        rest = rw (← still) refl;
      }
  add_chunks-Rows (c ∷ cs) s s' made h =
      elim (Option-cases (sql.insert chunk_schema (new_chunk c) s.db.chunks)) [
        | inl clash ↦ cc (clash, h)
        | inr ((row, t), k) ↦
            let s₁ = record s { db = record s.db { chunks = t } } in
            elim (Result-cases (add_chunks sql redis cs s₁)) [
              | inl (e, s₂, r) ↦
                  let run : add_chunks sql redis (c ∷ cs) s ≡ (err e, s₂) = rw k (rw r refl) in
                  cc (sym run ∙ h)
              | inr (later, s₂, r) ↦
                  let run : add_chunks sql redis (c ∷ cs) s ≡ (ok (row ∷ later), s₂) =
                    rw k (rw r refl) in
                  let both = sym run ∙ h in
                  let same : row ∷ later ≡ made = cc both in
                  let ended : s₂ ≡ s' = ap (λ r. r.1) both in
                  let (id, new, members, _) =
                    insert_some chunk_schema (new_chunk c) s.db.chunks t row k in
                  let tail = add_chunks-Rows cs s₁ s₂ later r in
                  record {
                    data_made = rw (← same) (rw (tail.data_made, new) refl);
                    table = λ x.
                        rw (← same, ← ended)
                          (
                            λ i. elim ((tail.table x).0 i) [
                              | inl old ↦ elim ((members x).0 old) [
                                | inl e ↦ inr (inl e)
                                | inr o ↦ inl o
                              ]
                              | inr new ↦ inr (inr new)
                            ],
                            λ i. (tail.table x).1 (elim i [
                              | inl old ↦ inl ((members x).1 (inr old))
                              | inr (inl e) ↦ inl ((members x).1 (inl e))
                              | inr (inr new) ↦ inr new
                            ]),
                          );
                    rest = rw (← ended) tail.rest;
                  }
            ]
      ]

  -- What a run that finds the note leaves behind.
  pub record Indexed (embed : Str → Str) (note_id : ℕ) (s s' : Session sql redis)
      (made : List NoteChunk) : Type 0 where
    pub note : Note
    pub stored_note : In note (rows s.db.notes) × (note.id ≡ note_id)
    pub chunks : List Str
    pub chunked : chunk_text (content_of note) 500 100 ≡ some chunks
    pub data_made :
        map data_of made ≡ chunk_objects embed note_id (title_of note) 0 (or_no_body (some chunks))
    pub durable_chunks :
        (x : NoteChunk)
        → In x (rows s'.durable.chunks)
          ↔ ((In x (rows s.db.chunks) × (x.note_id ≢ note_id)) ⊎ In x made)
    pub others : s'.durable ≡ record s.db { chunks = s'.durable.chunks }

  flush_chunks-lem :
      (note_id : ℕ) (cs : List ChunkData) (s s' : Session sql redis) (made : List NoteChunk)
      → flush_chunks sql redis note_id cs s ≡ (ok made, s')
      → (map data_of made ≡ cs)
        × ((x : NoteChunk)
            → In x (rows s'.durable.chunks)
              ↔ ((In x (rows s.db.chunks) × (x.note_id ≢ note_id)) ⊎ In x made))
        × (s'.durable ≡ record s.db { chunks = s'.durable.chunks })
  unfolding flush_chunks or_rollback wipe_chunks commit
  flush_chunks-lem note_id cs s s' made h =
      let s₁ = wipe_chunks sql redis note_id s in
      elim (Result-cases (add_chunks sql redis cs s₁)) [
        | inl (e, s₂, r) ↦
            let run : flush_chunks sql redis note_id cs s ≡ (err e, close sql redis s₂) =
              rw r refl in
            cc (sym run ∙ h)
        | inr (new, s₂, r) ↦
            let run : flush_chunks sql redis note_id cs s
                ≡ (ok new, record s₂ { durable = s₂.db }) =
              rw r refl in
            let both = sym run ∙ h in
            let same : new ≡ made = cc both in
            let saved : s'.durable ≡ s₂.db = sym (ap (λ r. r.1.durable) both) in
            let loop = add_chunks-Rows cs s₁ s₂ new r in
            (
              rw (← same) loop.data_made,
              λ x. rw saved (
                  rw (← same) (
                    let (kept, back) = deleted_rows sql (λ c. c.note_id) note_id s.db.chunks x in
                    let (to, of) = loop.table x in
                    (
                      λ i. elim (to i) [ inl a ↦ inl (kept a) | inr b ↦ inr b ],
                      λ i. of (elim i [ inl a ↦ inl (back a) | inr b ↦ inr b ]),
                    ))),
              rw saved (ap (λ q. q.db) loop.rest),
            )
      ]

  durable-add_chunks :
      (cs : List ChunkData) (s : Session sql redis)
      → (add_chunks sql redis cs s).1.durable ≡ s.durable
  unfolding add_chunks create stored
  durable-add_chunks [] s = refl
  durable-add_chunks (c ∷ cs) s =
      elim (Option-cases (sql.insert chunk_schema (new_chunk c) s.db.chunks)) [
        | inl clash ↦ rw clash refl
        | inr ((row, t), k) ↦
            let s₁ = record s { db = record s.db { chunks = t } } in
            rw k (elim (Result-cases (add_chunks sql redis cs s₁)) [
              | inl (e, s₂, r) ↦ rw r (sym (ap (λ q. q.1.durable) r) ∙ durable-add_chunks cs s₁)
              | inr (a, s₂, r) ↦ rw r (sym (ap (λ q. q.1.durable) r) ∙ durable-add_chunks cs s₁)
            ])
      ]

  flush_chunks_rollback :
      (note_id : ℕ) (cs : List ChunkData) (s s' : Session sql redis) (e : Error)
      → flush_chunks sql redis note_id cs s ≡ (err e, s')
      → (s'.durable ≡ s.durable) × (s'.db ≡ s.durable)
  unfolding flush_chunks or_rollback wipe_chunks commit close
  flush_chunks_rollback note_id cs s s' e h =
      let s₁ = wipe_chunks sql redis note_id s in
      elim (Result-cases (add_chunks sql redis cs s₁)) [
        | inr (new, s₂, r) ↦
            let run : flush_chunks sql redis note_id cs s
                ≡ (ok new, record s₂ { durable = s₂.db }) =
              rw r refl in
            cc (sym run ∙ h)
        | inl (f, s₂, r) ↦
            let run : flush_chunks sql redis note_id cs s ≡ (err f, close sql redis s₂) =
              rw r refl in
            let both = sym run ∙ h in
            let before = sym (ap (λ q. q.1.durable) r) ∙ durable-add_chunks cs s₁ in
            (sym (ap (λ q. q.1.durable) both) ∙ before, sym (ap (λ q. q.1.db) both) ∙ before)
      ]

  -- Where the note is found and the run succeeds: the text is cut up, one row for each piece, in order and
  -- with its index, is made with the title, the text of the piece and its embedding, or one row for the
  -- sentence about an empty document; the committed chunks are those of other notes and the new rows; and
  -- no other table is changed.
  pub generate_note_embeddings-Indexed :
      (embed : Str → Str) (note_id : ℕ) (note : Note) (s s' : Session sql redis)
      (made : List NoteChunk)
      → get sql (note_repo sql) note_id s.db ≡ some note
      → generate_note_embeddings sql redis embed note_id s ≡ (ok made, s')
      → Indexed embed note_id s s' made
  unfolding generate_note_embeddings embed_found
  generate_note_embeddings-Indexed embed note_id note s s' made e h =
      let (chunks, cut) = chunk_text_total (content_of note) 500 100 (omega arith) (omega arith) in
      let (found, key) = head?-filter _ note (rows s.db.notes) e in
      let cs = chunk_objects embed note_id (title_of note) 0 (or_no_body (some chunks)) in
      let run : generate_note_embeddings sql redis embed note_id s
          ≡ flush_chunks sql redis note_id cs s =
        rw e (rw cut refl) in
      let (data_made, table, others) = flush_chunks-lem note_id cs s s' made (sym run ∙ h) in
      record {
        note = note;
        stored_note = (found, (==_iff note.id note_id).0 key);
        chunks = chunks;
        chunked = cut;
        data_made = data_made;
        durable_chunks = table;
        others = others;
      }

  -- A run that raises leaves the committed tables as they were, and nothing uncommitted.
  pub generate_note_embeddings_rollback :
      (embed : Str → Str) (note_id : ℕ) (s s' : Session sql redis) (e : Error)
      → generate_note_embeddings sql redis embed note_id s ≡ (err e, s')
      → (s'.durable ≡ s.durable) × (s'.db ≡ s.durable)
  unfolding generate_note_embeddings embed_found
  generate_note_embeddings_rollback embed note_id s s' e h =
      elim (Option-cases (get sql (note_repo sql) note_id s.db)) [
        | inl f ↦
            let run : generate_note_embeddings sql redis embed note_id s ≡ (ok [], s) = rw f refl in
            cc (sym run ∙ h)
        | inr (note, f) ↦
            let cs =
              chunk_objects embed note_id (title_of note) 0
                (or_no_body (chunk_text (content_of note) 500 100)) in
            let run : generate_note_embeddings sql redis embed note_id s
                ≡ flush_chunks sql redis note_id cs s =
              rw f refl in
            flush_chunks_rollback note_id cs s s' e (sym run ∙ h)
      ]
