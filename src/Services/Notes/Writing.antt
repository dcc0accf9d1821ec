-- ===== src/Services/Notes/Writing.antt =====
-- What the creation and the update of a note require and leave behind.
use ai_secure_collaboration.Prelude.{
  ℕ, ◌≡◌, ◌↔◌, ◌⊎◌, refl, sym, ap, ◌∙◌, inl, inr, false, Option, List, [], ◌∷◌, In, Str, arith,
  is_empty, strip, Option-cases, Bool-cases, head?-filter,
}
use ai_secure_collaboration.External.Sql.{Sql}
use ai_secure_collaboration.External.Redis.{Redis}
use ai_secure_collaboration.External.Json.{Json}
use ai_secure_collaboration.Core.Exceptions.{integrity_error, Error}
use ai_secure_collaboration.Core.Action.{Result-cases, ok, err}
use ai_secure_collaboration.Models.{Database, Note, WorkspaceMember, tag_schema, note_schema}
use ai_secure_collaboration.Repositories.{
  Session, create, stored, commit, get_by_workspace_and_user,
}
use ai_secure_collaboration.Services.Notes.Tagging.{Tagged, resolve_tags-Tagged}
use ai_secure_collaboration.Services.Notes.Queueing.{Queued, queue_embeddings-Queued}
use ai_secure_collaboration.Services.Notes.{
  repeats_tag, verify_workspace_membership, get_by_name, cleaned_name, found_or_create,
  get_or_create_by_name, resolve_tags, queue_embeddings, create_note,
}

-- Only the uncommitted table of tags differs.
abbrev pub TagsOnly : (sql : Sql) (redis : Redis) → Session sql redis → Session sql redis → Type 0
TagsOnly sql redis s s' = s' ≡ record s { db = record s.db { tags = s'.db.tags } }

module _ (lower : Str → Str) (sql : Sql) (redis : Redis) where
  get_or_create_by_name-TagsOnly :
      (name : Str) (s : Session sql redis)
      → TagsOnly sql redis s (get_or_create_by_name lower sql redis name s).1
  unfolding get_or_create_by_name found_or_create create stored
  get_or_create_by_name-TagsOnly name s =
      elim (Option-cases (get_by_name lower sql (cleaned_name lower name) s.db)) [
        | inr (t, e) ↦ rw e refl
        | inl e ↦
            elim (Option-cases (
              sql.insert tag_schema (λ id. record { id = id; name = cleaned_name lower name })
                s.db.tags)) [
                  | inl clash ↦ rw e (rw clash refl)
                  | inr ((row, t), k) ↦ rw e (rw k refl)
                ]
      ]

  TagsOnly-trans :
      (a b c : Session sql redis)
      → TagsOnly sql redis a b
      → TagsOnly sql redis b c
      → TagsOnly sql redis a c
  TagsOnly-trans a b c h k =
      let put : Session sql redis → Session sql redis =
        λ s. record s { db = record s.db { tags = c.db.tags } } in
      k ∙ ap put h

  pub resolve_tags-TagsOnly :
      (names : List Str) (s : Session sql redis)
      → TagsOnly sql redis s (resolve_tags lower sql redis names s).1
  unfolding resolve_tags
  resolve_tags-TagsOnly [] s = refl
  resolve_tags-TagsOnly (name ∷ names) s = elim (Bool-cases (is_empty (strip name))) [
    | inl blank ↦ rw blank (resolve_tags-TagsOnly names s)
    | inr filled ↦
        let first = get_or_create_by_name-TagsOnly name s in
        elim (Result-cases (get_or_create_by_name lower sql redis name s)) [
          | inl (e, s₁, r) ↦ rw filled (rw r (rw r at first))
          | inr (tag, s₁, r) ↦
              let rest = resolve_tags-TagsOnly names s₁ in
              elim (Result-cases (resolve_tags lower sql redis names s₁)) [
                | inl (e, s₂, q) ↦
                    rw filled (rw r (rw q (TagsOnly-trans s s₁ s₂ (rw r at first) (rw q at rest))))
                | inr (tags, s₂, q) ↦
                    rw filled (rw r (rw q (TagsOnly-trans s s₁ s₂ (rw r at first) (rw q at rest))))
              ]
        ]
  ]

module _ (sql : Sql) (redis : Redis) (json : Json) (lower : Str → Str) (show : ℕ → Str) (now : ℕ)
    (task_id : Str) where
  open sql use {rows, insert_some, update_some}

  -- What a creation that succeeds rests on and leaves behind.
  pub record Written (workspace_id : ℕ) (title : Str) (content : Option Str) (owner_id : ℕ)
      (tag_names : List Str) (s s' : Session sql redis) (note : Note) : Type 0 where
    pub membership : WorkspaceMember
    pub membership_stored : In membership (rows s.db.members)
    pub here : (membership.workspace_id ≡ workspace_id) × (membership.user_id ≡ owner_id)
    pub fields :
        (note.title ≡ title)
        × (note.content ≡ content)
        × (note.workspace_id ≡ workspace_id)
        × (note.owner_id ≡ owner_id)
        × (note.created_at ≡ now)
    pub tagged : Tagged lower sql redis tag_names (rows s'.durable.tags) note.tags
    pub no_repeat : repeats_tag note.tags ≡ false
    pub queued : Queued redis json task_id (show note.id) s.cache s'.cache
    pub durable_notes :
        (x : Note) → In x (rows s'.durable.notes) ↔ ((x ≡ note) ⊎ In x (rows s.db.notes))
    pub others : s'.durable ≡ record s.db { tags = s'.durable.tags; notes = s'.durable.notes }

  -- A creation that succeeds: the owner has a membership of the workspace; the note has the title, the
  -- content, the workspace, the owner and the time that were given; its tags are stored, stand for exactly the
  -- names that are not blank, and none stands twice; the task that embeds the note is queued where there is a
  -- client of Redis; the notes that are committed are those of before and the new one; and no table but those
  -- of notes and tags is changed.
  pub create_note-Written :
      (workspace_id : ℕ) (title : Str) (content : Option Str) (owner_id : ℕ) (tag_names : List Str)
      (s s' : Session sql redis) (note : Note)
      → create_note sql redis json lower show now task_id workspace_id title content owner_id
          tag_names s
        ≡ (ok note, s')
      → Written workspace_id title content owner_id tag_names s s' note
  unfolding create_note verify_workspace_membership create stored commit queue_embeddings
  create_note-Written workspace_id title content owner_id tag_names s s' note h =
      elim (Option-cases (get_by_workspace_and_user sql workspace_id owner_id s.db)) [
        | inl e ↦ cc (e, h)
        | inr (mine, e) ↦ elim (Result-cases (resolve_tags lower sql redis tag_names s)) [
          | inl (x, s₁, r) ↦ cc (e, r, h)
          | inr (tags, s₁, r) ↦ elim (Bool-cases (repeats_tag tags)) [
            | inl twice ↦
                let run : create_note sql redis json lower show now task_id workspace_id title
                      content owner_id tag_names s
                    ≡ (err integrity_error, s₁) =
                  rw e (rw r (rw twice refl)) in
                cc (sym run ∙ h)
            | inr once ↦
                let make : ℕ → Note = λ id. record {
                  id = id;
                  title = title;
                  content = content;
                  workspace_id = workspace_id;
                  owner_id = owner_id;
                  created_at = now;
                  tags = tags;
                } in
                elim (Option-cases (sql.insert note_schema make s₁.db.notes)) [
                  | inl clash ↦
                      let run : create_note sql redis json lower show now task_id workspace_id title
                            content owner_id tag_names s
                          ≡ (err integrity_error, s₁) =
                        rw e (rw r (rw once (rw clash refl))) in
                      cc (sym run ∙ h)
                  | inr ((row, t), k) ↦
                      let d = record s₁.db { notes = t } in
                      let run : create_note sql redis json lower show now task_id workspace_id title
                            content owner_id tag_names s
                          ≡ (
                            ok row,
                            queue_embeddings sql redis json lower show now task_id row.id
                                (record s₁ { db = d; durable = d }),
                          ) =
                        rw e (rw r (rw once (rw k refl))) in
                      let both = sym run ∙ h in
                      let same : row ≡ note = cc both in
                      let saved : s'.durable ≡ d = sym (ap (λ r. r.1.durable) both) in
                      let only = resolve_tags-TagsOnly lower sql redis tag_names s in
                      let tagged : s₁ ≡ record s { db = record s.db { tags = s₁.db.tags } } =
                        rw r at only in
                      let notes_same : s₁.db.notes ≡ s.db.notes = ap (λ q. q.db.notes) tagged in
                      let with_notes : Database sql → Database sql = λ q. record q { notes = t } in
                      let (id, made, members, _) =
                        insert_some note_schema make s₁.db.notes t row k in
                      let (found, keys) = head?-filter _ mine (rows s.db.members) e in
                      let new : note ≡ make id = sym same ∙ made in
                      record {
                        membership = mine;
                        membership_stored = found;
                        here = (ground (arith, keys), ground (arith, keys));
                        fields = (
                          ap (λ n. n.title) new,
                          ap (λ n. n.content) new,
                          ap (λ n. n.workspace_id) new,
                          ap (λ n. n.owner_id) new,
                          ap (λ n. n.created_at) new,
                        );
                        tagged =
                            rw (saved, ap (λ n. n.tags) new)
                              (resolve_tags-Tagged lower sql redis tag_names s s₁ tags r);
                        no_repeat = rw (ap (λ n. n.tags) new) once;
                        queued =
                            rw (← same, sym (ap (λ z. z.1.cache) both))
                              (queue_embeddings-Queued sql redis json lower show now task_id row.id
                                s.cache (record s₁ { db = d; durable = d })
                                (ap (λ q. q.cache) tagged));
                        durable_notes = λ x. rw saved (rw (← same, ← notes_same) (members x));
                        others = rw saved (ap with_notes (ap (λ q. q.db) tagged));
                      }
                ]
          ]
        ]
      ]

  -- A creation that raises commits nothing.
  pub create_note_atomic :
      (workspace_id : ℕ) (title : Str) (content : Option Str) (owner_id : ℕ) (tag_names : List Str)
      (s s' : Session sql redis) (e : Error)
      → create_note sql redis json lower show now task_id workspace_id title content owner_id
          tag_names s
        ≡ (err e, s')
      → s'.durable ≡ s.durable
  unfolding create_note verify_workspace_membership create stored commit queue_embeddings
  create_note_atomic workspace_id title content owner_id tag_names s s' e h =
      elim (Option-cases (get_by_workspace_and_user sql workspace_id owner_id s.db)) [
        | inl f ↦ ground (arith, f, h)
        | inr (mine, f) ↦ elim (Result-cases (resolve_tags lower sql redis tag_names s)) [
          | inl (x, s₁, r) ↦
              let run : create_note sql redis json lower show now task_id workspace_id title content
                    owner_id tag_names s
                  ≡ (err x, s₁) =
                rw f (rw r refl) in
              let only = resolve_tags-TagsOnly lower sql redis tag_names s in
              let tagged : s₁ ≡ record s { db = record s.db { tags = s₁.db.tags } } =
                rw r at only in
              sym (ap (λ q. q.1.durable) (sym run ∙ h)) ∙ ap (λ q. q.durable) tagged
          | inr (tags, s₁, r) ↦
              let only = resolve_tags-TagsOnly lower sql redis tag_names s in
              let tagged : s₁ ≡ record s { db = record s.db { tags = s₁.db.tags } } =
                rw r at only in
              elim (Bool-cases (repeats_tag tags)) [
                | inl twice ↦
                    let run : create_note sql redis json lower show now task_id workspace_id title
                          content owner_id tag_names s
                        ≡ (err integrity_error, s₁) =
                      rw f (rw r (rw twice refl)) in
                    sym (ap (λ q. q.1.durable) (sym run ∙ h)) ∙ ap (λ q. q.durable) tagged
                | inr once ↦
                    let make : ℕ → Note = λ id. record {
                      id = id;
                      title = title;
                      content = content;
                      workspace_id = workspace_id;
                      owner_id = owner_id;
                      created_at = now;
                      tags = tags;
                    } in
                    elim (Option-cases (sql.insert note_schema make s₁.db.notes)) [
                      | inl clash ↦
                          let run : create_note sql redis json lower show now task_id workspace_id
                                title content owner_id tag_names s
                              ≡ (err integrity_error, s₁) =
                            rw f (rw r (rw once (rw clash refl))) in
                          let only = resolve_tags-TagsOnly lower sql redis tag_names s in
                          let tagged : s₁ ≡ record s { db = record s.db { tags = s₁.db.tags } } =
                            rw r at only in
                          sym (ap (λ q. q.1.durable) (sym run ∙ h)) ∙ ap (λ q. q.durable) tagged
                      | inr ((row, t), k) ↦
                          let d = record s₁.db { notes = t } in
                          let run : create_note sql redis json lower show now task_id workspace_id
                                title content owner_id tag_names s
                              ≡ (
                                ok row,
                                queue_embeddings sql redis json lower show now task_id row.id
                                    (record s₁ { db = d; durable = d }),
                              ) =
                            rw f (rw r (rw once (rw k refl))) in
                          cc (sym run ∙ h)
                    ]
              ]
        ]
      ]
