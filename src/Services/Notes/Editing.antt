-- ===== src/Services/Notes/Editing.antt =====
-- What the update of a note may change.
use ai_secure_collaboration.Prelude.{
  ◌⊎◌, ℕ, ◌≡◌, refl, ap, ◌∙◌, inl, inr, Option, some, none, List, Str, Option-cases, Bool-cases,
}
use ai_secure_collaboration.External.Sql.{Sql}
use ai_secure_collaboration.External.Redis.{Redis}
use ai_secure_collaboration.External.Json.{Json}
use ai_secure_collaboration.Core.Action.{Result-cases}
use ai_secure_collaboration.Models.{Note, note_schema}
use ai_secure_collaboration.Repositories.{
  Session, note_repo, update, updated, get, commit, get_by_workspace_and_user, refresh,
}
use ai_secure_collaboration.Services.Notes.{
  resolve_tags, with_updates, retag, update_note, verify_workspace_membership, queue_embeddings,
  repeats_tag, added_tags,
}
use ai_secure_collaboration.Services.Notes.Writing.{TagsOnly, resolve_tags-TagsOnly}

-- Only the tables of notes and tags differ, and nothing was committed.
abbrev pub NotesOnly : (sql : Sql) (redis : Redis) → Session sql redis → Session sql redis → Type 0
NotesOnly sql redis s s' =
    s' ≡ record s { db = record s.db { tags = s'.db.tags; notes = s'.db.notes } }

module _ (sql : Sql) (redis : Redis) (json : Json) (lower : Str → Str) (show : ℕ → Str) (now : ℕ)
    (task_id : Str) where
  open sql use {rows}

  pub update-NotesOnly :
      (note : Note) (change : Note → Note) (s : Session sql redis)
      → NotesOnly sql redis s (update sql (note_repo sql) redis note change s).1
  unfolding update updated
  update-NotesOnly note change s =
      elim (Option-cases (sql.update note_schema note.id change s.db.notes)) [
        | inl clash ↦ rw clash refl
        | inr (t, k) ↦ rw k refl
      ]

  pub NotesOnly-trans :
      (a b c : Session sql redis)
      → NotesOnly sql redis a b
      → NotesOnly sql redis b c
      → NotesOnly sql redis a c
  NotesOnly-trans a b c h k =
      let put : Session sql redis → Session sql redis =
        λ s. record s { db = record s.db { tags = c.db.tags; notes = c.db.notes } } in
      k ∙ ap put h

  TagsOnly-NotesOnly : (a b : Session sql redis) → TagsOnly sql redis a b → NotesOnly sql redis a b
  TagsOnly-NotesOnly a b h =
      let put : Session sql redis → Session sql redis =
        λ s. record s { db = record s.db { notes = b.db.notes } } in
      ap put h

  pub retag-NotesOnly :
      (tag_names : Option (List Str)) (note : Note) (s : Session sql redis)
      → NotesOnly sql redis s (retag sql redis json lower show tag_names note s).1
  unfolding retag
  retag-NotesOnly none note s = refl
  retag-NotesOnly (some tag_names) note s =
      let only = TagsOnly-NotesOnly s _ (resolve_tags-TagsOnly lower sql redis tag_names s) in
      elim (Result-cases (resolve_tags lower sql redis tag_names s)) [
        | inl (e, s₁, r) ↦ rw r (rw r at only)
        | inr (tags, s₁, r) ↦ elim (Bool-cases (repeats_tag (added_tags note.tags tags))) [
          | inl twice ↦ rw r (rw twice (rw r at only))
          | inr once ↦ rw r (
              rw once (
                NotesOnly-trans s s₁ _ (rw r at only)
                  (update-NotesOnly note (λ n. record n { tags = tags }) s₁)))
        ]
      ]

  -- Whether or not an update raises, either nothing is committed, or what is committed differs from what the
  -- session saw at most in the tables of notes and tags.
  pub update_note-frame :
      (note_id : ℕ) (title content : Option Str) (tag_names : Option (List Str)) (user_id : ℕ)
      (s : Session sql redis)
      → let (r, s') =
          update_note sql redis json lower show now task_id note_id title content tag_names user_id
            s in
        (s'.durable ≡ s.durable)
        ⊎ (s'.durable ≡ record s.db { tags = s'.durable.tags; notes = s'.durable.notes })
  unfolding update_note verify_workspace_membership commit refresh queue_embeddings
  update_note-frame note_id title content tag_names user_id s =
      elim (Option-cases (get sql (note_repo sql) note_id s.db)) [
        | inl e ↦ rw e (inl refl)
        | inr (note, e) ↦
            elim (Option-cases (get_by_workspace_and_user sql note.workspace_id user_id s.db)) [
              | inl f ↦ rw e (rw f (inl refl))
              | inr (mine, f) ↦
                  let change = with_updates sql redis json lower show title content in
                  let first = update-NotesOnly note change s in
                  elim (Result-cases (update sql (note_repo sql) redis note change s)) [
                    | inl (x, s₁, r) ↦
                        let only : NotesOnly sql redis s s₁ = rw r at first in
                        rw e (rw f (rw r (inl (ap (λ q. q.durable) only))))
                    | inr (edited, s₁, r) ↦
                        let only : NotesOnly sql redis s s₁ = rw r at first in
                        let second = retag-NotesOnly tag_names edited s₁ in
                        elim (Result-cases (retag sql redis json lower show tag_names edited s₁)) [
                          | inl (x, s₂, q) ↦
                              let both = NotesOnly-trans s s₁ s₂ only (rw q at second) in
                              rw e (rw f (rw r (rw q (inl (ap (λ q. q.durable) both)))))
                          | inr (n, s₂, q) ↦
                              let both = NotesOnly-trans s s₁ s₂ only (rw q at second) in
                              elim (Bool-cases (sql.reloads note_schema n.id s₂.db.notes)) [
                                | inl there ↦
                                    rw e (rw f (rw r (rw q (rw there (inr (ap (λ q. q.db) both))))))
                                | inr gone ↦
                                    rw e (rw f (rw r (rw q (rw gone (inr (ap (λ q. q.db) both))))))
                              ]
                        ]
                  ]
            ]
      ]
