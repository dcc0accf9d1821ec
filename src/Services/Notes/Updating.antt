-- ===== src/Services/Notes/Updating.antt =====
-- What the update of a note requires and leaves behind.
use ai_secure_collaboration.Services.Notes.Retagging.{update-Replaced, retag-Replaced}
use ai_secure_collaboration.Prelude.{
  ℕ, ◌≡◌, ◌≢◌, ◌↔◌, refl, sym, ap, ◌∙◌, inl, inr, Option, none, some, List, In, Str, arith,
  Option-cases, head?-filter, ==_iff, Bool-cases,
}
use ai_secure_collaboration.External.Sql.{Sql}
use ai_secure_collaboration.Services.Notes.Tagging.{Tagged}
use ai_secure_collaboration.Services.Notes.Queueing.{
  Queued, queue_embeddings-Queued, queue_embeddings-durable,
}
use ai_secure_collaboration.Core.Exceptions.{database_error}
use ai_secure_collaboration.External.Redis.{Redis}
use ai_secure_collaboration.External.Json.{Json}
use ai_secure_collaboration.Core.Action.{Result-cases, ok, err}
use ai_secure_collaboration.Models.{Note, note_schema, WorkspaceMember}
use ai_secure_collaboration.Repositories.{
  Session, note_repo, update, get, commit, get_by_workspace_and_user, refresh,
}
use ai_secure_collaboration.Services.Notes.{
  note_not_found, note_boundary, with_updates, retag, update_note, verify_workspace_membership,
  queue_embeddings,
}
use ai_secure_collaboration.Services.Notes.Editing.{
  NotesOnly, NotesOnly-trans, update-NotesOnly, retag-NotesOnly,
}

module _ (sql : Sql) (redis : Redis) where
  open sql use {rows}

  module _ (json : Json) (lower : Str → Str) (show : ℕ → Str) where
    -- What an update that succeeds rests on and leaves behind.
    pub record Updated (task_id : Str) (note_id : ℕ) (title content : Option Str)
        (tag_names : Option (List Str)) (user_id : ℕ) (s s' : Session sql redis) (note : Note)
        : Type 0 where
      pub old : Note
      pub old_stored : In old (rows s.db.notes) × (old.id ≡ note_id)
      pub membership : WorkspaceMember
      pub membership_stored : In membership (rows s.db.members)
      pub here : (membership.workspace_id ≡ old.workspace_id) × (membership.user_id ≡ user_id)
      pub new_title :
          ((t : Str) → title ≡ some t → note.title ≡ t) × (title ≡ none → note.title ≡ old.title)
      pub new_content :
          ((c : Str) → content ≡ some c → note.content ≡ some c)
          × (content ≡ none → note.content ≡ old.content)
      pub given_tags :
          (names : List Str)
          → tag_names ≡ some names
          → Tagged lower sql redis names (rows s'.durable.tags) note.tags
      pub kept_tags : tag_names ≡ none → note.tags ≡ old.tags
      pub kept : note ≡ record old { title = note.title; content = note.content; tags = note.tags }
      pub queued : Queued redis json task_id (show note_id) s.cache s'.cache
      pub stored : In note (rows s'.durable.notes)
      pub other_notes :
          (x : Note) → x.id ≢ note_id → In x (rows s'.durable.notes) ↔ In x (rows s.db.notes)
      pub others : s'.durable ≡ record s.db { tags = s'.durable.tags; notes = s'.durable.notes }

    -- The title and the content that `with_updates` makes.
    with_updates-title :
        (title content : Option Str) (old : Note)
        → let n = with_updates sql redis json lower show title content old in
          ((t : Str) → title ≡ some t → n.title ≡ t) × (title ≡ none → n.title ≡ old.title)
    unfolding with_updates
    with_updates-title none content old = (λ t e. cc e, λ e. refl)
    with_updates-title (some t) content old = (λ u e. cc e, λ e. cc e)

    with_updates-content :
        (title content : Option Str) (old : Note)
        → let n = with_updates sql redis json lower show title content old in
          ((c : Str) → content ≡ some c → n.content ≡ some c)
          × (content ≡ none → n.content ≡ old.content)
    unfolding with_updates
    with_updates-content title none old = (λ t e. cc e, λ e. refl)
    with_updates-content title (some c) old = (λ u e. cc e, λ e. cc e)

    -- Where the steps of an update lead when all of them succeed.
    update-steps :
        (task_id : Str) (note_id : ℕ) (title content : Option Str) (tag_names : Option (List Str))
        (user_id : ℕ) (s s₁ s₂ s' : Session sql redis) (old edited note : Note)
        (mine : WorkspaceMember)
        → get sql (note_repo sql) note_id s.db ≡ some old
        → get_by_workspace_and_user sql old.workspace_id user_id s.db ≡ some mine
        → update sql
            (note_repo sql)
            redis
            old
            (with_updates sql redis json lower show title content)
            s
          ≡ (ok edited, s₁)
        → retag sql redis json lower show tag_names edited s₁ ≡ (ok note, s₂)
        → s'.durable ≡ s₂.db
        → (s₂.cache ≡ s.cache → Queued redis json task_id (show note.id) s.cache s'.cache)
        → Updated task_id note_id title content tag_names user_id s s' note
    unfolding with_updates
    update-steps task_id note_id title content tag_names user_id s s₁ s₂ s' old edited note mine e f
          r q saved queue =
        let change = with_updates sql redis json lower show title content in
        let (made, first) = update-Replaced sql redis old edited change s s₁ (λ n. refl) r in
        let (tags, second) =
          retag-Replaced sql redis json lower show tag_names edited note s₁ s₂ q in
        let (found, key) = head?-filter _ old (rows s.db.notes) e in
        let (in_team, keys) = head?-filter _ mine (rows s.db.members) f in
        let numbered : old.id ≡ note_id = (==_iff old.id note_id).0 key in
        let same_id : edited.id ≡ note_id = ap (λ n. n.id) made ∙ numbered in
        let note_same_id : note.id ≡ note_id = ap (λ n. n.id) tags.kept ∙ same_id in
        let a : NotesOnly sql redis s s₁ =
          rw r at (update-NotesOnly sql redis json lower show 0 task_id old change s) in
        let b : NotesOnly sql redis s₁ s₂ =
          rw q at (retag-NotesOnly sql redis json lower show 0 task_id tag_names edited s₁) in
        let only = NotesOnly-trans sql redis json lower show 0 task_id s s₁ s₂ a b in
        let titles = with_updates-title title content old in
        let contents = with_updates-content title content old in
        let titled : note.title ≡ (change old).title =
          ap (λ n. n.title) tags.kept ∙ ap (λ n. n.title) made in
        let filled : note.content ≡ (change old).content =
          ap (λ n. n.content) tags.kept ∙ ap (λ n. n.content) made in
        let whole : note ≡ record (change old) { tags = note.tags } =
          tags.kept ∙ ap (λ (n : Note). record n { tags = note.tags }) made in
        record {
          old = old;
          old_stored = (found, numbered);
          membership = mine;
          membership_stored = in_team;
          here = (ground (arith, keys), ground (arith, keys));
          new_title = (λ t given. titled ∙ titles.0 t given, λ kept. titled ∙ titles.1 kept);
          new_content = (λ c given. filled ∙ contents.0 c given, λ kept. filled ∙ contents.1 kept);
          given_tags = λ names given. rw saved (tags.given_tags names given);
          kept_tags = λ none_given. tags.kept_tags none_given ∙ ap (λ n. n.tags) made;
          kept =
              whole
              ∙ ap
                  (λ (n : Note). record old { title = n.title; content = n.content; tags = n.tags })
                  (sym whole);
          queued = rw (← note_same_id) (queue (ap (λ z. z.cache) only));
          stored = rw saved (second.there (first.there found));
          other_notes = λ x far. rw saved (
              let (to, of) = second.others x (λ i. far (i ∙ same_id)) in
              let (to', of') = first.others x (λ i. far (i ∙ numbered)) in
              (λ i. to' (to i), λ i. of (of' i)));
          others = rw saved (ap (λ z. z.db) only);
        }

    module _ (now : ℕ) (task_id : Str) (note_id : ℕ) (title content : Option Str)
        (tag_names : Option (List Str)) (user_id : ℕ) where
      -- An update that succeeds: the note is stored and the caller has a membership of its workspace; the title
      -- and the content are those that were given, or else the old ones; the tags that were given are stored
      -- and stand for exactly the given names that are not blank, and the old ones are kept where none were
      -- given; everything else of the note is kept; the new note is committed in the place of the old one, with
      -- all other notes as they were; no table but those of notes and tags is changed; and the task that embeds
      -- the note is queued where there is a client of Redis.
      pub update_note-Updated :
          (s s' : Session sql redis) (note : Note)
          → update_note sql redis json lower show now task_id note_id title content tag_names
              user_id s
            ≡ (ok note, s')
          → Updated task_id note_id title content tag_names user_id s s' note
      unfolding update_note verify_workspace_membership commit refresh
      update_note-Updated s s' note h = elim (Option-cases (get sql (note_repo sql) note_id s.db)) [
        | inl e ↦
            let run : update_note sql redis json lower show now task_id note_id title content
                  tag_names user_id s
                ≡ (err note_not_found, s) =
              rw e refl in
            cc (sym run ∙ h)
        | inr (old, e) ↦
            elim (Option-cases (get_by_workspace_and_user sql old.workspace_id user_id s.db)) [
              | inl f ↦
                  let run : update_note sql redis json lower show now task_id note_id title content
                        tag_names user_id s
                      ≡ (err note_boundary, s) =
                    rw e (rw f refl) in
                  cc (sym run ∙ h)
              | inr (mine, f) ↦
                  let change = with_updates sql redis json lower show title content in
                  elim (Result-cases (update sql (note_repo sql) redis old change s)) [
                    | inl (x, s₁, r) ↦
                        let run : update_note sql redis json lower show now task_id note_id title
                              content tag_names user_id s
                            ≡ (err x, s₁) =
                          rw e (rw f (rw r refl)) in
                        cc (sym run ∙ h)
                    | inr (edited, s₁, r) ↦
                        elim (Result-cases (retag sql redis json lower show tag_names edited s₁)) [
                          | inl (x, s₂, q) ↦
                              let run : update_note sql redis json lower show now task_id note_id
                                    title content tag_names user_id s
                                  ≡ (err x, s₂) =
                                rw e (rw f (rw r (rw q refl))) in
                              cc (sym run ∙ h)
                          | inr (new, s₂, q) ↦
                              let saved = record s₂ { durable = s₂.db } in
                              elim (Bool-cases (sql.reloads note_schema new.id s₂.db.notes)) [
                                | inr gone ↦
                                    let run : update_note sql redis json lower show now task_id
                                          note_id title content tag_names user_id s
                                        ≡ (err database_error, saved) =
                                      rw e (rw f (rw r (rw q (rw gone refl)))) in
                                    cc (sym run ∙ h)
                                | inl there ↦
                                    let queue =
                                      queue_embeddings sql redis json lower show now task_id new.id
                                        saved in
                                    let run : update_note sql redis json lower show now task_id
                                          note_id title content tag_names user_id s
                                        ≡ (ok new, queue) =
                                      rw e (rw f (rw r (rw q (rw there refl)))) in
                                    let both = sym run ∙ h in
                                    let same : new ≡ note = cc both in
                                    update-steps task_id note_id title content tag_names user_id s
                                      s₁ s₂ s' old edited note mine e f r (q ∙ rw same refl)
                                      (sym (ap (λ z. z.1.durable) both)
                                        ∙ queue_embeddings-durable sql redis json lower show now
                                            task_id new.id saved)
                                      (λ cached.
                                        rw (← same, sym (ap (λ z. z.1.cache) both))
                                          (queue_embeddings-Queued sql redis json lower show now
                                            task_id new.id s.cache saved cached))
                              ]
                        ]
                  ]
            ]
      ]
