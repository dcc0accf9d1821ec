-- ===== src/Services/Notes/Access.antt =====
-- Who may read and delete a note, and what a deletion takes away.
use ai_secure_collaboration.Prelude.{
  ◌==◌, ℕ, ◌≡◌, ◌≢◌, ◌↔◌, ◌⊎◌, sym, ap, ◌∙◌, inl, inr, true, In, arith, head?-filter, Option-cases,
  ==_iff, some, Bool-cases,
}
use ai_secure_collaboration.External.Sql.{Sql, deleted_rows}
use ai_secure_collaboration.External.Redis.{Redis}
use ai_secure_collaboration.Core.Exceptions.{Error}
use ai_secure_collaboration.Core.Action.{ok, err}
use ai_secure_collaboration.Models.{Note, NoteChunk, WorkspaceMember}
use ai_secure_collaboration.Repositories.{
  Session, get, note_repo, get_by_workspace_and_user, delete, commit,
}
use ai_secure_collaboration.Services.Workspaces.{is_manager}
use ai_secure_collaboration.Services.Notes.{
  get_note, verify_workspace_membership, delete_note, may_not_delete, cascade_chunks, Error,
}

-- The session after the deletion of a note.
abbrev deleted_session : (sql : Sql) (redis : Redis) → Note → Session sql redis → Session sql redis
deleted_session sql redis note s =
    let d = record s.db {
      notes = sql.delete (λ r. r.id == note.id) s.db.notes;
      chunks = sql.delete (λ c. c.note_id == note.id) s.db.chunks;
    } in
    record s { db = d; durable = d }

module _ (sql : Sql) (redis : Redis) (note_id current_user_id : ℕ) where
  open sql use {rows}

  -- The caller's membership of a note's workspace.
  pub record Reader (s : Session sql redis) (note : Note) : Type 0 where
    pub stored : In note (rows s.db.notes)
    pub asked_for : note.id ≡ note_id
    pub membership : WorkspaceMember
    pub membership_stored : In membership (rows s.db.members)
    pub here :
        (membership.workspace_id ≡ note.workspace_id) × (membership.user_id ≡ current_user_id)

  -- What a deletion rests on and leaves behind.
  pub record Deleted (s s' : Session sql redis) : Type 0 where
    pub note : Note
    pub reader : Reader s note
    pub allowed : (note.owner_id ≡ current_user_id) ⊎ (is_manager reader.membership.role ≡ true)
    pub durable_notes :
        (x : Note) → In x (rows s'.durable.notes) ↔ (In x (rows s.db.notes) × (x.id ≢ note_id))
    pub durable_chunks :
        (c : NoteChunk)
        → In c (rows s'.durable.chunks) ↔ (In c (rows s.db.chunks) × (c.note_id ≢ note_id))
    pub others : s'.durable ≡ record s.db { notes = s'.durable.notes; chunks = s'.durable.chunks }

  -- A note that is returned is stored under the id, and the caller has a membership of its workspace;
  -- the reading changes nothing.
  pub get_note_guarded :
      (s s' : Session sql redis) (note : Note)
      → get_note sql redis note_id current_user_id s ≡ (ok note, s')
      → Reader s note × (s' ≡ s)
  unfolding get_note verify_workspace_membership
  get_note_guarded s s' note h = elim (Option-cases (get sql (note_repo sql) note_id s.db)) [
    | inl e ↦ cc (e, h)
    | inr (n, e) ↦
        elim (Option-cases (get_by_workspace_and_user sql n.workspace_id current_user_id s.db)) [
          | inl f ↦ cc (e, f, h)
          | inr (mine, f) ↦
              let run : get_note sql redis note_id current_user_id s ≡ (ok n, s) = rw e (rw f) in
              let both = sym run ∙ h in
              let same : n ≡ note = cc both in
              let still : s' ≡ s = sym (ap (λ r. r.1) both) in
              let (found, id) = head?-filter _ n (rows s.db.notes) e in
              let (stored, keys) = head?-filter _ mine (rows s.db.members) f in
              (
                record {
                  stored = rw (← same) found;
                  asked_for = ground (arith, id, same);
                  membership = mine;
                  membership_stored = stored;
                  here = ground (arith, keys, same);
                },
                still,
              )
        ]
  ]

  -- A successful deletion: the note is stored under the id, the caller has a membership of its
  -- workspace and either owns the note or manages the workspace; the committed notes are all but those
  -- with the id, the committed chunks all but those of the note, and no other table is changed.
  pub delete_note-Deleted :
      (s s' : Session sql redis)
      → delete_note sql redis note_id current_user_id s ≡ (ok tt, s')
      → Deleted s s'
  unfolding delete_note may_not_delete delete cascade_chunks commit
  delete_note-Deleted s s' h = elim (Option-cases (get sql (note_repo sql) note_id s.db)) [
    | inl e ↦ cc (e, h)
    | inr (n, e) ↦
        let (found, id) = head?-filter _ n (rows s.db.notes) e in
        let here : n.id ≡ note_id = (==_iff n.id note_id).0 id in
        let again : get sql (note_repo sql) n.id s.db ≡ some n =
          ap (λ k. get sql (note_repo sql) k s.db) here ∙ e in
        elim (Option-cases (get_by_workspace_and_user sql n.workspace_id current_user_id s.db)) [
          | inl f ↦ cc (e, f, h)
          | inr (mine, f) ↦ elim (Bool-cases (may_not_delete sql redis n mine current_user_id)) [
            | inl g ↦ cc (e, f, g, h)
            | inr g ↦
                let run : delete_note sql redis note_id current_user_id s
                    ≡ (ok tt, deleted_session sql redis n s) =
                  rw e (rw f (rw g (rw again))) in
                let saved : s' ≡ deleted_session sql redis n s =
                  sym (ap (λ r. r.1) (sym run ∙ h)) in
                let (stored, keys) = head?-filter _ mine (rows s.db.members) f in
                record {
                  note = n;
                  reader = record {
                    stored = found;
                    asked_for = here;
                    membership = mine;
                    membership_stored = stored;
                    here = ground arith;
                  };
                  allowed = ground arith;
                  durable_notes =
                      λ x. rw saved (rw (← here) (deleted_rows sql (λ r. r.id) n.id s.db.notes x));
                  durable_chunks = λ c.
                      rw saved (rw (← here) (deleted_rows sql (λ r. r.note_id) n.id s.db.chunks c));
                  others = rw saved;
                }
          ]
        ]
  ]

  -- A deletion that is refused changes nothing.
  pub refused_deletion :
      (s s' : Session sql redis) (e : Error)
      → delete_note sql redis note_id current_user_id s ≡ (err e, s')
      → s' ≡ s
  unfolding delete_note may_not_delete delete cascade_chunks commit
  refused_deletion s s' e h = ground arith
