-- ===== src/Api/Routers/Rosters/OnNotes.antt =====
-- The endpoints on notes leave the workspaces and their members alone.
use ai_secure_collaboration.Prelude.{
  ℕ, refl, ap, inl, inr, Option, List, Str, Option-cases, Bool-cases,
}
use ai_secure_collaboration.Core.Action.{Result-cases}
use ai_secure_collaboration.Models.{User, Note, Database}
use ai_secure_collaboration.Repositories.{get, note_repo, get_by_workspace_and_user}
use ai_secure_collaboration.Schemas.{is_note_create, is_note_update, is_page_params}
use ai_secure_collaboration.Services.Notes
use ai_secure_collaboration.Services.Notes.Access.{delete_note-Deleted, refused_deletion}
use ai_secure_collaboration.Services.Notes.Writing.{create_note-Written, create_note_atomic}
use ai_secure_collaboration.Services.Notes.Editing.{update_note-frame}
use ai_secure_collaboration.Api.{Platform, Response, one_note, note_page, no_content}
use ai_secure_collaboration.Api.Routers.{
  NotesRequest, create_note, list_notes, get_note, update_note, delete_note, notes_endpoint,
}
use ai_secure_collaboration.Api.Routers.Rosters.{SameRosters, opened, answered}

module _ (p : Platform) where
  module _ (now : ℕ) (task_id : Str) (current_user : User) (d : Database p.sql)
      (cache : p.redis.State) where
    create_note-SameRosters :
        (workspace_id : ℕ) (title : Str) (content : Option Str) (tags : List Str)
        → SameRosters p d
            (Notes.create_note p.sql p.redis p.json p.lower p.numerals.str now task_id workspace_id
              title content current_user.id tags
              (opened p d cache)).1.durable
    create_note-SameRosters workspace_id title content tags =
        elim (Result-cases (
          Notes.create_note p.sql p.redis p.json p.lower p.numerals.str now task_id workspace_id
            title content current_user.id tags (opened p d cache))) [
              | inl (e, s', r) ↦
                  let still =
                    create_note_atomic p.sql p.redis p.json p.lower p.numerals.str now task_id
                      workspace_id title content current_user.id tags (opened p d cache) s' e r in
                  rw r (ap (λ q. q.workspaces) still, ap (λ q. q.members) still)
              | inr (n, s', r) ↦
                  let w =
                    create_note-Written p.sql p.redis p.json p.lower p.numerals.str now task_id
                      workspace_id title content current_user.id tags (opened p d cache) s' n r in
                  rw r (ap (λ q. q.workspaces) w.others, ap (λ q. q.members) w.others)
            ]

    update_note-SameRosters :
        (note_id : ℕ) (title content : Option Str) (tags : Option (List Str))
        → SameRosters p d
            (Notes.update_note p.sql p.redis p.json p.lower p.numerals.str now task_id note_id title
              content tags current_user.id
              (opened p d cache)).1.durable
    update_note-SameRosters note_id title content tags =
        elim (update_note-frame p.sql p.redis p.json p.lower p.numerals.str now task_id note_id
          title content tags current_user.id (opened p d cache)) [
            | inl still ↦ (ap (λ q. q.workspaces) still, ap (λ q. q.members) still)
            | inr edited ↦ (ap (λ q. q.workspaces) edited, ap (λ q. q.members) edited)
          ]

    delete_note-SameRosters :
        (note_id : ℕ)
        → SameRosters p d
            (Notes.delete_note p.sql p.redis note_id current_user.id (opened p d cache)).1.durable
    delete_note-SameRosters note_id =
        elim (Result-cases
          (Notes.delete_note p.sql p.redis note_id current_user.id (opened p d cache))) [
            | inl (e, s', r) ↦
                let still =
                  refused_deletion p.sql p.redis note_id current_user.id (opened p d cache) s' e
                    r in
                rw r (ap (λ q. q.durable.workspaces) still, ap (λ q. q.durable.members) still)
            | inr (u, s', r) ↦
                let gone =
                  delete_note-Deleted p.sql p.redis note_id current_user.id (opened p d cache) s'
                    r in
                rw r (ap (λ q. q.workspaces) gone.others, ap (λ q. q.members) gone.others)
          ]

    get_note-SameRosters :
        (note_id : ℕ)
        → SameRosters p d
            (Notes.get_note p.sql p.redis note_id current_user.id (opened p d cache)).1.durable
    unfolding Notes.get_note Notes.verify_workspace_membership
    get_note-SameRosters note_id = elim (Option-cases (get p.sql (note_repo p.sql) note_id d)) [
      | inl e ↦ rw e (refl, refl)
      | inr (n, e) ↦
          elim (Option-cases (get_by_workspace_and_user p.sql n.workspace_id current_user.id d)) [
            | inl f ↦ rw e (rw f (refl, refl))
            | inr (m, f) ↦ rw e (rw f (refl, refl))
          ]
    ]

    list_notes-SameRosters :
        (workspace_id skip limit : ℕ) (tag search : Option Str)
        → SameRosters p d
            (Notes.list_notes_in_workspace p.sql p.redis p.lower p.like workspace_id current_user.id
              skip limit tag search
              (opened p d cache)).1.durable
    unfolding Notes.list_notes_in_workspace Notes.verify_workspace_membership
    list_notes-SameRosters workspace_id skip limit tag search =
        elim (Option-cases (get_by_workspace_and_user p.sql workspace_id current_user.id d)) [
          | inl f ↦ rw f (refl, refl)
          | inr (m, f) ↦ rw f (refl, refl)
        ]

    pub notes-SameRosters :
        (request : NotesRequest)
        → SameRosters p d
            (notes_endpoint p now task_id current_user request (opened p d cache)).1.durable
    unfolding notes_endpoint
    notes-SameRosters (create_note workspace_id n) = elim (Bool-cases (is_note_create n)) [
      | inr broken ↦ rw broken (refl, refl)
      | inl valid ↦ rw valid (
          answered p one_note
            (Notes.create_note p.sql p.redis p.json p.lower p.numerals.str now task_id workspace_id
              n.title n.content current_user.id n.tags)
            (opened p d cache) (create_note-SameRosters workspace_id n.title n.content n.tags))
    ]
    notes-SameRosters (list_notes workspace_id tag search page) =
        let envelope : List Note × ℕ → Response = λ found.
          note_page (record {
            items = found.0;
            total = found.1;
            limit = page.limit;
            offset = page.offset;
          }) in
        elim (Bool-cases (is_page_params page)) [
          | inr broken ↦ rw broken (refl, refl)
          | inl valid ↦ rw valid (
              answered p envelope
                (Notes.list_notes_in_workspace p.sql p.redis p.lower p.like workspace_id
                  current_user.id page.offset page.limit tag search)
                (opened p d cache)
                (list_notes-SameRosters workspace_id page.offset page.limit tag search))
        ]
    notes-SameRosters (get_note note_id) =
        answered p one_note (Notes.get_note p.sql p.redis note_id current_user.id)
          (opened p d cache) (get_note-SameRosters note_id)
    notes-SameRosters (update_note note_id n) = elim (Bool-cases (is_note_update n)) [
      | inr broken ↦ rw broken (refl, refl)
      | inl valid ↦ rw valid (
          answered p one_note
            (Notes.update_note p.sql p.redis p.json p.lower p.numerals.str now task_id note_id
              n.title n.content n.tags current_user.id)
            (opened p d cache) (update_note-SameRosters note_id n.title n.content n.tags))
    ]
    notes-SameRosters (delete_note note_id) =
        answered p (λ done. no_content) (Notes.delete_note p.sql p.redis note_id current_user.id)
          (opened p d cache) (delete_note-SameRosters note_id)
