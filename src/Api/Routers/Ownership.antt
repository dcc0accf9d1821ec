-- ===== src/Api/Routers/Ownership.antt =====
-- Every workspace keeps its owner: an invariant of the whole application.
use ai_secure_collaboration.Prelude.{
  ℕ, ◌≡◌, refl, sym, ap, ◌∙◌, inl, inr, Option, In, Str, Bool-cases,
}
use ai_secure_collaboration.Core.Action.{Result, ok, err, continue, Result-cases}
use ai_secure_collaboration.Models.{User, Workspace, WorkspaceMember, WorkspaceRole, Database}
use ai_secure_collaboration.Schemas.{is_workspace_create, is_member_add}
use ai_secure_collaboration.Services.Workspaces
use ai_secure_collaboration.Services.Workspaces.Rosters.{
  create_workspace-Created, create_workspace_atomic, list_workspace_members_guarded, Created,
}
use ai_secure_collaboration.Services.Workspaces.Invitations.{
  add_workspace_member-Added, refused_unchanged,
}
use ai_secure_collaboration.Api.{Platform, Session}
use ai_secure_collaboration.Api.Routers.{
  WorkspacesRequest, create_workspace, list_workspaces, invite_member, list_members,
  workspaces_endpoint, notes_endpoint, chat_endpoint, users_endpoint, Request, on_workspaces,
  on_notes, on_chat, on_users, endpoint,
}
use ai_secure_collaboration.Api.Routers.Rosters.{SameRosters, opened}
use ai_secure_collaboration.Api.Routers.Rosters.OnNotes.{notes-SameRosters}
use ai_secure_collaboration.Api.Routers.Rosters.OnChat.{chat-SameRosters, users-SameRosters}

module _ (p : Platform) where
  -- Every stored workspace has a stored membership of its owner, as owner.
  abbrev pub Owned : Database p.sql → Type 0
  Owned d =
      (w : Workspace)
      → In w (p.sql.rows d.workspaces)
      → (m : WorkspaceMember) × In m (p.sql.rows d.members)
        × (m.workspace_id ≡ w.id)
        × (m.user_id ≡ w.owner_id)
        × (m.role ≡ WorkspaceRole.owner)

  pub SameRosters-Owned : (d d' : Database p.sql) → SameRosters p d d' → Owned d → Owned d'
  SameRosters-Owned d d' same owned w i =
      let (m, j, a, b, c) = owned w (rw same.0 at i) in (m, rw same.1 j, a, b, c)

  module _ (d : Database p.sql) (cache : p.redis.State) (owned : Owned d) where
    -- A workspace that is created has its owner among the members.
    Created-Owned :
        (name : Str) (description : Option Str) (owner_id : ℕ) (s' : Session p.sql p.redis)
        (new : Workspace)
        → Created p.sql p.redis name description owner_id (opened p d cache) s' new
        → Owned s'.durable
    Created-Owned name description owner_id s' new made = λ w i.
        elim ((made.durable_workspaces w).0 i) [
          | inl same ↦
              let (_, _, owner) = made.fields in
              let (workspace_id, user_id, role) = made.owns in
              (
                made.membership,
                (made.durable_members made.membership).1 (inl refl),
                workspace_id ∙ ap (λ x. x.id) (sym same),
                user_id ∙ sym owner ∙ ap (λ x. x.owner_id) (sym same),
                role,
              )
          | inr old ↦
              let (m, j, a, b, c) = owned w old in (m, (made.durable_members m).1 (inr j), a, b, c)
        ]

    create_workspace-Owned :
        (name : Str) (description : Option Str) (owner_id : ℕ)
        → Owned
            (Workspaces.create_workspace p.sql p.redis name description owner_id
              (opened p d cache)).1.durable
    create_workspace-Owned name description owner_id =
        elim (Result-cases (
          Workspaces.create_workspace p.sql p.redis name description owner_id (opened p d cache))) [
            | inl (e, s', r) ↦
                elim (create_workspace_atomic p.sql p.redis name description owner_id
                  (opened p d cache) s' e r) [
                    | inl still ↦ rw r (
                        SameRosters-Owned d s'.durable
                          (ap (λ q. q.workspaces) still, ap (λ q. q.members) still) owned)
                    | inr (_, (w, made)) ↦ rw r (Created-Owned name description owner_id s' w made)
                  ]
            | inr (new, s', r) ↦
                let made =
                  create_workspace-Created p.sql p.redis name description owner_id
                    (opened p d cache) s' new r in
                rw r (Created-Owned name description owner_id s' new made)
          ]

    invite_member-Owned :
        (now : ℕ) (task_id : Str) (workspace_id : ℕ) (email : Str) (role : WorkspaceRole)
        (user_id : ℕ)
        → Owned
            (Workspaces.add_workspace_member p.sql p.redis p.json now task_id workspace_id email
              role user_id
              (opened p d cache)).1.durable
    invite_member-Owned now task_id workspace_id email role user_id =
        elim (Result-cases (
          Workspaces.add_workspace_member p.sql p.redis p.json now task_id workspace_id email role
            user_id (opened p d cache))) [
              | inl (e, s', r) ↦
                  let still =
                    refused_unchanged p.sql p.redis p.json now task_id workspace_id email role
                      user_id (opened p d cache) s' e r in
                  rw r (
                    SameRosters-Owned d s'.durable
                      (ap (λ q. q.durable.workspaces) still, ap (λ q. q.durable.members) still)
                      owned)
              | inr (new, s', r) ↦
                  let added =
                    add_workspace_member-Added p.sql p.redis p.json now task_id workspace_id email
                      role user_id (opened p d cache) s' new r in
                  let same : s'.durable.workspaces ≡ d.workspaces =
                    ap (λ q. q.workspaces) added.others in
                  rw r (λ w i.
                    let (m, j, a, b, c) = owned w (rw same at i) in
                    (m, (added.durable_members m).1 (inr j), a, b, c))
            ]

    pub workspaces-Owned :
        (now : ℕ) (task_id : Str) (current_user : User) (request : WorkspacesRequest)
        → Owned
            (workspaces_endpoint p now task_id current_user request (opened p d cache)).1.durable
    unfolding workspaces_endpoint Workspaces.list_user_workspaces
    workspaces-Owned now task_id u (create_workspace w) =
        elim (Bool-cases (is_workspace_create w)) [
          | inr broken ↦ rw broken owned
          | inl valid ↦
              let kept = create_workspace-Owned w.name w.description u.id in
              elim (Result-cases (
                Workspaces.create_workspace p.sql p.redis w.name w.description u.id
                  (opened p d cache))) [
                    | inl (e, s', r) ↦ rw valid (rw r (rw r at kept))
                    | inr (a, s', r) ↦ rw valid (rw r (rw r at kept))
                  ]
        ]
    workspaces-Owned now task_id u list_workspaces = owned
    workspaces-Owned now task_id u (invite_member workspace_id m) =
        elim (Bool-cases (is_member_add p.is_email m)) [
          | inr broken ↦ rw broken owned
          | inl valid ↦
              let kept = invite_member-Owned now task_id workspace_id m.email m.role u.id in
              elim (Result-cases (
                Workspaces.add_workspace_member p.sql p.redis p.json now task_id workspace_id
                  m.email m.role u.id (opened p d cache))) [
                    | inl (e, s', r) ↦ rw valid (rw r (rw r at kept))
                    | inr (a, s', r) ↦ rw valid (rw r (rw r at kept))
                  ]
        ]
    workspaces-Owned now task_id u (list_members workspace_id) =
        let still =
          (list_workspace_members_guarded p.sql p.redis workspace_id u.id (opened p d cache)).0 in
        elim (Result-cases
          (Workspaces.list_workspace_members p.sql p.redis workspace_id u.id (opened p d cache))) [
            | inl (e, s', r) ↦
                let same : s' ≡ opened p d cache = rw r at still in rw r (rw same owned)
            | inr (a, s', r) ↦
                let same : s' ≡ opened p d cache = rw r at still in rw r (rw same owned)
          ]

    pub endpoint-Owned :
        (now : ℕ) (task_id : Str) (current_user : User) (request : Request)
        → Owned (endpoint p now task_id current_user request (opened p d cache)).1.durable
    unfolding endpoint
    endpoint-Owned now task_id u (on_workspaces request) = workspaces-Owned now task_id u request
    endpoint-Owned now task_id u (on_notes request) =
        SameRosters-Owned d (notes_endpoint p now task_id u request (opened p d cache)).1.durable
          (notes-SameRosters p now task_id u d cache request) owned
    endpoint-Owned now task_id u (on_chat request) =
        SameRosters-Owned d (chat_endpoint p now task_id u request (opened p d cache)).1.durable
          (chat-SameRosters p now task_id u d cache request) owned
    endpoint-Owned now task_id u (on_users request) =
        SameRosters-Owned d (users_endpoint p now task_id u request (opened p d cache)).1.durable
          (users-SameRosters p now task_id u d cache request) owned

    -- Whoever the token names, if anyone.
    pub admitted-Owned :
        (now : ℕ) (task_id : Str) (request : Request) (r : Result User)
        → Owned (continue r (λ u. endpoint p now task_id u request) (opened p d cache)).1.durable
    admitted-Owned now task_id request (ok u) = endpoint-Owned now task_id u request
    admitted-Owned now task_id request (err e) = owned
