-- ===== src/Services/Workspaces/Rosters.antt =====
-- The creation of a workspace, and who may list its members.
use ai_secure_collaboration.Prelude.{
  Bool-cases, ℕ, ◌≡◌, ◌≢◌, ◌↔◌, ◌⊎◌, refl, sym, ap, ◌∙◌, inl, inr, Bool, ◌&&◌, Option, List, In,
  In-filter, In-filter_of, arith, Str, ◌==◌, ==_iff, head?-filter, Option-cases, filter,
}
use ai_secure_collaboration.External.Sql.{Sql}
use ai_secure_collaboration.External.Redis.{Redis}
use ai_secure_collaboration.Core.Exceptions.{Error, integrity_error, database_error}
use ai_secure_collaboration.Core.Action.{ok, err}
use ai_secure_collaboration.Models.{
  Workspace, workspace_schema, WorkspaceMember, WorkspaceRole, member_schema,
}
use ai_secure_collaboration.Repositories.{
  Session, create, commit, refresh, get_by_workspace_and_user, get_members_by_workspace,
}
use ai_secure_collaboration.Services.Workspaces.{
  create_workspace, list_workspace_members, roster_for_members,
}

module _ (sql : Sql) (redis : Redis) (name : Str) (description : Option Str) (owner_id : ℕ) where
  open sql use {rows, insert_some}

  -- A workspace that is created: its row and one membership of its creator as owner are committed
  -- together, and nothing else is.
  pub record Created (s s' : Session sql redis) (w : Workspace) : Type 0 where
    pub fields : (w.name ≡ name) × (w.description ≡ description) × (w.owner_id ≡ owner_id)
    pub membership : WorkspaceMember
    pub owns :
        (membership.workspace_id ≡ w.id)
        × (membership.user_id ≡ owner_id)
        × (membership.role ≡ WorkspaceRole.owner)
    pub durable_workspaces :
        (x : Workspace)
        → In x (rows s'.durable.workspaces) ↔ ((x ≡ w) ⊎ In x (rows s.db.workspaces))
    pub durable_members :
        (x : WorkspaceMember)
        → In x (rows s'.durable.members) ↔ ((x ≡ membership) ⊎ In x (rows s.db.members))
    pub others :
        s'.durable
        ≡ record s.db { workspaces = s'.durable.workspaces; members = s'.durable.members }

  make_workspace : ℕ → Workspace
  make_workspace id = record {
    id = id;
    name = name;
    description = description;
    owner_id = owner_id;
  }

  make_owner : Workspace → ℕ → WorkspaceMember
  make_owner w id = record {
    id = id;
    workspace_id = w.id;
    user_id = owner_id;
    role = WorkspaceRole.owner;
  }

  -- What is left of a creation before the commit, and after it, where the refresh may still raise.
  creation-cases :
      (s : Session sql redis)
      → let (r, s') = create_workspace sql redis name description owner_id s in
        ((s'.durable ≡ s.durable) × ((e : Error) × (r ≡ err e)))
        ⊎ ((w : Workspace) × Created s s' w × ((r ≡ ok w) ⊎ (r ≡ err database_error)))
  unfolding create_workspace create commit refresh make_workspace make_owner
  creation-cases s =
      elim (Option-cases (sql.insert workspace_schema make_workspace s.db.workspaces)) [
        | inl e ↦ rw e (inl (refl, (integrity_error, refl)))
        | inr ((w, t), e) ↦
            elim (Option-cases (sql.insert member_schema (make_owner w) s.db.members)) [
              | inl f ↦ rw e (rw f (inl (refl, (integrity_error, refl))))
              | inr ((m, u), f) ↦
                  let d = record s.db { workspaces = t; members = u } in
                  let (id, made, workspaces, _) =
                    insert_some workspace_schema make_workspace s.db.workspaces t w e in
                  let (mid, joined, members, _) =
                    insert_some member_schema (make_owner w) s.db.members u m f in
                  let created : Created s (record s { db = d; durable = d }) w = record {
                    fields = ground (arith, made);
                    membership = m;
                    owns = ground (arith, joined);
                    durable_workspaces = workspaces;
                    durable_members = members;
                    others = refl;
                  } in
                  elim (Bool-cases (sql.reloads workspace_schema w.id t)) [
                    | inl there ↦ rw e (rw f (rw there (inr (w, created, inl refl))))
                    | inr gone ↦ rw e (rw f (rw gone (inr (w, created, inr refl))))
                  ]
            ]
      ]

  -- A creation that succeeds: the workspace has the name, the description and the owner that were given,
  -- it and one membership of its creator as owner are committed together, and nothing else is.
  pub create_workspace-Created :
      (s s' : Session sql redis) (w : Workspace)
      → create_workspace sql redis name description owner_id s ≡ (ok w, s')
      → Created s s' w
  create_workspace-Created s s' w h =
      let ended : (create_workspace sql redis name description owner_id s).1 ≡ s' =
        ap (λ r. r.1) h in
      let answer : (create_workspace sql redis name description owner_id s).0 ≡ ok w =
        ap (λ r. r.0) h in
      elim (creation-cases s) [
        | inl (still, (e, r)) ↦ cc (sym answer ∙ r)
        | inr (made, created, inl r) ↦
            let same : made ≡ w = cc (sym r ∙ answer) in rw (← ended, ← same) created
        | inr (made, created, inr r) ↦ cc (sym answer ∙ r)
      ]

  -- A creation that raises commits nothing, or, where it was the refresh after the commit that raised, the
  -- workspace as it was asked for together with its creator's membership as owner, and nothing else.
  pub create_workspace_atomic :
      (s s' : Session sql redis) (e : Error)
      → create_workspace sql redis name description owner_id s ≡ (err e, s')
      → (s'.durable ≡ s.durable) ⊎ ((e ≡ database_error) × ((w : Workspace) × Created s s' w))
  create_workspace_atomic s s' e h =
      let ended : (create_workspace sql redis name description owner_id s).1 ≡ s' =
        ap (λ r. r.1) h in
      let answer : (create_workspace sql redis name description owner_id s).0 ≡ err e =
        ap (λ r. r.0) h in
      elim (creation-cases s) [
        | inl (still, (x, r)) ↦ inl (rw (← ended) still)
        | inr (made, created, inl r) ↦ cc (sym answer ∙ r)
        | inr (made, created, inr r) ↦ inr (cc (sym answer ∙ r), (made, rw (← ended) created))
      ]

module _ (sql : Sql) (redis : Redis) (workspace_id current_user_id : ℕ) where
  open sql use {rows}

  -- The roster is given exactly to members: a list that is returned comes to a caller with a
  -- membership of the workspace, and has exactly the memberships of that workspace; a caller with no
  -- membership gets the error; and the session stays as it is.
  pub list_workspace_members_guarded :
      (s : Session sql redis)
      → let (r, s') = list_workspace_members sql redis workspace_id current_user_id s in
        (s' ≡ s)
        × ((roster : List WorkspaceMember)
            → r ≡ ok roster
            → ((m : WorkspaceMember) × In m (rows s.db.members)
                × (m.workspace_id ≡ workspace_id)
                × (m.user_id ≡ current_user_id))
              × ((x : WorkspaceMember)
                  → In x roster ↔ (In x (rows s.db.members) × (x.workspace_id ≡ workspace_id))))
        × (((m : WorkspaceMember)
              → In m (rows s.db.members)
              → m.workspace_id ≡ workspace_id
              → m.user_id ≢ current_user_id)
            → r ≡ err roster_for_members)
  unfolding list_workspace_members get_members_by_workspace
  list_workspace_members_guarded s =
      let mine : WorkspaceMember → Bool =
        λ m. m.workspace_id == workspace_id && m.user_id == current_user_id in
      let here : WorkspaceMember → Bool = λ m. m.workspace_id == workspace_id in
      elim (Option-cases (get_by_workspace_and_user sql workspace_id current_user_id s.db)) [
        | inl e ↦ rw e (refl, λ roster h. cc h, λ outside. refl)
        | inr (m, e) ↦
            let (found, keys) = head?-filter mine m (rows s.db.members) e in
            let at_home : (m.workspace_id ≡ workspace_id) × (m.user_id ≡ current_user_id) =
              ground (arith, keys) in
            rw e (
              refl,
              λ roster h.
                  let same : filter here (rows s.db.members) ≡ roster = cc h in
                  rw (← same) (
                    (m, found, at_home.0, at_home.1),
                    λ x. (
                      λ i.
                          let (j, k) = In-filter here x (rows s.db.members) i in
                          (j, (==_iff x.workspace_id workspace_id).0 k),
                      λ p.
                          In-filter_of here x (rows s.db.members) p.0
                            ((==_iff x.workspace_id workspace_id).1 p.1),
                    ),
                  ),
              λ outside. absurd (outside m found at_home.0 at_home.1),
            )
      ]
