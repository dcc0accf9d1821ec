-- ===== src/Services/Workspaces/Invitations.antt =====
-- Who may add members to a workspace, and what an addition changes.
use ai_secure_collaboration.Prelude.{
  ℕ, ◌≡◌, ◌≢◌, ◌↔◌, ◌⊎◌, sym, ap, ◌∙◌, inl, inr, true, In, arith, Str, str_eq_iff, ==_iff,
  head?-filter, head?-filter-none, Option-cases, Bool-cases,
}
use ai_secure_collaboration.External.Sql.{Sql}
use ai_secure_collaboration.External.Redis.{Redis}
use ai_secure_collaboration.External.Json.{Json}
use ai_secure_collaboration.Core.Exceptions.{Error}
use ai_secure_collaboration.Core.Action.{ok, err}
use ai_secure_collaboration.Models.{User, WorkspaceMember, WorkspaceRole, member_schema}
use ai_secure_collaboration.Repositories.{Session, create, get_by_email, get_by_workspace_and_user}
use ai_secure_collaboration.Services.Workspaces.{is_manager, add_workspace_member, notify_invited}

module _ (sql : Sql) (redis : Redis) (json : Json) (now : ℕ) (task_id : Str) (workspace_id : ℕ)
    (email : Str) (role : WorkspaceRole) (current_user_id : ℕ) where
  open sql use {rows, insert_some}

  -- What a successful addition rests on and leaves behind.
  pub record Added (s s' : Session sql redis) (m : WorkspaceMember) : Type 0 where
    pub inviter : WorkspaceMember
    pub inviter_stored : In inviter (rows s.db.members)
    pub inviter_here : (inviter.workspace_id ≡ workspace_id) × (inviter.user_id ≡ current_user_id)
    pub inviter_manages : is_manager inviter.role ≡ true
    pub invited : User
    pub invited_stored : In invited (rows s.db.users)
    pub invited_email : invited.email ≡ email
    pub joins : (m.workspace_id ≡ workspace_id) × (m.user_id ≡ invited.id) × (m.role ≡ role)
    pub was_outside :
        (x : WorkspaceMember)
        → In x (rows s.db.members)
        → x.workspace_id ≡ workspace_id
        → x.user_id ≢ invited.id
    pub durable_members :
        (x : WorkspaceMember)
        → In x (rows s'.durable.members) ↔ ((x ≡ m) ⊎ In x (rows s.db.members))
    pub others : s'.durable ≡ record s.db { members = s'.durable.members }

  -- A successful addition: the caller has a membership of this workspace as owner or admin, the
  -- invited user is stored under the email and had no membership here, and the members that are
  -- committed are those of before and the new one, with the role that was asked for; no other table is
  -- changed.
  pub add_workspace_member-Added :
      (s s' : Session sql redis) (m : WorkspaceMember)
      → add_workspace_member sql redis json now task_id workspace_id email role current_user_id s
        ≡ (ok m, s')
      → Added s s' m
  unfolding add_workspace_member create notify_invited
  add_workspace_member-Added s s' m h =
      elim (Option-cases (get_by_workspace_and_user sql workspace_id current_user_id s.db)) [
        | inl e ↦ cc (e, h)
        | inr (inviter, e) ↦ elim (Bool-cases (is_manager inviter.role)) [
          | inr plain ↦ cc (e, plain, h)
          | inl manages ↦ elim (Option-cases (get_by_email sql email s.db)) [
            | inl unknown ↦ cc (e, manages, unknown, h)
            | inr (invited, f) ↦
                elim (Option-cases (get_by_workspace_and_user sql workspace_id invited.id s.db)) [
                  | inr (old, g) ↦ cc (e, manages, f, g, h)
                  | inl fresh ↦
                      let make : ℕ → WorkspaceMember = λ id. record {
                        id = id;
                        workspace_id = workspace_id;
                        user_id = invited.id;
                        role = role;
                      } in
                      elim (Option-cases (sql.insert member_schema make s.db.members)) [
                        | inl clash ↦ cc (e, manages, f, fresh, clash, h)
                        | inr ((row, t), k) ↦
                            let d = record s.db { members = t } in
                            let u = record s { db = d; durable = d } in
                            let run : add_workspace_member sql redis json now task_id workspace_id
                                  email role current_user_id s
                                ≡ (
                                  ok row,
                                  notify_invited sql redis json now task_id workspace_id
                                      current_user_id invited u,
                                ) =
                              rw e (rw manages (rw f (rw fresh (rw k)))) in
                            let both = sym run ∙ h in
                            let same : row ≡ m = cc both in
                            let saved : s'.durable ≡ d = sym (ap (λ r. r.1.durable) both) in
                            let (id, made, members, _) =
                              insert_some member_schema make s.db.members t row k in
                            let (found, keys) = head?-filter _ inviter (rows s.db.members) e in
                            let (stored, mail) = head?-filter _ invited (rows s.db.users) f in
                            record {
                              inviter = inviter;
                              inviter_stored = found;
                              inviter_here = ground arith;
                              inviter_manages = manages;
                              invited = invited;
                              invited_stored = stored;
                              invited_email = (str_eq_iff invited.email email).0 mail;
                              joins = ground (arith, made, same);
                              was_outside = λ x i here there. cc (
                                head?-filter-none _ x (rows s.db.members) fresh i,
                                (==_iff x.workspace_id workspace_id).1 here,
                                (==_iff x.user_id invited.id).1 there,
                              );
                              durable_members = λ x. rw saved (rw (← same) (members x));
                              others = rw saved;
                            }
                      ]
                ]
          ]
        ]
      ]

  -- An addition that is refused changes nothing.
  pub refused_unchanged :
      (s s' : Session sql redis) (e : Error)
      → add_workspace_member sql redis json now task_id workspace_id email role current_user_id s
        ≡ (err e, s')
      → s' ≡ s
  unfolding add_workspace_member create
  refused_unchanged s s' e h = ground arith
