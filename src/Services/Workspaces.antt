-- ===== src/Services/Workspaces.antt =====
-- `WorkspaceService` of backend/app/services/workspace.py.
pub mod Invitations
pub mod Rosters
use ai_secure_collaboration.Prelude.{
  ℕ, Bool, true, false, not, Option, none, some, List, [], ◌∷◌, ◌++◌, Str, codes, is_empty,
  if◌then◌else◌,
}
use ai_secure_collaboration.External.Sql.{Sql}
use ai_secure_collaboration.External.Redis.{Redis}
use ai_secure_collaboration.External.Json.{Json}
use ai_secure_collaboration.Core.Exceptions.{
  insufficient_permissions_exception, not_found, http_exception, Error,
}
use ai_secure_collaboration.Core.Action.{
  Action, Result, ok, err, pure, gets, raise, or_raise, raise_if, modify, ◌>>=◌, ◌>>◌,
}
use ai_secure_collaboration.Models.{User, Workspace, WorkspaceMember, WorkspaceRole, Database}
use ai_secure_collaboration.Repositories.{
  Session, user_repo, workspace_repo, member_repo, get, create, commit, refresh, get_by_email,
  get_by_workspace_and_user, get_members_by_workspace, get_workspaces_for_user,
}
use ai_secure_collaboration.Services.Notifications.{or_text, queue_workspace_invite}

-- `role in [OWNER, ADMIN]`
abbrev pub is_manager : WorkspaceRole → Bool
is_manager WorkspaceRole.owner = true
is_manager WorkspaceRole.admin = true
is_manager WorkspaceRole.member = false

-- `membership and membership.role in [OWNER, ADMIN]`
abbrev pub may_manage : Option WorkspaceMember → Bool
may_manage none = false
may_manage (some m) = is_manager m.role

abbrev pub is_found {ℓ} : {A : Type ℓ} → Option A → Bool
is_found none = false
is_found (some _) = true

-- `raise HTTPException(404, "User with email '...' not found.")`
pub user_not_found : Str → Error
user_not_found email = not_found (codes "User with email '" ++ (email ++ codes "' not found."))

pub already_a_member : Error
already_a_member = http_exception 400 (codes "User is already a member of this workspace.") false

pub managers_only : Error
managers_only =
    insufficient_permissions_exception
      (codes "Only owners or admins can add members to this workspace.")

pub roster_for_members : Error
roster_for_members =
    insufficient_permissions_exception
      (codes "You must be a member of this workspace to list its members.")

module _ (sql : Sql) (redis : Redis) where
  abbrev S : Type 0
  S = Session sql redis

  unfoldable pub create_workspace : Str → Option Str → ℕ → Action S Workspace
  create_workspace name description owner_id = do
    workspace ←
        create sql (workspace_repo sql) redis
          (λ id. record { id = id; name = name; description = description; owner_id = owner_id })
    membership ← create sql (member_repo sql) redis (λ id. record {
      id = id;
      workspace_id = workspace.id;
      user_id = owner_id;
      role = WorkspaceRole.owner;
    })
    commit sql redis
    refresh sql (workspace_repo sql) redis workspace

  unfoldable pub list_user_workspaces : ℕ → Action S (List Workspace)
  list_user_workspaces user_id = gets (λ s. get_workspaces_for_user sql user_id s.db)

  unfoldable pub list_workspace_members : ℕ → ℕ → Action S (List WorkspaceMember)
  list_workspace_members workspace_id current_user_id = do
    caller ← gets (λ s. get_by_workspace_and_user sql workspace_id current_user_id s.db)
    raise_if (not (is_found caller)) roster_for_members
    gets (λ s. get_members_by_workspace sql workspace_id s.db)

module _ (sql : Sql) (redis : Redis) (json : Json) where
  -- The mail, where the workspace and the inviter are found.
  unfoldable pub invite_mail :
      ℕ → Str → User → Option Workspace → Option User → redis.State → redis.State
  invite_mail now task_id invited (some workspace) (some inviter) c =
      (queue_workspace_invite redis json now task_id invited.email workspace.name
        (or_text inviter.full_name inviter.email) c).1
  invite_mail now task_id invited _ _ c = c

  -- The `try` around the queue: without a client the AttributeError is swallowed.
  unfoldable pub notify_invited : ℕ → Str → ℕ → ℕ → User → Session sql redis → Session sql redis
  unfolding invite_mail
  notify_invited now task_id workspace_id current_user_id invited s =
      let workspace = get sql (workspace_repo sql) workspace_id s.db in
      let inviter_user = get sql (user_repo sql) current_user_id s.db in
      record s {
        cache = elim s.cache [
          | none ↦ none
          | some c ↦ some (invite_mail now task_id invited workspace inviter_user c)
        ];
      }

  -- `now` and `task_id` are the time and the UUID of the mail's task.
  unfoldable pub add_workspace_member :
      ℕ → Str → ℕ → Str → WorkspaceRole → ℕ → Action (Session sql redis) WorkspaceMember
  unfolding commit
  add_workspace_member now task_id workspace_id invite_email role current_user_id = do
    inviter_membership ← gets (λ s. get_by_workspace_and_user sql workspace_id current_user_id s.db)
    raise_if (not (may_manage inviter_membership)) managers_only
    found ← gets (λ s. get_by_email sql invite_email s.db)
    invited_user ← or_raise found (user_not_found invite_email)
    existing ← gets (λ s. get_by_workspace_and_user sql workspace_id invited_user.id s.db)
    raise_if (is_found existing) already_a_member
    membership ← create sql (member_repo sql) redis (λ id. record {
      id = id;
      workspace_id = workspace_id;
      user_id = invited_user.id;
      role = role;
    })
    commit sql redis
    modify (notify_invited now task_id workspace_id current_user_id invited_user)
    pure membership
