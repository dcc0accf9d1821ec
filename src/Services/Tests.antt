-- ===== src/Services/Tests.antt =====
-- The theorems about workspaces and chat rooms, at a workspace with an owner and a user to invite.
use ai_secure_collaboration.Prelude.{some, ◌⊎◌, ◌≡◌, refl, none, [], ◌∷◌, codes, filter, str_eq, In}
use ai_secure_collaboration.External.Concrete.Codec.{codec_json}
use ai_secure_collaboration.External.Concrete.LocalRedis.{local_redis}
use ai_secure_collaboration.External.Concrete.LocalSql.{
  sort_desc, local_sql, insert_row, fresh_id, clashes,
}
use ai_secure_collaboration.Core.Exceptions.{database_error, integrity_error}
use ai_secure_collaboration.Core.Action.{ok, err}
use ai_secure_collaboration.Models.{Workspace, WorkspaceMember, WorkspaceRole, ChatRoom}
use ai_secure_collaboration.Repositories.{refresh, Session, create, commit}
use ai_secure_collaboration.Services.Workspaces.{
  create_workspace, add_workspace_member, managers_only, notify_invited,
}
use ai_secure_collaboration.Services.Workspaces.Invitations.{Added, add_workspace_member-Added}
use ai_secure_collaboration.Services.Workspaces.Rosters.{
  Created, create_workspace-Created, create_workspace_atomic,
}
use ai_secure_collaboration.Services.Chat.{
  get_room_history, latest_messages, verify_chat_membership,
}
use ai_secure_collaboration.Services.Chat.History.{get_room_history_guarded}
use ai_secure_collaboration.Services.Sample.{owner_row, message, database, session, invited_row}

abbrev invited_session : Session local_sql local_redis
invited_session =
    let d = record database { members = invited_row ∷ owner_row ∷ [] } in
    record { db = d; durable = d; cache = none }

add_run :
    add_workspace_member local_sql local_redis codec_json 9
      (8 ∷ [])
      1
      (2 ∷ [])
      WorkspaceRole.admin
      1
      session
    ≡ (ok invited_row, invited_session)
unfolding add_workspace_member create notify_invited insert_row fresh_id clashes filter str_eq
add_run = refl

add_workspace_member-Added_example :
    Added local_sql local_redis codec_json 9
      (8 ∷ [])
      1
      (2 ∷ [])
      WorkspaceRole.admin
      1
      session
      invited_session
      invited_row
add_workspace_member-Added_example =
    add_workspace_member-Added local_sql local_redis codec_json 9 (8 ∷ []) 1 (2 ∷ [])
      WorkspaceRole.admin 1 session invited_session invited_row add_run

refused_run :
    add_workspace_member local_sql local_redis codec_json 9
      (8 ∷ [])
      1
      (2 ∷ [])
      WorkspaceRole.admin
      2
      session
    ≡ (err managers_only, session)
unfolding add_workspace_member filter
refused_run = refl

abbrev new_workspace : Workspace
new_workspace = record { id = 2; name = codes "lab"; description = none; owner_id = 2 }

abbrev new_owner : WorkspaceMember
new_owner = record { id = 2; workspace_id = 2; user_id = 2; role = WorkspaceRole.owner }

abbrev created_session : Session local_sql local_redis
created_session =
    let d = record database {
      workspaces = new_workspace ∷ database.workspaces;
      members = new_owner ∷ owner_row ∷ [];
    } in
    record { db = d; durable = d; cache = none }

create_run :
    create_workspace local_sql local_redis (codes "lab") none 2 session
    ≡ (ok new_workspace, created_session)
unfolding create_workspace create commit insert_row fresh_id clashes refresh
create_run = refl

create_workspace-Created_example :
    Created local_sql local_redis (codes "lab") none 2 session created_session new_workspace
create_workspace-Created_example =
    create_workspace-Created local_sql local_redis (codes "lab") none 2 session created_session
      new_workspace create_run

-- A membership of a workspace that is not there yet.
abbrev orphaned : Session local_sql local_redis
orphaned =
    let d = record database { members = new_owner ∷ [] } in
    record { db = d; durable = d; cache = none }

abbrev half_created : Session local_sql local_redis
half_created = record orphaned {
  db = record orphaned.db { workspaces = new_workspace ∷ database.workspaces };
}

atomic_run :
    create_workspace local_sql local_redis (codes "lab") none 2 orphaned
    ≡ (err integrity_error, half_created)
unfolding create_workspace create commit insert_row fresh_id clashes refresh
atomic_run = refl

create_workspace_atomic_example :
    (half_created.durable ≡ orphaned.durable)
    ⊎ ((integrity_error ≡ database_error)
        × ((w : Workspace) × Created local_sql local_redis
              (codes "lab")
              none
              2
              orphaned
              half_created
              w))
create_workspace_atomic_example =
    create_workspace_atomic local_sql local_redis (codes "lab") none 2 orphaned half_created
      integrity_error atomic_run

history_run :
    get_room_history local_sql local_redis 4 1 2 session
    ≡ (ok (message 2 ∷ message 3 ∷ []), session)
unfolding get_room_history latest_messages verify_chat_membership filter sort_desc
history_run = refl

get_room_history_guarded_example :
    ((r : ChatRoom) × (mine : WorkspaceMember) × In r database.rooms
      × (r.id ≡ 4)
      × In mine database.members
      × (mine.workspace_id ≡ r.workspace_id)
      × (mine.user_id ≡ 1))
    × ((message 2 ∷ message 3 ∷ []) ≡ latest_messages local_sql 4 (some 2) database)
    × (session ≡ session)
get_room_history_guarded_example =
    get_room_history_guarded local_sql local_redis 4 1 2 session session
      (message 2 ∷ message 3 ∷ []) history_run
