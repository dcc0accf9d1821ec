-- ===== src/Services/Users.antt =====
-- `UserService` of backend/app/services/user.py; `hash` is bcrypt with the salt it drew.
pub mod Registration
mod Tests
use ai_secure_collaboration.Prelude.{ℕ, true, Option, none, some, Str}
use ai_secure_collaboration.External.Sql.{Sql}
use ai_secure_collaboration.External.Redis.{Redis}
use ai_secure_collaboration.External.Json.{Json}
use ai_secure_collaboration.Core.Exceptions.{email_exists_exception}
use ai_secure_collaboration.Core.Action.{Action, pure, gets, raise_if, modify, ◌>>=◌, ◌>>◌}
use ai_secure_collaboration.Models.{User, UserRole, Database}
use ai_secure_collaboration.Repositories.{
  Session, user_repo, get, create, commit, refresh, get_by_email,
}
use ai_secure_collaboration.Services.Notifications.{queue_welcome_email}
use ai_secure_collaboration.Services.Workspaces.{is_found}

module _ (sql : Sql) (redis : Redis) (json : Json) (hash : Str → Str) where
  -- The `try` around the queue: nothing happens without a client.
  unfoldable pub welcome : ℕ → Str → User → Session sql redis → Session sql redis
  welcome now task_id user s = record s {
    cache = elim s.cache [
      | none ↦ none
      | some c ↦ some (queue_welcome_email redis json now task_id user.email user.full_name c).1
    ];
  }

  unfoldable pub register_user : ℕ → Str → Str → Str → Option Str → Action (Session sql redis) User
  unfolding welcome
  register_user now task_id email password full_name = do
    existing_user ← gets (λ s. get_by_email sql email s.db)
    raise_if (is_found existing_user) email_exists_exception
    user ← create sql (user_repo sql) redis (λ id. record {
      id = id;
      email = email;
      hashed_password = hash password;
      full_name = full_name;
      role = UserRole.member;
      is_active = true;
    })
    commit sql redis
    refreshed ← refresh sql (user_repo sql) redis user
    modify (welcome now task_id refreshed)
    pure refreshed

  unfoldable pub get_user_by_id : ℕ → Database sql → Option User
  get_user_by_id user_id d = get sql (user_repo sql) user_id d
