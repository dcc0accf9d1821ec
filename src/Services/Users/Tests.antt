-- ===== src/Services/Users/Tests.antt =====
-- A registration in an empty database.
use ai_secure_collaboration.Prelude.{◌≡◌, refl, true, none, [], ◌∷◌, Str, filter}
use ai_secure_collaboration.External.Concrete.Codec.{codec_json}
use ai_secure_collaboration.External.Concrete.LocalRedis.{local_redis}
use ai_secure_collaboration.External.Concrete.LocalSql.{local_sql, insert_row, fresh_id, clashes}
use ai_secure_collaboration.Core.Action.{ok}
use ai_secure_collaboration.Models.{User, UserRole, Database}
use ai_secure_collaboration.Repositories.{refresh, Session, create, commit}
use ai_secure_collaboration.Services.Users.{register_user, welcome}
use ai_secure_collaboration.Services.Users.Registration.{Registered, register_user-Registered}

abbrev nobody : Database local_sql
nobody = record {
  users = [];
  workspaces = [];
  members = [];
  tags = [];
  notes = [];
  chunks = [];
  rooms = [];
  messages = [];
}

abbrev salted : Str → Str
salted password = 9 ∷ password

abbrev newcomer : User
newcomer = record {
  id = 1;
  email = 1 ∷ 2 ∷ [];
  hashed_password = 9 ∷ 7 ∷ [];
  full_name = none;
  role = UserRole.member;
  is_active = true;
}

abbrev before : Session local_sql local_redis
before = record { db = nobody; durable = nobody; cache = none }

abbrev after : Session local_sql local_redis
after =
    let d = record nobody { users = newcomer ∷ [] } in record { db = d; durable = d; cache = none }

register_run :
    register_user local_sql local_redis codec_json salted 5
      (8 ∷ [])
      (1 ∷ 2 ∷ [])
      (7 ∷ [])
      none
      before
    ≡ (ok newcomer, after)
unfolding register_user create commit welcome insert_row fresh_id clashes filter refresh
register_run = refl

register_user-Registered_example :
    Registered local_sql local_redis codec_json salted 5
      (8 ∷ [])
      (1 ∷ 2 ∷ [])
      (7 ∷ [])
      none
      before
      after
      newcomer
register_user-Registered_example =
    register_user-Registered local_sql local_redis codec_json salted 5 (8 ∷ []) (1 ∷ 2 ∷ [])
      (7 ∷ []) none before after newcomer register_run
