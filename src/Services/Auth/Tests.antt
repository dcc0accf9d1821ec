-- ===== src/Services/Auth/Tests.antt =====
-- The theorems about sessions and tokens, at one user.
use ai_secure_collaboration.Prelude.{
  Bool, ◌==◌, ap, ℕ, ◌≡◌, ◌≢◌, refl, true, false, none, some, [], ◌∷◌, arith, Str, codes, In,
  filter, str_eq, is_empty,
}
use ai_secure_collaboration.External.Redis.{refresh_token}
use ai_secure_collaboration.External.Concrete.LocalRedis.{
  write_string, Local, empty_redis, local_redis,
}
use ai_secure_collaboration.External.Concrete.LocalSql.{local_sql}
use ai_secure_collaboration.Core.Exceptions.{Error, credential_exception}
use ai_secure_collaboration.Core.Action.{ok, err}
use ai_secure_collaboration.Models.{User, UserRole, Database}
use ai_secure_collaboration.Services.Auth.{
  Settings, Claims, access_type, refresh_type, login_user, logout_user, refresh_session,
  create_access_token, create_refresh_token, access_claims, refresh_claims, subject_of,
  user_by_number, get_current_user, user_of_subject, user_of_number, active_user, is_revoked,
  is_gone,
}
use ai_secure_collaboration.External.Concrete.Tally.{local_numerals, tally, count, number}
use ai_secure_collaboration.Services.Auth.LocalJwt.{
  local_jwt, encode, decode, parse, is_valid, read_claims,
}
use ai_secure_collaboration.Services.Auth.Rotation.{
  Refreshed, refresh_session-Refreshed, rotated_token_refused, logout_revokes, refresh-login,
  same_second_refresh,
}
use ai_secure_collaboration.Services.Auth.Tokens.{get_current_user_guarded}

abbrev settings : Settings
settings = record {
  jwt_secret_key = codes "access-key";
  jwt_refresh_secret_key = codes "refresh-key";
  access_token_expire_minutes = 30;
  refresh_token_expire_days = 7;
}

abbrev account : User
account = record {
  id = 3;
  email = 1 ∷ [];
  hashed_password = codes "hash";
  full_name = none;
  role = UserRole.member;
  is_active = true;
}

abbrev accounts : Database local_sql
accounts = record {
  users = account ∷ [];
  workspaces = [];
  members = [];
  tags = [];
  notes = [];
  chunks = [];
  rooms = [];
  messages = [];
}

abbrev subject : Str
subject = local_numerals.str 3

abbrev access_at : ℕ → Str
access_at now = create_access_token local_jwt settings now subject

abbrev refresh_at : ℕ → Str
refresh_at now = create_refresh_token local_jwt settings now subject

abbrev logged_in : ℕ → Local
logged_in now = local_redis.set (refresh_token subject) (refresh_at now) empty_redis

abbrev rotated : Local
rotated = local_redis.set (refresh_token subject) (refresh_at 20) (logged_in 10)

refresh-login_example :
    (s : Local) × (refresh_session local_sql local_jwt settings local_numerals local_redis 20
        (refresh_at 10)
        accounts
        (logged_in 10)
      ≡ (ok (access_at 20, refresh_at 20), s))
unfolding login_user filter
refresh-login_example =
    refresh-login local_sql local_jwt settings local_numerals local_redis 10 20 account accounts
      empty_redis (logged_in 10) (access_at 10, refresh_at 10) (omega arith) refl refl refl

refresh_run :
    refresh_session local_sql local_jwt settings local_numerals local_redis 20
      (refresh_at 10)
      accounts
      (logged_in 10)
    ≡ (ok (access_at 20, refresh_at 20), rotated)
unfolding refresh_session is_revoked user_by_number is_gone subject_of create_refresh_token
    refresh_claims encode decode parse is_valid read_claims number tally count str_eq is_empty codes
    filter write_string
refresh_run = refl

refresh_session-Refreshed_example :
    Refreshed local_sql local_jwt settings local_numerals local_redis 20
      (refresh_at 10)
      accounts
      (logged_in 10)
      rotated
      (access_at 20, refresh_at 20)
refresh_session-Refreshed_example =
    refresh_session-Refreshed local_sql local_jwt settings local_numerals local_redis 20
      (refresh_at 10) accounts (logged_in 10) rotated (access_at 20, refresh_at 20) refresh_run

abbrev expires_last : Str → Bool
expires_last [] = false
expires_last (n ∷ text) = n == 604820

tokens_differ : refresh_at 20 ≢ refresh_at 10
unfolding create_refresh_token refresh_claims encode
tokens_differ h = let e : true ≡ false = ap expires_last h in cc e

rotated_token_refused_example :
    (e : Error) × (refresh_session local_sql local_jwt settings local_numerals local_redis 30
        (refresh_at 10)
        accounts
        rotated
      ≡ (err e, rotated))
rotated_token_refused_example =
    rotated_token_refused local_sql local_jwt settings local_numerals local_redis 20 30
      (refresh_at 10) accounts accounts (logged_in 10) rotated (access_at 20, refresh_at 20)
      refresh_run tokens_differ

abbrev logged_out : Local
logged_out = local_redis.delete (refresh_token subject) (logged_in 10)

logout_run :
    logout_user local_sql local_jwt settings local_numerals local_redis 3 (logged_in 10)
    ≡ (ok tt, logged_out)
unfolding logout_user
logout_run = refl

subject_run :
    subject_of refresh_type (local_jwt.decode 20 (refresh_at 10) settings.jwt_refresh_secret_key)
    ≡ some subject
unfolding subject_of create_refresh_token refresh_claims encode decode parse is_valid read_claims
    str_eq is_empty codes tally
subject_run = refl

logout_revokes_example :
    refresh_session local_sql local_jwt settings local_numerals local_redis 20
      (refresh_at 10)
      accounts
      logged_out
    ≡ (err (credential_exception (codes "Refresh token expired or revoked")), logged_out)
logout_revokes_example =
    logout_revokes local_sql local_jwt settings local_numerals local_redis 20 3 (refresh_at 10)
      accounts (logged_in 10) logged_out subject_run logout_run

refused_run :
    refresh_session local_sql local_jwt settings local_numerals local_redis 20 [] accounts
      empty_redis
    ≡ (err (credential_exception (codes "Invalid refresh token")), empty_redis)
unfolding refresh_session subject_of decode is_valid
refused_run = refl

current_run :
    get_current_user local_sql local_jwt settings local_numerals 20 (access_at 10) accounts
    ≡ ok account
unfolding get_current_user user_of_subject user_of_number user_by_number active_user subject_of
    create_access_token access_claims encode decode parse is_valid read_claims number tally count
    str_eq is_empty codes filter
current_run = refl

get_current_user_guarded_example :
    In account accounts.users
    × (account.is_active ≡ true)
    × ((claims : Claims) × (local_jwt.decode 20 (access_at 10) settings.jwt_secret_key
          ≡ some claims)
        × (claims.token_type ≡ access_type)
        × (local_numerals.number claims.sub ≡ some (some 3)))
get_current_user_guarded_example =
    get_current_user_guarded local_sql local_jwt settings local_numerals 20 (access_at 10) accounts
      account current_run

same_second_refresh_example :
    (s : Local) × (access : Str) × (refresh_session local_sql local_jwt settings local_numerals
        local_redis 10
        (refresh_at 10)
        accounts
        (logged_in 10)
      ≡ (ok (access, refresh_at 10), s))
unfolding login_user filter
same_second_refresh_example =
    same_second_refresh local_sql local_jwt settings local_numerals local_redis 10 account accounts
      empty_redis (logged_in 10) (access_at 10, refresh_at 10) (omega arith) refl refl refl
