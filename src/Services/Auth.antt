-- ===== src/Services/Auth.antt =====
-- backend/app/core/security.py, `AuthService` of backend/app/services/auth.py, and the dependencies of
-- backend/app/api/deps.py. The keys' lifetimes in Redis are not modelled.
pub mod Tokens
pub mod Rotation
pub mod LocalJwt
mod Tests
use ai_secure_collaboration.Prelude.{
  ℕ, ◌+◌, ◌*◌, ◌≡◌, ◌<◌, ◌≤◌, Bool, true, false, not, ◌&&◌, ◌||◌, Option, none, some, List, [], ◌∷◌,
  Str, codes, is_empty, str_eq, if◌then◌else◌,
}
use ai_secure_collaboration.External.Sql.{Sql}
use ai_secure_collaboration.External.Numerals.{Numerals}
use ai_secure_collaboration.External.Redis.{Redis, refresh_token}
use ai_secure_collaboration.Core.Exceptions.{
  Error, credential_exception, invalid_credentials_exception, inactive_user_exception,
  default_insufficient_permissions,
}
use ai_secure_collaboration.Core.Action.{
  Action, Result, ok, err, pure, gets, raise, or_raise, raise_if, modify, ◌>>=◌, ◌>>◌,
}
use ai_secure_collaboration.Models.{User, UserRole, Database}
use ai_secure_collaboration.Repositories.{user_repo, get, get_by_email}

-- The claims that the program writes and reads.
pub record Claims : Type 0 where
  pub exp : ℕ
  pub sub : Str
  pub token_type : Str

-- PyJWT with HS256: a token carries its claims to whoever has the secret, until it expires.
-- `none` is any InvalidTokenError.
pub record Jwt : Type 0 where
  pub encode : Claims → Str → Str
  pub decode : ℕ → Str → Str → Option Claims
  pub decode-encode :
      (claims : Claims) (secret : Str) (now : ℕ)
      → now < claims.exp
      → decode now (encode claims secret) secret ≡ some claims
  pub decode-expired :
      (claims : Claims) (secret : Str) (now : ℕ)
      → claims.exp ≤ now
      → decode now (encode claims secret) secret ≡ none
  pub encode-nonempty : (claims : Claims) (secret : Str) → is_empty (encode claims secret) ≡ false
  -- The time only decides whether the claims are returned.
  pub decode_same :
      (token secret : Str) (now later : ℕ) (claims claims' : Claims)
      → decode now token secret ≡ some claims
      → decode later token secret ≡ some claims'
      → claims ≡ claims'

-- The settings that the tokens use.
pub record Settings : Type 0 where
  pub jwt_secret_key : Str
  pub jwt_refresh_secret_key : Str
  pub access_token_expire_minutes : ℕ
  pub refresh_token_expire_days : ℕ

abbrev pub access_type : Str
access_type = codes "access"

abbrev pub refresh_type : Str
refresh_type = codes "refresh"

module _ (jwt : Jwt) (settings : Settings) where
  -- `create_access_token` without `expires_delta`, at a time in seconds
  unfoldable pub access_claims : ℕ → Str → Claims
  access_claims now subject = record {
    exp = now + settings.access_token_expire_minutes * 60;
    sub = subject;
    token_type = access_type;
  }

  unfoldable pub create_access_token : ℕ → Str → Str
  create_access_token now subject = jwt.encode (access_claims now subject) settings.jwt_secret_key

  -- `create_refresh_token`
  unfoldable pub refresh_claims : ℕ → Str → Claims
  refresh_claims now subject = record {
    exp = now + settings.refresh_token_expire_days * 86400;
    sub = subject;
    token_type = refresh_type;
  }

  unfoldable pub create_refresh_token : ℕ → Str → Str
  create_refresh_token now subject =
      jwt.encode (refresh_claims now subject) settings.jwt_refresh_secret_key

-- `decode_token`, then `not user_id_str or token_type != expected`: the empty claims have no subject.
unfoldable pub subject_of : Str → Option Claims → Option Str
subject_of expected none = none
subject_of expected (some c) =
    if is_empty c.sub || not (str_eq c.token_type expected) then none else some c.sub

module _ (sql : Sql) where
  -- `user_repo.get(user_id)`: no row has a negative id.
  unfoldable pub user_by_number : Option ℕ → Database sql → Option User
  user_by_number none d = none
  user_by_number (some user_id) d = get sql (user_repo sql) user_id d

  -- `authenticate_user`; `verify` is `pwd_context.verify`.
  unfoldable pub authenticate_user : (Str → Str → Bool) → Str → Str → Database sql → Result User
  authenticate_user verify email password d = elim (get_by_email sql email d) [
    | none ↦ err invalid_credentials_exception
    | some user ↦
        if verify password user.hashed_password then ok user else err invalid_credentials_exception
  ]

  module _ (jwt : Jwt) (settings : Settings) (numerals : Numerals) where
    -- `if not user: ... if not user.is_active: ...`
    unfoldable pub active_user : Option User → Result User
    active_user none = err (credential_exception (codes "User not found"))
    active_user (some user) = if user.is_active then ok user else err inactive_user_exception

    unfoldable pub user_of_number : Option (Option ℕ) → Database sql → Result User
    unfolding user_by_number active_user
    user_of_number none d =
        err
          (credential_exception (codes "Could not validate credentials: invalid user claim format"))
    user_of_number (some user_id) d = active_user (user_by_number user_id d)

    unfoldable pub user_of_subject : Option Str → Database sql → Result User
    unfolding user_of_number
    user_of_subject none d = err (
        credential_exception
          (codes "Could not validate credentials: invalid token signature or type"))
    user_of_subject (some user_id_str) d = user_of_number (numerals.number user_id_str) d

    -- `get_current_user`
    unfoldable pub get_current_user : ℕ → Str → Database sql → Result User
    unfolding subject_of user_of_subject
    get_current_user now token d =
        user_of_subject (subject_of access_type (jwt.decode now token settings.jwt_secret_key)) d

    module _ (redis : Redis) where
      -- `login_user`
      unfoldable pub login_user : ℕ → User → Action redis.State (Str × Str)
      unfolding create_access_token create_refresh_token
      login_user now user cache =
          let user_id_str = numerals.str user.id in
          let access = create_access_token jwt settings now user_id_str in
          let refresh = create_refresh_token jwt settings now user_id_str in
          (ok (access, refresh), redis.set (refresh_token user_id_str) refresh cache)

      -- `logout_user`
      unfoldable pub logout_user : ℕ → Action redis.State (Unit {0})
      logout_user user_id = modify (redis.delete (refresh_token (numerals.str user_id)))

      -- `not cached_token or cached_token != refresh_token`
      unfoldable pub is_revoked : Option Str → Str → Bool
      is_revoked none token = true
      is_revoked (some cached_token) token =
          is_empty cached_token || not (str_eq cached_token token)

      -- `not user or not user.is_active`
      unfoldable pub is_gone : Option User → Bool
      is_gone none = true
      is_gone (some user) = not user.is_active

      -- `refresh_session`
      unfoldable pub refresh_session : ℕ → Str → Database sql → Action redis.State (Str × Str)
      unfolding subject_of is_revoked user_by_number is_gone create_access_token
          create_refresh_token
      refresh_session now token d = do
        user_id_str ←
            or_raise
              (subject_of refresh_type (jwt.decode now token settings.jwt_refresh_secret_key))
              (credential_exception (codes "Invalid refresh token"))
        cached_token ← gets (redis.get (refresh_token user_id_str))
        raise_if (is_revoked cached_token token)
            (credential_exception (codes "Refresh token expired or revoked"))
        user_id ←
            or_raise (numerals.number user_id_str)
              (credential_exception (codes "Invalid user identity claim"))
        raise_if (is_gone (user_by_number user_id d))
            (credential_exception (codes "User is inactive or deleted"))
        modify (
            redis.set (refresh_token user_id_str)
              (create_refresh_token jwt settings now user_id_str))
        pure (
          create_access_token jwt settings now user_id_str,
          create_refresh_token jwt settings now user_id_str,
        )

-- `current_user.role not in self.allowed_roles`
unfoldable pub role_eq : UserRole → UserRole → Bool
role_eq UserRole.admin UserRole.admin = true
role_eq UserRole.member UserRole.member = true
role_eq _ _ = false

unfoldable pub role_in : UserRole → List UserRole → Bool
unfolding role_eq
role_in role [] = false
role_in role (r ∷ roles) = role_eq role r || role_in role roles

-- `RoleChecker.__call__`
unfoldable pub check_role : List UserRole → User → Result User
unfolding role_in
check_role allowed_roles current_user =
    if role_in current_user.role allowed_roles
    then ok current_user
    else err default_insufficient_permissions
