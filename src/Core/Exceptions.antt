-- ===== src/Core/Exceptions.antt =====
-- backend/app/core/exceptions.py, and the exceptions of the libraries that reach a request.
use ai_secure_collaboration.Prelude.{ℕ, Bool, true, false, Str, codes}

-- Status code, detail, and whether the WWW-Authenticate header is set.
pub data Error : Type 0 where
  http_exception : ℕ → Str → Bool → Error
  integrity_error : Error
  -- A statement that the database does not answer, or a row that is gone when it is refreshed.
  database_error : Error

pub credential_exception : Str → Error
credential_exception detail = http_exception 401 detail true

pub invalid_credentials_exception : Error
invalid_credentials_exception = http_exception 401 (codes "Incorrect email or password") true

pub inactive_user_exception : Error
inactive_user_exception = http_exception 403 (codes "Inactive user account") false

pub email_exists_exception : Error
email_exists_exception =
    http_exception 400 (codes "A user with this email address already exists") false

pub insufficient_permissions_exception : Str → Error
insufficient_permissions_exception detail = http_exception 403 detail false

pub default_insufficient_permissions : Error
default_insufficient_permissions =
    insufficient_permissions_exception (codes "Insufficient permissions to access this resource")

-- `HTTPException(status_code=404, detail=...)`
pub not_found : Str → Error
not_found detail = http_exception 404 detail false
