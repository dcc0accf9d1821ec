-- ===== src/Services/Endpoints/Health.antt =====
-- `check_health` of backend/app/api/v1/endpoints/health.py.
use ai_secure_collaboration.Prelude.{◌≡◌, ◌↔◌, refl, Bool, true, false, Option, none, some}

pub data ServiceStatus : Type 0 where
  connected disconnected : ServiceStatus

pub data OverallStatus : Type 0 where
  healthy unhealthy : OverallStatus

pub record Health : Type 0 where
  pub status : OverallStatus
  pub database : ServiceStatus
  pub redis : ServiceStatus

-- The Redis half; `none` is a PING that raised.
unfoldable pub check_redis : Option Bool → OverallStatus → ServiceStatus → Health
check_redis (some true) overall database = record {
  status = overall;
  database = database;
  redis = connected;
}
check_redis (some false) overall database = record {
  status = unhealthy;
  database = database;
  redis = disconnected;
}
check_redis none overall database = record {
  status = unhealthy;
  database = database;
  redis = disconnected;
}

-- Whether `SELECT 1` went through, and what PING gave.
unfoldable pub check_health : Bool → Option Bool → Health
unfolding check_redis
check_health true ping = check_redis ping healthy connected
check_health false ping = check_redis ping unhealthy disconnected

-- The status is healthy exactly where both services are connected.
pub check_health-healthy :
    (selected : Bool) (ping : Option Bool)
    → let h = check_health selected ping in
      (h.status ≡ healthy) ↔ ((h.database ≡ connected) × (h.redis ≡ connected))
unfolding check_health
check_health-healthy true none = (λ e. cc e, λ e. cc e.1)
check_health-healthy true (some true) = (λ e. (refl, refl), λ e. refl)
check_health-healthy true (some false) = (λ e. cc e, λ e. cc e.1)
check_health-healthy false none = (λ e. cc e, λ e. cc e.0)
check_health-healthy false (some true) = (λ e. cc e, λ e. cc e.0)
check_health-healthy false (some false) = (λ e. cc e, λ e. cc e.0)
