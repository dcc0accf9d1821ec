-- ===== src/Core.antt =====
-- backend/app/core and the shared ground of the services.
pub mod Action
pub mod Exceptions
