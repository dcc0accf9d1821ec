-- ===== src/Services.antt =====
-- The service layer: backend/app/services.
pub mod Notifications
pub mod Workspaces
pub mod Notes
pub mod Auth
pub mod Users
pub mod Chat
pub mod Ai
pub mod Endpoints
pub mod Sample
mod Tests
