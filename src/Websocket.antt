-- ===== src/Websocket.antt =====
-- The real-time layer: backend/app/websocket.
pub mod Manager
pub mod Listener
pub mod Endpoint
