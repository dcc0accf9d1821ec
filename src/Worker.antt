-- ===== src/Worker.antt =====
-- The background worker: backend/app/workers.
pub mod Chunks
pub mod Queue
pub mod Tasks
pub mod Embeddings
