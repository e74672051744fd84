-- ===== src/Proofs.antt =====
-- src/proofs
pub mod Op
pub mod Encoding
pub mod Verify
pub mod Query
pub mod Chunk
pub mod Layer
