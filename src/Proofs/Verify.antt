-- ===== src/Proofs/Verify.antt =====
-- Executing and verifying proofs (src/proofs/verify.rs).
pub mod Defs
pub mod Forgery
pub mod Outline
pub mod Merkle
