-- ===== src/Proofs/Query.antt =====
-- Generating proofs for queried keys (src/proofs/query.rs), and verifying what was generated.
pub mod Defs
pub mod Plan
pub mod Refines
pub mod Root
pub mod Answers
pub mod Answered
pub mod Scanned
pub mod Scan
pub mod Complete
