-- ===== src/Examples.antt =====
-- Runs of the definitions on concrete inputs.
pub mod Sample
mod Merk
mod Proofs
mod Tree
mod Ops
pub mod Balance
pub mod Store
pub mod Chunk
mod Chunks
mod Layer
mod Restore
