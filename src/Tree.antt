-- ===== src/Tree.antt =====
-- src/tree
pub mod Hash
pub mod Types
pub mod Kv
pub mod Link
pub mod Node
pub mod Walk
pub mod Shape
pub mod Slots
pub mod Search
pub mod Encoding
pub mod Commit
pub mod Ops
pub mod Iter
