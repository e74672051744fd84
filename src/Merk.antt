-- ===== src/Merk.antt =====
-- src/merk
pub mod Keys
pub mod Store
pub mod Apply
pub mod Chunks
pub mod Restore
