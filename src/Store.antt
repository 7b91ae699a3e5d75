-- ===== src/Store.antt =====
-- src/runtime/store.rs: the single-use stores of presignatures.
pub mod Presig
pub mod Ki
pub mod Single
mod Tests
