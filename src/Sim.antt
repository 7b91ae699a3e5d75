-- ===== src/Sim.antt =====
-- src/runtime/sim.rs: the reference orchestrator, which runs all parties of a phase in one process.
pub mod Signing
pub mod Verified
pub mod Stored
pub mod SigningKi
pub mod Restart
mod Tests
