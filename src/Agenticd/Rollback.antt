-- ===== src/Agenticd/Rollback.antt =====
-- crates/agenticd/src/rollback: the gate, the loaders, the write-back, and the phases.
pub mod Gate
pub mod Loaders
pub mod Writeback
pub mod MemoryPhase
pub mod Phases
pub mod Approved
pub mod Unapproved
pub mod DryRun
