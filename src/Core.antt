-- ===== src/Core.antt =====
-- crates/agentic-core.
pub mod Hash
pub mod Object
pub mod Scanner
pub mod Error
pub mod Store
pub mod Refs
pub mod Staging
pub mod Approval
pub mod Diff
