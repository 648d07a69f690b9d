-- ===== src/Memory.antt =====
-- crates/agentic-memory.
pub mod Segment
pub mod InMemory
pub mod Error
pub mod Adapter
