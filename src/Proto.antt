-- ===== src/Proto.antt =====
-- crates/agentic-proto.
pub mod Framing
pub mod Messages
