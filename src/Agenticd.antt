-- ===== src/Agenticd.antt =====
-- crates/agenticd.
pub mod Limits
pub mod Migrate
pub mod Failure
pub mod WireError
pub mod Daemon
pub mod Commit
pub mod Rollback
pub mod Mcp
pub mod PeerAuth
pub mod Startup
pub mod Lifecycle
pub mod Server
