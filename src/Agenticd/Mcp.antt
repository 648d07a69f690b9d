-- ===== src/Agenticd/Mcp.antt =====
-- crates/agenticd/src/mcp.rs: the servers whose tools are recorded with a commit.
pub mod Json
pub mod Canonical
pub mod Urls
pub mod Fingerprint
pub mod Caps
pub mod Policy
