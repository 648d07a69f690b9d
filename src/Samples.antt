-- ===== src/Samples.antt =====
-- Concrete functions in place of the crates that the program calls, with their laws, and runs.
mod HexDigits
mod Coders
mod Crates
mod StoreRuns
mod RefsRuns
mod CommitRuns
mod OtherRuns
mod RollbackRuns
mod Daemon
mod DaemonRuns
mod DaemonRollback
mod ServerRuns
mod McpRuns
mod MemoryRuns
