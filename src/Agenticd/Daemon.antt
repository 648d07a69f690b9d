-- ===== src/Agenticd/Daemon.antt =====
-- `DaemonState` of crates/agenticd/src/server.rs, as far as commits and rollbacks read it, and what
-- stands outside: the crates, the clock, the log and the servers that are asked for their tools.
use git_agentic.Common.{ℕ, Option, List, Result}
use git_agentic.Common.Text.{Bytes, Text}
use git_agentic.External.{Hex, Hmac, Serde}
use git_agentic.Fs.Paths.{FilePath}
use git_agentic.Core.Approval.{ApprovalKey}
use git_agentic.Core.Refs.{Refs}
use git_agentic.Core.Staging.{DiskOf}
use git_agentic.Core.Store.{ObjectStore}
use git_agentic.Core.Object.{Codec}
use git_agentic.Memory.Adapter.{MemoryAdapter}
use git_agentic.Memory.Segment.{Segment, SegmentManifest}
use git_agentic.Agenticd.Failure.{Failure, Formats}

-- `McpServerSpec` and `McpFingerprint` of crates/agenticd/src/mcp.rs
pub record McpServerSpec : Type 0 where
  pub name : Text
  pub url : Text

pub record McpFingerprint : Type 0 where
  pub name : Text
  pub url : Text
  pub canonical_manifest : Bytes

-- An event of the audit log: `RollbackForcedDataLoss`
pub record AuditEvent : Type 0 where
  pub peer_uid : Option ℕ
  pub target_commit_hash : Text
  pub decision : Text
  pub token_prefix : Option Text

pub record Outside (S : Type 0) : Type 0 where
  pub hex : Hex
  pub hmac : Hmac
  pub codec : Codec
  pub segment_json : Serde Segment
  pub manifest_json : Serde SegmentManifest
  pub fmt : Formats
  -- `String::from_utf8_lossy`
  pub lossy : Text → Text
  pub utc_now : S → ℕ
  -- `now_unix_seconds`, `tracing` at the target `agenticd::audit`
  pub unix_seconds : S → ℕ
  pub audit : AuditEvent → S → S

pub record DaemonState (S : Type 0) : Type 0 where
  pub repo_root : FilePath
  pub store : ObjectStore S
  pub refs : Refs
  pub disk : DiskOf S
  pub memory : Option (MemoryAdapter S)
  pub mcp_servers : List McpServerSpec
  -- `mcp::fingerprint_all` with the shared client
  pub fingerprint_all : List McpServerSpec → S → List (Result Failure McpFingerprint) × S
  pub approval_key : Option ApprovalKey
  pub exempt_entropy_prefixes : List Text
