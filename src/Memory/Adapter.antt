-- ===== src/Memory/Adapter.antt =====
-- crates/agentic-memory/src/adapter.rs: what every memory backend implements, on a state `S`.
use git_agentic.Common.{Action, List}
use git_agentic.Common.Text.{Text}
use git_agentic.Memory.Error.{Error}
use git_agentic.Memory.InMemory.{MigrationStep}
use git_agentic.Memory.Segment.{SegmentManifest}

pub record SnapshotHandle : Type 0 where
  pub manifest : SegmentManifest
  pub schema_version : Text

-- `trait MemoryAdapter`. The guard of a restore is opaque: what matters is when it is taken, and
-- that it is dropped, which lets the capture of data go on.
pub record MemoryAdapter (S : Type 0) : Type 0 where
  pub snapshot : Action S Error SnapshotHandle
  pub current_schema_version : Action S Error Text
  pub migrations_after : Text → Action S Error (List Text)
  pub begin_restore : Action S Error (Unit {0})
  pub restore_with_guard : SnapshotHandle → Action S Error (Unit {0})
  pub drop_guard : S → S
  pub apply_reverse_migrations : List MigrationStep → Action S Error (Unit {0})
