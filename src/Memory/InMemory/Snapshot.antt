-- ===== src/Memory/InMemory/Snapshot.antt =====
-- crates/agentic-memory/src/in_memory.rs: the snapshot of the tables and their restore. The state
-- holds the tables and the store; what runs under the mutex is one step.
use git_agentic.Common.{
  List, [], ◌∷◌, ◌++◌, ok, err, Action, pure, ◌>>=◌, ◌==◌, nat_eq, list_eq, length, map_err, ok_or,
  if◌then◌else◌,
}
use git_agentic.Common.Dict.{Dict, get, insert}
use git_agentic.Common.Ordered.{Ordering, text_compare}
use git_agentic.Common.Text.{Text, Bytes, codes}
use git_agentic.External.{Serde}
use git_agentic.Core.Hash.{Hash}
use git_agentic.Core.Object.{ObjectKind}
use git_agentic.Core.Store.{ObjectStore}
use git_agentic.Memory.Adapter.{SnapshotHandle}
use git_agentic.Memory.Error.{Error}
use git_agentic.Memory.InMemory.{InMemoryState, rows_or_none}
use git_agentic.Memory.Segment.{Value, Segment, SegmentRef, SegmentManifest, new_manifest, push}

-- `Json::Null`
abbrev pub null : Value
null = Value.any_other (codes "null")

abbrev pub Table : Type 0
Table = Text × List Value

-- `tables.sort_by(|a, b| a.0.cmp(b.0))`
unfoldable pub place : Table → List Table → List Table
place e [] = e ∷ []
place e (f ∷ l) =
    let rest = place e l in elim (text_compare e.0 f.0) [ Ordering.gt ↦ f ∷ rest | _ ↦ e ∷ f ∷ l ]

unfoldable pub sort_tables : List Table → List Table
unfolding place
sort_tables [] = []
sort_tables (e ∷ l) = place e (sort_tables l)

abbrev pub segment_of : Text → Text → List Value → Segment
segment_of version table rows = record {
  table = table;
  schema_version = version;
  pk_lo = null;
  pk_hi = null;
  row_count = length rows;
  rows = rows;
  embeddings = [];
  metadata = [];
}

abbrev pub ref_of : Text → Hash → List Value → SegmentRef
ref_of table h rows = record {
  table = table;
  pk_lo = null;
  pk_hi = null;
  segment = h;
  row_count = length rows;
}

-- The adapter's tables as a part of a state
pub record MemoryOf (S : Type 0) : Type 0 where
  pub memory : S → InMemoryState Value
  pub set_memory : InMemoryState Value → S → S

module _ {S : Type 0} (store : ObjectStore S) (mem : MemoryOf S) (segment_json : Serde Segment)
    (shown_error : Bytes → Text) where
  abbrev pub put_segment : Segment → Action S Error Hash
  put_segment segment s =
      let r = store.put_raw ObjectKind.segment (segment_json.to_vec segment) s in
      (map_err Error.core r.0, r.1)

  unfoldable pub snapshot_tables :
      Text → List Table → SegmentManifest → Action S Error SegmentManifest
  snapshot_tables version [] m = pure m
  snapshot_tables version ((table, []) ∷ tables) m = snapshot_tables version tables m
  snapshot_tables version ((table, r ∷ rows) ∷ tables) m = do
    h ← put_segment (segment_of version table (r ∷ rows))
    snapshot_tables version tables (push (ref_of table h (r ∷ rows)) m)

  -- `InMemoryAdapter::snapshot`
  unfoldable pub snapshot : Action S Error SnapshotHandle
  unfolding snapshot_tables sort_tables
  snapshot s =
      (do
        m ←
            snapshot_tables (mem.memory s).schema_version (sort_tables (mem.memory s).tables)
              (new_manifest (mem.memory s).schema_version)
        pure (record { manifest = m; schema_version = (mem.memory s).schema_version }))
        s

  abbrev pub read_segment : SegmentRef → Action S Error Segment
  read_segment entry s =
      let r = store.get_raw entry.segment s in
      (
        elim (map_err Error.core r.0) [
          | err e ↦ err e
          | ok bytes ↦
              ok_or (segment_json.from_slice bytes)
                (Error.backend (codes "decoding segment: " ++ shown_error bytes))
        ],
        r.1,
      )

  -- The rows of each segment are added to those of its table.
  unfoldable pub restore_tables :
      List SegmentRef → Dict Text (List Value) → Action S Error (Dict Text (List Value))
  restore_tables [] tables = pure tables
  restore_tables (entry ∷ entries) tables = do
    segment ← read_segment entry
    restore_tables entries
        (insert tables entry.table (rows_or_none (get tables entry.table) ++ segment.rows))

  abbrev pub set_tables : Dict Text (List Value) → S → S
  set_tables tables s = mem.set_memory (record (mem.memory s) { tables = tables }) s

  -- `InMemoryAdapter::restore_with_guard`: the tables are replaced, or nothing is.
  unfoldable pub restore_with_guard : SnapshotHandle → Action S Error (Unit {0})
  unfolding restore_tables
  restore_with_guard target s =
      if (mem.memory s).schema_version == target.schema_version
      then (do
        tables ← restore_tables target.manifest.entries []
        (λ t. (ok tt, set_tables tables t)))
          s
      else (err (Error.schema_mismatch (mem.memory s).schema_version target.schema_version), s)

  -- `begin_restore` has nothing to wait for, and its guard holds nothing.
  abbrev pub restore : SnapshotHandle → Action S Error (Unit {0})
  restore target = restore_with_guard target

  abbrev pub current_schema_version : Action S Error Text
  current_schema_version s = (ok (mem.memory s).schema_version, s)
