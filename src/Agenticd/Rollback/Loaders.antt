-- ===== src/Agenticd/Rollback/Loaders.antt =====
-- crates/agenticd/src/rollback/loaders.rs: an object of the kind that is expected.
use git_agentic.Common.{Result, ok, err, Action, lift, ◌>>=◌, ◌++◌}
use git_agentic.Common.Text.{Text, codes}
use git_agentic.Core.Hash.{Hash, to_hex}
use git_agentic.Core.Object.{Blob, Tree, Commit, Object, ObjectKind, kind}
use git_agentic.Memory.Segment.{SegmentManifest, from_canonical_bytes}
use git_agentic.Agenticd.Failure.{Failure, Root, anyhow, rooted, with_context}
use git_agentic.Agenticd.Daemon.{Outside, DaemonState}

-- `{:?}` of a kind
abbrev pub kind_name : ObjectKind → Text
kind_name ObjectKind.blob = codes "Blob"
kind_name ObjectKind.tree = codes "Tree"
kind_name ObjectKind.segment = codes "Segment"
kind_name ObjectKind.commit = codes "Commit"

module _ {S : Type 0} (o : Outside S) (st : DaemonState S) where
  unfoldable pub unexpected : Text → Hash → Object → Failure
  unexpected wanted h other = anyhow (
      codes "expected "
      ++ (wanted
          ++ (codes " at " ++ (to_hex o.hex h ++ (codes ", got " ++ kind_name (kind other))))))

  abbrev pub commit_at : Hash → Object → Result Failure Commit
  commit_at h (Object.commit c) = ok c
  commit_at h other = err (unexpected (codes "commit") h other)

  abbrev pub tree_at : Hash → Object → Result Failure Tree
  tree_at h (Object.tree t) = ok t
  tree_at h other = err (unexpected (codes "tree") h other)

  abbrev pub blob_at : Hash → Object → Result Failure Blob
  blob_at h (Object.blob b) = ok b
  blob_at h other = err (unexpected (codes "blob") h other)

  unfoldable pub load_commit : Hash → Action S Failure Commit
  load_commit h = do found ← rooted Root.core (st.store.get h); lift (commit_at h found)

  unfoldable pub load_tree : Hash → Action S Failure Tree
  load_tree h = do found ← rooted Root.core (st.store.get h); lift (tree_at h found)

  unfoldable pub load_blob : Hash → Action S Failure Blob
  load_blob h = do found ← rooted Root.core (st.store.get h); lift (blob_at h found)

  unfoldable pub load_manifest : Hash → Action S Failure SegmentManifest
  load_manifest h = do
    bytes ← rooted Root.core (st.store.get_raw h)
    with_context (codes "decoding manifest " ++ to_hex o.hex h) (
        rooted Root.manifest
          (lift (from_canonical_bytes o.codec.blake3 o.segment_json o.manifest_json bytes)))
