-- ===== src/Agenticd/Commit.antt =====
-- crates/agenticd/src/commit.rs: the phases of a commit in the daemon. The hand-over of blocking
-- work to another thread, which returns its result, is left out.
pub mod Failed
pub mod Recorded
pub mod Tools
use git_agentic.Common.{
  ℕ, ◌≡◌, Bool, true, false, not, Option, none, some, List, [], ◌∷◌, ◌++◌, Result, ok, err, Action,
  pure, raise, lift, ◌>>=◌, ◌>>◌, ◌==◌, nat_eq, list_eq, if◌then◌else◌, length, map_err,
}
use git_agentic.Common.Decimal.{to_decimal}
use git_agentic.Common.SortedMap
use git_agentic.Common.SortedMap.{SortedMap}
use git_agentic.Common.Text.{Bytes, Text, codes}
use git_agentic.Fs.{Disk}
use git_agentic.Core.Error.{Error as CoreError}
use git_agentic.Core.Hash.{Hash, to_hex}
use git_agentic.Core.Object.{ObjectKind}
use git_agentic.Core.Refs.{HeadRef, read_head, read_branch, write_head_symbolic}
use git_agentic.Core.Staging.{CommitInputs, CommitOutputs, on_disk, stage_and_commit_with_now}
use git_agentic.Memory.Adapter.{MemoryAdapter, SnapshotHandle}
use git_agentic.Proto.Messages.{CommitInput, CommitOutput}
use git_agentic.Agenticd.Failure.{
  Failure, Root, anyhow, in_context, rooted, with_context, on_refs, Formats,
}
use git_agentic.Agenticd.Daemon.{Outside, DaemonState, McpServerSpec, McpFingerprint}

-- The branch that is asked for, or that of HEAD, or `main`
unfoldable pub branch_for : Option Text → Option HeadRef → Text
branch_for (some b) head = b
branch_for none (some (HeadRef.branch b)) = b
branch_for none _ = codes "main"

abbrev pub is_none {ℓ} : {A : Type ℓ} → Option A → Bool
is_none none = true
is_none (some _) = false

abbrev pub author_or_unknown : Option Text → Text
author_or_unknown none = codes "unknown"
author_or_unknown (some a) = a

unfoldable pub assemble_inputs :
    CommitInput
    → Option Hash
    → Option Hash
    → Option Text
    → SortedMap Bytes
    → Option ℕ
    → List Text
    → CommitInputs
assemble_inputs input parent memory_snapshot schema_version tools peer_uid exempt = record {
  author = author_or_unknown input.author;
  message = input.message;
  parent = parent;
  code_sha = input.code_sha;
  prompts = input.prompts;
  tools = tools;
  model = input.model;
  memory_snapshot = memory_snapshot;
  schema_version = schema_version;
  intent = none;
  plan = none;
  transcript = none;
  evals = none;
  cost_cents = 0;
  peer_uid = peer_uid;
  exempt_entropy_prefixes = exempt;
}

-- The loop over the servers and their results, in step
unfoldable pub collect_tools :
    List McpServerSpec
    → List (Result Failure McpFingerprint)
    → SortedMap Bytes
    → Result Failure (SortedMap Bytes)
collect_tools (spec ∷ specs) (ok fp ∷ results) tools =
    collect_tools specs results (SortedMap.insert tools spec.name fp.canonical_manifest)
collect_tools (spec ∷ specs) (err e ∷ results) tools =
    err (in_context (codes "fingerprinting MCP server " ++ spec.name) e)
collect_tools _ _ tools = ok tools

abbrev pub not_one_each : ℕ → ℕ → Text
not_one_each results servers =
    codes "fingerprint_all returned "
    ++ (to_decimal results
        ++ (codes " result(s) for "
            ++ (to_decimal servers
                ++ codes
                    " configured MCP server(s); a non-1:1 contract would silently misattribute fingerprints")))

module _ {S : Type 0} (o : Outside S) (st : DaemonState S) where
  abbrev pub both : Hash → Text → Option Hash × Option Text
  both manifest schema_version = (some manifest, some schema_version)

  abbrev pub take_handle : MemoryAdapter S → Action S Failure SnapshotHandle
  take_handle adapter =
      with_context (codes "taking memory snapshot") (rooted Root.memory adapter.snapshot)

  abbrev pub persist : SnapshotHandle → Action S Failure Hash
  persist handle =
      with_context (codes "persisting segment manifest") (
        rooted Root.core
          (st.store.put_raw ObjectKind.tree (o.manifest_json.to_vec handle.manifest)))

  unfoldable pub take_snapshot : MemoryAdapter S → Action S Failure (Option Hash × Option Text)
  take_snapshot adapter = do
    handle ← take_handle adapter
    h ← persist handle
    pure (both h handle.schema_version)

  abbrev pub snapshot_with : Option (MemoryAdapter S) → Action S Failure (Option Hash × Option Text)
  snapshot_with none = pure (none, none)
  snapshot_with (some adapter) = take_snapshot adapter

  unfoldable pub snapshot_memory : Bool → Action S Failure (Option Hash × Option Text)
  unfolding take_snapshot
  snapshot_memory true = pure (none, none)
  snapshot_memory false = snapshot_with st.memory

  abbrev pub tools_of :
      List McpServerSpec → List (Result Failure McpFingerprint) → Result Failure (SortedMap Bytes)
  tools_of specs results =
      if length results == length specs
      then collect_tools specs results []
      else err (anyhow (not_one_each (length results) (length specs)))

  abbrev pub fingerprint_each : List McpServerSpec → Action S Failure (SortedMap Bytes)
  fingerprint_each [] s = (ok [], s)
  fingerprint_each (spec ∷ specs) s =
      let asked = st.fingerprint_all (spec ∷ specs) s in (tools_of (spec ∷ specs) asked.0, asked.1)

  unfoldable pub fingerprint_tools : Action S Failure (SortedMap Bytes)
  unfolding collect_tools
  fingerprint_tools = fingerprint_each st.mcp_servers

  -- The first commit names its branch in HEAD. A failure is logged and not passed on.
  unfoldable pub publish_head : Text → Bool → S → S
  publish_head branch false s = s
  publish_head branch true s = (on_disk st.disk (write_head_symbolic st.refs branch) s).1

  abbrev pub reply_of_commit : CommitOutputs → CommitOutput
  reply_of_commit out = record { commit_hash = to_hex o.hex out.commit_hash; branch = out.branch }

  -- Phases 1 to 4, on a branch and with the parent that was read
  unfoldable pub commit_phases :
      CommitInput → Option ℕ → ℕ → Text → Option Hash → Action S Failure CommitOutputs
  unfolding snapshot_memory fingerprint_tools assemble_inputs
  commit_phases input peer_uid now branch parent = do
    (memory_snapshot, schema_version) ← snapshot_memory input.no_memory
    tools ← fingerprint_tools
    with_context (codes "2PC staging on branch " ++ o.fmt.debug branch) (
        rooted Root.core (
          stage_and_commit_with_now st.store st.disk o.hex st.refs branch
            (assemble_inputs input parent memory_snapshot schema_version tools peer_uid
              st.exempt_entropy_prefixes)
            now))

  unfoldable pub execute_with_now : CommitInput → Option ℕ → ℕ → Action S Failure CommitOutput
  unfolding branch_for commit_phases publish_head
  execute_with_now input peer_uid now = do
    head ←
        with_context (codes "reading HEAD ref before commit")
          (on_refs st.disk (read_head o.hex st.refs))
    parent ←
        with_context
          (codes "reading branch ref "
            ++ (o.fmt.debug (branch_for input.branch head) ++ codes " before commit"))
          (on_refs st.disk (read_branch o.hex st.refs (branch_for input.branch head)))
    out ← commit_phases input peer_uid now (branch_for input.branch head) parent
    (λ s. (ok (reply_of_commit out), publish_head (branch_for input.branch head) (is_none head) s))
