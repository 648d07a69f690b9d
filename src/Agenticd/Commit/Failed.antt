-- ===== src/Agenticd/Commit/Failed.antt =====
-- A commit that fails leaves HEAD and the branches as they were.
use git_agentic.Common.{
  ℕ, ◌≡◌, refl, ◌∙◌, Bool, true, false, Option, none, some, List, [], ◌∷◌, ok, err, Action, Keeps,
  Keeps-bind, Keeps-pure, Spares, Spares-bind, Spares-then, map_err-eq-err,
}
use git_agentic.Common.Text.{Bytes, Text}
use git_agentic.Fs.{Disk, content}
use git_agentic.Fs.Paths.{FilePath}
use git_agentic.Fs.ReadOnly.{ReadOnly}
use git_agentic.Fs.Same.{content_of_nodes}
use git_agentic.Core.Error.{Error as CoreError}
use git_agentic.Core.Hash.{Hash}
use git_agentic.Core.Object.{Object, ObjectKind}
use git_agentic.Core.Refs.{head_path, branch_file, validate_branch_name, write_branch}
use git_agentic.Core.Refs.Failures.{write_branch_failed, write_branch-head}
use git_agentic.Core.Refs.Reads.{read_head-ReadOnly, read_branch-ReadOnly}
use git_agentic.Core.Scanner.{ScanPolicy}
use git_agentic.Core.Staging.{CommitInputs, on_disk, stage_and_commit_with_now}
use git_agentic.Core.Staging.Order.{stage-Keeps}
use git_agentic.Memory.Adapter.{MemoryAdapter}
use git_agentic.Proto.Messages.{CommitInput}
use git_agentic.Agenticd.Failure.{Failure, Root, failure, rooted, with_context, in_context, on_refs}
use git_agentic.Agenticd.Daemon.{Outside, DaemonState, McpServerSpec}
use git_agentic.Agenticd.Commit.{
  branch_for, is_none, both, take_snapshot, snapshot_memory, fingerprint_tools, commit_phases,
  publish_head, reply_of_commit, execute_with_now, snapshot_with, fingerprint_each,
}

abbrev pub At : {S : Type 0} → DaemonState S → FilePath → Option Bytes → S → Type 0
At st q c s = content (st.disk.disk s) q ≡ c

-- The store, the memory and the servers that are asked for their tools leave a file alone.
pub record Aside {S : Type 0} (st : DaemonState S) (q : FilePath) : Type 0 where
  pub disk-set_disk : (d : Disk) (s : S) → st.disk.disk (st.disk.set_disk d s) ≡ d
  pub put_aside :
      (o : Object) (policy : ScanPolicy) (c : Option Bytes)
      → Keeps (At st q c) (st.store.put_with_policy o policy)
  pub put_raw_aside :
      (kind : ObjectKind) (b : Bytes) (c : Option Bytes)
      → Keeps (At st q c) (st.store.put_raw kind b)
  pub snapshot_aside :
      (a : MemoryAdapter S) (c : Option Bytes) → st.memory ≡ some a → Keeps (At st q c) a.snapshot
  pub fingerprint_aside :
      (s : S) (c : Option Bytes) → At st q c s → At st q c (st.fingerprint_all st.mcp_servers s).1

module _ {S : Type 0} {P : S → Type 0} where
  pub rooted-Keeps :
      {E A : Type 0} (root : E → Root) (m : Action S E A) → Keeps P m → Keeps P (rooted root m)
  rooted-Keeps root m k = record { at = k.at }

  pub context-Keeps :
      {A : Type 0} (text : Text) (m : Action S Failure A)
      → Keeps P m
      → Keeps P (with_context text m)
  context-Keeps text m k = record { at = k.at }

  rooted-Spares :
      {E A : Type 0} (root : E → Root) (m : Action S E A) → Spares P m → Spares P (rooted root m)
  rooted-Spares root m k = record {
    at = λ s h e w. let (f, g) = map_err-eq-err (λ e. failure (root e)) (m s).0 w in k.at s h f g;
  }

  context-Spares :
      {A : Type 0} (text : Text) (m : Action S Failure A)
      → Spares P m
      → Spares P (with_context text m)
  context-Spares text m k = record {
    at = λ s h e w. let (f, g) = map_err-eq-err (in_context text) (m s).0 w in k.at s h f g;
  }

module _ {S : Type 0} (o : Outside S) (st : DaemonState S) (q : FilePath) (a : Aside st q)
    (c : Option Bytes) where
  read-Keeps :
      {A : Type 0} (m : Action Disk CoreError A)
      → ReadOnly m
      → Keeps (At st q c) (on_refs st.disk m)
  unfolding on_disk
  read-Keeps m r = record {
    at = λ s h.
        rw (a.disk-set_disk (m (st.disk.disk s)).1 s)
          (content_of_nodes _ _ q ((r.keeps (st.disk.disk s).nodes).at (st.disk.disk s) refl) ∙ h);
  }

  take_snapshot-Keeps :
      (m : MemoryAdapter S) → st.memory ≡ some m → Keeps (At st q c) (take_snapshot o st m)
  unfolding take_snapshot
  take_snapshot-Keeps m there =
      Keeps-bind _ _ (context-Keeps _ _ (rooted-Keeps _ _ (a.snapshot_aside m c there))) λ handle.
        Keeps-bind _ _ (context-Keeps _ _ (rooted-Keeps _ _ (a.put_raw_aside _ _ c)))
          λ h. Keeps-pure (both o st h handle.schema_version)

  snapshot_memory-Keeps : (no_memory : Bool) → Keeps (At st q c) (snapshot_memory o st no_memory)
  unfolding snapshot_memory
  snapshot_memory-Keeps true = Keeps-pure (none, none)
  snapshot_memory-Keeps false = go st.memory refl
    where
      go : (m : Option (MemoryAdapter S)) → st.memory ≡ m → Keeps (At st q c) (snapshot_with o st m)
      go none e = Keeps-pure (none, none)
      go (some m) e = take_snapshot-Keeps m e

  fingerprint_tools-Keeps : Keeps (At st q c) (fingerprint_tools o st)
  unfolding fingerprint_tools
  fingerprint_tools-Keeps = record { at = go st.mcp_servers refl }
    where
      go :
          (specs : List McpServerSpec)
          → st.mcp_servers ≡ specs
          → (s : S) → At st q c s
          → At st q c (fingerprint_each o st specs s).1
      go [] e s h = h
      go (spec ∷ specs) e s h = rw e at (a.fingerprint_aside s c h)

  -- A commit spares the file if its write of the branch does.
  module _
      (write : (n : Text) (h : Hash)
        → Spares (At st q c) (on_disk st.disk (write_branch o.hex st.refs n h))) where
    staged-Spares :
        (branch : Text) (inputs : CommitInputs) (now : ℕ)
        → Spares
            (At st q c)
            (stage_and_commit_with_now st.store st.disk o.hex st.refs branch inputs now)
    unfolding stage_and_commit_with_now
    staged-Spares branch inputs now =
        Spares-bind _ _
          (stage-Keeps st.store (At st q c) (λ obj policy. a.put_aside obj policy c) inputs now)
          λ h.
            Spares-then (on_disk st.disk (write_branch o.hex st.refs branch h))
              (λ u s. (record { commit_hash = h; branch = branch }, s)) (write branch h)

    commit_phases-Spares :
        (input : CommitInput) (peer_uid : Option ℕ) (now : ℕ) (branch : Text) (parent : Option Hash)
        → Spares (At st q c) (commit_phases o st input peer_uid now branch parent)
    unfolding commit_phases
    commit_phases-Spares input peer_uid now branch parent =
        Spares-bind _ _ (snapshot_memory-Keeps input.no_memory) λ (m, v).
          Spares-bind _ _ fingerprint_tools-Keeps
            λ tools. context-Spares _ _ (rooted-Spares _ _ (staged-Spares branch _ now))

    execute-Spares :
        (input : CommitInput) (peer_uid : Option ℕ) (now : ℕ)
        → Spares (At st q c) (execute_with_now o st input peer_uid now)
    unfolding execute_with_now
    execute-Spares input peer_uid now =
        Spares-bind _ _ (context-Keeps _ _ (read-Keeps _ (read_head-ReadOnly o.hex st.refs)))
          λ head.
            Spares-bind _ _
              (context-Keeps _ _
                (read-Keeps _ (read_branch-ReadOnly o.hex st.refs (branch_for input.branch head))))
              λ parent.
                Spares-then (commit_phases o st input peer_uid now _ parent)
                  (λ out s. (
                    reply_of_commit o st out,
                    publish_head o st (branch_for input.branch head) (is_none head) s,
                  ))
                  (commit_phases-Spares input peer_uid now _ parent)

module _ {S : Type 0} (o : Outside S) (st : DaemonState S) where
  on_disk-head :
      (a : Aside st (head_path st.refs)) (c : Option Bytes) (n : Text) (h : Hash)
      → Spares (At st (head_path st.refs) c) (on_disk st.disk (write_branch o.hex st.refs n h))
  unfolding on_disk
  on_disk-head a c n h = record {
    at = λ s k e w. rw (a.disk-set_disk _ s) ((write_branch-head o.hex st.refs n h c).at _ k);
  }

  on_disk-branch :
      (m : Text)
      → validate_branch_name m ≡ ok tt
      → (a : Aside st (branch_file st.refs m)) (c : Option Bytes) (n : Text) (h : Hash)
      → Spares (At st (branch_file st.refs m) c) (on_disk st.disk (write_branch o.hex st.refs n h))
  unfolding on_disk
  on_disk-branch m vm a c n h = record {
    at = λ s k e w. rw (a.disk-set_disk _ s) (write_branch_failed o.hex st.refs n m h _ e vm w ∙ k);
  }

  -- A commit that the daemon reports as failed, at whatever phase and whatever call of the system,
  -- leaves the file of HEAD and that of every valid branch as they were: a first commit that fails
  -- leaves no HEAD behind, if the store, the memory and the servers do not write those files.
  pub execute_failed :
      Aside st (head_path st.refs)
      → ((m : Text) → Aside st (branch_file st.refs m))
      → (input : CommitInput) (peer_uid : Option ℕ) (now : ℕ) (s : S) (e : Failure)
      → (execute_with_now o st input peer_uid now s).0 ≡ err e
      → (content (st.disk.disk (execute_with_now o st input peer_uid now s).1) (head_path st.refs)
          ≡ content (st.disk.disk s) (head_path st.refs))
        × ((m : Text)
            → validate_branch_name m ≡ ok tt
            → content
                (st.disk.disk (execute_with_now o st input peer_uid now s).1)
                (branch_file st.refs m)
              ≡ content (st.disk.disk s) (branch_file st.refs m))
  execute_failed ah ab input peer_uid now s e w = (
    (execute-Spares o st _ ah _ (on_disk-head ah _) input peer_uid now).at s refl e w,
    λ m vm.
        (execute-Spares o st _ (ab m) _ (on_disk-branch m vm (ab m) _) input peer_uid now).at s refl
          e w,
  )
