-- ===== src/Agenticd/Commit/Recorded.antt =====
-- What a commit that the daemon reports as done has recorded.
use git_agentic.Common.{
  ℕ, ◌≡◌, refl, Bool, true, false, Option, none, some, ◌++◌, ok, Action, map_err-eq-ok, Yields,
  Yields-pure, Yields-bind,
}
use git_agentic.Common.Text.{Text}
use git_agentic.Fs.{content}
use git_agentic.Core.Error.{Error as CoreError}
use git_agentic.Core.Hash.{Hash, to_hex}
use git_agentic.Core.Object.{Commit, Object, Codec, hash}
use git_agentic.Core.Refs.{HeadRef, branch_file, read_head, read_branch, newline}
use git_agentic.Core.Staging.{CommitInputs, CommitOutputs}
use git_agentic.Core.Staging.Blobs.{tree_address, payload_address}
use git_agentic.Core.Staging.Order.{Apart, Committed}
use git_agentic.Core.Store.Laws.{StoreLaws}
use git_agentic.Memory.Adapter.{MemoryAdapter}
use git_agentic.Proto.Messages.{CommitInput, CommitOutput}
use git_agentic.Agenticd.Failure.{Failure, Root, failure, rooted, with_context, in_context, on_refs}
use git_agentic.Agenticd.Daemon.{Outside, DaemonState}
use git_agentic.Agenticd.Commit.{
  author_or_unknown, branch_for, is_none, both, take_handle, persist, take_snapshot,
  snapshot_memory, snapshot_with,
}

-- Both parts of a snapshot, or none
abbrev pub BothOrNone : Option Hash × Option Text → Type 0
BothOrNone p = is_none p.0 ≡ is_none p.1

module _ {S A : Type 0} where
  pub with_context-eq-ok :
      (text : Text) (m : Action S Failure A) (s : S) {a : A}
      → (with_context text m s).0 ≡ ok a
      → (m s).0 ≡ ok a
  with_context-eq-ok text m s e = map_err-eq-ok (in_context text) (m s).0 e

  pub rooted-eq-ok :
      {E : Type 0} (root : E → Root) (m : Action S E A) (s : S) {a : A}
      → (rooted root m s).0 ≡ ok a
      → (m s).0 ≡ ok a
  rooted-eq-ok root m s e = map_err-eq-ok (λ e. failure (root e)) (m s).0 e

module _ {S : Type 0} (o : Outside S) (st : DaemonState S) where
  take_snapshot-Yields : (a : MemoryAdapter S) → Yields BothOrNone (take_snapshot o st a)
  unfolding take_snapshot
  take_snapshot-Yields a =
      Yields-bind (take_handle o st a) _ (anything (take_handle o st a)) λ handle u.
        Yields-bind (persist o st handle) _ (anything (persist o st handle))
          λ h u. Yields-pure (both o st h handle.schema_version) refl
    where
      anything : {A : Type 0} (m : Action S Failure A) → Yields (λ a. Unit {0}) m
      anything m = record { at = λ s a e. tt }

  pub snapshot_memory-Yields :
      (no_memory : Bool) → Yields BothOrNone (snapshot_memory o st no_memory)
  unfolding snapshot_memory
  snapshot_memory-Yields true = Yields-pure (none, none) refl
  snapshot_memory-Yields false = go st.memory
    where
      go : (m : Option (MemoryAdapter S)) → Yields BothOrNone (snapshot_with o st m)
      go none = Yields-pure (none, none) refl
      go (some a) = take_snapshot-Yields a

  module _ (k : Codec) (laws : StoreLaws k st.store) (apart : Apart st.store st.disk o.hex st.refs)
      (input : CommitInput) (peer_uid : Option ℕ) (now : ℕ) where
    -- What the parts of the commit are
    pub record Recorded (s t : S) (out : CommitOutput) : Type 0 where
      pub head : Option HeadRef
      pub commit : Commit
      pub head_read : (on_refs st.disk (read_head o.hex st.refs) s).0 ≡ ok head
      pub branch : out.branch ≡ branch_for input.branch head
      pub parent_read :
          (on_refs st.disk
            (read_branch o.hex st.refs (branch_for input.branch head))
            (on_refs st.disk (read_head o.hex st.refs) s).1).0
          ≡ ok commit.parent
      pub author : commit.author ≡ author_or_unknown input.author
      pub timestamp : commit.timestamp ≡ now
      pub message : commit.message ≡ input.message
      pub code_sha : commit.code_sha ≡ input.code_sha
      pub prompts : commit.prompts ≡ tree_address k input.prompts
      pub model : commit.model ≡ payload_address k input.model
      pub uid : commit.peer_uid ≡ peer_uid
      pub memory_whole : BothOrNone (commit.memory_snapshot, commit.schema_version)
      pub address : out.commit_hash ≡ to_hex o.hex (hash k (Object.commit commit))
      pub branch_line :
          content (st.disk.disk t) (branch_file st.refs out.branch)
          ≡ some (out.commit_hash ++ newline)

    record Phases (branch : Text) (parent : Option Hash) (t : S) (out : CommitOutputs)
        : Type 0 where
      inputs : CommitInputs
      same_parent : inputs.parent ≡ parent
      author : inputs.author ≡ author_or_unknown input.author
      message : inputs.message ≡ input.message
      code_sha : inputs.code_sha ≡ input.code_sha
      prompts : inputs.prompts ≡ input.prompts
      model : inputs.model ≡ input.model
      uid : inputs.peer_uid ≡ peer_uid
      memory_whole : BothOrNone (inputs.memory_snapshot, inputs.schema_version)
      done : Committed k st.store laws st.disk o.hex st.refs apart branch inputs now t out
