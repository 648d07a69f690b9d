-- ===== src/Core/Staging.antt =====
-- crates/agentic-core/src/commit.rs: the staging of a commit, the order of ADR-0002, and the log.
pub mod Blobs
pub mod Order
pub mod OneDisk
pub mod Log
use git_agentic.Common.{
  ℕ, zero, suc, ◌≡◌, Bool, true, false, Option, none, some, List, [], ◌∷◌, ◌++◌, Result, ok, err,
  Action, pure, raise, ◌>>=◌, ◌>>◌, any, if◌then◌else◌, map,
}
use git_agentic.Common.SortedMap.{SortedMap}
use git_agentic.Common.Text.{Bytes, Text, starts_with}
use git_agentic.External.{Hex}
use git_agentic.Fs.{Disk}
use git_agentic.Core.Error.{Error, kind_mismatch}
use git_agentic.Core.Hash.{Hash}
use git_agentic.Core.Object.{
  Blob, Tree, Commit, Object, ObjectKind, TypedRef, kind, tree_insert, empty_tree,
}
use git_agentic.Core.Scanner.{ScanPolicy, default_policy}
use git_agentic.Core.Store.{ObjectStore, put}
use git_agentic.Core.Refs.{Refs, write_branch}

pub record CommitInputs : Type 0 where
  pub author : Text
  pub message : Text
  pub parent : Option Hash
  pub code_sha : Option Text
  pub prompts : SortedMap Bytes
  pub tools : SortedMap Bytes
  pub model : Option Text
  pub memory_snapshot : Option Hash
  pub schema_version : Option Text
  pub intent : Option Bytes
  pub plan : Option Bytes
  pub transcript : Option Bytes
  pub evals : Option Bytes
  pub cost_cents : ℕ
  pub peer_uid : Option ℕ
  pub exempt_entropy_prefixes : List Text

pub record CommitOutputs : Type 0 where
  pub commit_hash : Hash
  pub branch : Text

-- The disk of the refs, as a part of the state that the store works on too
pub record DiskOf (S : Type 0) : Type 0 where
  pub disk : S → Disk
  pub set_disk : Disk → S → S

unfoldable pub on_disk : {S E A : Type 0} → DiskOf S → Action Disk E A → Action S E A
on_disk l m s = ((m (l.disk s)).0, l.set_disk (m (l.disk s)).1 s)

-- The scan policy of an entry: a prefix that is exempt turns the entropy heuristic off.
abbrev pub policy_of : List Text → Text → ScanPolicy
policy_of exempt name =
    if any (λ p. starts_with p name) exempt then record { skip_entropy = true } else default_policy

abbrev pub blob_of : Bytes → Object
blob_of b = Object.blob (record { bytes = b })

abbrev pub blob_ref : Hash → TypedRef
blob_ref h = record { kind = ObjectKind.blob; hash = h }

abbrev pub assemble :
    CommitInputs
    → ℕ
    → Option Hash
    → Option Hash
    → Option Hash
    → Option Hash
    → Option Hash
    → Option Hash
    → Option Hash
    → Commit
assemble inputs now prompts tools model intent plan transcript evals = record {
  parent = inputs.parent;
  author = inputs.author;
  timestamp = now;
  message = inputs.message;
  code_sha = inputs.code_sha;
  prompts = prompts;
  tools = tools;
  model = model;
  memory_snapshot = inputs.memory_snapshot;
  schema_version = inputs.schema_version;
  intent = intent;
  plan = plan;
  transcript = transcript;
  evals = evals;
  cost_cents = inputs.cost_cents;
  signatures = [];
  peer_uid = inputs.peer_uid;
}

abbrev pub commit_of_object : Object → Result Error Commit
commit_of_object (Object.commit c) = ok c
commit_of_object o = err (kind_mismatch ObjectKind.commit (kind o))

module _ {S : Type 0} (store : ObjectStore S) where
  unfoldable pub stage_entries : List (Text × Bytes) → List Text → Tree → Action S Error Tree
  stage_entries [] exempt t = pure t
  stage_entries ((name, bytes) ∷ entries) exempt t = do
    h ← store.put_with_policy (blob_of bytes) (policy_of exempt name)
    stage_entries entries exempt (tree_insert t name (blob_ref h))

  unfoldable pub stage_blob_tree : SortedMap Bytes → List Text → Action S Error (Option Hash)
  unfolding stage_entries put
  stage_blob_tree [] exempt = pure none
  stage_blob_tree (e ∷ entries) exempt = do
    t ← stage_entries (e ∷ entries) exempt empty_tree
    h ← put store (Object.tree t)
    pure (some h)

  unfoldable pub stage_optional_blob : Option Bytes → Action S Error (Option Hash)
  unfolding put
  stage_optional_blob none = pure none
  stage_optional_blob (some bytes) = do h ← put store (blob_of bytes); pure (some h)

  -- Step 1: the blobs, and of step 2 the commit
  unfoldable pub stage_inputs : CommitInputs → ℕ → Action S Error Commit
  unfolding stage_blob_tree stage_optional_blob
  stage_inputs inputs now = do
    prompts ← stage_blob_tree inputs.prompts inputs.exempt_entropy_prefixes
    tools ← stage_blob_tree inputs.tools inputs.exempt_entropy_prefixes
    model ← stage_optional_blob inputs.model
    intent ← stage_optional_blob inputs.intent
    plan ← stage_optional_blob inputs.plan
    transcript ← stage_optional_blob inputs.transcript
    evals ← stage_optional_blob inputs.evals
    pure (assemble inputs now prompts tools model intent plan transcript evals)

  -- Steps 1 to 3
  unfoldable pub stage : CommitInputs → ℕ → Action S Error Hash
  unfolding stage_inputs put
  stage inputs now = do c ← stage_inputs inputs now; put store (Object.commit c)

  -- Step 5 writes the branch ref last.
  unfoldable pub stage_and_commit_with_now :
      DiskOf S → Hex → Refs → Text → CommitInputs → ℕ → Action S Error CommitOutputs
  unfolding stage on_disk
  stage_and_commit_with_now l x refs branch inputs now = do
    h ← stage inputs now
    on_disk l (write_branch x refs branch h)
    pure (record { commit_hash = h; branch = branch })

  -- The loop of `walk_log`: `limit` less the length of what it has collected
  unfoldable pub walk_log_from : ℕ → Option Hash → Action S Error (List (Hash × Commit))
  walk_log_from limit none = pure []
  walk_log_from ℕ.zero (some h) = pure []
  walk_log_from (ℕ.suc limit) (some h) = do
    o ← store.get h
    c ← (λ s. (commit_of_object o, s))
    later ← walk_log_from limit c.parent
    pure ((h, c) ∷ later)

  unfoldable pub walk_log : Hash → ℕ → Action S Error (List (Hash × Commit))
  unfolding walk_log_from
  walk_log start limit = walk_log_from limit (some start)
