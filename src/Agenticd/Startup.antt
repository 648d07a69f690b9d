-- ===== src/Agenticd/Startup.antt =====
-- How the daemon's state is opened: `DaemonState::open` of crates/agenticd/src/server.rs, with the
-- specs of its backends, crates/agenticd/src/membackend.rs and objstore.rs.
use git_agentic.Common.{
  not, Option, none, some, List, [], ◌∷◌, ◌++◌, Result, ok, err, Action, pure, lift, ◌>>=◌, ◌>>◌,
  any, ◌||◌, ◌==◌, nat_eq, list_eq, if◌then◌else◌,
}
use git_agentic.Common.Text.{Text, codes, starts_with, strip_prefix, split_once, trim, strip_all}
use git_agentic.Common.{length}
use mathlib.Core.List.{reverse}
use git_agentic.Fs.{create_dir_all}
use git_agentic.Fs.Paths.{FilePath}
use git_agentic.Core.Approval.{ApprovalKey}
use git_agentic.Core.Refs.{refs_open}
use git_agentic.Core.Staging.{DiskOf, on_disk}
use git_agentic.Core.Store.{ObjectStore}
use git_agentic.Memory.Adapter.{MemoryAdapter}
use git_agentic.Agenticd.Failure.{Failure, Root, anyhow, rooted, with_context, on_refs}
use git_agentic.Agenticd.Daemon.{DaemonState, McpServerSpec, McpFingerprint}

-- `MemoryBackendSpec`, where `T` is `TrackedTable`
pub data MemoryBackendSpec (T : Type 0) : Type 0 where
  no_backend : MemoryBackendSpec T
  postgres : (url : Text) (tables : List T) → MemoryBackendSpec T

unfoldable pub from_flags :
    {T : Type 0} → Option Text → List T → Result Failure (MemoryBackendSpec T)
from_flags none tables = ok no_backend
from_flags (some url) [] = err (anyhow (codes "--postgres requires at least one --tables entry"))
from_flags (some url) (t ∷ tables) = ok (postgres url (t ∷ tables))

pub data ObjectStoreSpec : Type 0 where
  fs : (root : FilePath) → ObjectStoreSpec
  gcs : (bucket prefix : Text) (cache_dir : FilePath) → ObjectStoreSpec

-- `trim_matches('/')`
abbrev pub trim_slashes : Text → Text
trim_slashes s =
    let front = strip_all ((b'/' ∷ []) ∷ []) (length s) s in
    reverse (strip_all ((b'/' ∷ []) ∷ []) (length front) (reverse front))

abbrev pub bucket_and_prefix : Text → Text × Text
bucket_and_prefix rest = elim (split_once b'/' rest) [ some p ↦ p | none ↦ (rest, []) ]

-- `path_of` is `PathBuf::from` of an absolute path, `debug` is `Debug` of a text.
module _ (path_of : Text → FilePath) (debug : Text → Text) (agentic_dir : FilePath) where
  abbrev pub fs_at : Text → Text → Result Failure ObjectStoreSpec
  fs_at spec rest =
      if not (starts_with (codes "/") rest)
      then err (
          anyhow (
            codes "fs:// requires an absolute path, got "
            ++ (debug spec ++ codes " (try `fs` for the default)")))
      else ok (fs (path_of rest))

  abbrev pub gcs_at : Text → Text × Text → Result Failure ObjectStoreSpec
  gcs_at spec (bucket, prefix) =
      if bucket == []
      then err (anyhow (codes "gcs:// requires a bucket name, got " ++ debug spec))
      else ok (gcs bucket (trim_slashes prefix) (agentic_dir ++ (codes "gcs-cache" ∷ [])))

  abbrev pub spec_of : Text → Result Failure ObjectStoreSpec
  spec_of spec =
      if (spec == []) || (spec == codes "fs")
      then ok (fs (agentic_dir ++ (codes "objects" ∷ [])))
      else elim (strip_prefix (codes "fs://") spec) [
        | some rest ↦ fs_at spec rest
        | none ↦ (elim (strip_prefix (codes "gcs://") spec) [
          | some rest ↦ gcs_at spec (bucket_and_prefix rest)
          | none ↦ err (
              anyhow (
                codes "unrecognised --object-store "
                ++ (debug spec
                    ++ codes "; expected `fs`, `fs:///abs/path`, or `gcs://bucket[/prefix]`")))
        ])
      ]

  -- `ObjectStoreSpec::parse`
  unfoldable pub parse_object_store : Text → Result Failure ObjectStoreSpec
  parse_object_store spec = spec_of (trim spec)

-- The first name that a server before it has
unfoldable pub first_duplicate : List Text → List McpServerSpec → Option Text
first_duplicate seen [] = none
first_duplicate seen (spec ∷ specs) =
    let rest = first_duplicate (spec.name ∷ seen) specs in
    if any (λ n. n == spec.name) seen then some spec.name else rest

unfoldable pub check_names : (Text → Text) → List McpServerSpec → Result Failure (Unit {0})
unfolding first_duplicate
check_names debug servers = elim (first_duplicate [] servers) [
  | none ↦ ok tt
  | some name ↦ err (
      anyhow (
        codes "duplicate MCP server name "
        ++ (debug name
            ++ codes
                " in --mcp spec; each configured server must have a unique name (the tools tree is keyed by it)")))
]

-- What the daemon calls to open its backends: a connection to Postgres, and the HTTP client, with
-- which it asks the servers for their tools
pub record Backends (S T : Type 0) : Type 0 where
  pub connect : Text → List T → ObjectStore S → Action S Failure (MemoryAdapter S)
  pub http : Result Failure (List McpServerSpec → S → List (Result Failure McpFingerprint) × S)

module _ {S T : Type 0} (b : Backends S T) (debug : Text → Text) where
  -- `MemoryBackendSpec::open`
  unfoldable pub open_memory :
      MemoryBackendSpec T → ObjectStore S → Action S Failure (Option (MemoryAdapter S))
  open_memory no_backend store = pure none
  open_memory (postgres url tables) store = do
    adapter ← b.connect url tables store
    pure (some adapter)

  unfoldable pub open_state :
      DiskOf S
      → FilePath
      → FilePath
      → ObjectStore S
      → Option Text
      → List T
      → List McpServerSpec
      → Action S Failure (DaemonState S)
  unfolding open_memory check_names from_flags
  open_state l repo_root agentic_dir store postgres_url tables mcp_servers = do
    with_context (codes "creating .agentic directory")
        (rooted Root.io (on_disk l (create_dir_all agentic_dir)))
    refs ← with_context (codes "opening refs") (on_refs l (refs_open agentic_dir))
    spec ← lift (from_flags postgres_url tables)
    memory ← open_memory spec store
    ask ← with_context (codes "building HTTP client") (lift b.http)
    lift (check_names debug mcp_servers)
    pure (record {
      repo_root = repo_root;
      store = store;
      refs = refs;
      disk = l;
      memory = memory;
      mcp_servers = mcp_servers;
      fingerprint_all = ask;
      approval_key = none;
      exempt_entropy_prefixes = [];
    })

module _ {S : Type 0} where
  abbrev pub with_approval_key : Option ApprovalKey → DaemonState S → DaemonState S
  with_approval_key key st = record st { approval_key = key }

  abbrev pub with_exempt_entropy_prefixes : List Text → DaemonState S → DaemonState S
  with_exempt_entropy_prefixes prefixes st = record st { exempt_entropy_prefixes = prefixes }
