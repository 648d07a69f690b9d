-- ===== src/Core/Store.antt =====
-- crates/agentic-core/src/store.rs: the content-addressed store, as the trait and as the
-- implementation on the file system.
pub mod Reads
pub mod Writes
pub mod RoundTrip
pub mod Laws
use git_agentic.Common.{
  ℕ, ◌≡◌, Bool, true, false, ◌||◌, Option, none, some, List, [], ◌∷◌, ◌++◌, Result, ok, err, Action,
  pure, raise, lift, gets, ◌>>=◌, ◌>>◌, ◌==◌, nat_eq, list_eq, if◌then◌else◌, String, ok_or,
  and_then,
}
use git_agentic.Common.Text.{Bytes, Text, codes}
use git_agentic.External.{Hex, Zstd, Blake3, Serde}
use git_agentic.Fs.{create_dir_all, Disk, ErrorKind, Io, exists, read}
use git_agentic.Fs.Paths.{FilePath}
use git_agentic.Fs.Atomic.{replace}
use git_agentic.Core.Hash.{Hash, of, shard}
use git_agentic.Core.Object.{Object, ObjectKind, Codec, Blob, hash}
use git_agentic.Core.Scanner.{
  Engine, ScanPolicy, default_policy, Hit, Allowlist, contains, empty_allowlist, scan, scan_with,
}
use git_agentic.Core.Error.{
  Error, from_io, secret_detected, integrity_error, not_found, serialize, other,
}

-- `trait ObjectStore`, on a state `S`
pub record ObjectStore (S : Type 0) : Type 0 where
  pub put_with_policy : Object → ScanPolicy → Action S Error Hash
  pub put_raw : ObjectKind → Bytes → Action S Error Hash
  pub get : Hash → Action S Error Object
  pub get_raw : Hash → Action S Error Bytes
  pub has : S → Hash → Bool

-- The default method of the trait
unfoldable pub put : {S : Type 0} → ObjectStore S → Object → Action S Error Hash
put store object = store.put_with_policy object default_policy

unfoldable pub check_integrity : Hash → Hash → Result Error (Unit {0})
check_integrity declared computed =
    if computed == declared then ok tt else err (integrity_error declared computed)

-- The crates behind the store
pub record Crates : Type 1 where
  pub hex : Hex
  pub zstd : Zstd
  pub codec : Codec
  pub engine : Engine

pub record FsObjectStore : Type 0 where
  pub root : FilePath
  pub allowlist : Allowlist

abbrev pub fs_object_store : FilePath → FsObjectStore
fs_object_store root = record { root = root; allowlist = empty_allowlist }

-- `FsObjectStore::open`
unfoldable pub fs_open : FilePath → Action Disk Error FsObjectStore
fs_open root = from_io (create_dir_all root) >> pure (fs_object_store root)

abbrev pub with_allowlist : FsObjectStore → Allowlist → FsObjectStore
with_allowlist s a = record s { allowlist = a }

abbrev pub is_empty {ℓ} : {A : Type ℓ} → List A → Bool
is_empty [] = true
is_empty (a ∷ l) = false

module _ (x : Crates) (s : FsObjectStore) where
  unfoldable pub path_for : Hash → FilePath
  path_for h =
      let (prefix, rest) = shard x.hex h in s.root ++ (prefix ∷ (rest ++ codes ".zst") ∷ [])

  unfoldable pub write_at : FilePath → Bytes → Action Disk Error (Unit {0})
  write_at path bytes = from_io (replace path (x.zstd.encode_all bytes))

  unfoldable pub read_at : FilePath → Action Disk Error Bytes
  read_at path = do
    compressed ← from_io (read path)
    lift (ok_or (x.zstd.decode_all compressed) other)

  -- Hits are let pass for an address in the allowlist only.
  abbrev pub admit : List Hit → Hash → Result Error (Unit {0})
  admit hits h =
      if is_empty hits || contains s.allowlist h then ok tt else err (secret_detected hits)

  -- The scanner's hook of `put_with_policy`: trees and commits are not scanned.
  unfoldable pub scan_object : Object → ScanPolicy → Result Error (Unit {0})
  scan_object (Object.blob b) policy =
      admit (scan_with x.engine b.bytes policy) (hash x.codec (Object.blob b))
  scan_object _ policy = ok tt

  abbrev pub write_absent : FilePath → Bytes → Action Disk Error (Unit {0})
  write_absent path bytes d = if exists d path then (ok tt, d) else write_at path bytes d

  unfoldable pub fs_put_with_policy : Object → ScanPolicy → Action Disk Error Hash
  unfolding scan_object
  fs_put_with_policy object policy = do
    lift (scan_object object policy)
    write_absent (path_for (hash x.codec object)) (x.codec.object_json.to_vec object)
    pure (hash x.codec object)

  unfoldable pub fs_put_raw : ObjectKind → Bytes → Action Disk Error Hash
  fs_put_raw kind bytes = do
    lift (admit (scan x.engine bytes) (of x.codec.blake3 bytes))
    write_absent (path_for (of x.codec.blake3 bytes)) bytes
    pure (of x.codec.blake3 bytes)

  -- The path is checked first, then read.
  abbrev pub read_present : Hash → Action Disk Error Bytes
  read_present h d =
      if exists d (path_for h) then read_at (path_for h) d else (err (not_found h), d)

  -- The object that the bytes hold, if its address is the declared one.
  unfoldable pub decode_checked : Hash → Bytes → Result Error Object
  unfolding check_integrity
  decode_checked h bytes =
      and_then (ok_or (x.codec.object_json.from_slice bytes) serialize)
        λ object. and_then (check_integrity h (hash x.codec object)) λ _. ok object

  unfoldable pub fs_get : Hash → Action Disk Error Object
  fs_get h = do bytes ← read_present h; lift (decode_checked h bytes)

  unfoldable pub bytes_checked : Hash → Bytes → Result Error Bytes
  unfolding check_integrity
  bytes_checked h bytes = and_then (check_integrity h (of x.codec.blake3 bytes)) λ _. ok bytes

  unfoldable pub fs_get_raw : Hash → Action Disk Error Bytes
  fs_get_raw h = do bytes ← read_present h; lift (bytes_checked h bytes)

  unfoldable pub fs_has : Disk → Hash → Bool
  unfolding path_for
  fs_has d h = exists d (path_for h)

  -- `impl ObjectStore for FsObjectStore`
  abbrev pub fs_store : ObjectStore Disk
  fs_store = record {
    put_with_policy = fs_put_with_policy;
    put_raw = fs_put_raw;
    get = fs_get;
    get_raw = fs_get_raw;
    has = fs_has;
  }
