-- ===== src/Samples/StoreRuns.antt =====
-- Runs of hashes, objects, the scanner and the store at concrete inputs.
use git_agentic.Common.{
  ℕ, ◌≡◌, ◌≢◌, ◌⊎◌, refl, true, false, [], ◌∷◌, ok, err, length, nat_eq, list_eq, replicate, ap,
  filter, list_beq, arith,
}
use git_agentic.Common.Text.{starts_with, strip_prefix, Text, Bytes, codes}
use git_agentic.Common.SortedMap
use git_agentic.Common.Dict.{get, insert, remove}
use git_agentic.Fs.Paths.{FilePath, with_extension_tmp, file_stem, rsplit_dot, parent}
use git_agentic.Fs.{
  stat, create_dir_all, create_dir, create_dirs, sys_call, write, rename, Disk, works,
  first_outcome, exists,
}
use git_agentic.Fs.Atomic.{replace}
use git_agentic.Core.Hash.{Hash, IsHash, to_hex, shard}
use git_agentic.Core.Object.{
  Object, TypedRef, ObjectKind, tree_hash, hash, blob_hash, commit_hash, Blob,
}
use git_agentic.Core.Error.{secret_detected}
use git_agentic.Core.Scanner.{
  is_base64ish, bump, count_bytes, maybe_emit_entropy_hit, scan_impl, shannon_entropy, sum_entropy,
  default_policy, entropy_hits, scan_with, pattern_hits, patterns, contains,
}
use git_agentic.Core.Store.{
  FsObjectStore, is_empty, fs_object_store, fs_put_with_policy, fs_get, path_for, fs_store,
  write_at, scan_object,
}
use git_agentic.Core.Store.Reads.{get-IsAddressed}
use git_agentic.Core.Store.RoundTrip.{get-put, put_blob_gate}
use git_agentic.Core.Store.Laws.{StoreLaws, fs_store-StoreLaws}
use git_agentic.Samples.Crates.{
  crates, codec, engine, zstd_laws, object_json_laws, fit, length-fit, fit-IsBytes,
}

abbrev pub zeros : Hash
zeros = fit 32 []

abbrev pub ones : Hash
ones = fit 32 (1 ∷ [])

pub zeros-IsHash : IsHash zeros
zeros-IsHash = (length-fit 32 [], fit-IsBytes 32 [])

pub ones-IsHash : IsHash ones
ones-IsHash = (length-fit 32 (1 ∷ []), fit-IsBytes 32 (1 ∷ []))

abbrev ref : Hash → TypedRef
ref h = record { kind = ObjectKind.blob; hash = h }

unfoldable pub first_byte : Text → ℕ
first_byte [] = 0
first_byte (c ∷ s) = c

pub b_ne_a : codes "b" ≢ codes "a"
unfolding first_byte
b_ne_a e = let d : ◌≡◌ {A = ℕ} 98 97 = ap first_byte e in omega arith

abbrev pub letters : Bytes
letters = replicate 40 b'a'

abbrev pub empty_disk : Disk
empty_disk = record { nodes = []; outcomes = [] }

abbrev store : FsObjectStore
store = fs_object_store (codes "objects" ∷ [])

abbrev hello : Object
hello = Object.blob (record { bytes = codes "hello" })

abbrev hello_hash : Hash
hello_hash = fit 32 (codes "hello")

abbrev stored : Disk
stored = (fs_put_with_policy crates store hello default_policy empty_disk).1

-- Tests: what the calls of these runs return.
put_hello : (fs_put_with_policy crates store hello default_policy empty_disk).0 ≡ ok hello_hash
unfolding starts_with strip_prefix fs_put_with_policy hash path_for stat get scan_with pattern_hits
    patterns entropy_hits is_base64ish write_at replace create_dir_all parent create_dir sys_call
    insert list_beq write with_extension_tmp remove filter SortedMap.get shard to_hex blob_hash
    commit_hash tree_hash bump count_bytes maybe_emit_entropy_hit scan_impl shannon_entropy
    sum_entropy scan_object file_stem rsplit_dot create_dirs rename
put_hello = refl

absent_hello : exists empty_disk (path_for crates store hello_hash) ≡ false
unfolding starts_with strip_prefix fs_put_with_policy hash path_for stat get scan_with pattern_hits
    patterns entropy_hits is_base64ish write_at replace create_dir_all parent create_dir sys_call
    insert list_beq write with_extension_tmp remove filter SortedMap.get shard to_hex blob_hash
    commit_hash tree_hash bump count_bytes maybe_emit_entropy_hit scan_impl shannon_entropy
    sum_entropy scan_object file_stem rsplit_dot create_dirs rename
absent_hello = refl

works_after_hello : first_outcome stored.outcomes ≡ works
unfolding starts_with strip_prefix fs_put_with_policy hash path_for stat get scan_with pattern_hits
    patterns entropy_hits is_base64ish write_at replace create_dir_all parent create_dir sys_call
    insert list_beq write with_extension_tmp remove filter SortedMap.get shard to_hex blob_hash
    commit_hash tree_hash bump count_bytes maybe_emit_entropy_hit scan_impl shannon_entropy
    sum_entropy scan_object file_stem rsplit_dot create_dirs rename
works_after_hello = refl

get-put_example : (fs_get crates store hello_hash stored).0 ≡ ok hello
unfolding hash blob_hash
get-put_example =
    get-put crates store zstd_laws object_json_laws hello default_policy hello_hash empty_disk
      absent_hello put_hello works_after_hello

get-IsAddressed_example : hash codec hello ≡ hello_hash
get-IsAddressed_example = get-IsAddressed crates store hello_hash stored hello get-put_example

abbrev token : Bytes
token = codes "AKIA0123"

-- Test: the scanner finds the token.
token_found : is_empty (scan_with engine token default_policy) ≡ false
unfolding scan_with scan_impl pattern_hits patterns starts_with strip_prefix filter entropy_hits
    is_base64ish maybe_emit_entropy_hit
token_found = refl

put_blob_gate_example :
    let b : Blob = record { bytes = token } in
    let hits = scan_with engine token default_policy in
    (hits ≢ []
      → contains store.allowlist (hash codec (Object.blob b)) ≡ false
      → fs_put_with_policy crates store (Object.blob b) default_policy empty_disk
        ≡ (err (secret_detected hits), empty_disk))
    × ((h : Hash)
        → (fs_put_with_policy crates store (Object.blob b) default_policy empty_disk).0 ≡ ok h
        → (hits ≡ []) ⊎ (contains store.allowlist h ≡ true))
put_blob_gate_example =
    put_blob_gate crates store (record { bytes = token }) default_policy empty_disk

fs_store-StoreLaws_example : StoreLaws codec (fs_store crates store)
fs_store-StoreLaws_example = fs_store-StoreLaws crates store

abbrev target : FilePath
target = codes "a" ∷ codes "b" ∷ []

target_tmp : with_extension_tmp target ≢ target
unfolding first_byte with_extension_tmp file_stem rsplit_dot
target_tmp e = let d : ◌≡◌ {A = ℕ} 5 1 = ap (λ (p : FilePath). length (second p)) e in omega arith
  where
    second : FilePath → Text
    second (a ∷ b ∷ p) = b
    second p = []
