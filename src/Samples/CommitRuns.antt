-- ===== src/Samples/CommitRuns.antt =====
-- Runs of a commit, of the log and of the diff at concrete inputs.
use git_agentic.Common.{
  ◌≡◌, ◌≢◌, ◌↔◌, ◌≤◌, refl, true, none, some, List, [], ◌∷◌, Result, ok, err, list_beq, all, any,
  filter, nat_eq, list_eq, option_beq, length, pure,
}
use git_agentic.Common.SortedMap
use git_agentic.Common.Dict.{get, insert, remove}
use git_agentic.Common.Text.{Text, codes, split, split_from, ends_with, starts_with, strip_prefix}
use git_agentic.Common.Ordered.{text_compare}
use git_agentic.Fs.{
  Disk, fails, content, stat, create_dir_all, create_dir, create_dirs, sys_call, write, rename,
  read, other,
}
use git_agentic.Fs.Paths.{parent, with_extension_tmp, file_stem, rsplit_dot}
use git_agentic.Fs.Atomic.{replace}
use git_agentic.Core.Error.{Error, io}
use git_agentic.Core.Hash.{Hash, to_hex, shard}
use git_agentic.Core.Object.{
  Object, Commit, TypedRef, ObjectKind, hash, blob_hash, commit_hash, tree_hash, tree_insert,
}
use git_agentic.Core.Scanner.{
  is_base64ish, bump, count_bytes, maybe_emit_entropy_hit, scan_impl, shannon_entropy, sum_entropy,
  entropy_hits, scan_with, pattern_hits, patterns, empty_allowlist,
}
use git_agentic.Core.Store.{
  ObjectStore, put, fs_put_with_policy, fs_get, path_for, write_at, read_at, scan_object,
  decode_checked, check_integrity, fs_store,
}
use git_agentic.Core.Store.Laws.{StoreLaws, fs_store-StoreLaws}
use git_agentic.Core.Refs.{
  validate_branch_name, refuse_name, refuse_components, refuse_component, has_control, components,
  first_components, later_components, branch_path, branch_file, write_branch,
}
use git_agentic.Core.Staging.{
  CommitInputs, CommitOutputs, on_disk, stage_entries, stage_blob_tree, stage_optional_blob,
  stage_inputs, stage, stage_and_commit_with_now, walk_log, walk_log_from,
}
use git_agentic.Core.Staging.Blobs.{commit_of, tree_of, tree_address, payload_address}
use git_agentic.Core.Staging.Order.{
  Apart, Committed, commit-Committed, commit_failed, commit-idempotent,
}
use git_agentic.Core.Staging.OneDisk.{objects_of, whole_disk, fs_store-Apart}
use git_agentic.Core.Staging.Log.{Chain, walk_log-Chain}
use git_agentic.Core.Diff.{
  CommitDiff, diff, load_commit, diff_tree, diff_model_blob, string_change, hash_change,
  diff_entries,
}
use git_agentic.Core.Diff.Entries.{In, hash_of, diff_entries_lem}
use git_agentic.Samples.HexDigits.{hex}
use git_agentic.Samples.Crates.{crates, codec}
use git_agentic.Samples.StoreRuns.{ones, zeros, empty_disk}
use git_agentic.Samples.RefsRuns.{refs, main, main_valid}

abbrev pub inputs : CommitInputs
inputs = record {
  author = codes "ann";
  message = codes "first";
  parent = none;
  code_sha = none;
  prompts = (codes "p.md", codes "Be brief.") ∷ [];
  tools = [];
  model = some (codes "m");
  memory_snapshot = none;
  schema_version = none;
  intent = none;
  plan = none;
  transcript = none;
  evals = none;
  cost_cents = 0;
  peer_uid = none;
  exempt_entropy_prefixes = [];
}

abbrev repository : ObjectStore Disk
repository = fs_store crates (objects_of refs empty_allowlist)

pub laws : StoreLaws codec repository
laws = fs_store-StoreLaws crates (objects_of refs empty_allowlist)

fs_store-Apart_example : Apart repository whole_disk hex refs
fs_store-Apart_example = fs_store-Apart crates refs empty_allowlist

pub apart : Apart repository whole_disk hex refs
apart = fs_store-Apart crates refs empty_allowlist

abbrev commit_at : Disk → Result Error CommitOutputs × Disk
commit_at = stage_and_commit_with_now repository whole_disk hex refs main inputs 7

-- The first call to the system fails.
abbrev failing : Disk
failing = record { nodes = []; outcomes = fails ∷ [] }

abbrev pub outputs : CommitOutputs
outputs = record {
  commit_hash = hash codec (Object.commit (commit_of codec inputs 7));
  branch = main;
}

abbrev pub committed : Disk
committed = (commit_at empty_disk).1

-- Tests: what the calls of these runs return.
commit_works : (commit_at empty_disk).0 ≡ ok outputs
unfolding validate_branch_name refuse_name refuse_components refuse_component has_control components
    first_components later_components split split_from ends_with starts_with strip_prefix list_beq
    all any write_branch branch_path stat get replace create_dir_all parent create_dir create_dirs
    sys_call insert remove write rename with_extension_tmp file_stem rsplit_dot to_hex
    fs_put_with_policy hash path_for scan_with pattern_hits patterns entropy_hits is_base64ish
    write_at filter SortedMap.get SortedMap.insert text_compare shard blob_hash commit_hash
    tree_hash tree_insert bump count_bytes maybe_emit_entropy_hit scan_impl shannon_entropy
    sum_entropy scan_object stage_and_commit_with_now stage stage_inputs stage_blob_tree
    stage_optional_blob stage_entries on_disk put commit_of tree_of tree_address payload_address
commit_works = refl

commit_again : (commit_at committed).0 ≡ ok outputs
unfolding validate_branch_name refuse_name refuse_components refuse_component has_control components
    first_components later_components split split_from ends_with starts_with strip_prefix list_beq
    all any write_branch branch_path stat get replace create_dir_all parent create_dir create_dirs
    sys_call insert remove write rename with_extension_tmp file_stem rsplit_dot to_hex
    fs_put_with_policy hash path_for scan_with pattern_hits patterns entropy_hits is_base64ish
    write_at filter SortedMap.get SortedMap.insert text_compare shard blob_hash commit_hash
    tree_hash tree_insert bump count_bytes maybe_emit_entropy_hit scan_impl shannon_entropy
    sum_entropy scan_object stage_and_commit_with_now stage stage_inputs stage_blob_tree
    stage_optional_blob stage_entries on_disk put commit_of tree_of tree_address payload_address
commit_again = refl

commit_fails : (commit_at failing).0 ≡ err (io other)
unfolding validate_branch_name refuse_name refuse_components refuse_component has_control components
    first_components later_components split split_from ends_with starts_with strip_prefix list_beq
    all any write_branch branch_path stat get replace create_dir_all parent create_dir create_dirs
    sys_call insert remove write rename with_extension_tmp file_stem rsplit_dot to_hex
    fs_put_with_policy hash path_for scan_with pattern_hits patterns entropy_hits is_base64ish
    write_at filter SortedMap.get SortedMap.insert text_compare shard blob_hash commit_hash
    tree_hash tree_insert bump count_bytes maybe_emit_entropy_hit scan_impl shannon_entropy
    sum_entropy scan_object stage_and_commit_with_now stage stage_inputs stage_blob_tree
    stage_optional_blob stage_entries on_disk put commit_of tree_of tree_address payload_address
commit_fails = refl

commit-Committed_example :
    Committed codec repository laws whole_disk hex refs apart main inputs 7 committed outputs
commit-Committed_example =
    commit-Committed codec repository laws whole_disk hex refs apart main inputs 7 empty_disk
      outputs commit_works

commit_failed_example :
    content (commit_at failing).1 (branch_file refs main) ≡ content failing (branch_file refs main)
commit_failed_example =
    commit_failed codec repository laws whole_disk hex refs apart main inputs 7 failing (io other)
      main_valid commit_fails

commit-idempotent_example : outputs ≡ outputs
commit-idempotent_example =
    commit-idempotent codec repository laws whole_disk hex refs apart main inputs 7 empty_disk
      committed outputs outputs commit_works commit_again

abbrev log : List (Hash × Commit)
log = (outputs.commit_hash, commit_of codec inputs 7) ∷ []

log_works : (walk_log repository outputs.commit_hash 5 committed).0 ≡ ok log
unfolding validate_branch_name refuse_name refuse_components refuse_component has_control components
    first_components later_components split split_from ends_with starts_with strip_prefix list_beq
    all any write_branch branch_path stat get replace create_dir_all parent create_dir create_dirs
    sys_call insert remove write rename with_extension_tmp file_stem rsplit_dot to_hex
    fs_put_with_policy hash path_for scan_with pattern_hits patterns entropy_hits is_base64ish
    write_at filter SortedMap.get SortedMap.insert text_compare shard blob_hash commit_hash
    tree_hash tree_insert bump count_bytes maybe_emit_entropy_hit scan_impl shannon_entropy
    sum_entropy scan_object stage_and_commit_with_now stage stage_inputs stage_blob_tree
    stage_optional_blob stage_entries on_disk put commit_of tree_of tree_address payload_address
    walk_log walk_log_from fs_get read_at read decode_checked check_integrity
log_works = refl

walk_log-Chain_example : Chain codec 5 (some outputs.commit_hash) log × (length log ≤ 5)
walk_log-Chain_example =
    walk_log-Chain codec repository laws outputs.commit_hash 5 committed log log_works

-- A store that has one commit, at every address
abbrev constant : Commit → ObjectStore (Unit {0})
constant c = record {
  put_with_policy = λ o policy. pure zeros;
  put_raw = λ kind b. pure zeros;
  get = λ h. pure (Object.commit c);
  get_raw = λ h. pure [];
  has = λ s h. true;
}

abbrev no_change : CommitDiff
no_change = record {
  from = zeros;
  to = ones;
  code_sha = none;
  prompts = none;
  tools = none;
  model = none;
  memory_snapshot = none;
  schema_version = none;
}

diff_works : (diff (constant (commit_of codec inputs 7)) (λ b. b) zeros ones tt).0 ≡ ok no_change
unfolding diff load_commit diff_tree diff_model_blob string_change hash_change option_beq list_beq
    commit_of tree_address hash tree_of tree_insert SortedMap.insert payload_address
diff_works = refl

abbrev ref : Hash → TypedRef
ref h = record { kind = ObjectKind.blob; hash = h }

abbrev before : SortedMap.SortedMap TypedRef
before = (codes "a", ref ones) ∷ (codes "b", ref ones) ∷ []

abbrev after : SortedMap.SortedMap TypedRef
after = (codes "b", ref zeros) ∷ (codes "c", ref ones) ∷ []

diff_entries_lem_example :
    ((m : Text) (h : Hash)
      → In (record { name = m; hash = h }) (diff_entries before after).added
        ↔ ((SortedMap.get before m ≡ none) × (hash_of (SortedMap.get after m) ≡ some h)))
    × ((m : Text) (h : Hash)
        → In (record { name = m; hash = h }) (diff_entries before after).removed
          ↔ ((hash_of (SortedMap.get before m) ≡ some h) × (SortedMap.get after m ≡ none)))
    × ((m : Text) (f t : Hash)
        → In (record { name = m; from = f; to = t }) (diff_entries before after).modified ↔ (
            (hash_of (SortedMap.get before m) ≡ some f)
            × (hash_of (SortedMap.get after m) ≡ some t)
            × (f ≢ t)))
diff_entries_lem_example = diff_entries_lem before after
