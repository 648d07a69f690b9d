-- ===== src/Samples/DaemonRuns.antt =====
-- Runs of the daemon's commits and rollbacks at concrete inputs.
use git_agentic.Common.{
  Option, ◌≡◌, ◌≢◌, refl, true, none, some, [], ◌∷◌, ◌++◌, ok, err, list_beq, all, any, filter,
}
use git_agentic.Common.SortedMap
use git_agentic.Common.Dict.{get, insert, remove}
use git_agentic.Common.Text.{
  Text, codes, split, split_from, ends_with, starts_with, strip_prefix, trim, trim_start, trim_end,
  strip_any, strip_all,
}
use git_agentic.Common.Ordered.{text_compare}
use git_agentic.Fs.{
  Disk, fails, content, stat, create_dir_all, create_dir, create_dirs, sys_call, write, rename,
  read,
}
use git_agentic.Fs.Paths.{FilePath, parent, with_extension_tmp, file_stem, rsplit_dot}
use git_agentic.Fs.Atomic.{replace}
use git_agentic.Core.Hash.{Hash, to_hex, shard}
use git_agentic.Core.Object.{Object, hash, blob_hash, commit_hash, tree_hash, tree_insert}
use git_agentic.Core.Scanner.{
  is_base64ish, bump, count_bytes, maybe_emit_entropy_hit, scan_impl, shannon_entropy, sum_entropy,
  entropy_hits, scan_with, pattern_hits, patterns, empty_allowlist,
}
use git_agentic.Core.Store.{put, fs_put_with_policy, path_for, write_at, scan_object}
use git_agentic.Core.Refs.{
  validate_branch_name, refuse_name, refuse_components, refuse_component, has_control, components,
  first_components, later_components, branch_path, branch_file, head_path, write_branch, read_head,
  parse_head, read_to_string, read_branch, write_head_symbolic,
}
use git_agentic.Core.Staging.{
  on_disk, stage_entries, stage_blob_tree, stage_optional_blob, stage_inputs, stage,
  stage_and_commit_with_now,
}
use git_agentic.Core.Staging.Blobs.{commit_of, tree_of, tree_address, payload_address}
use git_agentic.Core.Staging.OneDisk.{put-apart, put_raw-apart}
use git_agentic.Proto.Messages.{CommitInput, CommitOutput}
use git_agentic.Agenticd.Commit.{
  branch_for, assemble_inputs, collect_tools, snapshot_memory, fingerprint_tools, publish_head,
  commit_phases, execute_with_now,
}
use git_agentic.Agenticd.Commit.Failed.{Aside, execute_failed}
use git_agentic.Agenticd.Commit.Recorded.{Recorded}
use git_agentic.Agenticd.Failure.{Failure, with_context, on_refs}
use git_agentic.Agenticd.Lifecycle.{find_broken, missing_tip, reconcile_refs_on_startup}
use git_agentic.Agenticd.Lifecycle.Tips.{HasTip, reconcile-HasTip}
use git_agentic.Core.Refs.Listing.{
  list_branches, collect_branch_files, collect_entries, branch_of_entry, strip_root, joined,
  heads_dir,
}
use git_agentic.Core.Refs.Walks.{list_branches_ends}
use git_agentic.Fs.Listing.{read_dir, children, symlink_metadata, longest}
use git_agentic.Core.Store.{fs_has}
use git_agentic.Core.Hash.{from_str}
use git_agentic.Fs.{exists}
use git_agentic.Common.Text.{is_utf8, is_utf8_from, utf8_follow}
use git_agentic.Common.{All, List, suc, ◌+◌}
use git_agentic.Samples.HexDigits.{hex}
use git_agentic.Samples.Crates.{crates, codec}
use git_agentic.Samples.StoreRuns.{empty_disk}
use git_agentic.Samples.RefsRuns.{refs, main}
use git_agentic.Samples.Daemon.{outside, daemon}

abbrev pub request : CommitInput
request = record {
  message = codes "first";
  author = none;
  code_sha = none;
  branch = none;
  prompts = (codes "p.md", codes "Be brief.") ∷ [];
  mcp_servers = [];
  model = none;
  no_memory = true;
}

abbrev failing : Disk
failing = record { nodes = []; outcomes = fails ∷ [] }

abbrev pub after_commit : Disk
after_commit = (execute_with_now outside daemon request none 7 empty_disk).1

abbrev pub first_hash : Hash
first_hash =
    hash codec
      (Object.commit (commit_of codec (assemble_inputs request none none none [] none []) 7))

abbrev reported : CommitOutput
reported = record { commit_hash = to_hex hex first_hash; branch = main }

failed_commit : (r : Failure) × ((execute_with_now outside daemon request none 7 failing).0 ≡ err r)
unfolding validate_branch_name refuse_name refuse_components refuse_component has_control components
    first_components later_components split split_from ends_with starts_with strip_prefix list_beq
    all any write_branch branch_path stat get replace create_dir_all parent create_dir create_dirs
    sys_call insert remove write rename with_extension_tmp file_stem rsplit_dot to_hex
    fs_put_with_policy hash path_for scan_with pattern_hits patterns entropy_hits is_base64ish
    write_at filter SortedMap.get SortedMap.insert text_compare shard blob_hash commit_hash
    tree_hash tree_insert bump count_bytes maybe_emit_entropy_hit scan_impl shannon_entropy
    sum_entropy scan_object stage_and_commit_with_now stage stage_inputs stage_blob_tree
    stage_optional_blob stage_entries on_disk put commit_of tree_of tree_address payload_address
    branch_for assemble_inputs collect_tools snapshot_memory fingerprint_tools publish_head
    commit_phases execute_with_now read_head parse_head read_to_string read_branch read
    write_head_symbolic trim trim_start trim_end strip_any strip_all
failed_commit = (_, refl)

aside : {p : FilePath} {c : Text} → codes "objects" ≢ c → Aside daemon (refs.agentic_dir ++ (c ∷ p))
aside ne = record {
  disk-set_disk = λ d e. refl;
  put_aside = λ o policy v. put-apart crates refs empty_allowlist _ _ ne o policy v;
  put_raw_aside = λ kind b v. put_raw-apart crates refs empty_allowlist _ _ ne kind b v;
  snapshot_aside = λ a v e. absurd_memory e;
  fingerprint_aside = λ d v h. h;
}
  where
    absurd_memory : {A B : Type 0} {a : A} → ◌≡◌ {A = Option A} none (some a) → B
    absurd_memory e = cc

objects_ne_head : codes "objects" ≢ codes "HEAD"
objects_ne_head e = cc

objects_ne_refs : codes "objects" ≢ codes "refs"
objects_ne_refs e = cc

execute_failed_example :
    (content (execute_with_now outside daemon request none 7 failing).1 (head_path refs)
      ≡ content failing (head_path refs))
    × ((m : Text)
        → validate_branch_name m ≡ ok tt
        → content (execute_with_now outside daemon request none 7 failing).1 (branch_file refs m)
          ≡ content failing (branch_file refs m))
execute_failed_example =
    execute_failed outside daemon (aside objects_ne_head) (λ m. aside objects_ne_refs) request none
      7 failing failed_commit.0 failed_commit.1

has_heads : exists after_commit (heads_dir refs) ≡ true
unfolding validate_branch_name refuse_name refuse_components refuse_component has_control components
    first_components later_components split split_from ends_with starts_with strip_prefix list_beq
    all any write_branch branch_path stat get replace create_dir_all parent create_dir create_dirs
    sys_call insert remove write rename with_extension_tmp file_stem rsplit_dot to_hex
    fs_put_with_policy hash path_for scan_with pattern_hits patterns entropy_hits is_base64ish
    write_at filter SortedMap.get SortedMap.insert text_compare shard blob_hash commit_hash
    tree_hash tree_insert bump count_bytes maybe_emit_entropy_hit scan_impl shannon_entropy
    sum_entropy scan_object stage_and_commit_with_now stage stage_inputs stage_blob_tree
    stage_optional_blob stage_entries on_disk put commit_of tree_of tree_address payload_address
    branch_for assemble_inputs collect_tools snapshot_memory fingerprint_tools publish_head
    commit_phases execute_with_now read_head parse_head read_to_string read_branch read
    write_head_symbolic trim trim_start trim_end strip_any strip_all
has_heads = refl

list_branches_ends_example :
    list_branches refs (λ t. t) after_commit
    ≡ collect_branch_files
        (λ t. t)
        (heads_dir refs)
        (suc (longest after_commit.nodes) + 5)
        (heads_dir refs)
        after_commit
list_branches_ends_example = list_branches_ends refs (λ t. t) after_commit 5 has_heads

-- Test: the daemon starts again after the commit.
starts : (reconcile_refs_on_startup outside daemon after_commit).0 ≡ ok tt
unfolding validate_branch_name refuse_name refuse_components refuse_component has_control components
    first_components later_components split split_from ends_with starts_with strip_prefix list_beq
    all any write_branch branch_path stat get replace create_dir_all parent create_dir create_dirs
    sys_call insert remove write rename with_extension_tmp file_stem rsplit_dot to_hex
    fs_put_with_policy hash path_for scan_with pattern_hits patterns entropy_hits is_base64ish
    write_at filter SortedMap.get SortedMap.insert text_compare shard blob_hash commit_hash
    tree_hash tree_insert bump count_bytes maybe_emit_entropy_hit scan_impl shannon_entropy
    sum_entropy scan_object stage_and_commit_with_now stage stage_inputs stage_blob_tree
    stage_optional_blob stage_entries on_disk put commit_of tree_of tree_address payload_address
    branch_for assemble_inputs collect_tools snapshot_memory fingerprint_tools publish_head
    commit_phases execute_with_now read_head parse_head read_to_string read_branch read
    write_head_symbolic trim trim_start trim_end strip_any strip_all fs_has find_broken missing_tip
    reconcile_refs_on_startup list_branches collect_branch_files collect_entries branch_of_entry
    strip_root joined read_dir children symlink_metadata longest is_utf8 is_utf8_from utf8_follow
    from_str
starts = refl

reconcile-HasTip_example :
    (branches : List Text) × ((with_context
        (codes "listing branches at startup")
        (on_refs daemon.disk (list_branches daemon.refs outside.lossy))
        after_commit).0
      ≡ ok branches)
    × All (HasTip outside daemon after_commit.nodes) branches
reconcile-HasTip_example = reconcile-HasTip outside daemon (λ d s. refl) after_commit starts
