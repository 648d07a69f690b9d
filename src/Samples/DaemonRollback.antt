-- ===== src/Samples/DaemonRollback.antt =====
-- Runs of the daemon's rollbacks at concrete inputs: to the one commit of a branch, with data loss.
use git_agentic.Common.{
  Option, ◌∙◌, ◌≡◌, refl, true, none, some, [], ok, err, list_beq, all, any, filter, Keeps,
}
use git_agentic.Common.SortedMap
use git_agentic.Common.Dict.{get, insert, remove}
use git_agentic.Common.Decimal.{to_decimal, digits_of, parse_u64, parse_digits, push_digit}
use git_agentic.Common.Text.{
  Text, split, split_from, ends_with, starts_with, strip_prefix, trim, trim_start, trim_end,
  strip_any, strip_all, split_once, is_utf8, is_utf8_from, utf8_follow,
}
use git_agentic.Common.Ordered.{text_compare}
use git_agentic.Fs.{
  Disk, stat, create_dir_all, create_dir, create_dirs, sys_call, write, rename, read,
}
use git_agentic.Fs.Paths.{parent, with_extension_tmp, file_stem, rsplit_dot}
use git_agentic.Fs.Atomic.{replace}
use git_agentic.Core.Approval.{
  generate_token, verify_token, parse_token, check_parts, tag, signing_input,
}
use git_agentic.Core.Hash.{Hash, to_hex, shard, short, from_str}
use git_agentic.Core.Object.{hash, blob_hash, commit_hash, tree_hash, tree_insert}
use git_agentic.Core.Scanner.{
  is_base64ish, bump, count_bytes, maybe_emit_entropy_hit, scan_impl, shannon_entropy, sum_entropy,
  entropy_hits, scan_with, pattern_hits, patterns, empty_allowlist,
}
use git_agentic.Core.Store.{
  put, fs_put_with_policy, fs_get, path_for, write_at, read_at, scan_object, decode_checked,
  check_integrity,
}
use git_agentic.Core.Store.Reads.{get-ReadOnly}
use git_agentic.Core.Staging.OneDisk.{objects_of}
use git_agentic.Core.Refs.{
  validate_branch_name, refuse_name, refuse_components, refuse_component, has_control, components,
  first_components, later_components, branch_path, write_branch, read_head, parse_head,
  read_to_string, read_branch, write_head_symbolic, resolve,
}
use git_agentic.Core.Staging.{
  on_disk, stage_entries, stage_blob_tree, stage_optional_blob, stage_inputs, stage,
  stage_and_commit_with_now,
}
use git_agentic.Core.Staging.Blobs.{commit_of, tree_of, tree_address, payload_address}
use git_agentic.Proto.Messages.{RollbackOutput}
use git_agentic.Agenticd.Commit.{
  branch_for, assemble_inputs, collect_tools, snapshot_memory, fingerprint_tools, publish_head,
  commit_phases, execute_with_now,
}
use git_agentic.Agenticd.Failure.{ApprovalError}
use git_agentic.Agenticd.Rollback.Gate.{
  decide, audit_forced_data_loss, approval_gate, take_chars, token_prefix_for_audit,
}
use git_agentic.Agenticd.Rollback.Loaders.{load_commit}
use git_agentic.Agenticd.Rollback.MemoryPhase.{RollbackArgs, memory_phase}
use git_agentic.Agenticd.Rollback.Phases.{
  resolve_target, validate_target_shape, pass_gate, current_branch, prompts_phase, finish,
  carry_out, execute,
}
use git_agentic.Agenticd.Rollback.Approved.{Approved, execute-Approved}
use git_agentic.Agenticd.Rollback.Unapproved.{Refused, execute_unapproved}
use git_agentic.Agenticd.Rollback.DryRun.{ReadsKeep, dry_run-Keeps}
use git_agentic.Samples.HexDigits.{hex}
use git_agentic.Samples.Crates.{crates, hmac}
use git_agentic.Samples.RefsRuns.{refs, main}
use git_agentic.Samples.DaemonRuns.{after_commit, first_hash}
use git_agentic.Samples.Daemon.{outside, daemon, key}

abbrev args_with : Option Text → RollbackArgs
args_with token = record {
  target = main;
  dry_run = true;
  accept_data_loss = true;
  approval_token = token;
  repo = [];
}

-- A token issued for the commit and the user 1000, at the time 900
abbrev token : Text
token = generate_token hex hmac key (to_hex hex first_hash) 1000 900

-- Tests: what the calls of these runs return.
found_main : (resolve_target outside daemon main after_commit).0 ≡ ok first_hash
unfolding validate_branch_name refuse_name refuse_components refuse_component has_control components
    first_components later_components split split_from ends_with starts_with strip_prefix list_beq
    all any write_branch branch_path stat get replace create_dir_all parent create_dir create_dirs
    sys_call insert remove write rename with_extension_tmp file_stem rsplit_dot to_hex
    fs_put_with_policy hash path_for scan_with pattern_hits patterns entropy_hits is_base64ish
    write_at filter SortedMap.get SortedMap.insert text_compare shard blob_hash commit_hash
    tree_hash tree_insert bump count_bytes maybe_emit_entropy_hit scan_impl shannon_entropy
    sum_entropy scan_object stage_and_commit_with_now stage stage_inputs stage_blob_tree
    stage_optional_blob stage_entries on_disk put commit_of tree_of tree_address payload_address
    branch_for assemble_inputs collect_tools snapshot_memory fingerprint_tools publish_head
    commit_phases execute_with_now read_head parse_head read_to_string read_branch read
    write_head_symbolic trim trim_start trim_end strip_any strip_all resolve read_at fs_get
    decode_checked check_integrity to_decimal digits_of parse_u64 parse_digits push_digit split_once
    verify_token parse_token check_parts tag signing_input generate_token short from_str decide
    audit_forced_data_loss approval_gate take_chars token_prefix_for_audit load_commit
    resolve_target validate_target_shape pass_gate current_branch memory_phase prompts_phase finish
    carry_out execute is_utf8 is_utf8_from utf8_follow
found_main = refl

dry_run_works :
    (out : RollbackOutput) × ((execute outside daemon
        (args_with (some token))
        (some 1000)
        after_commit).0
      ≡ ok out)
unfolding validate_branch_name refuse_name refuse_components refuse_component has_control components
    first_components later_components split split_from ends_with starts_with strip_prefix list_beq
    all any write_branch branch_path stat get replace create_dir_all parent create_dir create_dirs
    sys_call insert remove write rename with_extension_tmp file_stem rsplit_dot to_hex
    fs_put_with_policy hash path_for scan_with pattern_hits patterns entropy_hits is_base64ish
    write_at filter SortedMap.get SortedMap.insert text_compare shard blob_hash commit_hash
    tree_hash tree_insert bump count_bytes maybe_emit_entropy_hit scan_impl shannon_entropy
    sum_entropy scan_object stage_and_commit_with_now stage stage_inputs stage_blob_tree
    stage_optional_blob stage_entries on_disk put commit_of tree_of tree_address payload_address
    branch_for assemble_inputs collect_tools snapshot_memory fingerprint_tools publish_head
    commit_phases execute_with_now read_head parse_head read_to_string read_branch read
    write_head_symbolic trim trim_start trim_end strip_any strip_all resolve read_at fs_get
    decode_checked check_integrity to_decimal digits_of parse_u64 parse_digits push_digit split_once
    verify_token parse_token check_parts tag signing_input generate_token short from_str decide
    audit_forced_data_loss approval_gate take_chars token_prefix_for_audit load_commit
    resolve_target validate_target_shape pass_gate current_branch memory_phase prompts_phase finish
    carry_out execute is_utf8 is_utf8_from utf8_follow
dry_run_works = (_, refl)

no_token :
    decide outside daemon (to_hex hex first_hash) (some 1000) none 1000
    ≡ err ApprovalError.token_required
unfolding decide
no_token = refl

execute-Approved_example :
    (h : Hash) × ((resolve_target outside daemon main after_commit).0 ≡ ok h)
    × Approved outside daemon (to_hex hex h) (some 1000) (some token) 1000
execute-Approved_example =
    execute-Approved outside daemon (args_with (some token)) (some 1000) after_commit
      dry_run_works.0 refl dry_run_works.1

execute_unapproved_example :
    Refused outside daemon
      (args_with none)
      (some 1000)
      after_commit
      (execute outside daemon (args_with none) (some 1000) after_commit)
execute_unapproved_example =
    execute_unapproved outside daemon (args_with none) (some 1000) after_commit refl
      (λ h found a. cc (a.has_token))

-- The files are as a commit left them.
abbrev pub AsCommitted : Disk → Type 0
AsCommitted d = d.nodes ≡ after_commit.nodes

pub as_committed : ReadsKeep outside daemon AsCommitted
as_committed = record {
  same_files = λ s d h e. e ∙ h;
  get_keeps =
      λ h. (get-ReadOnly crates (objects_of refs empty_allowlist) h).keeps after_commit.nodes;
  audit_keeps = λ event s h. h;
  version_keeps = λ a e. no_memory e;
  names_keep = λ a target e. no_memory e;
}
  where
    no_memory : {A B : Type 0} {a : A} → ◌≡◌ {A = Option A} none (some a) → B
    no_memory e = cc

dry_run-Keeps_example :
    Keeps AsCommitted (execute outside daemon (args_with (some token)) (some 1000))
dry_run-Keeps_example =
    dry_run-Keeps outside daemon as_committed (args_with (some token)) (some 1000) refl
