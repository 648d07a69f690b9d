-- ===== src/Samples/ServerRuns.antt =====
-- Runs of the daemon's server at concrete inputs.
use git_agentic.Agenticd.Commit.{
  assemble_inputs, branch_for, collect_tools, commit_phases, execute_with_now, fingerprint_tools,
  publish_head, snapshot_memory,
}
use git_agentic.Agenticd.Failure.{Failure, Root, full_text}
use git_agentic.Agenticd.Limits.{Clock, default_config, new_limiter}
use git_agentic.Agenticd.Rollback.Gate.{
  approval_gate, audit_forced_data_loss, decide, take_chars, token_prefix_for_audit,
}
use git_agentic.Agenticd.Rollback.Loaders.{load_commit}
use git_agentic.Agenticd.Rollback.MemoryPhase.{memory_phase}
use git_agentic.Agenticd.Rollback.Phases.{
  carry_out, current_branch, execute, finish, pass_gate, prompts_phase, resolve_target,
  validate_target_shape,
}
use git_agentic.Agenticd.Server.Connection.{Incoming, Rate, handle_connection}
use git_agentic.Agenticd.Server.Dispatch.{
  dispatch, read_object, canonical, object_reply, Queue, shutting_down, queue_full, rollback_args,
}
use git_agentic.Agenticd.Server.Envelopes.{EnvelopeJson, VersionField, parse_envelope}
use git_agentic.Agenticd.Server.Order.{InOrder, replies-InOrder}
use git_agentic.Agenticd.Server.ReadBack.{read_object_checks}
use git_agentic.Agenticd.Server.Refusals.{IsWrite, Refusing, QueueKeeps, dispatch_idle}
use git_agentic.Agenticd.Server.TurnedAway.{
  TurnedAway, v0_never_rolls_back, insecure_never_rolls_back,
}
use git_agentic.Agenticd.PeerAuth.{insecure_allow_any, attestation_for}
use git_agentic.Samples.DaemonRollback.{AsCommitted, as_committed}
use git_agentic.Agenticd.Server.Versions.{IsRequest, parse_envelope_iff}
use git_agentic.Agenticd.WireError.{map_anyhow_to_response_error}
use git_agentic.Agenticd.WireError.Contract.{KeepsPromise, lasts, map-KeepsPromise}
use git_agentic.Common.{
  List, [], all, any, err, false, filter, if◌then◌else◌, list_beq, ltb, none, ok, refl, some, true,
  ℕ, ◌*◌, ◌+◌, ◌-◌, ◌↔◌, ◌∷◌, ◌≡◌, ◌⊎◌,
}
use git_agentic.Common.Decimal.{digits_of, parse_digits, parse_u64, push_digit, to_decimal}
use git_agentic.Common.Dict.{get, insert, remove}
use git_agentic.Common.Ordered.{text_compare}
use git_agentic.Common.SortedMap
use git_agentic.Common.Text.{
  Bytes, codes, ends_with, is_utf8, is_utf8_from, split, split_from, split_once, starts_with,
  strip_all, strip_any, strip_prefix, trim, trim_end, trim_start, utf8_follow,
}
use git_agentic.Core.Approval.{
  check_parts, generate_token, parse_token, signing_input, tag, verify_token,
}
use git_agentic.Core.Error.{Error as CoreError}
use git_agentic.Core.Hash.{from_str, of, shard, short, to_hex}
use git_agentic.Core.Object.{blob_hash, commit_hash, hash, tree_hash, tree_insert}
use git_agentic.Core.Refs.{
  branch_path, components, first_components, has_control, later_components, parse_head, read_branch,
  read_head, read_to_string, refuse_component, refuse_components, refuse_name, resolve,
  validate_branch_name, write_branch, write_head_symbolic,
}
use git_agentic.Core.Scanner.{
  bump, count_bytes, entropy_hits, is_base64ish, maybe_emit_entropy_hit, pattern_hits, patterns,
  scan_impl, scan_with, shannon_entropy, sum_entropy,
}
use git_agentic.Core.Staging.{
  on_disk, stage, stage_and_commit_with_now, stage_blob_tree, stage_entries, stage_inputs,
  stage_optional_blob,
}
use git_agentic.Core.Staging.Blobs.{commit_of, payload_address, tree_address, tree_of}
use git_agentic.Core.Store.{
  check_integrity, decode_checked, fs_get, fs_put_with_policy, path_for, put, read_at, scan_object,
  write_at,
}
use git_agentic.Fs.{
  Disk, create_dir, create_dir_all, create_dirs, read, rename, stat, sys_call, write,
}
use git_agentic.Fs.Atomic.{replace}
use git_agentic.Fs.Paths.{file_stem, parent, rsplit_dot, with_extension_tmp}
use git_agentic.Proto.Messages.{Request, RequestV0, Response, request_of_v0}
use git_agentic.Samples.CommitRuns.{laws}
use git_agentic.Samples.Crates.{codec}
use git_agentic.Samples.Daemon.{daemon, formats, outside, queue}
use git_agentic.Samples.DaemonRuns.{after_commit, first_hash, request}
use git_agentic.Samples.HexDigits.{hex}

abbrev not_here : Failure
not_here = record {
  contexts = codes "reading object" ∷ [];
  root = Root.core (CoreError.not_found first_hash);
}

map-KeepsPromise_example :
    KeepsPromise
      (lasts not_here.root)
      (full_text formats not_here)
      (map_anyhow_to_response_error formats not_here)
map-KeepsPromise_example = map-KeepsPromise formats not_here

-- Frames of one byte: the id, with version 1 and a request for the log, or with neither; an empty
-- frame has no id.
abbrev json : EnvelopeJson
json = record {
  correlation_id = λ b. elim b [ [] ↦ ok none | c ∷ _ ↦ ok (some (c ∷ [])) ];
  version =
      λ b. elim b [ [] ↦ VersionField.absent | c ∷ _ ↦ VersionField.number (some c) (codes "n") ];
  payload_v0 = λ b. err (codes "no payload");
  payload = λ b. ok (Request.log 1);
}

parse_envelope_iff_example : (parse_envelope json (1 ∷ []) ≡ ok (1 ∷ [], Request.log 1)) ↔ (
    (json.correlation_id (1 ∷ []) ≡ ok (some (1 ∷ []))) × IsRequest json (1 ∷ []) (Request.log 1))
parse_envelope_iff_example = parse_envelope_iff json (1 ∷ []) (1 ∷ []) (Request.log 1)

-- The signal to shut down has come.
abbrev stopping : Queue Disk
stopping = record queue { is_cancelled = λ d. true }

stopping_keeps : QueueKeeps stopping AsCommitted
stopping_keeps = record { slots_keep = λ n d h. h; wait_keeps = λ d h. h }

dispatch_idle_example :
    AsCommitted (dispatch outside daemon stopping (Request.commit request) none after_commit).1
    × (IsWrite (Request.commit request)
        → ((dispatch outside daemon stopping (Request.commit request) none after_commit).0
            ≡ err shutting_down)
          ⊎ ((dispatch outside daemon stopping (Request.commit request) none after_commit).0
              ≡ ok queue_full))
dispatch_idle_example =
    dispatch_idle outside daemon as_committed stopping stopping_keeps (Request.commit request) none
      after_commit refl (λ w. Refusing.stopped refl)

v0_never_rolls_back_example :
    TurnedAway queue outside daemon
      (rollback_args outside daemon (codes "main") false true none)
      (some 1000)
      after_commit
      (dispatch outside daemon queue
        (request_of_v0 (RequestV0.rollback (codes "main") false true))
        (some 1000)
        after_commit)
v0_never_rolls_back_example =
    v0_never_rolls_back queue outside daemon (codes "main") false (some 1000) after_commit

insecure_never_rolls_back_example :
    TurnedAway queue outside daemon
      (rollback_args outside daemon (codes "main") false true (some (codes "1:ab")))
      (attestation_for insecure_allow_any 1000)
      after_commit
      (dispatch outside daemon queue
        (Request.rollback (codes "main") false true (some (codes "1:ab")))
        (attestation_for insecure_allow_any 1000)
        after_commit)
insecure_never_rolls_back_example =
    insecure_never_rolls_back queue outside daemon (codes "main") false (some (codes "1:ab")) 1000
      after_commit

abbrev stored_bytes : Bytes
stored_bytes =
    codec.commit_json.to_vec (commit_of codec (assemble_inputs request none none none [] none []) 7)

object_sent :
    (dispatch outside daemon queue
      (Request.read_object (to_hex hex first_hash))
      none
      after_commit).0
    ≡ ok (Response.object_data (to_hex hex first_hash) (codes "commit") stored_bytes)
unfolding validate_branch_name refuse_name refuse_components refuse_component has_control components
    first_components later_components split split_from ends_with starts_with strip_prefix list_beq
    all any write_branch branch_path stat get replace create_dir_all parent create_dir create_dirs
    sys_call insert remove write rename with_extension_tmp file_stem rsplit_dot to_hex
    fs_put_with_policy hash path_for scan_with pattern_hits patterns entropy_hits is_base64ish
    write_at filter SortedMap.get SortedMap.insert text_compare shard blob_hash commit_hash
    tree_hash tree_insert bump count_bytes maybe_emit_entropy_hit scan_impl shannon_entropy
    sum_entropy scan_object stage_and_commit_with_now stage stage_inputs stage_blob_tree
    stage_optional_blob stage_entries on_disk put commit_of tree_of tree_address payload_address
    branch_for assemble_inputs collect_tools snapshot_memory fingerprint_tools publish_head
    commit_phases execute_with_now read_head parse_head read_to_string read_branch read
    write_head_symbolic trim trim_start trim_end strip_any strip_all resolve read_at fs_get
    decode_checked check_integrity to_decimal digits_of parse_u64 parse_digits push_digit split_once
    verify_token parse_token check_parts tag signing_input generate_token short from_str decide
    audit_forced_data_loss approval_gate take_chars token_prefix_for_audit load_commit
    resolve_target validate_target_shape pass_gate current_branch memory_phase prompts_phase finish
    carry_out execute is_utf8 is_utf8_from utf8_follow dispatch read_object canonical object_reply
object_sent = refl

read_object_checks_example :
    (from_str hex (to_hex hex first_hash) ≡ ok (of codec.blake3 stored_bytes))
    × (to_hex hex first_hash ≡ to_hex hex (of codec.blake3 stored_bytes))
read_object_checks_example =
    read_object_checks outside daemon laws queue (to_hex hex first_hash) none after_commit
      (to_hex hex first_hash) (codes "commit") stored_bytes object_sent

-- Whole seconds
abbrev clock : Clock
clock = record {
  F64 = ℕ;
  Instant = ℕ;
  of_ℕ = λ n. n;
  add = λ a b. a + b;
  sub = λ a b. a - b;
  mul = λ a b. a * b;
  min = λ a b. if ltb a b then a else b;
  le = λ a b. if ltb b a then false else true;
  saturating_seconds_since = λ a b. a - b;
}

-- A daemon that forgets how often it was asked
abbrev rate : Rate clock Disk
rate = record { limiter = λ d. new_limiter clock 200; set_limiter = λ r d. d; instant = λ d. 0 }

abbrev incoming : List Incoming
incoming = Incoming.frame (1 ∷ []) ∷ Incoming.frame (2 ∷ []) ∷ Incoming.closed ∷ []

replies-InOrder_example :
    InOrder json incoming
      (handle_connection clock outside daemon queue rate json default_config 1000 none incoming []
        after_commit).replies
replies-InOrder_example =
    replies-InOrder clock outside daemon queue rate json default_config 1000 none incoming []
      after_commit
