-- ===== src/Samples/Daemon.antt =====
-- A daemon on a disk, with small functions in place of what stands outside it: no memory backend,
-- no server of tools, an audit log that goes nowhere.
use git_agentic.Common.{false, none, some, [], replicate}
use git_agentic.Common.Text.{codes}
use git_agentic.Fs.{Disk}
use git_agentic.Core.Approval.{ApprovalKey}
use git_agentic.Core.Scanner.{empty_allowlist}
use git_agentic.Core.Store.{fs_store}
use git_agentic.Core.Staging.OneDisk.{objects_of, whole_disk}
use git_agentic.Agenticd.Daemon.{Outside, DaemonState}
use git_agentic.Agenticd.Failure.{Formats}
use git_agentic.Agenticd.Server.Dispatch.{Queue}
use git_agentic.Samples.Crates.{crates, codec, hmac}
use git_agentic.Samples.HexDigits.{hex}
use git_agentic.Samples.RefsRuns.{refs}

abbrev pub formats : Formats
formats = record {
  display = λ root. codes "error";
  debug = λ t. t;
  hash_error = λ e. codes "no address";
  to_rfc3339 = λ n. codes "now";
}

abbrev pub outside : Outside Disk
outside = record {
  hex = hex;
  hmac = hmac;
  codec = codec;
  segment_json = record { to_vec = λ s. []; from_slice = λ b. none };
  manifest_json = record { to_vec = λ m. []; from_slice = λ b. none };
  fmt = formats;
  lossy = λ t. t;
  utc_now = λ d. 7;
  unix_seconds = λ d. 1000;
  audit = λ event d. d;
}

abbrev pub key : ApprovalKey
key = record { key = replicate 32 7 }

abbrev pub daemon : DaemonState Disk
daemon = record {
  repo_root = [];
  store = fs_store crates (objects_of refs empty_allowlist);
  refs = refs;
  disk = whole_disk;
  memory = none;
  mcp_servers = [];
  fingerprint_all = λ servers d. ([], d);
  approval_key = some key;
  exempt_entropy_prefixes = [];
}

-- One slot is free, and no one waits.
abbrev pub queue : Queue Disk
queue = record {
  is_cancelled = λ d. false;
  free_slots = λ d. 1;
  set_free_slots = λ n d. d;
  wait_for_lock = λ d. d;
}
