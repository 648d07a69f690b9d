-- ===== src/Samples/McpRuns.antt =====
-- Runs of the fingerprints of servers, and of the flags that name them, at concrete inputs.
use git_agentic.Common.{
  ◌≡◌, ◌≢◌, refl, Option, none, some, List, [], ◌∷◌, Result, ok, All, any, list_beq,
}
use git_agentic.Common.SortedMap
use git_agentic.Common.SortedMap.{SortedMap}
use git_agentic.Common.Text.{
  Text, Bytes, codes, split_once, trim, trim_start, trim_end, strip_any, strip_all, strip_prefix,
}
use git_agentic.External.{Serde}
use git_agentic.Fs.{Disk}
use git_agentic.Agenticd.Commit.{collect_tools, fingerprint_tools}
use git_agentic.Agenticd.Commit.Tools.{Attributed, fingerprint_tools-Attributed}
use git_agentic.Agenticd.Daemon.{DaemonState, McpServerSpec, McpFingerprint}
use git_agentic.Agenticd.Failure.{Failure}
use git_agentic.Agenticd.Mcp.Json.{
  Json, Items, no_item, item, Fields, no_field, field, number, array, object, json_depth, sort_keys,
  canonicalize,
}
use git_agentic.Agenticd.Mcp.Canonical.{
  in_array, in_object, each, same_items, swapped, canonicalize-Reordered,
}
use git_agentic.Agenticd.Mcp.Fingerprint.{
  HttpReply, JsonRpcResponse, default_limits, read_chunks, read_body_capped, refuse_redirect,
  require_success, rpc_result, check_depth, check_size, fingerprint_one_with_limits,
}
use git_agentic.Agenticd.Mcp.Caps.{Within, fingerprint-Within}
use git_agentic.Agenticd.Mcp.Urls.{
  Url, domain, host_is_loopback, validate_mcp_url, parse_mcp_item, parse_mcp_spec,
}
use git_agentic.Agenticd.Mcp.Policy.{Askable, parse_mcp_spec-Askable}
use git_agentic.Agenticd.Startup.{first_duplicate}
use git_agentic.Samples.StoreRuns.{b_ne_a, empty_disk}
use git_agentic.Samples.Daemon.{outside, daemon}

-- The JSON of a value: that of its first number
mutual
  first_number : Json → Bytes
  first_number (number n) = n
  first_number (array xs) = first_item xs
  first_number (object fs) = first_field fs
  first_number _ = []

  first_item : Items → Bytes
  first_item no_item = []
  first_item (item v xs) = first_number v

  first_field : Fields → Bytes
  first_field no_field = []
  first_field (field k v fs) = first_number v

abbrev json : Serde Json
json = record { to_vec = λ v. first_number v; from_slice = λ b. some (number b) }

abbrev b_then_a : Json
b_then_a = array (
    item
      (object
        (field (codes "b") (number (codes "1")) (field (codes "a") (number (codes "2")) no_field)))
      no_item)

abbrev a_then_b : Json
a_then_b = array (
    item
      (object
        (field (codes "a") (number (codes "2")) (field (codes "b") (number (codes "1")) no_field)))
      no_item)

canonicalize-Reordered_example : canonicalize json b_then_a ≡ canonicalize json a_then_b
canonicalize-Reordered_example =
    canonicalize-Reordered json (in_array (each (in_object (swapped b_ne_a)) same_items))

abbrev spec : McpServerSpec
spec = record { name = codes "files"; url = codes "https://files" }

abbrev answer : Result Failure HttpReply
answer = ok (record {
  status = 200;
  shown_status = codes "200 OK";
  location = none;
  content_length = none;
  chunks = ok (codes "[") ∷ ok (codes "]") ∷ [];
})

-- Every body is a reply with the same result.
abbrev rpc : Bytes → Result Failure JsonRpcResponse
rpc b = ok (record { result = some (number (codes "7")); error = none })

abbrev files : McpFingerprint
files = record { name = codes "files"; url = codes "https://files"; canonical_manifest = codes "7" }

-- Test: the answer is recorded.
recorded :
    fingerprint_one_with_limits (λ t. t) (λ t. t) rpc json answer spec default_limits ≡ ok files
unfolding fingerprint_one_with_limits read_body_capped read_chunks refuse_redirect require_success
    rpc_result check_depth check_size canonicalize json_depth sort_keys first_number
recorded = refl

fingerprint-Within_example : Within (λ t. t) (λ t. t) rpc json answer default_limits files
fingerprint-Within_example =
    fingerprint-Within (λ t. t) (λ t. t) rpc json answer spec default_limits files recorded

-- Every URL is read as one of this host.
abbrev parse : Text → Option Url
parse t =
    some
      (record { scheme = codes "http"; host = some (domain (codes "LocalHost")); host_str = none })

abbrev flags : List Text
flags = codes "files= http://LocalHost/" ∷ []

abbrev named : List McpServerSpec
named = record { name = codes "files"; url = codes "http://LocalHost/" } ∷ []

-- Test: the flag is read.
flags_read : parse_mcp_spec parse flags ≡ ok named
unfolding parse_mcp_spec parse_mcp_item validate_mcp_url host_is_loopback split_once trim trim_start
    trim_end strip_any strip_all strip_prefix list_beq
flags_read = refl

parse_mcp_spec-Askable_example : All (Askable parse) named
parse_mcp_spec-Askable_example = parse_mcp_spec-Askable parse flags named flags_read

abbrev asking : DaemonState Disk
asking = record daemon {
  mcp_servers = spec ∷ [];
  fingerprint_all = λ servers d. (ok files ∷ [], d);
}

some_server : ◌≢◌ {A = List McpServerSpec} (spec ∷ []) []
some_server e = cc

-- Tests: the one server has its own name, and its tools are taken.
no_duplicate : first_duplicate [] (spec ∷ []) ≡ none
unfolding first_duplicate any
no_duplicate = refl

tools_taken : (fingerprint_tools outside asking empty_disk).0 ≡ ok ((codes "files", codes "7") ∷ [])
unfolding fingerprint_tools collect_tools SortedMap.insert
tools_taken = refl

fingerprint_tools-Attributed_example :
    Attributed ((codes "files", codes "7") ∷ []) (spec ∷ []) (ok files ∷ [])
fingerprint_tools-Attributed_example =
    fingerprint_tools-Attributed outside asking empty_disk ((codes "files", codes "7") ∷ [])
      no_duplicate some_server tools_taken
