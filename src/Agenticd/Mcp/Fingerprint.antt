-- ===== src/Agenticd/Mcp/Fingerprint.antt =====
-- crates/agenticd/src/mcp.rs: what is made of the answer of a server, under the limits. An answer is
-- what `reqwest` gives: the status, two headers, and the chunks of the body as they come.
use git_agentic.Common.{
  ℕ, ◌+◌, ◌*◌, Bool, false, ◌&&◌, Option, none, some, List, [], ◌∷◌, ◌++◌, Result, ok, err,
  and_then, ok_or, map, map_err, length, take, ltb, leb, if◌then◌else◌,
}
use git_agentic.Common.Decimal.{to_decimal}
use git_agentic.Common.Text.{Text, Bytes, codes}
use git_agentic.External.{Serde}
use git_agentic.Agenticd.Failure.{Failure, anyhow, in_context}
use git_agentic.Agenticd.Daemon.{McpServerSpec, McpFingerprint}
use git_agentic.Agenticd.Mcp.Json.{Json, json_depth, canonicalize}

pub record HttpReply : Type 0 where
  pub status : ℕ
  pub shown_status : Text
  pub location : Option Text
  pub content_length : Option ℕ
  pub chunks : List (Result Failure Bytes)

pub record JsonRpcError : Type 0 where
  pub code : Text
  pub message : Text

pub record JsonRpcResponse : Type 0 where
  pub result : Option Json
  pub error : Option JsonRpcError

pub record McpLimits : Type 0 where
  pub max_response_bytes : ℕ
  pub max_json_depth : ℕ
  pub max_manifest_bytes : ℕ

abbrev pub default_limits : McpLimits
default_limits = record {
  max_response_bytes = 1024 * 1024;
  max_json_depth = 32;
  max_manifest_bytes = 1024 * 1024;
}

abbrev pub error_body_excerpt_bytes : ℕ
error_body_excerpt_bytes = 512

abbrev pub server_says : Text → Text → Failure
server_says server text = anyhow (codes "MCP server " ++ (server ++ (codes " " ++ text)))

-- The loop over the chunks, with what is downloaded
unfoldable pub read_chunks : ℕ → Text → Bytes → List (Result Failure Bytes) → Result Failure Bytes
read_chunks cap server buf [] = ok buf
read_chunks cap server buf (err f ∷ chunks) = err f
read_chunks cap server buf (ok chunk ∷ chunks) =
    let rest = read_chunks cap server (buf ++ chunk) chunks in
    if ltb cap (length buf + length chunk)
    then err (
        server_says server (
          codes "response exceeded the "
          ++ (to_decimal cap ++ codes "-byte limit mid-stream; aborting download")))
    else rest

abbrev pub declared_over : ℕ → Option ℕ → Bool
declared_over cap none = false
declared_over cap (some n) = ltb cap n

abbrev pub declared : Option ℕ → ℕ
declared none = 0
declared (some n) = n

unfoldable pub read_body_capped : HttpReply → ℕ → Text → Result Failure Bytes
unfolding read_chunks
read_body_capped resp cap server =
    if declared_over cap resp.content_length
    then err (
        server_says server (
          codes "declared a "
          ++ (to_decimal (declared resp.content_length)
              ++ (codes "-byte response (limit "
                  ++ (to_decimal cap ++ codes "); refusing to download it")))))
    else read_chunks cap server [] resp.chunks

abbrev pub or_none : Option Text → Text
or_none none = codes "<none>"
or_none (some t) = t

-- `debug` and `lossy` are `Debug` of a text and `String::from_utf8_lossy`, `rpc` reads a reply.
module _ (debug lossy : Bytes → Text) (rpc : Bytes → Result Failure JsonRpcResponse)
    (json : Serde Json) where
  abbrev pub is_redirection : ℕ → Bool
  is_redirection status = leb 300 status && ltb status 400

  abbrev pub is_success : ℕ → Bool
  is_success status = leb 200 status && ltb status 300

  unfoldable pub refuse_redirect : McpServerSpec → HttpReply → Result Failure (Unit {0})
  refuse_redirect spec resp =
      if is_redirection resp.status
      then err (
          server_says spec.name (
            codes "returned redirect HTTP "
            ++ (resp.shown_status
                ++ (codes " to "
                    ++ (debug (or_none resp.location)
                        ++ codes
                            "; refusing to follow it (redirects are disabled per ADR-0016). Point --mcp at the final URL.")))))
      else ok tt

  unfoldable pub require_success : McpServerSpec → HttpReply → Bytes → Result Failure (Unit {0})
  require_success spec resp bytes =
      if is_success resp.status
      then ok tt
      else err (
          server_says spec.name (
            codes "returned HTTP "
            ++ (resp.shown_status ++ (codes ": " ++ lossy (take error_body_excerpt_bytes bytes)))))

  abbrev pub result_or : McpServerSpec → JsonRpcResponse → Result Failure Json
  result_or spec r = elim r.error [
    | some e ↦ err (
        server_says spec.name
          (codes "returned JSON-RPC error " ++ (e.code ++ (codes ": " ++ e.message))))
    | none ↦
        ok_or r.result
          (server_says spec.name (codes "returned JSON-RPC reply with neither result nor error"))
  ]

  unfoldable pub rpc_result : McpServerSpec → Bytes → Result Failure Json
  rpc_result spec bytes =
      and_then
        (map_err (in_context (codes "decoding JSON-RPC reply from " ++ spec.url)) (rpc bytes))
        (result_or spec)

  unfoldable pub check_depth : McpServerSpec → McpLimits → Json → Result Failure (Unit {0})
  check_depth spec limits v =
      if ltb limits.max_json_depth (json_depth v)
      then err (
          server_says spec.name (
            codes "tools/list result nests "
            ++ (to_decimal (json_depth v)
                ++ (codes " levels deep (limit "
                    ++ (to_decimal limits.max_json_depth
                        ++ codes "); refusing to canonicalise it")))))
      else ok tt

  unfoldable pub check_size : McpServerSpec → McpLimits → Bytes → Result Failure (Unit {0})
  check_size spec limits manifest =
      if ltb limits.max_manifest_bytes (length manifest)
      then err (
          server_says spec.name (
            codes "tools/list manifest is "
            ++ (to_decimal (length manifest)
                ++ (codes " bytes canonicalised (limit "
                    ++ (to_decimal limits.max_manifest_bytes
                        ++ codes "); refusing to persist it")))))
      else ok tt

  -- `sent` is what the request brings.
  unfoldable pub fingerprint_one_with_limits :
      Result Failure HttpReply → McpServerSpec → McpLimits → Result Failure McpFingerprint
  unfolding read_body_capped refuse_redirect require_success rpc_result check_depth check_size
      canonicalize
  fingerprint_one_with_limits sent spec limits =
      and_then (map_err (in_context (codes "POST " ++ spec.url)) sent) λ resp.
        and_then (refuse_redirect spec resp) λ _.
          and_then (read_body_capped resp limits.max_response_bytes spec.name) λ bytes.
            and_then (require_success spec resp bytes) λ _.
              and_then (rpc_result spec bytes) λ result.
                and_then (check_depth spec limits result) λ _.
                  and_then (check_size spec limits (canonicalize json result)) λ _. ok (record {
                    name = spec.name;
                    url = spec.url;
                    canonical_manifest = canonicalize json result;
                  })

  abbrev pub fingerprint_one :
      Result Failure HttpReply → McpServerSpec → Result Failure McpFingerprint
  fingerprint_one sent spec = fingerprint_one_with_limits sent spec default_limits

  -- The answers come back in the order of the servers, whichever is first.
  unfoldable pub fingerprint_all :
      (McpServerSpec → Result Failure HttpReply)
      → List McpServerSpec
      → List (Result Failure McpFingerprint)
  fingerprint_all post servers = map (λ spec. fingerprint_one (post spec) spec) servers
