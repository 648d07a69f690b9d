-- ===== src/Agenticd/Mcp/Caps.antt =====
-- What a fingerprint that is recorded has passed.
use git_agentic.Common.{
  ℕ, ◌+◌, ◌≤◌, ◌≡◌, refl, sym, ◌∙◌, Bool, true, false, Option, none, some, List, [], ◌∷◌, ◌++◌,
  Result, ok, err, and_then-eq-ok, map_err, map_err-eq-ok, length, length-append, ltb, arith,
  if◌then◌else◌,
}
use mathlib.Core.List.{append_assoc, append-nil}
use git_agentic.Common.Text.{Text, Bytes}
use git_agentic.External.{Serde}
use git_agentic.Agenticd.Failure.{Failure}
use git_agentic.Agenticd.Daemon.{McpServerSpec, McpFingerprint}
use git_agentic.Agenticd.Mcp.Json.{Json, json_depth, canonicalize}
use git_agentic.Agenticd.Mcp.Fingerprint.{
  HttpReply, JsonRpcResponse, JsonRpcError, McpLimits, read_chunks, read_body_capped, declared_over,
  refuse_redirect, require_success, rpc_result, result_or, check_depth, check_size,
  fingerprint_one_with_limits, is_redirection, is_success,
}

-- A body is what its chunks hold, one after the other, and none of them was an error.
pub data Arrived : List (Result Failure Bytes) → Bytes → Type 0 where
  ended : Arrived [] []
  chunk :
      {c : Bytes} {chunks : List (Result Failure Bytes)} {body : Bytes}
      → Arrived chunks body
      → Arrived (ok c ∷ chunks) (c ++ body)

-- The loop over the chunks returns what it had and what arrived, within the cap.
record Downloaded (limit : ℕ) (buf : Bytes) (chunks : List (Result Failure Bytes)) (b : Bytes)
    : Type 0 where
  body : Bytes
  arrived : Arrived chunks body
  whole : b ≡ buf ++ body
  within : length b ≤ limit

more-Downloaded :
    (limit : ℕ) (buf c : Bytes) (chunks : List (Result Failure Bytes)) (b : Bytes)
    → Downloaded limit (buf ++ c) chunks b
    → Downloaded limit buf (ok c ∷ chunks) b
more-Downloaded limit buf c chunks b d = record {
  body = c ++ d.body;
  arrived = chunk d.arrived;
  whole = d.whole ∙ append_assoc buf c d.body;
  within = d.within;
}

read_chunks-Downloaded :
    (limit : ℕ) (server : Text) (buf : Bytes) (chunks : List (Result Failure Bytes)) (b : Bytes)
    → length buf ≤ limit
    → read_chunks limit server buf chunks ≡ ok b
    → Downloaded limit buf chunks b
unfolding read_chunks
read_chunks-Downloaded limit server buf [] b h e =
    let same : b ≡ buf = cc e in
    record { body = []; arrived = ended; whole = same ∙ sym (append-nil buf); within = rw same h }
read_chunks-Downloaded limit server buf (err f ∷ chunks) b h e = cc
read_chunks-Downloaded limit server buf (ok c ∷ chunks) b h e =
    go (ltb limit (length buf + length c)) _ refl e
      (read_chunks-Downloaded limit server (buf ++ c) chunks b)
  where
    go :
        (over : Bool) (f : Failure)
        → ltb limit (length buf + length c) ≡ over
        → (if over then err f else read_chunks limit server (buf ++ c) chunks) ≡ ok b
        → (length (buf ++ c) ≤ limit
            → read_chunks limit server (buf ++ c) chunks ≡ ok b
            → Downloaded limit (buf ++ c) chunks b)
        → Downloaded limit buf (ok c ∷ chunks) b
    go true f o e ih = cc
    go false f o e ih =
        more-Downloaded limit buf c chunks b (ih (rw (length-append buf c) (ground arith)) e)

module _ (debug lossy : Bytes → Text) (rpc : Bytes → Result Failure JsonRpcResponse)
    (json : Serde Json) where
  -- What was recorded of an answer
  pub record Within (sent : Result Failure HttpReply) (limits : McpLimits) (fp : McpFingerprint)
      : Type 0 where
    pub reply : HttpReply
    pub body : Bytes
    pub response : JsonRpcResponse
    pub result : Json
    pub answered : sent ≡ ok reply
    pub not_redirected : is_redirection debug lossy rpc json reply.status ≡ false
    pub succeeded : is_success debug lossy rpc json reply.status ≡ true
    pub arrived : Arrived reply.chunks body
    pub body_le : length body ≤ limits.max_response_bytes
    pub read : rpc body ≡ ok response
    pub no_error : response.error ≡ none
    pub has_result : response.result ≡ some result
    pub depth_le : json_depth result ≤ limits.max_json_depth
    pub manifest : fp.canonical_manifest ≡ canonicalize json result
    pub manifest_le : length fp.canonical_manifest ≤ limits.max_manifest_bytes

  body_of :
      (reply : HttpReply) (limit : ℕ) (server : Text) (b : Bytes)
      → read_body_capped reply limit server ≡ ok b
      → Downloaded limit [] reply.chunks b
  unfolding read_body_capped
  body_of reply limit server b e = go (declared_over limit reply.content_length) _ e
    where
      go :
          (over : Bool) (f : Failure)
          → (if over then err f else read_chunks limit server [] reply.chunks) ≡ ok b
          → Downloaded limit [] reply.chunks b
      go true f e = cc
      go false f e = read_chunks-Downloaded limit server [] reply.chunks b (omega arith) e

  result_of :
      (spec : McpServerSpec) (r : JsonRpcResponse) (v : Json)
      → result_or debug lossy rpc json spec r ≡ ok v
      → (r.error ≡ none) × (r.result ≡ some v)
  result_of spec r v e = go r.error refl r.result refl
    where
      go :
          (x : Option JsonRpcError)
          → r.error ≡ x
          → (y : Option Json) → r.result ≡ y
          → (r.error ≡ none) × (r.result ≡ some v)
      go none ex none ey = cc (rw (ex, ey) at e)
      go none ex (some w) ey = (ex, ground arith)
      go (some f) ex y ey = cc (rw ex at e)

  unless :
      (b : Bool) (f : Failure) {u : Unit {0}}
      → ◌≡◌ {A = Result Failure (Unit {0})} (if b then err f else ok tt) (ok u)
      → b ≡ false
  unless true f e = cc
  unless false f e = refl

  when :
      (b : Bool) (f : Failure) {u : Unit {0}}
      → ◌≡◌ {A = Result Failure (Unit {0})} (if b then ok tt else err f) (ok u)
      → b ≡ true
  when true f e = refl
  when false f e = cc

  not_redirect :
      (spec : McpServerSpec) (reply : HttpReply) {u : Unit {0}}
      → refuse_redirect debug lossy rpc json spec reply ≡ ok u
      → is_redirection debug lossy rpc json reply.status ≡ false
  unfolding refuse_redirect
  not_redirect spec reply e = unless _ _ e

  success :
      (spec : McpServerSpec) (reply : HttpReply) (b : Bytes) {u : Unit {0}}
      → require_success debug lossy rpc json spec reply b ≡ ok u
      → is_success debug lossy rpc json reply.status ≡ true
  unfolding require_success
  success spec reply b e = when _ _ e

  le_of_ltb : (a b : ℕ) → ltb a b ≡ false → b ≤ a
  le_of_ltb a b e = ground arith

  depth_within :
      (spec : McpServerSpec) (limits : McpLimits) (v : Json) {u : Unit {0}}
      → check_depth debug lossy rpc json spec limits v ≡ ok u
      → json_depth v ≤ limits.max_json_depth
  unfolding check_depth
  depth_within spec limits v e = le_of_ltb _ _ (unless _ _ e)

  size_within :
      (spec : McpServerSpec) (limits : McpLimits) (b : Bytes) {u : Unit {0}}
      → check_size debug lossy rpc json spec limits b ≡ ok u
      → length b ≤ limits.max_manifest_bytes
  unfolding check_size
  size_within spec limits b e = le_of_ltb _ _ (unless _ _ e)

  -- What a reply was read as
  decoded :
      (spec : McpServerSpec) (b : Bytes) (v : Json)
      → rpc_result debug lossy rpc json spec b ≡ ok v
      → (r : JsonRpcResponse) × (rpc b ≡ ok r) × (r.error ≡ none) × (r.result ≡ some v)
  unfolding rpc_result
  decoded spec b v e =
      let (r, read, chosen) =
        and_then-eq-ok (map_err _ (rpc b)) (result_or debug lossy rpc json spec) e in
      let (no_error, has_result) = result_of spec r v chosen in
      (r, map_err-eq-ok _ (rpc b) read, no_error, has_result)

  -- The limits hold for whatever is recorded of a server: a fingerprint is made only of an answer
  -- that is no redirect and reports success, whose body came whole and within its cap, and is a reply
  -- with a result and no error; the result nests no deeper than the limit, and the manifest is its
  -- canonical bytes, no more of them than the limit.
  pub fingerprint-Within :
      (sent : Result Failure HttpReply) (spec : McpServerSpec) (limits : McpLimits)
      (fp : McpFingerprint)
      → fingerprint_one_with_limits debug lossy rpc json sent spec limits ≡ ok fp
      → Within sent limits fp
  unfolding fingerprint_one_with_limits
  fingerprint-Within sent spec limits fp e =
      let (reply, answered, e1) = and_then-eq-ok (map_err _ sent) _ e in
      let (_, plain, e2) = and_then-eq-ok (refuse_redirect debug lossy rpc json spec reply) _ e1 in
      let (body, came, e3) =
        and_then-eq-ok (read_body_capped reply limits.max_response_bytes spec.name) _ e2 in
      let (_, good, e4) =
        and_then-eq-ok (require_success debug lossy rpc json spec reply body) _ e3 in
      let (result, decodes, e5) = and_then-eq-ok (rpc_result debug lossy rpc json spec body) _ e4 in
      let (_, flat, e6) =
        and_then-eq-ok (check_depth debug lossy rpc json spec limits result) _ e5 in
      let (_, small, e7) =
        and_then-eq-ok (check_size debug lossy rpc json spec limits (canonicalize json result)) _
          e6 in
      finished reply body result (map_err-eq-ok _ sent answered) (not_redirect spec reply plain)
        (success spec reply body good) (body_of reply limits.max_response_bytes spec.name body came)
        (decoded spec body result decodes) (depth_within spec limits result flat)
        (size_within spec limits (canonicalize json result) small) (cc e7)
    where
      finished :
          (reply : HttpReply) (body : Bytes) (result : Json)
          → sent ≡ ok reply
          → is_redirection debug lossy rpc json reply.status ≡ false
          → is_success debug lossy rpc json reply.status ≡ true
          → Downloaded limits.max_response_bytes [] reply.chunks body
          → ((r : JsonRpcResponse) × (rpc body ≡ ok r)
              × (r.error ≡ none)
              × (r.result ≡ some result))
          → json_depth result ≤ limits.max_json_depth
          → length (canonicalize json result) ≤ limits.max_manifest_bytes
          → fp.canonical_manifest ≡ canonicalize json result
          → Within sent limits fp
      finished reply body result a n s d (r, read, no_error, has_result) flat small made = record {
        reply = reply;
        body = body;
        response = r;
        result = result;
        answered = a;
        not_redirected = n;
        succeeded = s;
        arrived = rw d.whole d.arrived;
        body_le = d.within;
        read = read;
        no_error = no_error;
        has_result = has_result;
        depth_le = flat;
        manifest = made;
        manifest_le = rw made small;
      }
