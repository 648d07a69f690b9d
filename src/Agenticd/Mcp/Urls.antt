-- ===== src/Agenticd/Mcp/Urls.antt =====
-- crates/agenticd/src/mcp.rs: the policy on the URLs of servers, and the `--mcp` flag.
use git_agentic.Common.{
  Bool, false, ◌||◌, Option, none, some, List, [], ◌∷◌, Result, ok, err, and_then, ok_or, ◌==◌,
  nat_eq, list_eq, if◌then◌else◌,
}
use git_agentic.Common.Text.{Text, codes, split_once, trim, to_ascii_lowercase}
use git_agentic.Agenticd.Daemon.{McpServerSpec}

-- `url::Host`: of an address, whether it is a loopback one
pub data Host : Type 0 where
  domain : Text → Host
  ipv4 ipv6 : (is_loopback : Bool) → Host

-- `url::Url`, as far as it is read here
pub record Url : Type 0 where
  pub scheme : Text
  pub host : Option Host
  pub host_str : Option Text

pub data McpUrlError : Type 0 where
  unparseable : (url : Text) → McpUrlError
  disallowed_scheme non_loopback_http : (url part : Text) → McpUrlError

unfoldable pub host_is_loopback : Option Host → Bool
host_is_loopback (some (domain d)) = to_ascii_lowercase d == codes "localhost"
host_is_loopback (some (ipv4 is_loopback)) = is_loopback
host_is_loopback (some (ipv6 is_loopback)) = is_loopback
host_is_loopback none = false

abbrev pub or_empty : Option Text → Text
or_empty none = []
or_empty (some t) = t

-- A flag that is refused: not of the form name=url, a part that is empty, or a URL that the policy
-- forbids
pub data McpSpecError : Type 0 where
  no_equals empty_part : Text → McpSpecError
  forbidden : McpUrlError → McpSpecError

-- `parse` is `url::Url::parse`.
module _ (parse : Text → Option Url) where
  abbrev pub allowed : Text → Url → Result McpUrlError (Unit {0})
  allowed raw u =
      if u.scheme == codes "https"
      then ok tt
      else if u.scheme == codes "http"
      then (if host_is_loopback u.host
          then ok tt
          else err (non_loopback_http raw (or_empty u.host_str)))
      else err (disallowed_scheme raw u.scheme)

  unfoldable pub validate_mcp_url : Text → Result McpUrlError (Unit {0})
  unfolding host_is_loopback
  validate_mcp_url raw = and_then (ok_or (parse raw) (unparseable raw)) (allowed raw)

  abbrev pub spec_of : Text → Text × Text → Result McpSpecError McpServerSpec
  spec_of s (name, url) =
      if (name == []) || (url == [])
      then err (empty_part s)
      else elim (validate_mcp_url (trim url)) [
        | err e ↦ err (forbidden e)
        | ok _ ↦ ok (record { name = trim name; url = trim url })
      ]

  unfoldable pub parse_mcp_item : Text → Result McpSpecError McpServerSpec
  unfolding validate_mcp_url
  parse_mcp_item s = and_then (ok_or (split_once b'=' s) (no_equals s)) (spec_of s)

  -- The first error ends the list.
  unfoldable pub parse_mcp_spec : List Text → Result McpSpecError (List McpServerSpec)
  unfolding parse_mcp_item
  parse_mcp_spec [] = ok []
  parse_mcp_spec (s ∷ items) =
      and_then (parse_mcp_item s) λ spec. and_then (parse_mcp_spec items) λ specs. ok (spec ∷ specs)
