-- ===== src/Agenticd/Mcp/Policy.antt =====
-- What the daemon will ask for tools.
use git_agentic.Common.{
  ◌≡◌, refl, Bool, true, false, Option, none, some, List, [], ◌∷◌, Result, ok, err, and_then,
  and_then-eq-ok, ok_or, All, ◌==◌, nat_eq, list_eq, ◌||◌, ◌⊎◌, inl, inr, if◌then◌else◌, eq_of_==,
}
use git_agentic.Common.Text.{Text, codes, split_once, trim}
use git_agentic.Agenticd.Daemon.{McpServerSpec}
use git_agentic.Agenticd.Mcp.Urls.{
  Url, McpUrlError, McpSpecError, host_is_loopback, allowed, validate_mcp_url, spec_of,
  parse_mcp_item, parse_mcp_spec, unparseable, forbidden, no_equals,
}

module _ (parse : Text → Option Url) where
  -- https to anywhere, or http to this machine
  abbrev pub Permitted : Url → Type 0
  Permitted u =
      (u.scheme ≡ codes "https") ⊎ ((u.scheme ≡ codes "http") × (host_is_loopback u.host ≡ true))

  pub record Askable (spec : McpServerSpec) : Type 0 where
    pub parsed : Url
    pub parses : parse spec.url ≡ some parsed
    pub permitted : Permitted parsed

  Permitted-of : (raw : Text) (u : Url) {t : Unit {0}} → allowed parse raw u ≡ ok t → Permitted u
  Permitted-of raw u e =
      go (u.scheme == codes "https") refl (u.scheme == codes "http") refl (host_is_loopback u.host)
        refl _ _ e
    where
      go :
          (secure : Bool)
          → (u.scheme == codes "https") ≡ secure
          → (plain : Bool) → (u.scheme == codes "http") ≡ plain
          → (local : Bool) → host_is_loopback u.host ≡ local
          → (f g : McpUrlError) {t : Unit {0}}
          → (if secure then ok tt else if plain then (if local then ok tt else err f) else err g)
            ≡ ok t
          → Permitted u
      go true s p ep l el f g e = inl (eq_of_== u.scheme (codes "https") s)
      go false s true ep true el f g e = inr (eq_of_== u.scheme (codes "http") ep, el)
      go false s true ep false el f g e = cc
      go false s false ep l el f g e = cc

  parsed_of : (r : Option Url) (e : McpUrlError) {u : Url} → ok_or r e ≡ ok u → r ≡ some u
  parsed_of none e h = cc
  parsed_of (some v) e h = cc

  item-Askable : (s : Text) (spec : McpServerSpec) → parse_mcp_item parse s ≡ ok spec → Askable spec
  unfolding parse_mcp_item validate_mcp_url
  item-Askable s spec e =
      let (parts, split, made) =
        and_then-eq-ok (ok_or (split_once b'=' s) (no_equals s)) (spec_of parse s) e in
      go ((parts.0 == []) || (parts.1 == [])) _ parts.0 (trim parts.1)
        (validate_mcp_url parse (trim parts.1)) refl made
    where
      finished :
          (url : Text)
          → and_then (ok_or (parse url) (unparseable url)) (allowed parse url) ≡ ok tt
          → spec.url ≡ url
          → Askable spec
      finished url v same =
          let (u, parses, fine) =
            and_then-eq-ok (ok_or (parse url) (unparseable url)) (allowed parse url) v in
          record {
            parsed = u;
            parses = rw same (parsed_of (parse url) _ parses);
            permitted = Permitted-of url u fine;
          }

      go :
          (missing : Bool) (f : McpSpecError) (name url : Text) (v : Result McpUrlError (Unit {0}))
          → validate_mcp_url parse url ≡ v
          → (if missing then err f else elim v [
            | err e ↦ err (forbidden e)
            | ok _ ↦ ok (record { name = trim name; url = url })
          ])
            ≡ ok spec
          → Askable spec
      go true f name url v ev e = cc
      go false f name url (err x) ev e = cc
      go false f name url (ok tt) ev e = finished url ev (cc e)

  -- Every server that the flags name has a URL that parses and is https, or http to this machine: the
  -- daemon sends nothing in the clear to another.
  pub parse_mcp_spec-Askable :
      (items : List Text) (specs : List McpServerSpec)
      → parse_mcp_spec parse items ≡ ok specs
      → All Askable specs
  unfolding parse_mcp_spec
  parse_mcp_spec-Askable [] specs e = let none_left : specs ≡ [] = cc e in rw none_left tt
  parse_mcp_spec-Askable (s ∷ items) specs e =
      let (spec, first, rest) = and_then-eq-ok (parse_mcp_item parse s) _ e in
      let (others, later, made) =
        and_then-eq-ok (parse_mcp_spec parse items) (λ specs. ok (spec ∷ specs)) rest in
      let whole : specs ≡ spec ∷ others = cc made in
      rw whole (item-Askable s spec first, parse_mcp_spec-Askable items others later)
