-- ===== src/Agenticd/Commit/Tools.antt =====
-- Each server's tools are recorded under its own name.
use git_agentic.Common.{
  ◌≡◌, ◌≢◌, refl, sym, ◌∙◌, Bool, true, false, none, some, List, [], ◌∷◌, Result, ok, err, All, any,
  ap, ◌||◌, ◌==◌, nat_eq, list_eq, if◌then◌else◌, length, eq_of_==, ==_ne, ==_refl, arith,
}
use git_agentic.Common.SortedMap
use git_agentic.Common.SortedMap.{SortedMap, get, get-insert}
use git_agentic.Common.Text.{Text, Bytes}
use git_agentic.Agenticd.Failure.{Failure}
use git_agentic.Agenticd.Daemon.{Outside, DaemonState, McpServerSpec, McpFingerprint}
use git_agentic.Agenticd.Commit.{collect_tools, fingerprint_each, fingerprint_tools}
use git_agentic.Agenticd.Startup.{first_duplicate}

-- The servers that come later have other names.
abbrev Apart : List McpServerSpec → Type 0
Apart [] = Unit {0}
Apart (spec ∷ specs) = All (λ (t : McpServerSpec). spec.name ≢ t.name) specs × Apart specs

-- Under the name of each server stands the manifest that this server gave.
abbrev pub Attributed :
    SortedMap Bytes → List McpServerSpec → List (Result Failure McpFingerprint) → Type 0
Attributed tools [] [] = Unit {0}
Attributed tools (spec ∷ specs) (r ∷ results) =
    ((fp : McpFingerprint) × (r ≡ ok fp) × (get tools spec.name ≡ some fp.canonical_manifest))
    × Attributed tools specs results
Attributed tools _ _ = ⊥

first_lem :
    (seen : List Text) (spec : McpServerSpec) (specs : List McpServerSpec)
    → first_duplicate seen (spec ∷ specs) ≡ none
    → (any (λ m. m == spec.name) seen ≡ false) × (first_duplicate (spec.name ∷ seen) specs ≡ none)
unfolding first_duplicate
first_lem seen spec specs e = go (any (λ m. m == spec.name) seen) refl e
  where
    go :
        (b : Bool)
        → any (λ m. m == spec.name) seen ≡ b
        → (if b then some spec.name else first_duplicate (spec.name ∷ seen) specs) ≡ none
        → (any (λ m. m == spec.name) seen ≡ false)
          × (first_duplicate (spec.name ∷ seen) specs ≡ none)
    go true h e = cc
    go false h e = (h, e)

or_true : (a b : Bool) → b ≡ true → (a || b) ≡ true
or_true a b e = ground arith

-- A name that was seen is none of a later server.
later_differ :
    (n : Text) (seen : List Text) (specs : List McpServerSpec)
    → any (λ m. m == n) seen ≡ true
    → first_duplicate seen specs ≡ none
    → All (λ (t : McpServerSpec). n ≢ t.name) specs
unfolding any
later_differ n seen [] h e = tt
later_differ n seen (spec ∷ specs) h e =
    let (fresh, rest) = first_lem seen spec specs e in
    (
      λ same. cc (h, fresh, ap (λ (x : Text). any (λ m. m == x) seen) same),
      later_differ n (spec.name ∷ seen) specs (or_true (spec.name == n) _ h) rest,
    )

apart_of :
    (seen : List Text) (specs : List McpServerSpec)
    → first_duplicate seen specs ≡ none
    → Apart specs
unfolding any
apart_of seen [] e = tt
apart_of seen (spec ∷ specs) e =
    let (fresh, rest) = first_lem seen spec specs e in
    (
      later_differ spec.name (spec.name ∷ seen) specs (rw (==_refl spec.name) refl) rest,
      apart_of (spec.name ∷ seen) specs rest,
    )

-- What is collected later leaves the entry of another name as it was.
collect_keeps :
    (k : Text) (specs : List McpServerSpec) (results : List (Result Failure McpFingerprint))
    (m tools : SortedMap Bytes)
    → All (λ (t : McpServerSpec). k ≢ t.name) specs
    → collect_tools specs results m ≡ ok tools
    → get tools k ≡ get m k
unfolding collect_tools
collect_keeps k [] results m tools h e = ap (λ t. get t k) (cc e)
collect_keeps k (spec ∷ specs) [] m tools h e = ap (λ t. get t k) (cc e)
collect_keeps k (spec ∷ specs) (err f ∷ results) m tools h e = cc
collect_keeps k (spec ∷ specs) (ok fp ∷ results) m tools h e =
    collect_keeps k specs results (SortedMap.insert m spec.name fp.canonical_manifest) tools h.1 e
    ∙ (get-insert m spec.name k fp.canonical_manifest
        ∙ (rw (==_ne spec.name k (λ same. h.0 (sym same))) refl))

collect-Attributed :
    (specs : List McpServerSpec) (results : List (Result Failure McpFingerprint))
    (m tools : SortedMap Bytes)
    → length results ≡ length specs
    → Apart specs
    → collect_tools specs results m ≡ ok tools
    → Attributed tools specs results
unfolding collect_tools
collect-Attributed [] [] m tools l a e = tt
collect-Attributed [] (r ∷ results) m tools l a e = absurd (omega (arith, l))
collect-Attributed (spec ∷ specs) [] m tools l a e = absurd (omega (arith, l))
collect-Attributed (spec ∷ specs) (err f ∷ results) m tools l a e = cc
collect-Attributed (spec ∷ specs) (ok fp ∷ results) m tools l a e =
    let inserted = SortedMap.insert m spec.name fp.canonical_manifest in
    (
      (
        fp,
        refl,
        collect_keeps spec.name specs results inserted tools a.0 e
            ∙ (get-insert m spec.name spec.name fp.canonical_manifest
                ∙ (rw (==_refl spec.name) refl)),
      ),
      collect-Attributed specs results inserted tools (omega (arith, l)) a.1 e,
    )

-- Where no two servers have one name, which is checked when the daemon starts, the tools that go
-- into a commit are under each server's name the manifest that this very server gave, and no server
-- gave an error: nothing is attributed to another server, and none is left out.
pub fingerprint_tools-Attributed :
    {S : Type 0} (o : Outside S) (st : DaemonState S) (s : S) (tools : SortedMap Bytes)
    → first_duplicate [] st.mcp_servers ≡ none
    → st.mcp_servers ≢ []
    → (fingerprint_tools o st s).0 ≡ ok tools
    → Attributed tools st.mcp_servers (st.fingerprint_all st.mcp_servers s).0
unfolding fingerprint_tools
fingerprint_tools-Attributed {S} o st s tools fresh some_server e =
    go st.mcp_servers some_server (apart_of [] st.mcp_servers fresh) e
  where
    one_each :
        (specs : List McpServerSpec) (results : List (Result Failure McpFingerprint))
        → Apart specs
        → (b : Bool) → (length results == length specs) ≡ b
        → (f : Failure) → (if b then collect_tools specs results [] else err f) ≡ ok tools
        → Attributed tools specs results
    one_each specs results a true l f e =
        collect-Attributed specs results [] tools (eq_of_== (length results) (length specs) l) a e
    one_each specs results a false l f e = cc

    go :
        (specs : List McpServerSpec)
        → specs ≢ []
        → Apart specs
        → (fingerprint_each o st specs s).0 ≡ ok tools
        → Attributed tools specs (st.fingerprint_all specs s).0
    go [] ne a e = absurd (ne refl)
    go (spec ∷ specs) ne a e =
        one_each (spec ∷ specs) (st.fingerprint_all (spec ∷ specs) s).0 a _ refl _ e
