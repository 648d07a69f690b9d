-- ===== src/Agenticd/Lifecycle.antt =====
-- crates/agenticd/src/lifecycle.rs: the check of the refs when the daemon starts.
pub mod Tips
use git_agentic.Common.{
  ℕ, ◌≡◌, Bool, true, false, Option, none, some, List, [], ◌∷◌, ◌++◌, Result, ok, err, Action, pure,
  lift, ◌>>=◌, length, take, map, if◌then◌else◌,
}
use git_agentic.Common.Decimal.{to_decimal}
use git_agentic.Common.Text.{Text, codes}
use git_agentic.Core.Hash.{Hash, to_hex}
use git_agentic.Core.Refs.{read_branch}
use git_agentic.Core.Refs.Listing.{list_branches}
use git_agentic.Agenticd.Failure.{Failure, anyhow, with_context, on_refs}
use git_agentic.Agenticd.Daemon.{Outside, DaemonState}

-- `join(", ")`
unfoldable pub comma_joined : List Text → Text
comma_joined [] = []
comma_joined (t ∷ []) = t
comma_joined (t ∷ u ∷ ts) = t ++ (codes ", " ++ comma_joined (u ∷ ts))

-- A branch, and its tip in hex
abbrev pub shown_broken : Text × Text → Text
shown_broken (branch, tip) = branch ++ (b'@' ∷ take 16 tip)

unfoldable pub reconciliation_failed : List (Text × Text) → Failure
unfolding comma_joined
reconciliation_failed broken = anyhow (
    codes "startup ref reconciliation failed: "
    ++ (to_decimal (length broken)
        ++ (codes " branch ref(s) point at object(s) missing from the store ("
            ++ (comma_joined (map shown_broken broken)
                ++ codes
                    "). The daemon was likely killed mid-commit before the ref update completed, or the object store was corrupted. Inspect <.agentic/refs/heads/>; the safe recovery is to manually rewind the affected branch ref(s) to their previous tip (or to delete them if no recoverable parent exists)."))))

module _ {S : Type 0} (o : Outside S) (st : DaemonState S) where
  abbrev pub read_tip : Text → Action S Failure (Option Hash)
  read_tip branch =
      with_context (codes "reading branch ref " ++ branch)
        (on_refs st.disk (read_branch o.hex st.refs branch))

  -- What a branch adds to the broken ones
  unfoldable pub missing_tip : Text → Option Hash → S → List (Text × Text)
  missing_tip branch none s = []
  missing_tip branch (some tip) s =
      if st.store.has s tip then [] else (branch, to_hex o.hex tip) ∷ []

  unfoldable pub find_broken : List Text → Action S Failure (List (Text × Text))
  unfolding missing_tip
  find_broken [] = pure []
  find_broken (branch ∷ branches) = do
    tip ← read_tip branch
    here ← (λ s. (ok (missing_tip branch tip s), s))
    rest ← find_broken branches
    pure (here ++ rest)

  abbrev pub verdict : List (Text × Text) → Result Failure (Unit {0})
  verdict [] = ok tt
  verdict (b ∷ broken) = err (reconciliation_failed (b ∷ broken))

  unfoldable pub reconcile_refs_on_startup : Action S Failure (Unit {0})
  unfolding find_broken reconciliation_failed
  reconcile_refs_on_startup = do
    branches ←
        with_context (codes "listing branches at startup")
          (on_refs st.disk (list_branches st.refs o.lossy))
    broken ← find_broken branches
    lift (verdict broken)
