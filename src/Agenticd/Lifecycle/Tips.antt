-- ===== src/Agenticd/Lifecycle/Tips.antt =====
-- What a daemon that starts has checked of its branches.
use git_agentic.Common.{
  ◌≡◌, refl, ◌∙◌, true, Option, none, some, List, [], ◌∷◌, ◌++◌, ok, Action, pure, lift, All, ap,
  inl, inr, bind-eq-ok, Bool-cases,
}
use git_agentic.Common.Dict.{Dict}
use git_agentic.Common.Text.{Text, codes}
use git_agentic.Fs.{Disk, Node}
use git_agentic.Fs.Paths.{FilePath}
use git_agentic.Fs.ReadOnly.{ReadOnly}
use git_agentic.Core.Hash.{Hash}
use git_agentic.Core.Refs.{read_branch}
use git_agentic.Core.Refs.Listing.{list_branches}
use git_agentic.Core.Refs.Reads.{read_branch-ReadOnly}
use git_agentic.Core.Refs.Walks.{list_branches-ReadOnly}
use git_agentic.Core.Staging.{on_disk}
use git_agentic.Agenticd.Failure.{with_context, on_refs}
use git_agentic.Agenticd.Daemon.{Outside, DaemonState}
use git_agentic.Agenticd.Lifecycle.{
  read_tip, missing_tip, find_broken, reconcile_refs_on_startup, verdict,
}

module _ {S : Type 0} (o : Outside S) (st : DaemonState S) where
  abbrev tree : S → Dict FilePath Node
  tree s = (st.disk.disk s).nodes

  abbrev pub IsThere : Option Hash → S → Type 0
  IsThere none s = Unit {0}
  IsThere (some h) s = st.store.has s h ≡ true

  -- When the branch was read, in the tree as it was at the start, the store had its tip.
  pub record HasTip (nodes : Dict FilePath Node) (branch : Text) : Type 0 where
    pub state : S
    pub tip : Option Hash
    pub same_tree : tree state ≡ nodes
    pub reads : (read_tip o st branch state).0 ≡ ok tip
    pub there : IsThere tip (read_tip o st branch state).1

  module _ (lens : (d : Disk) (s : S) → st.disk.disk (st.disk.set_disk d s) ≡ d) where
    -- What only reads leaves the tree as it was.
    same_tree_after :
        {E A : Type 0} (m : Action Disk E A) (s : S)
        → ReadOnly m
        → tree (on_disk st.disk m s).1 ≡ tree s
    unfolding on_disk
    same_tree_after m s r =
        ap (λ (d : Disk). d.nodes) (lens (m (st.disk.disk s)).1 s)
        ∙ (r.keeps (tree s)).at (st.disk.disk s) refl

    there_of :
        (branch : Text) (tip : Option Hash) (s : S) (rest : List (Text × Text))
        → missing_tip o st branch tip s ++ rest ≡ []
        → IsThere tip s × (rest ≡ [])
    unfolding missing_tip
    there_of branch none s rest e = (tt, e)
    there_of branch (some h) s rest e = elim (Bool-cases (st.store.has s h)) [
      | inl had ↦ (had, rw had at e)
      | inr lost ↦ cc (rw lost at e)
    ]

    tips_of :
        (nodes : Dict FilePath Node) (branches : List Text) (s : S)
        → tree s ≡ nodes
        → (find_broken o st branches s).0 ≡ ok []
        → All (HasTip nodes) branches
    unfolding find_broken
    tips_of nodes [] s t e = tt
    tips_of nodes (branch ∷ branches) s t e =
        let (tip, reads, later) = bind-eq-ok (read_tip o st branch) _ s e in
        let u = (read_tip o st branch s).1 in
        let (rest, found, last) =
          bind-eq-ok (find_broken o st branches)
            (λ rest. pure (missing_tip o st branch tip u ++ rest)) u later in
        let (there, none_left) = there_of branch tip u rest (cc last) in
        (
          record { state = s; tip = tip; same_tree = t; reads = reads; there = there },
          tips_of nodes branches u
              (same_tree_after (read_branch o.hex st.refs branch) s
                  (read_branch-ReadOnly o.hex st.refs branch)
                ∙ t)
              (rw none_left at found),
        )

    verdict_ok : (broken : List (Text × Text)) → verdict o st broken ≡ ok tt → broken ≡ []
    verdict_ok [] e = refl
    verdict_ok (b ∷ broken) e = cc

    -- A daemon that has passed the check at its start had the tip of every branch that it listed in
    -- its store: no branch points to an object that is missing.
    pub reconcile-HasTip :
        (s : S)
        → (reconcile_refs_on_startup o st s).0 ≡ ok tt
        → (branches : List Text) × ((with_context
              (codes "listing branches at startup")
              (on_refs st.disk (list_branches st.refs o.lossy))
              s).0
            ≡ ok branches)
          × All (HasTip (tree s)) branches
    unfolding reconcile_refs_on_startup
    reconcile-HasTip s e =
        let listing =
          with_context (codes "listing branches at startup")
            (on_refs st.disk (list_branches st.refs o.lossy)) in
        let (branches, listed, later) = bind-eq-ok listing _ s e in
        let (broken, found, passed) =
          bind-eq-ok (find_broken o st branches) (λ broken. lift (verdict o st broken))
            (listing s).1 later in
        let nothing = verdict_ok broken passed in
        (
          branches,
          listed,
          tips_of (tree s) branches (listing s).1
              (same_tree_after (list_branches st.refs o.lossy) s
                (list_branches-ReadOnly st.refs o.lossy))
              (rw nothing at found),
        )
