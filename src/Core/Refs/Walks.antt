-- ===== src/Core/Refs/Walks.antt =====
-- crates/agentic-core/src/refs.rs: the walk over the branches ends, and with more fuel it is the same.
use git_agentic.Common.{
  ℕ, suc, zero, ◌+◌, ◌<◌, ◌≡◌, refl, Bool, true, false, List, [], ◌∷◌, ok, Action, lift, All,
  length, arith, sym, if◌then◌else◌, map_err-eq-ok,
}
use git_agentic.Common.Dict.{Dict}
use git_agentic.Common.Text.{Text}
use git_agentic.Fs.{Node, file, dir, link, Disk, exists}
use git_agentic.Fs.Depth.{OneBelow, Agrees, Agrees-bind, Agrees-refl, read_dir_below}
use git_agentic.Fs.Listing.{longest}
use git_agentic.Fs.Paths.{FilePath}
use git_agentic.Fs.ReadOnly.{
  ReadOnly, ReadOnly-bind, ReadOnly-lift, ReadOnly-pure, ReadOnly-raise, ReadOnly-map_err,
  ReadOnly-read_dir, ReadOnly-symlink_metadata,
}
use git_agentic.Core.Error.{Error, other, io}
use git_agentic.Core.Hash.{Hash}
use git_agentic.Core.Refs.{Refs}
use git_agentic.Core.Refs.Reads.{read_head-ReadOnly, read_branch-ReadOnly}
use git_agentic.External.{Hex}
use git_agentic.Common.SortedMap.{SortedMap}
use git_agentic.Core.Refs.Listing.{
  branch_of_entry, collect_entries, collect_branch_files, heads_dir, list_branches,
  snapshot_branches, snapshot, with_branch,
}

module _ (lossy : Text → Text) (root : FilePath) where
  abbrev visit :
      (FilePath → Action Disk Error (List Text)) → FilePath → Node → Action Disk Error (List Text)
  visit walk p n = elim n [ dir ↦ walk p | found ↦ lift (branch_of_entry lossy root found p) ]

  visit-ReadOnly :
      (walk : FilePath → Action Disk Error (List Text)) (p : FilePath) (n : Node)
      → ReadOnly (walk p)
      → ReadOnly (visit walk p n)
  visit-ReadOnly walk p dir r = r
  visit-ReadOnly walk p (file b) r = ReadOnly-lift _
  visit-ReadOnly walk p (link b) r = ReadOnly-lift _

  entries-ReadOnly :
      (walk : FilePath → Action Disk Error (List Text)) (ps : List FilePath)
      → ((p : FilePath) → ReadOnly (walk p))
      → ReadOnly (collect_entries lossy root walk ps)
  unfolding collect_entries
  entries-ReadOnly walk [] r = ReadOnly-pure []
  entries-ReadOnly walk (p ∷ ps) r =
      ReadOnly-bind _ _ (ReadOnly-map_err io _ (ReadOnly-symlink_metadata p)) λ n.
        ReadOnly-bind _ _ (visit-ReadOnly walk p n (r p))
          λ here. ReadOnly-bind _ _ (entries-ReadOnly walk ps r) λ rest. ReadOnly-pure _

  collect-ReadOnly :
      (fuel : ℕ) (here : FilePath) → ReadOnly (collect_branch_files lossy root fuel here)
  unfolding collect_branch_files
  collect-ReadOnly zero here = ReadOnly-raise other
  collect-ReadOnly (suc fuel) here =
      ReadOnly-bind _ _ (ReadOnly-map_err io _ (ReadOnly-read_dir here))
        λ ps. entries-ReadOnly _ ps (collect-ReadOnly fuel)

  -- Two walks that agree below agree on the entries of a directory.
  entries-Agrees :
      (nodes : Dict FilePath Node) (P : FilePath → Type 0)
      (walk other_walk : FilePath → Action Disk Error (List Text)) (ps : List FilePath)
      → ((p : FilePath) → ReadOnly (walk p))
      → ((p : FilePath) → P p → Agrees nodes (walk p) (other_walk p))
      → All P ps
      → Agrees nodes (collect_entries lossy root walk ps) (collect_entries lossy root other_walk ps)
  unfolding collect_entries
  entries-Agrees nodes P walk other_walk [] r same h = record { at = λ d e. refl }
  entries-Agrees nodes P walk other_walk (p ∷ ps) r same h =
      Agrees-bind {P = λ _. Unit {0}} _ _ _ _ (ReadOnly-map_err io _ (ReadOnly-symlink_metadata p))
        (Agrees-refl _) (λ d a e f. tt)
        λ n u.
          Agrees-bind {P = λ _. Unit {0}} _ _ _ _ (visit-ReadOnly walk p n (r p))
            (visit-Agrees n (same p h.0)) (λ d a e f. tt)
            λ here u.
              Agrees-bind {P = λ _. Unit {0}} _ _ _ _ (entries-ReadOnly walk ps r)
                (entries-Agrees nodes P walk other_walk ps r same h.1) (λ d a e f. tt)
                λ rest u. Agrees-refl _
    where
      visit-Agrees :
          (n : Node)
          → Agrees nodes (walk p) (other_walk p)
          → Agrees nodes (visit walk p n) (visit other_walk p n)
      visit-Agrees dir a = a
      visit-Agrees (file b) a = Agrees-refl _
      visit-Agrees (link b) a = Agrees-refl _

  -- Fuel above the depth that is left is enough: a walk with more is the same walk.
  walks-Agrees :
      (nodes : Dict FilePath Node) (n m : ℕ) (here : FilePath)
      → 0 < n
      → 0 < m
      → longest nodes < length here + n
      → longest nodes < length here + m
      → Agrees nodes
          (collect_branch_files lossy root n here)
          (collect_branch_files lossy root m here)
  unfolding collect_branch_files
  walks-Agrees nodes zero m here n0 m0 hn hm = absurd (omega (arith, n0))
  walks-Agrees nodes (suc n) zero here n0 m0 hn hm = absurd (omega (arith, m0))
  walks-Agrees nodes (suc n) (suc m) here n0 m0 hn hm =
      Agrees-bind {P = All (OneBelow here (longest nodes))} _ _ _ _
        (ReadOnly-map_err io _ (ReadOnly-read_dir here)) (Agrees-refl _)
        (λ d ps e f. rw (sym e) (read_dir_below here d ps (map_err-eq-ok io _ f)))
        λ ps below.
          entries-Agrees nodes (OneBelow here (longest nodes)) _ _ ps (collect-ReadOnly n)
            (λ p b.
              walks-Agrees nodes n m p (omega (arith, b.0, b.1, hn)) (omega (arith, b.0, b.1, hm))
                (omega (arith, b.0, hn)) (omega (arith, b.0, hm)))
            below

pub list_branches-ReadOnly : (r : Refs) (lossy : Text → Text) → ReadOnly (list_branches r lossy)
unfolding list_branches
list_branches-ReadOnly r lossy = record {
  keeps = λ nodes. record { at = λ d e. go nodes d e (exists d (heads_dir r)) };
}
  where
    go :
        (nodes : Dict FilePath Node) (d : Disk)
        → d.nodes ≡ nodes
        → (there : Bool)
        → (if there
            then collect_branch_files lossy (heads_dir r) (suc (longest d.nodes)) (heads_dir r) d
            else (ok [], d)).1.nodes
          ≡ nodes
    go nodes d e true =
        ((collect-ReadOnly lossy (heads_dir r) (suc (longest d.nodes)) (heads_dir r)).keeps
            nodes).at
          d e
    go nodes d e false = e

-- The walk over the branches ends of itself: it is the same walk with any more fuel, so it never
-- gives up for lack of it, however deep the directories are and whichever calls of the system fail.
pub list_branches_ends :
    (r : Refs) (lossy : Text → Text) (d : Disk) (more : ℕ)
    → exists d (heads_dir r) ≡ true
    → list_branches r lossy d
      ≡ collect_branch_files lossy (heads_dir r) (suc (longest d.nodes) + more) (heads_dir r) d
unfolding list_branches
list_branches_ends r lossy d more e = rw e (
    (walks-Agrees lossy (heads_dir r) d.nodes (suc (longest d.nodes)) (suc (longest d.nodes) + more)
        (heads_dir r) (omega arith) (omega arith) (omega arith) (omega arith)).at
      d refl)

module _ (x : Hex) (r : Refs) where
  snapshot_branches-ReadOnly :
      (names : List Text) (branches : SortedMap Hash)
      → ReadOnly (snapshot_branches x r names branches)
  unfolding snapshot_branches
  snapshot_branches-ReadOnly [] branches = ReadOnly-pure branches
  snapshot_branches-ReadOnly (name ∷ names) branches =
      ReadOnly-bind _ _ (read_branch-ReadOnly x r name)
        λ tip. snapshot_branches-ReadOnly names (with_branch x r name tip branches)

  pub snapshot-ReadOnly : (lossy : Text → Text) → ReadOnly (snapshot x r lossy)
  unfolding snapshot
  snapshot-ReadOnly lossy = ReadOnly-bind _ _ (read_head-ReadOnly x r) λ head.
      ReadOnly-bind _ _ (list_branches-ReadOnly r lossy)
        λ names. ReadOnly-bind _ _ (snapshot_branches-ReadOnly names []) λ branches. ReadOnly-pure _
