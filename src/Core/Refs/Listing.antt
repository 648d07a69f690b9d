-- ===== src/Core/Refs/Listing.antt =====
-- crates/agentic-core/src/refs.rs: the walk over `refs/heads`, and the snapshot of all refs.
use git_agentic.Common.{
  ℕ, suc, not, Option, none, some, List, [], ◌∷◌, ◌++◌, Result, ok, err, Action, pure, raise, lift,
  ◌>>=◌, ◌==◌, nat_eq, list_eq, if◌then◌else◌, map,
}
use git_agentic.Common.SortedMap
use git_agentic.Common.SortedMap.{SortedMap}
use git_agentic.Common.Text.{Text, codes, ends_with, is_utf8}
use git_agentic.External.{Hex}
use git_agentic.Fs.{Node, file, dir, Disk, exists}
use git_agentic.Fs.Listing.{read_dir, symlink_metadata, longest}
use git_agentic.Fs.Paths.{FilePath}
use git_agentic.Core.Error.{Error, from_io, other}
use git_agentic.Core.Hash.{Hash}
use git_agentic.Core.Refs.{Refs, RefsSnapshot, read_head, read_branch, backslash}

-- `path.strip_prefix(root)`
unfoldable pub strip_root : FilePath → FilePath → Option FilePath
strip_root [] p = some p
strip_root (r ∷ rs) [] = none
strip_root (r ∷ rs) (c ∷ p) = if r == c then strip_root rs p else none

-- The components with `/` between them
unfoldable pub joined : FilePath → Text
joined [] = []
joined (c ∷ []) = c
joined (c ∷ d ∷ p) = c ++ (b'/' ∷ joined (d ∷ p))

abbrev pub file_name : FilePath → Text
file_name [] = []
file_name (c ∷ []) = c
file_name (c ∷ d ∷ p) = file_name (d ∷ p)

-- `to_string_lossy().replace('\\', "/")`, where `lossy` is `String::from_utf8_lossy`
abbrev pub branch_name_of : (Text → Text) → FilePath → Text
branch_name_of lossy rel = map (λ c. if c == backslash then b'/' else c) (lossy (joined rel))

module _ (lossy : Text → Text) (root : FilePath) where
  -- What an entry that is no directory adds
  unfoldable pub branch_of_entry : Node → FilePath → Result Error (List Text)
  unfolding strip_root joined
  branch_of_entry (file b) p =
      if not (is_utf8 (file_name p))
      then ok []
      else if ends_with (codes ".tmp") (file_name p)
      then ok []
      else elim (strip_root root p) [
        | none ↦ err other
        | some rel ↦ ok (branch_name_of lossy rel ∷ [])
      ]
  branch_of_entry _ p = ok []

  -- The loop over the entries of one directory, with the walk of a directory below
  unfoldable pub collect_entries :
      (FilePath → Action Disk Error (List Text)) → List FilePath → Action Disk Error (List Text)
  unfolding branch_of_entry
  collect_entries walk [] = pure []
  collect_entries walk (p ∷ ps) = do
    n ← from_io (symlink_metadata p)
    here ← elim n [ dir ↦ walk p | found ↦ lift (branch_of_entry found p) ]
    rest ← collect_entries walk ps
    pure (here ++ rest)

  -- The fuel bounds the depth of the walk.
  unfoldable pub collect_branch_files : ℕ → FilePath → Action Disk Error (List Text)
  unfolding collect_entries
  collect_branch_files ℕ.zero here = raise other
  collect_branch_files (ℕ.suc fuel) here = do
    ps ← from_io (read_dir here)
    collect_entries (collect_branch_files fuel) ps

module _ (r : Refs) where
  abbrev pub heads_dir : FilePath
  heads_dir = r.agentic_dir ++ (codes "refs" ∷ codes "heads" ∷ [])

  unfoldable pub list_branches : (Text → Text) → Action Disk Error (List Text)
  unfolding collect_branch_files
  list_branches lossy d =
      if exists d heads_dir
      then collect_branch_files lossy heads_dir (suc (longest d.nodes)) heads_dir d
      else (ok [], d)

module _ (x : Hex) (r : Refs) where
  abbrev pub with_branch : Text → Option Hash → SortedMap Hash → SortedMap Hash
  with_branch name none branches = branches
  with_branch name (some h) branches = SortedMap.insert branches name h

  unfoldable pub snapshot_branches : List Text → SortedMap Hash → Action Disk Error (SortedMap Hash)
  snapshot_branches [] branches = pure branches
  snapshot_branches (name ∷ names) branches = do
    tip ← read_branch x r name
    snapshot_branches names (with_branch name tip branches)

  -- `Refs::snapshot`
  unfoldable pub snapshot : (Text → Text) → Action Disk Error RefsSnapshot
  unfolding snapshot_branches list_branches
  snapshot lossy = do
    head ← read_head x r
    names ← list_branches r lossy
    branches ← snapshot_branches names []
    pure (record { head = head; branches = branches })
