-- ===== src/Fs/Listing.antt =====
-- What the program uses of `std::fs` to walk and to clear directories: a directory lists its
-- entries as it stands when it is opened.
use git_agentic.Common.{
  ℕ, Bool, false, none, some, List, [], ◌∷◌, ok, err, map, raise, ◌==◌, nat_eq, list_eq, filter,
  length, if◌then◌else◌, ltb,
}
use git_agentic.Common.Dict.{Dict}
use git_agentic.Fs.{Node, dir, Io, stat, sys_call, drop_node, not_found, not_a_directory, other}
use git_agentic.Fs.Paths.{FilePath, parent}

abbrev pub is_child : FilePath → FilePath → Bool
is_child here [] = false
is_child here (c ∷ p) = parent (c ∷ p) == here

-- The paths of the entries of a directory
unfoldable pub children : FilePath → Dict FilePath Node → List FilePath
children here nodes = filter (is_child here) (map (λ e. e.0) nodes)

abbrev pub list_dir : FilePath → Io (List FilePath)
list_dir p d = elim (stat d p) [
  | none ↦ (err not_found, d)
  | some dir ↦ (ok (children p d.nodes), d)
  | some _ ↦ (err not_a_directory, d)
]

-- `fs::read_dir`
unfoldable pub read_dir : FilePath → Io (List FilePath)
read_dir p = sys_call (list_dir p) (λ _. raise other)

abbrev pub node_of : FilePath → Io Node
node_of p d = elim (stat d p) [ none ↦ (err not_found, d) | some n ↦ (ok n, d) ]

-- `entry.file_type()` and `fs::symlink_metadata`, which do not follow a link
unfoldable pub symlink_metadata : FilePath → Io Node
symlink_metadata p = sys_call (node_of p) (λ _. raise other)

abbrev remove_empty : FilePath → Io (Unit {0})
remove_empty p d = elim (stat d p) [
  | none ↦ (err not_found, d)
  | some dir ↦ (elim (children p d.nodes) [ [] ↦ (ok tt, drop_node p d) | _ ∷ _ ↦ (err other, d) ])
  | some _ ↦ (err not_a_directory, d)
]

-- `fs::remove_dir`, of a directory with no entry
unfoldable pub remove_dir : FilePath → Io (Unit {0})
unfolding children
remove_dir p = sys_call (remove_empty p) (λ _. raise other)

-- The length of the longest path in the tree: no walk goes deeper.
unfoldable pub longest : Dict FilePath Node → ℕ
longest [] = 0
longest ((p, n) ∷ nodes) =
    let rest = longest nodes in if ltb rest (length p) then length p else rest
