-- ===== src/Fs.antt =====
-- What the program uses of `std::fs`: a tree of nodes, and the outcome of each coming system
-- call, so that every call may fail. A state that a failed call leaves is also what a crash at
-- that point leaves. Links lead to files outside the tree.
pub mod Paths
pub mod Effects
pub mod Presence
pub mod Listing
pub mod Depth
pub mod ReadOnly
pub mod Same
pub mod Atomic
use git_agentic.Common.{
  ℕ, ◌≡◌, Bool, true, false, Option, none, some, List, [], ◌∷◌, ◌++◌, take, Result, ok, err, Action,
  pure, raise, ◌>>=◌, ◌>>◌, if◌then◌else◌, nat_eq, list_eq,
}
use git_agentic.Common.Dict.{Dict, get, insert, remove}
use git_agentic.Common.Text.{Bytes, Text}
use Paths.{FilePath, parent}

pub data Node : Type 0 where
  file : Bytes → Node
  dir : Node
  link : Bytes → Node

pub data Outcome : Type 0 where
  works fails : Outcome
  torn : ℕ → Outcome

pub record Disk : Type 0 where
  pub nodes : Dict FilePath Node
  pub outcomes : List Outcome

-- `std::io::ErrorKind`
pub data ErrorKind : Type 0 where
  not_found not_a_directory is_a_directory other : ErrorKind

abbrev pub Io : Type 0 → Type 0
Io A = Action Disk ErrorKind A

-- The root of the tree is a directory.
unfoldable pub stat : Disk → FilePath → Option Node
stat d [] = some dir
stat d (c ∷ p) = get d.nodes (c ∷ p)

abbrev pub bytes_of : Option Node → Option Bytes
bytes_of (some (file b)) = some b
bytes_of (some (link b)) = some b
bytes_of _ = none

-- What a reader finds at a path.
abbrev pub content : Disk → FilePath → Option Bytes
content d p = bytes_of (stat d p)

-- `path.exists()`
abbrev pub is_some {ℓ} : {A : Type ℓ} → Option A → Bool
is_some none = false
is_some (some _) = true

abbrev pub exists : Disk → FilePath → Bool
exists d p = is_some (stat d p)

-- The outcome of the next call: calls beyond the list work.
abbrev pub first_outcome : List Outcome → Outcome
first_outcome [] = works
first_outcome (o ∷ os) = o

abbrev pub later_outcomes : List Outcome → List Outcome
later_outcomes [] = []
later_outcomes (o ∷ os) = os

abbrev pub later : Disk → Disk
later d = record d { outcomes = later_outcomes d.outcomes }

abbrev pub perform : {A : Type 0} → Outcome → Io A → (ℕ → Io A) → Io A
perform works run partial = run
perform fails run partial = raise other
perform (torn n) run partial = partial n

unfoldable pub sys_call : {A : Type 0} → Io A → (ℕ → Io A) → Io A
sys_call run partial d = perform (first_outcome d.outcomes) run partial (later d)

abbrev pub put_node : FilePath → Node → Disk → Disk
put_node p n d = record d { nodes = insert d.nodes p n }

abbrev pub make_dir : FilePath → Io (Unit {0})
make_dir p d = elim (stat d p) [
  | none ↦ (elim (stat d (parent p)) [
    | some dir ↦ (ok tt, put_node p dir d)
    | some _ ↦ (err not_a_directory, d)
    | none ↦ (err not_found, d)
  ])
  | some dir ↦ (ok tt, d)
  | some _ ↦ (err not_a_directory, d)
]

-- `mkdir(2)`, where a directory that is there already is fine
unfoldable pub create_dir : FilePath → Io (Unit {0})
create_dir p = sys_call (make_dir p) (λ _. raise other)

unfoldable pub create_dirs : FilePath → FilePath → Io (Unit {0})
create_dirs base [] = pure tt
create_dirs base (c ∷ p) = let here = base ++ (c ∷ []) in create_dir here >> create_dirs here p

-- `fs::create_dir_all`
unfoldable pub create_dir_all : FilePath → Io (Unit {0})
unfolding create_dirs
create_dir_all p = create_dirs [] p

-- A write to a link goes to the file that it leads to.
abbrev pub written : Bytes → Option Node → Node
written b (some (link _)) = link b
written b _ = file b

abbrev pub write_bytes : FilePath → Bytes → Result ErrorKind (Unit {0}) → Io (Unit {0})
write_bytes p b r d = elim (stat d p) [
  | some dir ↦ (err is_a_directory, d)
  | found ↦ (elim (stat d (parent p)) [
    | some dir ↦ (r, put_node p (written b found) d)
    | _ ↦ (err not_found, d)
  ])
]

-- `fs::write`: a torn write leaves the first bytes.
unfoldable pub write : FilePath → Bytes → Io (Unit {0})
write p b = sys_call (write_bytes p b (ok tt)) (λ n. write_bytes p (take n b) (err other))

abbrev pub drop_node : FilePath → Disk → Disk
drop_node p d = record d { nodes = remove d.nodes p }

abbrev pub move_node : FilePath → FilePath → Node → Io (Unit {0})
move_node p q n d = elim (stat d q) [
  | some dir ↦ (err is_a_directory, d)
  | _ ↦ (ok tt, put_node q n (drop_node p d))
]

abbrev pub move_found : Option Node → FilePath → FilePath → Io (Unit {0})
move_found none p q = raise not_found
move_found (some dir) p q = raise is_a_directory
move_found (some n) p q = move_node p q n

abbrev pub move_file : FilePath → FilePath → Io (Unit {0})
move_file p q d = move_found (stat d p) p q d

-- `fs::rename` of what is no directory
unfoldable pub rename : FilePath → FilePath → Io (Unit {0})
rename p q = sys_call (move_file p q) (λ _. raise other)

abbrev pub read_bytes : FilePath → Io Bytes
read_bytes p d = elim (stat d p) [
  | none ↦ (err not_found, d)
  | some dir ↦ (err is_a_directory, d)
  | some (file b) ↦ (ok b, d)
  | some (link b) ↦ (ok b, d)
]

-- `fs::read`
unfoldable pub read : FilePath → Io Bytes
read p = sys_call (read_bytes p) (λ _. raise other)

abbrev pub unlink : FilePath → Io (Unit {0})
unlink p d = elim (stat d p) [
  | none ↦ (err not_found, d)
  | some dir ↦ (err is_a_directory, d)
  | some _ ↦ (ok tt, drop_node p d)
]

-- `fs::remove_file`: a link goes, not the file that it leads to.
unfoldable pub remove_file : FilePath → Io (Unit {0})
remove_file p = sys_call (unlink p) (λ _. raise other)

-- No call to come fails.
abbrev pub IsReliable : Disk → Type 0
IsReliable d = d.outcomes ≡ []
