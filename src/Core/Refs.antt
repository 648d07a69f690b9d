-- ===== src/Core/Refs.antt =====
-- crates/agentic-core/src/refs.rs: branch refs and HEAD, one small file each under `.agentic/`.
pub mod Names
pub mod Files
pub mod Writes
pub mod Listing
pub mod Walks
pub mod Reads
pub mod Failures
use git_agentic.Common.{
  ℕ, ◌≡◌, Bool, true, false, ◌||◌, ◌&&◌, not, Option, none, some, List, [], ◌∷◌, ◌++◌, Result, ok,
  err, Action, pure, raise, lift, gets, ◌>>=◌, ◌>>◌, and_then, map_err, ◌==◌, nat_eq, list_eq,
  if◌then◌else◌, ltb, length, all, any, ok_or,
}
use git_agentic.Common.SortedMap
use git_agentic.Common.SortedMap.{SortedMap}
use git_agentic.Common.Text.{
  Bytes, Text, codes, strip_prefix, ends_with, split, trim, is_utf8, is_hex_digit, between,
}
use git_agentic.External.{Hex}
use git_agentic.Fs.{Disk, ErrorKind, Io, exists, read, create_dir_all}
use git_agentic.Fs.Paths.{FilePath, parent}
use git_agentic.Fs.Atomic.{replace}
use git_agentic.Core.Error.{Error, from_io, invalid_branch_name, io, other}
use git_agentic.Core.Hash.{Hash, ParseHashError, to_hex, from_str}

-- `Refs`: the directory `.agentic/`
pub record Refs : Type 0 where
  pub agentic_dir : FilePath

-- `Refs::open`
unfoldable pub refs_open : FilePath → Action Disk Error Refs
refs_open agentic_dir = do
  from_io (create_dir_all (agentic_dir ++ (codes "refs" ∷ codes "heads" ∷ [])))
  pure (record { agentic_dir = agentic_dir })

pub data HeadRef : Type 0 where
  branch : Text → HeadRef
  detached : Hash → HeadRef

-- `std::path::Component`, and what `Path::components` makes of a text on Unix
pub data Component : Type 0 where
  root_dir cur_dir parent_dir : Component
  normal : Text → Component

unfoldable pub later_components : List Text → List Component
later_components [] = []
later_components (p ∷ ps) =
    let rest = later_components ps in
    if p == [] || p == codes "."
    then rest
    else if p == codes ".."
    then parent_dir ∷ rest
    else normal p ∷ rest

unfoldable pub first_components : List Text → List Component
first_components [] = []
first_components (p ∷ ps) =
    if p == []
    then root_dir ∷ later_components ps
    else if p == codes "."
    then cur_dir ∷ later_components ps
    else later_components (p ∷ ps)

unfoldable pub components : Text → List Component
unfolding first_components later_components
components [] = []
components (c ∷ s) = first_components (split b'/' (c ∷ s))

abbrev pub is_normal : Component → Bool
is_normal c = elim c [ normal _ ↦ true | _ ↦ false ]

-- `char::is_control`: a code below 32, 127, or U+0080 to U+009F, which is 0xc2 and the code.
abbrev pub is_c1 : ℕ → Text → Bool
is_c1 c [] = false
is_c1 c (d ∷ s) = c == 0xc2 && between 0x80 0x9f d

unfoldable pub has_control : Text → Bool
has_control [] = false
has_control (c ∷ s) = ltb c 32 || c == 127 || is_c1 c s || has_control s

-- The reason to refuse a component of a name.
unfoldable pub refuse_component : Text → Option Text
refuse_component c =
    if c == []
    then some (codes "empty path component (leading, trailing, or doubled '/')")
    else if c == codes "." || c == codes ".."
    then some (codes "'.' and '..' path components are not allowed")
    else if ends_with (codes ".tmp") c
    then some (codes "components ending in '.tmp' collide with atomic-write temp files")
    else none

unfoldable pub refuse_components : List Text → Option Text
unfolding refuse_component
refuse_components [] = none
refuse_components (c ∷ cs) = elim (refuse_component c) [
  | some reason ↦ some reason
  | none ↦ refuse_components cs
]

abbrev pub backslash : ℕ
backslash = 92

unfoldable pub refuse_name : Text → Option Text
unfolding refuse_components has_control components
refuse_name name =
    if name == []
    then some (codes "name is empty")
    else if name == codes "HEAD"
    then some (codes "'HEAD' is reserved")
    else if any (λ c. c == backslash) name
    then some (codes "backslashes are not allowed")
    else if has_control name
    then some (codes "control characters are not allowed")
    else elim (refuse_components (split b'/' name)) [
      | some reason ↦ some reason
      | none ↦
          (if all is_normal (components name)
            then none
            else some (codes "not a plain relative path"))
    ]

unfoldable pub validate_branch_name : Text → Result Error (Unit {0})
unfolding refuse_name
validate_branch_name name = elim (refuse_name name) [
  | none ↦ ok tt
  | some reason ↦ err (invalid_branch_name name reason)
]

abbrev pub write_atomic : FilePath → Bytes → Action Disk Error (Unit {0})
write_atomic path bytes = from_io (replace path bytes)

abbrev pub head_prefix : Text
head_prefix = codes "ref: refs/heads/"

abbrev pub newline : Text
newline = 10 ∷ []

-- `fs::read_to_string`
unfoldable pub read_to_string : FilePath → Action Disk Error Text
read_to_string path = do
  bytes ← from_io (read path)
  lift (if is_utf8 bytes then ok bytes else err (io ErrorKind.other))

-- The read that a missing file turns into `None`
abbrev pub if_exists : {A : Type 0} → FilePath → Action Disk Error A → Action Disk Error (Option A)
if_exists path m d = if exists d path then (m >>= λ a. pure (some a)) d else (ok none, d)

abbrev pub parse : Hex → Text → Result Error Hash
parse x s = map_err (λ _. other) (from_str x s)

unfoldable pub parse_head : Hex → Text → Result Error HeadRef
parse_head x trimmed = elim (strip_prefix head_prefix trimmed) [
  | some rest ↦ ok (branch rest)
  | none ↦ and_then (parse x trimmed) λ h. ok (detached h)
]

module _ (r : Refs) where
  abbrev pub head_path : FilePath
  head_path = r.agentic_dir ++ (codes "HEAD" ∷ [])

  abbrev pub branch_file : Text → FilePath
  branch_file name = r.agentic_dir ++ (codes "refs" ∷ codes "heads" ∷ split b'/' name)

  unfoldable pub branch_path : Text → Result Error FilePath
  branch_path name = and_then (validate_branch_name name) λ _. ok (branch_file name)

  unfoldable pub write_head_symbolic : Text → Action Disk Error (Unit {0})
  write_head_symbolic name = do
    lift (validate_branch_name name)
    write_atomic head_path (head_prefix ++ (name ++ newline))

module _ (x : Hex) (r : Refs) where
  unfoldable pub read_head : Action Disk Error (Option HeadRef)
  unfolding read_to_string
  read_head =
      if_exists (head_path r)
        (do raw ← read_to_string (head_path r); lift (parse_head x (trim raw)))

  unfoldable pub write_branch : Text → Hash → Action Disk Error (Unit {0})
  write_branch name h = do
    path ← lift (branch_path r name)
    from_io (create_dir_all (parent path))
    write_atomic path (to_hex x h ++ newline)

  abbrev pub read_ref : FilePath → Action Disk Error (Option Hash)
  read_ref path = if_exists path (do raw ← read_to_string path; lift (parse x (trim raw)))

  unfoldable pub read_branch : Text → Action Disk Error (Option Hash)
  unfolding read_to_string
  read_branch name = do path ← lift (branch_path r name); read_ref path

  -- A text of 64 hex digits is an address.
  abbrev pub is_full_hash : Text → Bool
  is_full_hash name = length name == 64 && all is_hex_digit name

  abbrev pub read_head_ref : Option HeadRef → Action Disk Error (Option Hash)
  read_head_ref none = pure none
  read_head_ref (some (detached h)) = pure (some h)
  read_head_ref (some (branch b)) = read_branch b

  unfoldable pub resolve : Text → Action Disk Error (Option Hash)
  unfolding read_head read_branch
  resolve name =
      if name == codes "HEAD"
      then (do head ← read_head; read_head_ref head)
      else if is_full_hash name
      then (do h ← lift (parse x name); pure (some h))
      else read_branch name

-- `RefsSnapshot`: HEAD and the branches as they were
pub record RefsSnapshot : Type 0 where
  pub head : Option HeadRef
  pub branches : SortedMap Hash

abbrev pub frozen_head : RefsSnapshot → Option Hash
frozen_head s = elim s.head [
  | none ↦ none
  | some (detached h) ↦ some h
  | some (branch b) ↦ SortedMap.get s.branches b
]

-- `RefsSnapshot::resolve`
unfoldable pub resolve_frozen : Hex → RefsSnapshot → Text → Result Error (Option Hash)
resolve_frozen x s name =
    if name == codes "HEAD"
    then ok (frozen_head s)
    else if length name == 64 && all is_hex_digit name
    then and_then (map_err (λ _. other) (from_str x name)) (λ h. ok (some h))
    else ok (SortedMap.get s.branches name)
