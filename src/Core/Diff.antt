-- ===== src/Core/Diff.antt =====
-- crates/agentic-core/src/diff.rs: what differs between two commits, one dimension after another.
pub mod Entries
pub mod Same
use git_agentic.Common.{
  ℕ, ◌≡◌, Bool, true, false, ◌&&◌, Option, none, some, List, [], ◌∷◌, ◌++◌, Result, ok, err, Action,
  pure, raise, lift, ◌>>=◌, ◌>>◌, ◌==◌, nat_eq, list_eq, option_eq, if◌then◌else◌,
}
use git_agentic.Common.SortedMap
use git_agentic.Common.SortedMap.{SortedMap, keys}
use git_agentic.Common.Text.{Bytes, Text}
use git_agentic.Core.Error.{Error, kind_mismatch}
use git_agentic.Core.Hash.{Hash}
use git_agentic.Core.Object.{Blob, Tree, Commit, Object, ObjectKind, TypedRef, kind}
use git_agentic.Core.Store.{ObjectStore, is_empty}

pub record StringChange : Type 0 where
  pub from : Option Text
  pub to : Option Text

pub record HashChange : Type 0 where
  pub from : Option Hash
  pub to : Option Hash

pub record TreeEntry : Type 0 where
  pub name : Text
  pub hash : Hash

pub record TreeModification : Type 0 where
  pub name : Text
  pub from : Hash
  pub to : Hash

pub record TreeDiff : Type 0 where
  pub added : List TreeEntry
  pub removed : List TreeEntry
  pub modified : List TreeModification

pub record CommitDiff : Type 0 where
  pub from : Hash
  pub to : Hash
  pub code_sha : Option StringChange
  pub prompts : Option TreeDiff
  pub tools : Option TreeDiff
  pub model : Option StringChange
  pub memory_snapshot : Option HashChange
  pub schema_version : Option StringChange

abbrev pub is_none {ℓ} : {A : Type ℓ} → Option A → Bool
is_none none = true
is_none (some _) = false

-- `CommitDiff::is_empty`
unfoldable pub commit_diff_is_empty : CommitDiff → Bool
commit_diff_is_empty d =
    is_none d.code_sha
    && is_none d.prompts
    && is_none d.tools
    && is_none d.model
    && is_none d.memory_snapshot
    && is_none d.schema_version

-- `TreeDiff::is_empty`
unfoldable pub tree_diff_is_empty : TreeDiff → Bool
tree_diff_is_empty d = is_empty d.added && is_empty d.removed && is_empty d.modified

unfoldable pub string_change : Option Text → Option Text → Option StringChange
string_change a b = if a == b then none else some (record { from = a; to = b })

unfoldable pub hash_change : Option Hash → Option Hash → Option HashChange
hash_change a b = if a == b then none else some (record { from = a; to = b })

abbrev pub no_diff : TreeDiff
no_diff = record { added = []; removed = []; modified = [] }

-- One turn of the loop over the names, before the later turns
abbrev pub classify : Text → Option TypedRef → Option TypedRef → TreeDiff → TreeDiff
classify name none none d = d
classify name none (some b) d = record d { added = record { name = name; hash = b.hash } ∷ d.added }
classify name (some a) none d = record d {
  removed = record { name = name; hash = a.hash } ∷ d.removed;
}
classify name (some a) (some b) d =
    if a.hash == b.hash
    then d
    else record d { modified = record { name = name; from = a.hash; to = b.hash } ∷ d.modified }

unfoldable pub diff_names : SortedMap TypedRef → SortedMap TypedRef → List Text → TreeDiff
diff_names a b [] = no_diff
diff_names a b (name ∷ names) =
    let later = diff_names a b names in
    classify name (SortedMap.get a name) (SortedMap.get b name) later

-- The set of names, as the keys of a map
unfoldable pub add_names : List Text → SortedMap (Unit {0}) → SortedMap (Unit {0})
add_names [] m = m
add_names (n ∷ ns) m = SortedMap.insert (add_names ns m) n tt

unfoldable pub diff_entries : SortedMap TypedRef → SortedMap TypedRef → TreeDiff
unfolding add_names diff_names
diff_entries a b = diff_names a b (keys (add_names (keys a) (add_names (keys b) [])))

abbrev pub load_commit_object : Object → Result Error Commit
load_commit_object (Object.commit c) = ok c
load_commit_object o = err (kind_mismatch ObjectKind.commit (kind o))

abbrev pub load_tree_object : Object → Result Error Tree
load_tree_object (Object.tree t) = ok t
load_tree_object o = err (kind_mismatch ObjectKind.tree (kind o))

abbrev pub load_blob_object : Object → Result Error Blob
load_blob_object (Object.blob b) = ok b
load_blob_object o = err (kind_mismatch ObjectKind.blob (kind o))

abbrev pub some_diff : TreeDiff → Option TreeDiff
some_diff d = if tree_diff_is_empty d then none else some d

module _ {S : Type 0} (store : ObjectStore S) where
  unfoldable pub load_commit : Hash → Action S Error Commit
  load_commit h = do o ← store.get h; lift (load_commit_object o)

  unfoldable pub load_tree : Hash → Action S Error Tree
  load_tree h = do o ← store.get h; lift (load_tree_object o)

  unfoldable pub load_blob : Hash → Action S Error Blob
  load_blob h = do o ← store.get h; lift (load_blob_object o)

  abbrev pub load_entries : Option Hash → Action S Error (SortedMap TypedRef)
  load_entries none = pure []
  load_entries (some h) = do t ← load_tree h; pure t.entries

  unfoldable pub diff_tree : Option Hash → Option Hash → Action S Error (Option TreeDiff)
  unfolding load_tree diff_entries tree_diff_is_empty
  diff_tree a b = if a == b then pure none else (do
    a_entries ← load_entries a
    b_entries ← load_entries b
    pure (some_diff (diff_entries a_entries b_entries)))

  -- `String::from_utf8_lossy` is a parameter.
  abbrev pub to_str : (Bytes → Text) → Option Hash → Action S Error (Option Text)
  to_str lossy none = pure none
  to_str lossy (some h) = do b ← load_blob h; pure (some (lossy b.bytes))

  unfoldable pub diff_model_blob :
      (Bytes → Text) → Option Hash → Option Hash → Action S Error (Option StringChange)
  unfolding load_blob string_change
  diff_model_blob lossy a b =
      if a == b
      then pure none
      else (do a_str ← to_str lossy a; b_str ← to_str lossy b; pure (string_change a_str b_str))

  -- What `diff` makes of the two commits
  abbrev pub diff_loaded :
      (Bytes → Text) → Hash → Hash → Commit → Commit → Action S Error CommitDiff
  diff_loaded lossy from to a b = do
    prompts ← diff_tree a.prompts b.prompts
    tools ← diff_tree a.tools b.tools
    model ← diff_model_blob lossy a.model b.model
    pure (record {
      from = from;
      to = to;
      code_sha = string_change a.code_sha b.code_sha;
      prompts = prompts;
      tools = tools;
      model = model;
      memory_snapshot = hash_change a.memory_snapshot b.memory_snapshot;
      schema_version = string_change a.schema_version b.schema_version;
    })

  unfoldable pub diff : (Bytes → Text) → Hash → Hash → Action S Error CommitDiff
  unfolding load_commit diff_tree diff_model_blob string_change hash_change
  diff lossy from to = do a ← load_commit from; b ← load_commit to; diff_loaded lossy from to a b
