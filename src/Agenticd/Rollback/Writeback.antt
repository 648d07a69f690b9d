-- ===== src/Agenticd/Rollback/Writeback.antt =====
-- crates/agenticd/src/rollback/writeback.rs: the prompts of a commit on the disk again, and the
-- trees of a commit as maps. Warnings in the log are left out.
use git_agentic.Common.{
  ℕ, suc, Bool, true, false, Option, none, some, List, [], ◌∷◌, ◌++◌, Result, ok, err, Action, pure,
  raise, lift, ◌>>=◌, ◌>>◌, ◌==◌, nat_eq, list_eq, if◌then◌else◌, all, any,
}
use git_agentic.Common.SortedMap
use git_agentic.Common.SortedMap.{SortedMap}
use git_agentic.Common.Text.{Bytes, Text, codes, arrow, is_utf8}
use git_agentic.Fs.{
  Node, dir, link, Disk, ErrorKind, Io, write, rename, remove_file, create_dir_all, not_found,
}
use git_agentic.Fs.Listing.{read_dir, symlink_metadata, remove_dir, longest}
use git_agentic.Fs.Paths.{FilePath, parent, with_extension_tmp}
use git_agentic.Core.Hash.{Hash, to_hex}
use git_agentic.Core.Object.{Commit, TypedRef, ObjectKind}
use git_agentic.Core.Refs.{Component, components, is_normal, normal}
use git_agentic.Core.Refs.Listing.{joined}
use git_agentic.Core.Staging.{on_disk}
use git_agentic.Agenticd.Failure.{Failure, Root, anyhow, rooted, with_context}
use git_agentic.Agenticd.Daemon.{Outside, DaemonState}
use git_agentic.Agenticd.Rollback.Loaders.{load_tree, load_blob}

-- Actions on the disk alone, with the daemon's errors
abbrev pub DiskAction : Type 0 → Type 0
DiskAction A = Action Disk Failure A

abbrev pub io : {A : Type 0} → Io A → DiskAction A
io m = rooted Root.io m

-- `path.display()`, of an absolute path
abbrev pub shown : FilePath → Text
shown p = b'/' ∷ joined p

-- What `symlink_metadata` found
abbrev pub clear_link : FilePath → Result ErrorKind Node → DiskAction (Unit {0})
clear_link path (ok (link _)) =
    with_context (codes "removing pre-existing symlink at " ++ shown path) (io (remove_file path))
clear_link path (ok _) = pure tt
clear_link path (err not_found) = pure tt
clear_link path (err e) =
    with_context (codes "checking for symlink at " ++ (shown path ++ codes " before prompt write"))
      (io (raise e))

unfoldable pub write_blob_safely : FilePath → Bytes → DiskAction (Unit {0})
write_blob_safely path bytes = do
  found ← (λ d. (ok (symlink_metadata path d).0, (symlink_metadata path d).1))
  clear_link path found
  with_context (codes "writing temp file " ++ shown (with_extension_tmp path))
      (io (write (with_extension_tmp path) bytes))
  with_context
      (codes "renaming "
        ++ (shown (with_extension_tmp path) ++ (codes " " ++ (arrow ++ (codes " " ++ shown path)))))
      (io (rename (with_extension_tmp path) path))

-- The path that a name with normal components alone stands for, below a directory
unfoldable pub normal_parts : List Component → FilePath
normal_parts [] = []
normal_parts (normal c ∷ cs) = c ∷ normal_parts cs
normal_parts (_ ∷ cs) = normal_parts cs

unfoldable pub entry_path : FilePath → Text → FilePath
unfolding normal_parts components
entry_path prompts name = prompts ++ normal_parts (components name)

unfoldable pub validate_tree_entry_name : (Text → Text) → Text → Result Failure (Unit {0})
unfolding components
validate_tree_entry_name debug name =
    if name == []
    then err (anyhow (codes "tree entry has empty name"))
    else if all is_normal (components name)
    then ok tt
    else err (
        anyhow (
          codes "tree entry name "
          ++ (debug name
              ++ codes
                  " contains an unsafe path component; only relative names without '..' or absolute prefixes are allowed")))

module _ (root : FilePath) (wanted : List FilePath) where
  -- `if let Err(e) = remove_dir(..)`: a failure is logged.
  abbrev pub try_remove_dir : FilePath → DiskAction (Unit {0})
  try_remove_dir p d = (ok tt, (remove_dir p d).1)

  -- A directory below the root that has become empty
  unfoldable pub remove_if_empty : FilePath → DiskAction (Unit {0})
  remove_if_empty p =
      if p == root
      then pure tt
      else (do left ← io (read_dir p); elim left [ [] ↦ try_remove_dir p | _ ∷ _ ↦ pure tt ])

  unfoldable pub sweep_file : FilePath → DiskAction (Unit {0})
  sweep_file p =
      if any (λ w. w == p) wanted
      then pure tt
      else with_context (codes "removing orphan prompt " ++ shown p) (io (remove_file p))

  unfoldable pub sweep_entries :
      (FilePath → DiskAction (Unit {0})) → List FilePath → DiskAction (Unit {0})
  unfolding remove_if_empty sweep_file
  sweep_entries sweep [] = pure tt
  sweep_entries sweep (p ∷ ps) = do
    n ← io (symlink_metadata p)
    elim n [ dir ↦ (sweep p >> remove_if_empty p) | _ ↦ sweep_file p ]
    sweep_entries sweep ps

  -- The fuel bounds the depth.
  unfoldable pub sweep_orphans : ℕ → FilePath → DiskAction (Unit {0})
  unfolding sweep_entries
  sweep_orphans ℕ.zero here = raise (anyhow (codes "too deep"))
  sweep_orphans (ℕ.suc fuel) here = do
    ps ← io (read_dir here)
    sweep_entries (sweep_orphans fuel) ps

-- No directory is deeper than the longest path.
unfoldable pub sweep_all : FilePath → List FilePath → DiskAction (Unit {0})
unfolding sweep_orphans
sweep_all prompts wanted d = sweep_orphans prompts wanted (suc (longest d.nodes)) prompts d

module _ {S : Type 0} (o : Outside S) (st : DaemonState S) where
  -- The loop over the entries, which returns the paths that it has written
  unfoldable pub restore_entries :
      FilePath → List (Text × TypedRef) → Action S Failure (List FilePath)
  unfolding validate_tree_entry_name entry_path write_blob_safely
  restore_entries prompts [] = pure []
  restore_entries prompts ((name, r) ∷ entries) = do
    lift (validate_tree_entry_name o.fmt.debug name)
    on_disk st.disk (io (create_dir_all (parent (entry_path prompts name))))
    blob ← load_blob o st r.hash
    on_disk st.disk (write_blob_safely (entry_path prompts name) blob.bytes)
    wanted ← restore_entries prompts entries
    pure (entry_path prompts name ∷ wanted)

  unfoldable pub restore_prompts : FilePath → Hash → Action S Failure (Unit {0})
  unfolding restore_entries sweep_all
  restore_prompts repo prompts_hash = do
    on_disk st.disk (io (create_dir_all (repo ++ (codes "prompts" ∷ []))))
    tree ← load_tree o st prompts_hash
    wanted ← restore_entries (repo ++ (codes "prompts" ∷ [])) tree.entries
    on_disk st.disk (sweep_all (repo ++ (codes "prompts" ∷ [])) wanted)

  abbrev pub blob_kind : TypedRef → Bool
  blob_kind r = elim r.kind [ ObjectKind.blob ↦ true | _ ↦ false ]

  abbrev pub require_blob : Hash → Text → TypedRef → Result Failure (Unit {0})
  require_blob h name r =
      if blob_kind r
      then ok tt
      else err (anyhow (codes "non-blob entry " ++ (name ++ (codes " in tree " ++ to_hex o.hex h))))

  unfoldable pub read_entries :
      Hash → List (Text × TypedRef) → SortedMap Bytes → Action S Failure (SortedMap Bytes)
  read_entries h [] out = pure out
  read_entries h ((name, r) ∷ entries) out = do
    lift (require_blob h name r)
    blob ← load_blob o st r.hash
    read_entries h entries (SortedMap.insert out name blob.bytes)

  unfoldable pub tree_to_map : Hash → Action S Failure (SortedMap Bytes)
  unfolding read_entries
  tree_to_map h = do tree ← load_tree o st h; read_entries h tree.entries []

  unfoldable pub read_text_blobs : Option Hash → Action S Failure (SortedMap Bytes)
  unfolding tree_to_map
  read_text_blobs none = pure []
  read_text_blobs (some h) = tree_to_map h

  unfoldable pub read_model_text : Commit → Action S Failure (Option Text)
  read_model_text target = elim target.model [
    | none ↦ pure none
    | some h ↦ (do
      blob ← load_blob o st h
      with_context (codes "model blob at " ++ (to_hex o.hex h ++ codes " contains invalid UTF-8")) (
          rooted (λ (u : Unit {0}). Root.utf8)
            (lift (if is_utf8 blob.bytes then ok tt else err tt)))
      pure (some blob.bytes))
  ]
