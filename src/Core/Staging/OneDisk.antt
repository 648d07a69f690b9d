-- ===== src/Core/Staging/OneDisk.antt =====
-- The layout of a repository: objects and refs below one directory of one disk, apart.
use git_agentic.Common.{
  and_then, ◌≡◌, refl, sym, ◌∙◌, ap, Bool, true, false, Option, [], ◌∷◌, ◌++◌, Result, ok, err, ◌≢◌,
  ◌>>=◌, ◌>>◌, lift, if◌then◌else◌, Keeps, Keeps-bind, Keeps-pure, Keeps-lift,
}
use mathlib.Core.List.{append_cancel_left, append_assoc}
use git_agentic.Common.Text.{Bytes, Text, codes}
use git_agentic.Fs.{Disk, content, exists, create_dir_all}
use git_agentic.Fs.Paths.{FilePath, parent, with_extension_tmp, with_extension_tmp-append}
use git_agentic.Fs.Effects.{Finds}
use git_agentic.Fs.Presence.{IsPresent, replace-IsPresent, create_dir_all-IsPresent}
use git_agentic.Fs.Atomic.{replace, replace-Finds}
use git_agentic.Core.Error.{Error, Keeps-from_io, from_io}
use git_agentic.Core.Hash.{Hash, of, to_hex}
use git_agentic.Core.Object.{Object, ObjectKind, hash}
use git_agentic.Core.Scanner.{ScanPolicy, Allowlist, scan}
use git_agentic.Core.Store.{
  Crates, FsObjectStore, path_for, write_at, write_absent, scan_object, fs_put_with_policy,
  fs_put_raw, admit, fs_store, fs_has,
}
use git_agentic.Core.Refs.{
  Refs, write_branch, branch_file, branch_path, validate_branch_name, newline,
}
use git_agentic.Core.Staging.{DiskOf}
use git_agentic.Core.Staging.Order.{Apart}

abbrev pub objects_of : Refs → Allowlist → FsObjectStore
objects_of r a = record { root = r.agentic_dir ++ (codes "objects" ∷ []); allowlist = a }

abbrev pub whole_disk : DiskOf Disk
whole_disk = record { disk = λ d. d; set_disk = λ d e. d }

first_apart :
    {p q : FilePath} {c : Text}
    → codes "objects" ≢ c
    → ◌≢◌ {A = FilePath} (codes "objects" ∷ p) (c ∷ q)
first_apart ne e = ne (heads e)
  where
    heads : {p q : FilePath} {b c : Text} → ◌≡◌ {A = FilePath} (b ∷ p) (c ∷ q) → b ≡ c
    heads e = cc

refs_apart : codes "objects" ≢ codes "refs"
refs_apart e = cc

module _ (x : Crates) (r : Refs) (a : Allowlist) where
  abbrev s : FsObjectStore
  s = objects_of r a

  below_objects :
      (h : Hash)
      → (p : Text) × (q : FilePath) × (path_for x s h ≡ r.agentic_dir ++ (codes "objects" ∷ p ∷ q))
  unfolding path_for
  below_objects h = (_, _, append_assoc r.agentic_dir _ _)

  -- A file of the repository that is not among the objects
  module _ (c : Text) (t : FilePath) (ne : codes "objects" ≢ c) where
    abbrev there : FilePath
    there = r.agentic_dir ++ (c ∷ t)

    path-apart : (h : Hash) → path_for x s h ≢ there
    path-apart h e =
        let (p, q, b) = below_objects h in
        first_apart ne (append_cancel_left r.agentic_dir _ _ (sym b ∙ e))

    tmp-apart : (h : Hash) → with_extension_tmp (path_for x s h) ≢ there
    unfolding with_extension_tmp
    tmp-apart h e =
        let (p, q, b) = below_objects h in
        first_apart ne (
          append_cancel_left r.agentic_dir _ _ (
            sym (
              ap with_extension_tmp b
              ∙ with_extension_tmp-append r.agentic_dir (codes "objects") (p ∷ q))
            ∙ e))

    write_absent-apart :
        (h : Hash) (b : Bytes) (v : Option Bytes)
        → Keeps (Finds there v) (write_absent x s (path_for x s h) b)
    unfolding write_at
    write_absent-apart h b v = record { at = λ d k. go d k (exists d (path_for x s h)) }
      where
        go :
            (d : Disk)
            → Finds there v d
            → (found : Bool)
            → Finds there v (if found then (ok tt, d) else write_at x s (path_for x s h) b d).1
        go d k true = k
        go d k false =
            (Keeps-from_io _ (
                replace-Finds there v (path_for x s h) (x.zstd.encode_all b) (path-apart h)
                  (tmp-apart h))).at
              d k

    pub put-apart :
        (o : Object) (policy : ScanPolicy) (v : Option Bytes)
        → Keeps (Finds there v) (fs_put_with_policy x s o policy)
    unfolding fs_put_with_policy
    put-apart o policy v = Keeps-bind _ _ (Keeps-lift (scan_object x s o policy)) λ _.
        Keeps-bind _ _ (write_absent-apart (hash x.codec o) _ v) λ _. Keeps-pure (hash x.codec o)

    pub put_raw-apart :
        (kind : ObjectKind) (b : Bytes) (v : Option Bytes)
        → Keeps (Finds there v) (fs_put_raw x s kind b)
    unfolding fs_put_raw
    put_raw-apart kind b v =
        Keeps-bind _ _ (Keeps-lift (admit x s (scan x.engine b) (of x.codec.blake3 b))) λ _.
          Keeps-bind _ _ (write_absent-apart (of x.codec.blake3 b) b v)
            λ _. Keeps-pure (of x.codec.blake3 b)

  branch_tmp-apart : (h : Hash) (n : Text) → with_extension_tmp (branch_file r n) ≢ path_for x s h
  unfolding with_extension_tmp
  branch_tmp-apart h n e =
      let (p, q, b) = below_objects h in
      first_apart refs_apart (
        append_cancel_left r.agentic_dir _ _
          (sym (sym (with_extension_tmp-append r.agentic_dir (codes "refs") _) ∙ e ∙ b)))

  write_branch-apart :
      (n : Text) (h k : Hash) → Keeps (IsPresent (path_for x s k)) (write_branch x.hex r n h)
  unfolding write_branch branch_path
  write_branch-apart n h k = go (validate_branch_name n)
    where
      file : FilePath
      file = branch_file r n

      go :
          (v : Result Error (Unit {0}))
          → Keeps (IsPresent (path_for x s k)) (
              lift (and_then v λ _. ok file) >>= λ p.
              (from_io (create_dir_all (parent p))
                >> from_io (replace p (to_hex x.hex h ++ newline))))
      go (ok u) = record {
        at = λ d f.
            (Keeps-bind _ _
                (Keeps-from_io _ (create_dir_all-IsPresent (path_for x s k) (parent file)))
                (λ _. Keeps-from_io _ (
                  replace-IsPresent (path_for x s k) file (to_hex x.hex h ++ newline)
                    (branch_tmp-apart k n)))).at
              d f;
      }
      go (err e) = record { at = λ d f. f }

  -- The store of a repository and its refs do not disturb each other: no put changes the file of a
  -- branch, and no write of a ref loses an object.
  pub fs_store-Apart : Apart (fs_store x s) whole_disk x.hex r
  unfolding fs_has
  fs_store-Apart = record {
    disk-set_disk = λ d e. refl;
    put_apart =
        λ o policy d n. (put-apart _ _ refs_apart o policy (content d (branch_file r n))).at d refl;
    write_apart = λ n h k d e. (write_branch-apart n h k).at d e;
  }
