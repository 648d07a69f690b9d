-- ===== src/Core/Refs/Failures.antt =====
-- What a write of a ref leaves alone, whether its branch is valid or not.
use git_agentic.Common.{
  ◌≡◌, ◌≢◌, refl, sym, ◌∙◌, Bool, true, false, Option, [], ◌∷◌, ◌++◌, Result, ok, err, and_then,
  lift, nat_eq, list_eq, ◌==◌, eq_of_==, ==_refl, Keeps, Keeps-bind, Keeps-lift, ◌>>=◌, ◌>>◌,
}
use mathlib.Core.List.{append_cancel_left}
use git_agentic.Common.Text.{Bytes, Text, codes}
use git_agentic.External.{Hex}
use git_agentic.Fs.{Disk, content, create_dir_all}
use git_agentic.Fs.Paths.{FilePath, parent, with_extension_tmp, with_extension_tmp-append}
use git_agentic.Fs.Effects.{Finds, create_dir_all-Finds}
use git_agentic.Fs.Atomic.{replace, replace-Finds}
use git_agentic.Core.Error.{Error, from_io, Keeps-from_io}
use git_agentic.Core.Hash.{Hash, to_hex}
use git_agentic.Core.Refs.{
  Refs, validate_branch_name, branch_file, branch_path, head_path, write_branch, newline,
  write_head_symbolic, head_prefix,
}
use git_agentic.Core.Refs.Files.{head-ne-branch_file, tmp-ne-head}
use git_agentic.Core.Refs.Writes.{write_branch_frame, write_branch-Reports}

module _ (x : Hex) (r : Refs) where
  -- A write to a name that is no branch stops before the disk.
  write_branch_invalid :
      (n : Text) (h : Hash) (d : Disk) (e : Error)
      → validate_branch_name n ≡ err e
      → write_branch x r n h d ≡ (err e, d)
  unfolding write_branch branch_path
  write_branch_invalid n h d e v = rw v

  -- A write that fails leaves the file of every branch as it was.
  pub write_branch_failed :
      (n m : Text) (h : Hash) (d : Disk) (e : Error)
      → validate_branch_name m ≡ ok tt
      → (write_branch x r n h d).0 ≡ err e
      → content (write_branch x r n h d).1 (branch_file r m) ≡ content d (branch_file r m)
  write_branch_failed n m h d e vm w = go (validate_branch_name n) refl
    where
      same_or_not :
          validate_branch_name n ≡ ok tt
          → (b : Bool) → (n == m) ≡ b
          → content (write_branch x r n h d).1 (branch_file r m) ≡ content d (branch_file r m)
      same_or_not vn true q = rw (← eq_of_== n m q) ((write_branch-Reports x r n h vn d).1 e w)
      same_or_not vn false q = (write_branch_frame x r n m h d vn vm (λ k. cc (==_refl m))).0

      go :
          (v : Result Error (Unit {0}))
          → validate_branch_name n ≡ v
          → content (write_branch x r n h d).1 (branch_file r m) ≡ content d (branch_file r m)
      go (ok u) q = same_or_not q (n == m) refl
      go (err k) q = rw (write_branch_invalid n h d k q)

  -- A write of a branch, whatever becomes of it, does not touch HEAD.
  pub write_branch-head :
      (n : Text) (h : Hash) (c : Option Bytes)
      → Keeps (Finds (head_path r) c) (write_branch x r n h)
  unfolding write_branch branch_path
  write_branch-head n h c = go (validate_branch_name n)
    where
      file : FilePath
      file = branch_file r n

      go :
          (v : Result Error (Unit {0}))
          → Keeps (Finds (head_path r) c) (
              lift (and_then v λ _. ok file) >>= λ p.
              (from_io (create_dir_all (parent p)) >> from_io (replace p (to_hex x h ++ newline))))
      go (ok u) = record {
        at = λ d f.
            (Keeps-bind _ _ (Keeps-from_io _ (create_dir_all-Finds (head_path r) c (parent file)))
                (λ _. Keeps-from_io _ (
                  replace-Finds (head_path r) c file (to_hex x h ++ newline)
                    (λ e. head-ne-branch_file r n (sym e)) (tmp-ne-head r n)))).at
              d f;
      }
      go (err e) = record { at = λ d f. f }

module _ (r : Refs) where
  head_tmp-ne-branch_file : (m : Text) → with_extension_tmp (head_path r) ≢ branch_file r m
  unfolding with_extension_tmp
  head_tmp-ne-branch_file m e = longer (
      append_cancel_left r.agentic_dir _ _
        (sym (with_extension_tmp-append r.agentic_dir (codes "HEAD") []) ∙ e))
    where
      longer : {a b c : Text} {p : FilePath} → ◌≡◌ {A = FilePath} (a ∷ []) (b ∷ c ∷ p) → ⊥
      longer e = cc

  -- A write of HEAD, whatever becomes of it, does not touch a branch.
  pub write_head_symbolic-branch :
      (n m : Text) (c : Option Bytes) → Keeps (Finds (branch_file r m) c) (write_head_symbolic r n)
  unfolding write_head_symbolic
  write_head_symbolic-branch n m c = Keeps-bind _ _ (Keeps-lift (validate_branch_name n)) λ u.
      Keeps-from_io _ (
        replace-Finds (branch_file r m) c (head_path r) (head_prefix ++ (n ++ newline))
          (head-ne-branch_file r m) (head_tmp-ne-branch_file m))
