-- ===== src/Core/Refs/Writes.antt =====
-- A branch ref is written whole or not at all, disturbs no other ref, and reads back.
use git_agentic.Common.{
  ℕ, ◌≡◌, ◌≢◌, refl, sym, ◌∙◌, ap, true, Option, some, [], ◌++◌, Result, ok, err, Action, and_then,
  map_err, lift, nat_eq, list_eq, all, length, arith, Keeps, Keeps-bind, ◌>>◌, continue, bind-ok,
  bind-eq-ok,
}
use git_agentic.Common.Text.{Bytes, Text, is_utf8, is_utf8_from, utf8_follow, is_hex_digit}
use git_agentic.Common.Text.Laws.{trim-digits, is_utf8-digits}
use git_agentic.External.{Hex, HexLaws}
use git_agentic.Fs.{Disk, ErrorKind, works, exists, content, first_outcome, read, create_dir_all}
use git_agentic.Fs.Paths.{FilePath, parent, with_extension_tmp}
use git_agentic.Fs.Effects.{Finds, create_dir_all-Finds}
use git_agentic.Fs.Atomic.{replace, replace-Finds, replace-Reports}
use git_agentic.Core.Error.{Error, io, from_io, Keeps-from_io}
use git_agentic.Core.Hash.{Hash, IsHash, to_hex, from_str-to_hex, length-to_hex}
use git_agentic.Core.Store.RoundTrip.{read_lem}
use git_agentic.Core.Refs.Files.{
  Valid, tmp-ne-branch_file, head-ne-branch_file, tmp-ne-head, branch_file-injective,
}
use git_agentic.Core.Refs.{
  Refs, validate_branch_name, write_atomic, read_to_string, newline, head_path, branch_file,
  branch_path, write_branch, read_branch, read_ref,
}

module _ (x : Hex) (r : Refs) where
  branch_path_lem : (n : Text) → Valid r n → branch_path r n ≡ ok (branch_file r n)
  unfolding branch_path
  branch_path_lem n v = rw v

  write_at_file : FilePath → Hash → Action Disk Error (Unit {0})
  write_at_file p h = from_io (create_dir_all (parent p)) >> write_atomic p (to_hex x h ++ newline)

  write_branch_lem :
      (n : Text) (h : Hash) (d : Disk)
      → Valid r n
      → write_branch x r n h d ≡ write_at_file (branch_file r n) h d
  unfolding write_branch write_at_file
  write_branch_lem n h d v =
      bind-ok (lift (branch_path r n)) (λ p. write_at_file p h) d (branch_path_lem n v)

  -- A write that succeeded was to a valid branch.
  pub write_branch_valid :
      (n : Text) (h : Hash) (d : Disk)
      → (write_branch x r n h d).0 ≡ ok tt
      → validate_branch_name n ≡ ok tt
  unfolding write_branch branch_path
  write_branch_valid n h d e =
      let (p, v, _) =
        bind-eq-ok (lift (branch_path r n))
          (λ p. from_io (create_dir_all (parent p)) >> write_atomic p (to_hex x h ++ newline)) d
          e in
      go (validate_branch_name n) (v)
    where
      go :
          (v : Result Error (Unit {0})) {p : FilePath}
          → and_then v (λ _. ok (branch_file r n)) ≡ ok p
          → v ≡ ok tt
      go (ok tt) e = refl
      go (err k) e = cc

  write_at_file-Finds :
      (p q : FilePath) (h : Hash) (c : Option Bytes)
      → p ≢ q
      → with_extension_tmp p ≢ q
      → Keeps (Finds q c) (write_at_file p h)
  unfolding write_at_file
  write_at_file-Finds p q h c ne nt =
      Keeps-bind _ _ (Keeps-from_io _ (create_dir_all-Finds q c (parent p)))
        λ _. Keeps-from_io _ (replace-Finds q c p (to_hex x h ++ newline) ne nt)

  -- Whatever the result of a write to a valid branch, and whatever system call fails: every other
  -- branch's file and the file of HEAD hold what they held.
  pub write_branch_frame :
      (n m : Text) (h : Hash) (d : Disk)
      → validate_branch_name n ≡ ok tt
      → validate_branch_name m ≡ ok tt
      → n ≢ m
      → (content (write_branch x r n h d).1 (branch_file r m) ≡ content d (branch_file r m))
        × (content (write_branch x r n h d).1 (head_path r) ≡ content d (head_path r))
  write_branch_frame n m h d vn vm ne = rw (write_branch_lem n h d vn) (
    (write_at_file-Finds _ _ h _ (λ e. ne (branch_file-injective r n m e))
          (tmp-ne-branch_file r n m vn vm)).at
        d refl,
    (write_at_file-Finds _ _ h _ (λ e. head-ne-branch_file r n (sym e)) (tmp-ne-head r n)).at d
        refl,
  )

  module _ (n : Text) (h : Hash) (vn : validate_branch_name n ≡ ok tt) where
    abbrev line : Bytes
    line = to_hex x h ++ newline

    Reports : Disk → Result Error (Unit {0}) × Disk → Type 0
    Reports d w =
        (w.0 ≡ ok tt → content w.1 (branch_file r n) ≡ some line)
        × ((e : Error) → w.0 ≡ err e → content w.1 (branch_file r n) ≡ content d (branch_file r n))

    write_atomic-Reports :
        (d0 d : Disk)
        → content d (branch_file r n) ≡ content d0 (branch_file r n)
        → Reports d0 (write_atomic (branch_file r n) line d)
    unfolding Reports
    write_atomic-Reports d0 d same =
        go (replace (branch_file r n) line d).0 _
          (replace-Reports (branch_file r n) line (tmp-ne-branch_file r n n vn vn) d)
      where
        go :
            (t : Result ErrorKind (Unit {0})) (d' : Disk)
            → ((t ≡ ok tt → content d' (branch_file r n) ≡ some line)
                × ((e : ErrorKind)
                    → t ≡ err e
                    → content d' (branch_file r n) ≡ content d (branch_file r n)))
            → Reports d0 (map_err io t, d')
        go (ok tt) d' k = (λ e. k.0 refl, λ e f. cc)
        go (err q) d' k = (λ e. cc, λ e f. k.1 q refl ∙ same)

    -- A write to a valid branch that reports success leaves the address and a line end in the
    -- branch's file, and one that reports a failure leaves what was there before it.
    pub write_branch-Reports :
        (d : Disk)
        → ((write_branch x r n h d).0 ≡ ok tt
            → content (write_branch x r n h d).1 (branch_file r n) ≡ some (to_hex x h ++ newline))
          × ((e : Error)
              → (write_branch x r n h d).0 ≡ err e
              → content (write_branch x r n h d).1 (branch_file r n) ≡ content d (branch_file r n))
    unfolding Reports write_at_file
    write_branch-Reports d =
        rw (write_branch_lem n h d vn) (go (create_dir_all (parent (branch_file r n)) d).0)
      where
        d' : Disk
        d' = (create_dir_all (parent (branch_file r n)) d).1

        kept : content d' (branch_file r n) ≡ content d (branch_file r n)
        kept =
            (create_dir_all-Finds (branch_file r n) (content d (branch_file r n))
                (parent (branch_file r n))).at
              d refl

        go :
            (t : Result ErrorKind (Unit {0}))
            → Reports d (continue (map_err io t) (λ _. write_atomic (branch_file r n) line) d')
        go (ok tt) = write_atomic-Reports d d' kept
        go (err k) = (λ e. cc, λ e f. kept)

    module _ (laws : HexLaws x) (v : IsHash h) where
      digits : all is_hex_digit (to_hex x h) ≡ true
      unfolding to_hex
      digits = laws.encode_digits h v.1

      filled : to_hex x h ≢ []
      filled e = cc (ap (length {A = ℕ}) e, length-to_hex x laws h v)

      line-is_utf8 : is_utf8 line ≡ true
      line-is_utf8 =
          is_utf8-digits (to_hex x h) newline digits
          ∙ (unfold is_utf8 is_utf8_from utf8_follow in refl)

      read_to_string_lem :
          (p : FilePath) (d : Disk)
          → first_outcome d.outcomes ≡ works
          → content d p ≡ some line
          → (read_to_string p d).0 ≡ ok line
      unfolding read_to_string
      read_to_string_lem p d w c =
          ap (λ (t : Result Error Text × Disk). t.0)
            (bind-ok (from_io (read p)) _ d (ap (map_err io) (read_lem p line d w c)))
          ∙ rw line-is_utf8

      read_ref_lem :
          (p : FilePath) (d : Disk)
          → first_outcome d.outcomes ≡ works
          → content d p ≡ some line
          → (read_ref x r p d).0 ≡ ok (some h)
      read_ref_lem p d w c = rw (
        there,
        read_to_string_lem p d w c,
        trim-digits (to_hex x h) digits filled,
        from_str-to_hex x laws h v,
      )
        where
          there : exists d p ≡ true
          there = ground arith

      -- What was written to a valid branch is what `read_branch` returns, if the next call of the
      -- system works.
      pub read_branch-write_branch :
          (d : Disk)
          → (write_branch x r n h d).0 ≡ ok tt
          → first_outcome (write_branch x r n h d).1.outcomes ≡ works
          → (read_branch x r n (write_branch x r n h d).1).0 ≡ ok (some h)
      unfolding read_branch
      read_branch-write_branch d e w =
          ap (λ (t : Result Error (Option Hash) × Disk). t.0)
            (bind-ok (lift (branch_path r n)) (read_ref x r) _ (branch_path_lem n vn))
          ∙ read_ref_lem (branch_file r n) (write_branch x r n h d).1 w
              ((write_branch-Reports d).0 e)
