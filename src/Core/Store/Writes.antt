-- ===== src/Core/Store/Writes.antt =====
-- What a write to the store leaves behind, on success and on failure.
use git_agentic.Common.{
  ◌≡◌, ◌≢◌, refl, sym, ap, ◌∙◌, Action, Bool, true, false, Option, some, [], ◌∷◌, ◌++◌, Result, ok,
  err, arith, nat_eq, list_eq, if◌then◌else◌, Keeps, Keeps-bind, Keeps-lift, Keeps-pure, ◌>>◌, pure,
  map_err, continue,
}
use mathlib.Core.List.{append_cancel_left}
use mathlib.Core.Path.{subst}
use git_agentic.Common.Text.{Bytes, Text, codes}
use git_agentic.Fs.{Disk, exists, content}
use git_agentic.Fs.Paths.{
  FilePath, with_extension_tmp, with_extension_tmp-append, tmp_name_ne, file_stem,
}
use git_agentic.Fs.Effects.{Finds}
use git_agentic.Fs.Atomic.{replace-Finds, replace-Reports}
use git_agentic.Core.Error.{Error, io, Keeps-from_io}
use git_agentic.Core.Hash.{Hash, of, shard}
use git_agentic.Core.Object.{Object, ObjectKind, hash}
use git_agentic.Core.Scanner.{ScanPolicy, scan}
use git_agentic.Core.Store.{
  Crates, FsObjectStore, path_for, write_at, write_absent, admit, scan_object, fs_put_with_policy,
  fs_put_raw, fs_has,
}

module _ (x : Crates) (s : FsObjectStore) where
  -- The temporary file of one object is the file of no object.
  pub tmp-ne-path : (h k : Hash) → with_extension_tmp (path_for x s h) ≢ path_for x s k
  unfolding path_for with_extension_tmp
  tmp-ne-path h k e =
      let (prefix, rest) = shard x.hex h in
      let (prefix', rest') = shard x.hex k in
      tmp_name_ne (file_stem (rest ++ codes ".zst")) rest' b'.' b'z' b's' b't' (λ p. omega arith)
        (last_name (
          append_cancel_left s.root _ _
            (sym (with_extension_tmp-append s.root prefix ((rest ++ codes ".zst") ∷ [])) ∙ e)))
    where
      last_name : {a b : Text} {p q : Text} → ◌≡◌ {A = FilePath} (a ∷ p ∷ []) (b ∷ q ∷ []) → p ≡ q
      last_name e = cc

  pub exists_of_content :
      (d : Disk) (p : FilePath) (c : Bytes) → content d p ≡ some c → exists d p ≡ true
  exists_of_content d p c e = ground arith

  map_err_ok : (r : Result _ (Unit {0})) → map_err io r ≡ ok tt → r ≡ ok tt
  map_err_ok (ok tt) e = refl
  map_err_ok (err k) e = cc

  -- The branch of `write_absent` that its test takes.
  abbrev write_if : Bool → FilePath → Bytes → Disk → Result Error (Unit {0}) × Disk
  write_if there p b d = if there then (ok tt, d) else write_at x s p b d

  pub written_lem :
      (h : Hash) (b : Bytes) (d : Disk)
      → (write_at x s (path_for x s h) b d).0 ≡ ok tt
      → content (write_at x s (path_for x s h) b d).1 (path_for x s h) ≡ some (x.zstd.encode_all b)
  unfolding write_at
  written_lem h b d e =
      (replace-Reports (path_for x s h) (x.zstd.encode_all b) (tmp-ne-path h h) d).0
        (map_err_ok _ e)

  write_absent_ok :
      (h : Hash) (b : Bytes) (d : Disk)
      → (write_absent x s (path_for x s h) b d).0 ≡ ok tt
      → exists (write_absent x s (path_for x s h) b d).1 (path_for x s h) ≡ true
  write_absent_ok h b d = go (exists d (path_for x s h)) refl
    where
      go :
          (there : Bool)
          → exists d (path_for x s h) ≡ there
          → (write_if there (path_for x s h) b d).0 ≡ ok tt
          → exists (write_if there (path_for x s h) b d).1 (path_for x s h) ≡ true
      go true e r = e
      go false e r = exists_of_content _ _ _ (written_lem h b d r)

  write_at-Finds :
      (h k : Hash) (b : Bytes) (c : Option Bytes)
      → path_for x s h ≢ path_for x s k
      → Keeps (Finds (path_for x s k) c) (write_at x s (path_for x s h) b)
  unfolding write_at
  write_at-Finds h k b c ne =
      Keeps-from_io _ (
        replace-Finds (path_for x s k) c (path_for x s h) (x.zstd.encode_all b) ne
          (tmp-ne-path h k))

  write_absent-Finds :
      (h k : Hash) (b c : Bytes)
      → Keeps (Finds (path_for x s k) (some c)) (write_absent x s (path_for x s h) b)
  write_absent-Finds h k b c = record { at = λ d f. go d f (exists d (path_for x s h)) refl }
    where
      go :
          (d : Disk)
          → content d (path_for x s k) ≡ some c
          → (there : Bool) → exists d (path_for x s h) ≡ there
          → content (write_if there (path_for x s h) b d).1 (path_for x s k) ≡ some c
      go d f true e = f
      go d f false e =
          (write_at-Finds h k b (some c)
              (λ p. cc (e, exists_of_content d (path_for x s k) c f, ap (exists d) p))).at
            d f

  -- An object that is in the store stays as it is, whatever is put and whether that succeeds.
  put-Finds :
      (o : Object) (policy : ScanPolicy) (k : Hash) (c : Bytes)
      → Keeps (Finds (path_for x s k) (some c)) (fs_put_with_policy x s o policy)
  unfolding fs_put_with_policy
  put-Finds o policy k c = Keeps-bind _ _ (Keeps-lift (scan_object x s o policy)) λ _.
      Keeps-bind _ _ (write_absent-Finds (hash x.codec o) k _ c) λ _. Keeps-pure (hash x.codec o)

  pub put_raw-Finds :
      (kind : ObjectKind) (b : Bytes) (k : Hash) (c : Bytes)
      → Keeps (Finds (path_for x s k) (some c)) (fs_put_raw x s kind b)
  unfolding fs_put_raw
  put_raw-Finds kind b k c =
      Keeps-bind _ _ (Keeps-lift (admit x s (scan x.engine b) (of x.codec.blake3 b))) λ _.
        Keeps-bind _ _ (write_absent-Finds (of x.codec.blake3 b) k _ c)
          λ _. Keeps-pure (of x.codec.blake3 b)

  -- What a successful put was let pass by, what it wrote, and what it returned.
  pub record Stored (o : Object) (policy : ScanPolicy) (h : Hash) (d d' : Disk) : Type 0 where
    pub admitted : scan_object x s o policy ≡ ok tt
    pub address : hash x.codec o ≡ h
    pub reported :
        (write_absent x s (path_for x s (hash x.codec o)) (x.codec.object_json.to_vec o) d).0
        ≡ ok tt
    pub left :
        (write_absent x s (path_for x s (hash x.codec o)) (x.codec.object_json.to_vec o) d).1 ≡ d'

  pub put-Stored :
      (o : Object) (policy : ScanPolicy) (h : Hash) (d : Disk)
      → (fs_put_with_policy x s o policy d).0 ≡ ok h
      → Stored o policy h d (fs_put_with_policy x s o policy d).1
  unfolding fs_put_with_policy
  put-Stored o policy h d = scanned (scan_object x s o policy) refl
    where
      write : Action Disk Error (Unit {0})
      write = write_absent x s (path_for x s (hash x.codec o)) (x.codec.object_json.to_vec o)

      wrote :
          scan_object x s o policy ≡ ok tt
          → (w : Result Error (Unit {0})) → (write d).0 ≡ w
          → (continue w (λ _. pure (hash x.codec o)) (write d).1).0 ≡ ok h
          → Stored o policy h d (continue w (λ _. pure (hash x.codec o)) (write d).1).1
      wrote a (ok tt) r e = record { admitted = a; address = cc; reported = r; left = refl }
      wrote a (err k) r e = cc

      scanned :
          (a : Result Error (Unit {0}))
          → scan_object x s o policy ≡ a
          → (continue a (λ _. write >> pure (hash x.codec o)) d).0 ≡ ok h
          → Stored o policy h d (continue a (λ _. write >> pure (hash x.codec o)) d).1
      scanned (ok tt) a e = wrote a (write d).0 refl e
      scanned (err k) a e = cc

  -- A successful put returns the object's address, and the store then has it.
  pub put_has :
      (o : Object) (policy : ScanPolicy) (h : Hash) (d : Disk)
      → (fs_put_with_policy x s o policy d).0 ≡ ok h
      → (hash x.codec o ≡ h) × (fs_has x s (fs_put_with_policy x s o policy d).1 h ≡ true)
  unfolding fs_has
  put_has o policy h d e =
      let v = put-Stored o policy h d e in
      (
        v.address,
        subst (λ (t : Hash). exists (fs_put_with_policy x s o policy d).1 (path_for x s t) ≡ true)
            v.address
            (subst (λ (t : Disk). exists t (path_for x s (hash x.codec o)) ≡ true) v.left
              (write_absent_ok (hash x.codec o) _ d v.reported)),
      )
