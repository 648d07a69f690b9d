-- ===== src/Core/Store/RoundTrip.antt =====
-- What was put is what `get` returns, what the scanner refused is not put, and the laws that
-- clients of the trait rely on.
use git_agentic.Common.{
  ◌≡◌, ◌≢◌, refl, ap, ◌∙◌, true, false, Option, some, List, [], ◌∷◌, Result, ok, err, lift, arith,
  nat_eq, list_eq, ==_refl, ◌⊎◌, inl, inr, ok_or, map_err, bind-ok,
}
use mathlib.Core.Path.{subst}
use git_agentic.Common.Text.{Bytes}
use git_agentic.Fs.{Disk, works, exists, read, content, stat, first_outcome, sys_call}
use git_agentic.Fs.Paths.{FilePath}
use git_agentic.External.{ZstdLaws, SerdeLaws}
use git_agentic.Core.Error.{Error, io, other, from_io, secret_detected}
use git_agentic.Core.Hash.{Hash}
use git_agentic.Core.Object.{Object, hash, Blob}
use git_agentic.Core.Scanner.{ScanPolicy, Hit, contains, scan_with}
use git_agentic.Core.Store.Writes.{written_lem, exists_of_content, Stored, put-Stored}
use git_agentic.Core.Store.{
  Crates, FsObjectStore, check_integrity, decode_checked, path_for, read_present, read_at, admit,
  scan_object, fs_put_with_policy, fs_get,
}

pub read_lem :
    (p : FilePath) (b : Bytes) (d : Disk)
    → first_outcome d.outcomes ≡ works
    → content d p ≡ some b
    → (read p d).0 ≡ ok b
unfolding read sys_call stat
read_lem [] b d w h = cc
read_lem (c ∷ p) b d w h = rw w (ground arith)

module _ (x : Crates) (s : FsObjectStore) where
  admit_ok :
      (hits : List Hit) (h : Hash)
      → admit x s hits h ≡ ok tt
      → (hits ≡ []) ⊎ (contains s.allowlist h ≡ true)
  admit_ok [] h e = inl refl
  admit_ok (hit ∷ hits) h e = inr (ground arith)

  admitted :
      (b : Blob) (policy : ScanPolicy) (h : Hash) (d : Disk) {d' : Disk}
      → Stored x s (Object.blob b) policy h d d'
      → (scan_with x.engine b.bytes policy ≡ []) ⊎ (contains s.allowlist h ≡ true)
  unfolding scan_object
  admitted b policy h d v =
      subst
        (λ (t : Hash). (scan_with x.engine b.bytes policy ≡ []) ⊎ (contains s.allowlist t ≡ true))
        v.address (admit_ok _ _ v.admitted)

  -- A blob with a hit whose address is not in the allowlist is refused, and nothing at all is
  -- written; a blob that was put had no hit, or an address in the allowlist.
  pub put_blob_gate :
      (b : Blob) (policy : ScanPolicy) (d : Disk)
      → let hits = scan_with x.engine b.bytes policy in
        (hits ≢ []
          → contains s.allowlist (hash x.codec (Object.blob b)) ≡ false
          → fs_put_with_policy x s (Object.blob b) policy d ≡ (err (secret_detected hits), d))
        × ((h : Hash)
            → (fs_put_with_policy x s (Object.blob b) policy d).0 ≡ ok h
            → (hits ≡ []) ⊎ (contains s.allowlist h ≡ true))
  unfolding fs_put_with_policy scan_object
  put_blob_gate b policy d = (
    λ found listed. ground arith,
    λ h e. admitted b policy h d (put-Stored x s (Object.blob b) policy h d e),
  )

  module _ (zstd_laws : ZstdLaws x.zstd) (json_laws : SerdeLaws x.codec.object_json) where
    decode_stored :
        (o : Object) → decode_checked x s (hash x.codec o) (x.codec.object_json.to_vec o) ≡ ok o
    unfolding decode_checked check_integrity
    decode_stored o = rw (json_laws.from_slice-to_vec o, ==_refl (hash x.codec o))

    read_present_lem :
        (h : Hash) (b : Bytes) (d : Disk)
        → first_outcome d.outcomes ≡ works
        → content d (path_for x s h) ≡ some (x.zstd.encode_all b)
        → (read_present x s h d).0 ≡ ok b
    unfolding read_at
    read_present_lem h b d w c =
        let r : (from_io (read (path_for x s h)) d).0 ≡ ok (x.zstd.encode_all b) =
          ap (map_err io) (read_lem (path_for x s h) _ d w c) in
        rw (exists_of_content x s d (path_for x s h) _ c) (
          ap (λ (t : Result Error Bytes × Disk). t.0)
            (bind-ok (from_io (read (path_for x s h)))
              (λ z. lift (ok_or (x.zstd.decode_all z) other)) d r)
          ∙ ap (λ (t : Option Bytes). ok_or t other) (zstd_laws.decode_all-encode_all b))

    Stored-content :
        (o : Object) (policy : ScanPolicy) (h : Hash) (d : Disk) {d' : Disk}
        → exists d (path_for x s (hash x.codec o)) ≡ false
        → Stored x s o policy h d d'
        → content d' (path_for x s (hash x.codec o))
          ≡ some (x.zstd.encode_all (x.codec.object_json.to_vec o))
    Stored-content o policy h d absent v =
        subst
          (λ (t : Disk).
            content t (path_for x s (hash x.codec o))
            ≡ some (x.zstd.encode_all (x.codec.object_json.to_vec o)))
          v.left
          (rw absent (
            written_lem x s (hash x.codec o) (x.codec.object_json.to_vec o) d
              (rw absent at v.reported)))

    -- An object that was not in the store and was put is what `get` returns, if the next call of
    -- the system works.
    pub get-put :
        (o : Object) (policy : ScanPolicy) (h : Hash) (d : Disk)
        → exists d (path_for x s (hash x.codec o)) ≡ false
        → (fs_put_with_policy x s o policy d).0 ≡ ok h
        → first_outcome (fs_put_with_policy x s o policy d).1.outcomes ≡ works
        → (fs_get x s h (fs_put_with_policy x s o policy d).1).0 ≡ ok o
    unfolding fs_get
    get-put o policy h d absent e w =
        let v = put-Stored x s o policy h d e in
        rw (← v.address) (
          ap (λ (t : Result Error Object × Disk). t.0)
            (bind-ok (read_present x s (hash x.codec o))
              (λ b. lift (decode_checked x s (hash x.codec o) b)) _
              (read_present_lem (hash x.codec o) _ _ w (Stored-content o policy h d absent v)))
          ∙ decode_stored o)
