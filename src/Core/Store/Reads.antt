-- ===== src/Core/Store/Reads.antt =====
-- What a read of the store returns.
use git_agentic.Common.{
  ◌≡◌, Bool, true, false, Option, ok, err, bind-eq-ok, lift, arith, eq_of_==, nat_eq, list_eq,
  if◌then◌else◌, Keeps, Keeps-bind, Keeps-lift,
}
use git_agentic.Common.Text.{Bytes}
use git_agentic.Common.Dict.{Dict}
use git_agentic.Fs.{Disk, Node, exists}
use git_agentic.Fs.ReadOnly.{
  ReadOnly, ReadOnly-bind, ReadOnly-lift, ReadOnly-map_err, ReadOnly-read,
}
use git_agentic.Fs.Paths.{FilePath}
use git_agentic.Fs.Effects.{Finds, read-Finds}
use git_agentic.Core.Error.{Keeps-from_io, not_found, io}
use git_agentic.Core.Hash.{Hash, of}
use git_agentic.Core.Object.{Object, hash}
use git_agentic.Core.Store.{
  Crates, FsObjectStore, decode_checked, bytes_checked, path_for, read_present, read_at, fs_get,
  fs_get_raw,
}

module _ (x : Crates) (s : FsObjectStore) (h : Hash) where
  decode_checked_ok : (b : Bytes) (o : Object) → decode_checked x s h b ≡ ok o → hash x.codec o ≡ h
  unfolding decode_checked
  decode_checked_ok b o e = grind (arith, λ (p : Object). eq_of_== (hash x.codec p) h)

  -- Whatever the disk holds, an object that `get` returns has the address that was asked for.
  pub get-IsAddressed : (d : Disk) (o : Object) → (fs_get x s h d).0 ≡ ok o → hash x.codec o ≡ h
  unfolding fs_get
  get-IsAddressed d o e =
      let (b, _, decoded) =
        bind-eq-ok (read_present x s h) (λ b. lift (decode_checked x s h b)) d e in
      decode_checked_ok b o decoded

  bytes_checked_ok : (b c : Bytes) → bytes_checked x s h b ≡ ok c → of x.codec.blake3 c ≡ h
  unfolding bytes_checked
  bytes_checked_ok b c e = ground (arith, eq_of_== (of x.codec.blake3 b) h)

  -- So do the bytes that `get_raw` returns.
  pub get_raw-IsAddressed :
      (d : Disk) (b : Bytes) → (fs_get_raw x s h d).0 ≡ ok b → of x.codec.blake3 b ≡ h
  unfolding fs_get_raw
  get_raw-IsAddressed d b e =
      let (a, _, checked) =
        bind-eq-ok (read_present x s h) (λ b. lift (bytes_checked x s h b)) d e in
      bytes_checked_ok a b checked

module _ (x : Crates) (s : FsObjectStore) (q : FilePath) (c : Option Bytes) where
  read_at-Finds : (p : FilePath) → Keeps (Finds q c) (read_at x s p)
  unfolding read_at
  read_at-Finds p = Keeps-bind _ _ (Keeps-from_io _ (read-Finds q c p)) (λ b. Keeps-lift _)

  read_present-Finds : (h : Hash) → Keeps (Finds q c) (read_present x s h)
  read_present-Finds h = record { at = λ d f. step d f (exists d (path_for x s h)) }
    where
      step :
          (d : Disk)
          → Finds q c d
          → (b : Bool)
          → Finds q c (if b then read_at x s (path_for x s h) d else (err (not_found h), d)).1
      step d f true = (read_at-Finds (path_for x s h)).at d f
      step d f false = f

  -- Reading changes nothing that a reader finds.
  pub get-Finds : (h : Hash) → Keeps (Finds q c) (fs_get x s h)
  unfolding fs_get
  get-Finds h = Keeps-bind _ _ (read_present-Finds h) λ b. Keeps-lift (decode_checked x s h b)

  pub get_raw-Finds : (h : Hash) → Keeps (Finds q c) (fs_get_raw x s h)
  unfolding fs_get_raw
  get_raw-Finds h = Keeps-bind _ _ (read_present-Finds h) λ b. Keeps-lift (bytes_checked x s h b)

-- Reading an object changes nothing on the disk.
module _ (x : Crates) (s : FsObjectStore) where
  read_at-ReadOnly : (p : FilePath) → ReadOnly (read_at x s p)
  unfolding read_at
  read_at-ReadOnly p =
      ReadOnly-bind _ _ (ReadOnly-map_err io _ (ReadOnly-read p)) (λ b. ReadOnly-lift _)

  read_present-ReadOnly : (h : Hash) → ReadOnly (read_present x s h)
  read_present-ReadOnly h = record {
    keeps = λ nodes. record { at = λ d e. go nodes d e (exists d (path_for x s h)) };
  }
    where
      go :
          (nodes : Dict FilePath Node) (d : Disk)
          → d.nodes ≡ nodes
          → (b : Bool)
          → (if b then read_at x s (path_for x s h) d else (err (not_found h), d)).1.nodes ≡ nodes
      go nodes d e true = ((read_at-ReadOnly (path_for x s h)).keeps nodes).at d e
      go nodes d e false = e

  pub get-ReadOnly : (h : Hash) → ReadOnly (fs_get x s h)
  unfolding fs_get
  get-ReadOnly h = ReadOnly-bind _ _ (read_present-ReadOnly h) (λ b. ReadOnly-lift _)
