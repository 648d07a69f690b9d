-- ===== src/Core/Store/Laws.antt =====
-- What a client of `trait ObjectStore` relies on, and that the file-system store gives it.
use git_agentic.Common.{
  ◌≡◌, Action, lift, bind-eq-ok, Bool, true, false, ok, Keeps, Keeps-bind, Keeps-lift, Keeps-pure,
  if◌then◌else◌,
}
use git_agentic.Common.Text.{Bytes}
use git_agentic.Fs.{Disk, exists}
use git_agentic.Fs.Presence.{IsPresent, replace-IsPresent}
use git_agentic.Core.Error.{Error, Keeps-from_io}
use git_agentic.Core.Hash.{Hash, of}
use git_agentic.Core.Object.{ObjectKind, Object, Codec, hash}
use git_agentic.Core.Scanner.{ScanPolicy, scan}
use git_agentic.Core.Store.Reads.{get-IsAddressed, get_raw-IsAddressed}
use git_agentic.Core.Store.Writes.{tmp-ne-path, put_has}
use git_agentic.Core.Store.{
  ObjectStore, Crates, FsObjectStore, path_for, write_at, write_absent, scan_object,
  fs_put_with_policy, fs_has, fs_store, fs_put_raw, admit,
}

pub record StoreLaws {S : Type 0} (x : Codec) (store : ObjectStore S) : Type 0 where
  pub put_address :
      (o : Object) (policy : ScanPolicy) (s : S) (h : Hash)
      → (store.put_with_policy o policy s).0 ≡ ok h
      → hash x o ≡ h
  pub put_has :
      (o : Object) (policy : ScanPolicy) (s : S) (h : Hash)
      → (store.put_with_policy o policy s).0 ≡ ok h
      → store.has (store.put_with_policy o policy s).1 h ≡ true
  pub put_keeps :
      (o : Object) (policy : ScanPolicy) (s : S) (k : Hash)
      → store.has s k ≡ true
      → store.has (store.put_with_policy o policy s).1 k ≡ true
  pub get_address : (s : S) (h : Hash) (o : Object) → (store.get h s).0 ≡ ok o → hash x o ≡ h

-- What a client relies on of segments: a put returns the address of the bytes, and a read returns
-- only bytes that have the address asked for.
pub record RawLaws {S : Type 0} (store : ObjectStore S) (address : Bytes → Hash) : Type 0 where
  pub put_raw_address :
      (b : Bytes) (s : S) (h : Hash)
      → (store.put_raw ObjectKind.segment b s).0 ≡ ok h
      → address b ≡ h
  pub get_raw_address :
      (h : Hash) (s : S) (b : Bytes) → (store.get_raw h s).0 ≡ ok b → address b ≡ h

module _ (x : Crates) (s : FsObjectStore) where
  write_at-IsPresent :
      (h k : Hash) (b : Bytes)
      → Keeps (IsPresent (path_for x s k)) (write_at x s (path_for x s h) b)
  unfolding write_at
  write_at-IsPresent h k b = Keeps-from_io _ (
      replace-IsPresent (path_for x s k) (path_for x s h) (x.zstd.encode_all b)
        (tmp-ne-path x s h k))

  write_absent-IsPresent :
      (h k : Hash) (b : Bytes)
      → Keeps (IsPresent (path_for x s k)) (write_absent x s (path_for x s h) b)
  write_absent-IsPresent h k b = record { at = λ d v. go d v (exists d (path_for x s h)) }
    where
      go :
          (d : Disk)
          → IsPresent (path_for x s k) d
          → (there : Bool)
          → IsPresent
              (path_for x s k)
              (if there then (ok tt, d) else write_at x s (path_for x s h) b d).1
      go d v true = v
      go d v false = (write_at-IsPresent h k b).at d v

  put-IsPresent :
      (o : Object) (policy : ScanPolicy) (k : Hash)
      → Keeps (IsPresent (path_for x s k)) (fs_put_with_policy x s o policy)
  unfolding fs_put_with_policy
  put-IsPresent o policy k = Keeps-bind _ _ (Keeps-lift (scan_object x s o policy)) λ _.
      Keeps-bind _ _ (write_absent-IsPresent (hash x.codec o) k _) λ _. Keeps-pure (hash x.codec o)

  -- The file-system store keeps what its trait promises: a put returns the object's address,
  -- under which the store has it from then on, no put loses an object, and what is read has the
  -- address that was asked for.
  pub fs_store-StoreLaws : StoreLaws x.codec (fs_store x s)
  unfolding fs_has
  fs_store-StoreLaws = record {
    put_address = λ o policy d h e. (put_has x s o policy h d e).0;
    put_has = λ o policy d h e. unfold fs_has in (put_has x s o policy h d e).1;
    put_keeps = λ o policy d k e. (put-IsPresent o policy k).at d e;
    get_address = λ d h o e. get-IsAddressed x s h d o e;
  }

  pub fs_store-RawLaws : RawLaws (fs_store x s) (of x.codec.blake3)
  unfolding fs_put_raw
  fs_store-RawLaws = record {
    put_raw_address = λ b d h e.
        let scanned : Action Disk Error (Unit {0}) =
          lift (admit x s (scan x.engine b) (of x.codec.blake3 b)) in
        let (u, passed, later) = bind-eq-ok scanned _ d e in
        let (v, written, last) =
          bind-eq-ok (write_absent x s (path_for x s (of x.codec.blake3 b)) b) _ d later in
        cc last;
    get_raw_address = λ h d b e. get_raw-IsAddressed x s h d b e;
  }
