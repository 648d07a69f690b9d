-- ===== src/Fs/Atomic.antt =====
-- Write to a temporary file beside the target, then rename it over the target: the discipline of
-- `write_atomic` in crates/agentic-core/src/refs.rs and of `write_at` in store.rs there.
use git_agentic.Common.{
  ◌≡◌, refl, ◌≢◌, Option, none, some, [], ◌∷◌, Result, ok, err, Keeps, Keeps-bind, arith, nat_eq,
  list_eq, ◌>>◌, take, continue, ◌∙◌,
}
use git_agentic.Common.Text.{Bytes}
use git_agentic.Fs.Paths.{FilePath, parent, with_extension_tmp}
use git_agentic.Fs.Effects.{
  path_eq, stat-put_node, Finds, create_dir_all-Finds, write-Finds, rename-Finds,
}
use git_agentic.Fs.{
  Node, file, dir, link, Outcome, works, fails, torn, Disk, ErrorKind, Io, stat, content, bytes_of,
  first_outcome, sys_call, create_dir_all, write, rename, written, write_bytes, drop_node,
  move_file, later, perform, move_node, move_found, other,
}

unfoldable pub replace : FilePath → Bytes → Io (Unit {0})
replace p b = do
  create_dir_all (parent p)
  write (with_extension_tmp p) b
  rename (with_extension_tmp p) p

module _ (q : FilePath) (c : Option Bytes) where
  pub replace-Finds :
      (p : FilePath) (b : Bytes)
      → p ≢ q
      → with_extension_tmp p ≢ q
      → Keeps (Finds q c) (replace p b)
  unfolding replace
  replace-Finds p b np nt =
      Keeps-bind _ _ (create_dir_all-Finds q c (parent p))
        λ _. Keeps-bind _ _ (write-Finds q c _ b nt) λ _. rename-Finds q c _ p nt np

write_bytes_ok :
    (t : FilePath) (b : Bytes) (d : Disk)
    → (write_bytes t b (ok tt) d).0 ≡ ok tt
    → content (write_bytes t b (ok tt) d).1 t ≡ some b
unfolding stat
write_bytes_ok [] b d h = cc
write_bytes_ok (c ∷ t) b d h = ground (
  arith,
  path_eq.same_iff (c ∷ t) (c ∷ t),
  stat-put_node (c ∷ t) (c ∷ t) (written b (stat d (c ∷ t))) d,
)

write_ok :
    (t : FilePath) (b : Bytes) (d : Disk)
    → (write t b d).0 ≡ ok tt
    → content (write t b d).1 t ≡ some b
unfolding write sys_call
write_ok t b d = step (first_outcome d.outcomes) (later d)
  where
    m : Outcome → Io (Unit {0})
    m o = perform o (write_bytes t b (ok tt)) (λ n. write_bytes t (take n b) (err other))

    step : (o : Outcome) (d : Disk) → (m o d).0 ≡ ok tt → content (m o d).1 t ≡ some b
    step works d h = write_bytes_ok t b d h
    step fails d h = cc
    step (torn n) d h = ground arith

move_node_ok :
    (t p : FilePath) (n : Node) (d : Disk)
    → (move_node t p n d).0 ≡ ok tt
    → content (move_node t p n d).1 p ≡ bytes_of (some n)
unfolding stat
move_node_ok t [] n d h = cc
move_node_ok t (c ∷ p) n d h =
    ground
      (arith, path_eq.same_iff (c ∷ p) (c ∷ p), stat-put_node (c ∷ p) (c ∷ p) n (drop_node t d))

-- What `rename` reports is what it did.
Reports : (p : FilePath) → Option Bytes → Disk → Result ErrorKind (Unit {0}) × Disk → Type 0
Reports p moved d r =
    (r.0 ≡ ok tt → content r.1 p ≡ moved)
    × ((e : ErrorKind) → r.0 ≡ err e → content r.1 p ≡ content d p)

move_found-Reports :
    (o : Option Node) (t p : FilePath) (d : Disk) → Reports p (bytes_of o) d (move_found o t p d)
unfolding Reports
move_found-Reports none t p d = (λ h. cc, λ e h. refl)
move_found-Reports (some dir) t p d = (λ h. cc, λ e h. refl)
move_found-Reports (some (file b)) t p d = (move_node_ok t p (file b) d, λ e h. ground arith)
move_found-Reports (some (link b)) t p d = (move_node_ok t p (link b) d, λ e h. ground arith)

stat-later : (p : FilePath) (d : Disk) → stat (later d) p ≡ stat d p
unfolding stat
stat-later [] d = refl
stat-later (c ∷ p) d = refl

rename-Reports : (t p : FilePath) (d : Disk) → Reports p (content d t) d (rename t p d)
unfolding Reports rename sys_call
rename-Reports t p d = step (first_outcome d.outcomes)
  where
    m : Outcome → Io (Unit {0})
    m o = perform o (move_file t p) (λ _ d. (err other, d))

    moved : Reports p (content (later d) t) (later d) (move_file t p (later d))
    moved = move_found-Reports (stat (later d) t) t p (later d)

    step : (o : Outcome) → Reports p (content d t) d (m o (later d))
    step works = rw (← stat-later t d, ← stat-later p d) moved
    step fails = (λ h. cc, λ e h. rw (stat-later p d))
    step (torn n) = (λ h. cc, λ e h. rw (stat-later p d))

module _ (p : FilePath) (b : Bytes) (apart : with_extension_tmp p ≢ p) where
  swapped :
      (d0 d : Disk)
      → content d p ≡ content d0 p
      → content d (with_extension_tmp p) ≡ some b
      → Reports p (some b) d0 (rename (with_extension_tmp p) p d)
  unfolding Reports
  swapped d0 d same w = (
    λ h. (rename-Reports (with_extension_tmp p) p d).0 h ∙ w,
    λ e h. (rename-Reports (with_extension_tmp p) p d).1 e h ∙ same,
  )

  filled :
      (d0 d : Disk)
      → content d p ≡ content d0 p
      → Reports p
          (some b)
          d0
          ((write (with_extension_tmp p) b >> rename (with_extension_tmp p) p) d)
  unfolding Reports
  filled d0 d same = go (write (with_extension_tmp p) b d).0 refl
    where
      d' : Disk
      d' = (write (with_extension_tmp p) b d).1

      kept : content d' p ≡ content d0 p
      kept = (write-Finds p (content d0 p) _ b apart).at d same

      go :
          (r : Result ErrorKind (Unit {0}))
          → (write (with_extension_tmp p) b d).0 ≡ r
          → Reports p (some b) d0 (continue r (λ _. rename (with_extension_tmp p) p) d')
      go (ok tt) e = swapped d0 d' kept (write_ok (with_extension_tmp p) b d e)
      go (err k) e = (λ h. cc, λ e h. kept)

  -- After a replacement the target holds the new bytes if it reported success, and what it held
  -- before if it reported a failure, at whatever call the failure came: never a torn mixture.
  pub replace-Reports :
      (d : Disk)
      → ((replace p b d).0 ≡ ok tt → content (replace p b d).1 p ≡ some b)
        × ((e : ErrorKind) → (replace p b d).0 ≡ err e → content (replace p b d).1 p ≡ content d p)
  unfolding replace Reports
  replace-Reports d = go (create_dir_all (parent p) d).0
    where
      d' : Disk
      d' = (create_dir_all (parent p) d).1

      kept : content d' p ≡ content d p
      kept = (create_dir_all-Finds p (content d p) (parent p)).at d refl

      go :
          (r : Result ErrorKind (Unit {0}))
          → Reports p (some b) d (
              continue r
                (λ _. write (with_extension_tmp p) b >> rename (with_extension_tmp p) p)
                d')
      go (ok tt) = filled d d' kept
      go (err k) = (λ h. cc, λ e h. kept)
