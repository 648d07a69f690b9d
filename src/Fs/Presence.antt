-- ===== src/Fs/Presence.antt =====
-- What is there stays there, but for the file that a rename moves away.
use git_agentic.Common.{
  ◌≡◌, ◌≢◌, true, Option, none, some, [], ◌∷◌, ◌++◌, Result, ok, err, Keeps, Keeps-bind, Keeps-pure,
  Keeps-raise, arith, nat_eq, list_eq, take,
}
use git_agentic.Common.Text.{Bytes}
use git_agentic.Fs.Paths.{FilePath, parent, with_extension_tmp}
use git_agentic.Fs.Effects.{path_eq, stat-put_node, stat-remove, Keeps-sys_call}
use git_agentic.Fs.Atomic.{replace}
use git_agentic.Fs.{
  Node, file, dir, link, Disk, ErrorKind, stat, exists, create_dir, create_dirs, create_dir_all,
  write, rename, written, write_bytes, drop_node, make_dir, move_file, later, move_node, move_found,
  not_found, is_a_directory, other,
}

abbrev pub IsPresent : FilePath → Disk → Type 0
IsPresent q d = exists d q ≡ true

module _ (q : FilePath) where
  quiet : (d : Disk) → IsPresent q d → IsPresent q (later d)
  unfolding stat
  quiet d h = stays q h
    where
      stays : (q : FilePath) → IsPresent q d → IsPresent q (later d)
      stays [] h = h
      stays (x ∷ q) h = h

  create_dir-IsPresent : (p : FilePath) → Keeps (IsPresent q) (create_dir p)
  unfolding create_dir
  create_dir-IsPresent p =
      Keeps-sys_call (make_dir p) _ quiet
        (record { at = λ d h. ground (arith, stat-put_node p q dir d) }) (λ _. Keeps-raise other)

  create_dirs-IsPresent : (base p : FilePath) → Keeps (IsPresent q) (create_dirs base p)
  unfolding create_dirs
  create_dirs-IsPresent base [] = Keeps-pure tt
  create_dirs-IsPresent base (x ∷ p) =
      Keeps-bind _ _ (create_dir-IsPresent _) (λ _. create_dirs-IsPresent (base ++ (x ∷ [])) p)

  pub create_dir_all-IsPresent : (p : FilePath) → Keeps (IsPresent q) (create_dir_all p)
  unfolding create_dir_all
  create_dir_all-IsPresent p = create_dirs-IsPresent [] p

  write_bytes-IsPresent :
      (p : FilePath) (b : Bytes) (r : Result ErrorKind (Unit {0}))
      → Keeps (IsPresent q) (write_bytes p b r)
  write_bytes-IsPresent p b r = record {
    at = λ d h. ground (arith, stat-put_node p q (written b (stat d p)) d);
  }

  write-IsPresent : (p : FilePath) (b : Bytes) → Keeps (IsPresent q) (write p b)
  unfolding write
  write-IsPresent p b =
      Keeps-sys_call _ _ quiet (write_bytes-IsPresent p b (ok tt))
        (λ n. write_bytes-IsPresent p (take n b) (err other))

  move_node-IsPresent : (p t : FilePath) (n : Node) → p ≢ q → Keeps (IsPresent q) (move_node p t n)
  move_node-IsPresent p t n ne = record {
    at = λ d h.
        ground
          (arith, path_eq.same_iff p q, stat-put_node t q n (drop_node p d), stat-remove p q d);
  }

  move_found-IsPresent :
      (o : Option Node) (p t : FilePath) → p ≢ q → Keeps (IsPresent q) (move_found o p t)
  move_found-IsPresent none p t ne = Keeps-raise not_found
  move_found-IsPresent (some dir) p t ne = Keeps-raise is_a_directory
  move_found-IsPresent (some (file b)) p t ne = move_node-IsPresent p t (file b) ne
  move_found-IsPresent (some (link b)) p t ne = move_node-IsPresent p t (link b) ne

  rename-IsPresent : (p t : FilePath) → p ≢ q → Keeps (IsPresent q) (rename p t)
  unfolding rename
  rename-IsPresent p t ne =
      Keeps-sys_call (move_file p t) _ quiet
        (record { at = λ d h. (move_found-IsPresent (stat d p) p t ne).at d h })
        (λ _. Keeps-raise other)

  pub replace-IsPresent :
      (p : FilePath) (b : Bytes) → with_extension_tmp p ≢ q → Keeps (IsPresent q) (replace p b)
  unfolding replace
  replace-IsPresent p b ne = Keeps-bind _ _ (create_dir_all-IsPresent (parent p)) λ _.
      Keeps-bind _ _ (write-IsPresent (with_extension_tmp p) b)
        λ _. rename-IsPresent (with_extension_tmp p) p ne
