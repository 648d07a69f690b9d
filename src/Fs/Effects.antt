-- ===== src/Fs/Effects.antt =====
-- What each call leaves alone, as rules for the invariants of actions.
use git_agentic.Common.{
  ℕ, ◌≡◌, ◌≢◌, Bool, true, false, Option, none, some, [], ◌∷◌, ◌++◌, Result, ok, err, Keeps,
  Keeps-bind, Keeps-pure, Keeps-raise, arith, nat_eq, Eq, list_eq, ◌==◌, take, Eq, if◌then◌else◌,
  ◌&&◌,
}
use git_agentic.Common.Dict.{get-insert, get-remove}
use git_agentic.Common.Text.{Bytes}
use git_agentic.Fs.Paths.{FilePath}
use git_agentic.Fs.{
  Node, file, dir, link, Outcome, works, fails, torn, Disk, ErrorKind, Io, stat, content,
  first_outcome, sys_call, create_dir, create_dirs, create_dir_all, write, rename, read,
  remove_file, put_node, written, write_bytes, drop_node, make_dir, move_file, read_bytes, unlink,
  later, perform, move_node, move_found, not_found, is_a_directory, other,
}

abbrev pub path_eq : Eq FilePath
path_eq = list_eq

abbrev pub below_root : FilePath → Bool
below_root [] = false
below_root (c ∷ p) = true

pub stat-put_node :
    (p q : FilePath) (n : Node) (d : Disk)
    → stat (put_node p n d) q ≡ (if p == q && below_root q then some n else stat d q)
unfolding stat
stat-put_node p [] n d = ground arith
stat-put_node p (c ∷ q) n d = ground (arith, get-insert d.nodes p (c ∷ q) n)

pub stat-remove :
    (p q : FilePath) (d : Disk)
    → stat (drop_node p d) q ≡ (if p == q && below_root q then none else stat d q)
unfolding stat
stat-remove p [] d = ground arith
stat-remove p (c ∷ q) d = ground (arith, get-remove d.nodes p (c ∷ q))

-- A call keeps what its run and its torn run keep, if no outcome list shows in it.
pub Keeps-sys_call :
    {A : Type 0} {P : Disk → Type 0} (run : Io A) (partial : ℕ → Io A)
    → ((d : Disk) → P d → P (later d))
    → Keeps P run
    → ((n : ℕ) → Keeps P (partial n))
    → Keeps P (sys_call run partial)
unfolding sys_call
Keeps-sys_call {A} {P} run partial quiet kr kp = record {
  at = λ d h. step (first_outcome d.outcomes) (later d) (quiet d h);
}
  where
    step : (o : Outcome) (d : Disk) → P d → P (perform o run partial d).1
    step works d h = kr.at d h
    step fails d h = h
    step (torn n) d h = (kp n).at d h

abbrev pub Finds : FilePath → Option Bytes → Disk → Type 0
Finds q c d = content d q ≡ c

module _ (q : FilePath) (c : Option Bytes) where
  quiet_Finds : (d : Disk) → Finds q c d → Finds q c (later d)
  unfolding stat
  quiet_Finds d h = stays q h
    where
      stays : (q : FilePath) → Finds q c d → Finds q c (later d)
      stays [] h = h
      stays (x ∷ q) h = h

  make_dir-Finds : (p : FilePath) → Keeps (Finds q c) (make_dir p)
  make_dir-Finds p = record {
    at = λ d h. ground (arith, path_eq.same_iff p q, stat-put_node p q dir d);
  }

  pub create_dir-Finds : (p : FilePath) → Keeps (Finds q c) (create_dir p)
  unfolding create_dir
  create_dir-Finds p =
      Keeps-sys_call (make_dir p) _ quiet_Finds (make_dir-Finds p) (λ _. Keeps-raise other)

  create_dirs-Finds : (base p : FilePath) → Keeps (Finds q c) (create_dirs base p)
  unfolding create_dirs
  create_dirs-Finds base [] = Keeps-pure tt
  create_dirs-Finds base (x ∷ p) =
      Keeps-bind _ _ (create_dir-Finds _) (λ _. create_dirs-Finds (base ++ (x ∷ [])) p)

  pub create_dir_all-Finds : (p : FilePath) → Keeps (Finds q c) (create_dir_all p)
  unfolding create_dir_all
  create_dir_all-Finds p = create_dirs-Finds [] p

  write_bytes-Finds :
      (p : FilePath) (b : Bytes) (r : Result ErrorKind (Unit {0}))
      → p ≢ q
      → Keeps (Finds q c) (write_bytes p b r)
  write_bytes-Finds p b r ne = record {
    at = λ d h. ground (arith, path_eq.same_iff p q, stat-put_node p q (written b (stat d p)) d);
  }

  pub write-Finds : (p : FilePath) (b : Bytes) → p ≢ q → Keeps (Finds q c) (write p b)
  unfolding write
  write-Finds p b ne =
      Keeps-sys_call _ _ quiet_Finds (write_bytes-Finds p b (ok tt) ne)
        (λ n. write_bytes-Finds p (take n b) (err other) ne)

  move_node-Finds :
      (p t : FilePath) (n : Node) → p ≢ q → t ≢ q → Keeps (Finds q c) (move_node p t n)
  move_node-Finds p t n np nt = record {
    at = λ d h. ground (
      arith,
      path_eq.same_iff p q,
      path_eq.same_iff t q,
      stat-put_node t q n (drop_node p d),
      stat-remove p q d,
    );
  }

  move_found-Finds :
      (o : Option Node) (p t : FilePath) → p ≢ q → t ≢ q → Keeps (Finds q c) (move_found o p t)
  move_found-Finds none p t np nt = Keeps-raise not_found
  move_found-Finds (some dir) p t np nt = Keeps-raise is_a_directory
  move_found-Finds (some (file b)) p t np nt = move_node-Finds p t (file b) np nt
  move_found-Finds (some (link b)) p t np nt = move_node-Finds p t (link b) np nt

  move_file-Finds : (p t : FilePath) → p ≢ q → t ≢ q → Keeps (Finds q c) (move_file p t)
  move_file-Finds p t np nt = record { at = λ d h. (move_found-Finds (stat d p) p t np nt).at d h }

  pub rename-Finds : (p t : FilePath) → p ≢ q → t ≢ q → Keeps (Finds q c) (rename p t)
  unfolding rename
  rename-Finds p t np nt =
      Keeps-sys_call _ _ quiet_Finds (move_file-Finds p t np nt) (λ _. Keeps-raise other)

  read_bytes-Finds : (p : FilePath) → Keeps (Finds q c) (read_bytes p)
  read_bytes-Finds p = record { at = λ d h. ground arith }

  pub read-Finds : (p : FilePath) → Keeps (Finds q c) (read p)
  unfolding read
  read-Finds p = Keeps-sys_call _ _ quiet_Finds (read_bytes-Finds p) (λ _. Keeps-raise other)

  unlink-Finds : (p : FilePath) → p ≢ q → Keeps (Finds q c) (unlink p)
  unlink-Finds p ne = record { at = λ d h. ground (arith, path_eq.same_iff p q, stat-remove p q d) }

  pub remove_file-Finds : (p : FilePath) → p ≢ q → Keeps (Finds q c) (remove_file p)
  unfolding remove_file
  remove_file-Finds p ne =
      Keeps-sys_call _ _ quiet_Finds (unlink-Finds p ne) (λ _. Keeps-raise other)
