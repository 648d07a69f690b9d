-- ===== src/Fs/ReadOnly.antt =====
-- Calls that change nothing in the tree: only the outcomes to come are used up.
use git_agentic.Common.{
  ◌≡◌, Result, Action, pure, raise, lift, ◌>>=◌, map_err, Keeps, Keeps-bind, Keeps-lift, Keeps-pure,
  Keeps-raise, arith,
}
use git_agentic.Common.Dict.{Dict}
use git_agentic.Fs.{sys_call, Node, Disk, Io, read, read_bytes, other}
use git_agentic.Fs.Effects.{Keeps-sys_call}
use git_agentic.Fs.Listing.{read_dir, list_dir, symlink_metadata, node_of}
use git_agentic.Fs.Paths.{FilePath}

-- The tree is the same behind the action, whether it succeeds or fails.
pub record ReadOnly {E A : Type 0} (m : Action Disk E A) : Type 0 where
  pub keeps : (nodes : Dict FilePath Node) → Keeps (λ d. d.nodes ≡ nodes) m

module _ {E A : Type 0} where
  pub ReadOnly-pure : (a : A) → ReadOnly {E = E} (pure a)
  ReadOnly-pure a = record { keeps = λ nodes. Keeps-pure a }

  pub ReadOnly-raise : (e : E) → ReadOnly {A = A} (raise e)
  ReadOnly-raise e = record { keeps = λ nodes. Keeps-raise e }

  pub ReadOnly-lift : (r : Result E A) → ReadOnly (lift r)
  ReadOnly-lift r = record { keeps = λ nodes. Keeps-lift r }

  pub ReadOnly-bind :
      {B : Type 0} (m : Action Disk E A) (f : A → Action Disk E B)
      → ReadOnly m
      → ((a : A) → ReadOnly (f a))
      → ReadOnly (m >>= f)
  ReadOnly-bind m f rm rf = record {
    keeps = λ nodes. Keeps-bind m f (rm.keeps nodes) (λ a. (rf a).keeps nodes);
  }

  pub ReadOnly-map_err :
      {F : Type 0} (f : E → F) (m : Action Disk E A)
      → ReadOnly m
      → ReadOnly {E = F} {A = A} (λ d. (map_err f (m d).0, (m d).1))
  ReadOnly-map_err f m r = record { keeps = λ nodes. record { at = (r.keeps nodes).at } }

-- A run that returns the disk that it was given
pub ReadOnly-at : {E A : Type 0} (m : Action Disk E A) → ((d : Disk) → (m d).1 ≡ d) → ReadOnly m
ReadOnly-at m same = record { keeps = λ nodes. record { at = λ d e. rw (same d) e } }

read_bytes_same : (p : FilePath) (d : Disk) → (read_bytes p d).1 ≡ d
read_bytes_same p d = ground arith

list_dir_same : (p : FilePath) (d : Disk) → (list_dir p d).1 ≡ d
list_dir_same p d = ground arith

node_of_same : (p : FilePath) (d : Disk) → (node_of p d).1 ≡ d
node_of_same p d = ground arith

ReadOnly-call :
    {A : Type 0} (run : Io A) → ReadOnly run → ReadOnly (sys_call run (λ _. raise other))
ReadOnly-call run r = record {
  keeps = λ nodes. Keeps-sys_call run _ (λ d e. e) (r.keeps nodes) (λ _. Keeps-raise other);
}

pub ReadOnly-read : (p : FilePath) → ReadOnly (read p)
unfolding read
ReadOnly-read p = ReadOnly-call (read_bytes p) (ReadOnly-at _ (read_bytes_same p))

pub ReadOnly-read_dir : (p : FilePath) → ReadOnly (read_dir p)
unfolding read_dir
ReadOnly-read_dir p = ReadOnly-call (list_dir p) (ReadOnly-at _ (list_dir_same p))

pub ReadOnly-symlink_metadata : (p : FilePath) → ReadOnly (symlink_metadata p)
unfolding symlink_metadata
ReadOnly-symlink_metadata p = ReadOnly-call (node_of p) (ReadOnly-at _ (node_of_same p))
