-- ===== src/Core/Refs/Reads.antt =====
-- Reading refs changes no file.
use git_agentic.Common.{
  ◌≡◌, Bool, true, false, Option, none, some, ok, Action, lift, pure, ◌>>=◌, if◌then◌else◌, ◌==◌,
  nat_eq, list_eq,
}
use git_agentic.Common.Text.{Text, codes}
use git_agentic.External.{Hex}
use git_agentic.Common.Dict.{Dict}
use git_agentic.Fs.{Disk, Node, exists}
use git_agentic.Fs.Paths.{FilePath}
use git_agentic.Fs.ReadOnly.{
  ReadOnly, ReadOnly-pure, ReadOnly-lift, ReadOnly-bind, ReadOnly-map_err, ReadOnly-read,
}
use git_agentic.Core.Error.{Error, io}
use git_agentic.Core.Refs.{
  Refs, HeadRef, head_path, branch_path, if_exists, read_to_string, read_head, read_ref,
  read_branch, resolve, read_head_ref, parse, is_full_hash,
}

if_exists-ReadOnly :
    {A : Type 0} (p : FilePath) (m : Action Disk Error A) → ReadOnly m → ReadOnly (if_exists p m)
if_exists-ReadOnly {A} p m r = record {
  keeps = λ nodes. record { at = λ d e. go nodes d e (exists d p) };
}
  where
    some_of : ReadOnly (m >>= λ a. pure (some a))
    some_of = ReadOnly-bind m _ r (λ a. ReadOnly-pure (some a))

    go :
        (nodes : Dict FilePath Node) (d : Disk)
        → d.nodes ≡ nodes
        → (b : Bool) → (if b then (m >>= λ a. pure (some a)) d else (ok none, d)).1.nodes ≡ nodes
    go nodes d e true = (some_of.keeps nodes).at d e
    go nodes d e false = e

read_to_string-ReadOnly : (p : FilePath) → ReadOnly (read_to_string p)
unfolding read_to_string
read_to_string-ReadOnly p =
    ReadOnly-bind _ _ (ReadOnly-map_err io _ (ReadOnly-read p)) (λ b. ReadOnly-lift _)

module _ (x : Hex) (r : Refs) where
  pub read_head-ReadOnly : ReadOnly (read_head x r)
  unfolding read_head
  read_head-ReadOnly =
      if_exists-ReadOnly (head_path r) _
        (ReadOnly-bind _ _ (read_to_string-ReadOnly (head_path r)) (λ raw. ReadOnly-lift _))

  read_ref-ReadOnly : (p : FilePath) → ReadOnly (read_ref x r p)
  read_ref-ReadOnly p =
      if_exists-ReadOnly p _
        (ReadOnly-bind _ _ (read_to_string-ReadOnly p) (λ raw. ReadOnly-lift _))

  pub read_branch-ReadOnly : (name : Text) → ReadOnly (read_branch x r name)
  unfolding read_branch
  read_branch-ReadOnly name =
      ReadOnly-bind _ _ (ReadOnly-lift (branch_path r name)) read_ref-ReadOnly

  read_head_ref-ReadOnly : (h : Option HeadRef) → ReadOnly (read_head_ref x r h)
  read_head_ref-ReadOnly none = ReadOnly-pure none
  read_head_ref-ReadOnly (some (HeadRef.detached h)) = ReadOnly-pure (some h)
  read_head_ref-ReadOnly (some (HeadRef.branch b)) = read_branch-ReadOnly b

  pub resolve-ReadOnly : (name : Text) → ReadOnly (resolve x r name)
  unfolding resolve
  resolve-ReadOnly name = go (name == codes "HEAD") (is_full_hash x r name)
    where
      go :
          (head full : Bool)
          → ReadOnly (
              if head
              then (read_head x r >>= read_head_ref x r)
              else if full
              then (lift (parse x name) >>= λ h. pure (some h))
              else read_branch x r name)
      go true full = ReadOnly-bind _ _ read_head-ReadOnly read_head_ref-ReadOnly
      go false true = ReadOnly-bind _ _ (ReadOnly-lift _) (λ h. ReadOnly-pure (some h))
      go false false = read_branch-ReadOnly name
