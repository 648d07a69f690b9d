-- ===== src/Fs/Depth.antt =====
-- How deep a walk over directories can go, and walks that agree on a tree.
use git_agentic.Common.{
  ℕ, suc, ◌≤◌, ◌≡◌, refl, sym, ◌∙◌, Bool, true, false, List, [], ◌∷◌, Result, ok, err, Action,
  raise, ◌>>=◌, continue, map, length, ltb, filter, All, ap, arith, if◌then◌else◌, eq_of_==, nat_eq,
  list_eq,
}
use git_agentic.Common.Dict.{Dict}
use git_agentic.Common.Text.{Text}
use git_agentic.Fs.{
  Node, Disk, Outcome, works, fails, torn, first_outcome, later, perform, sys_call, other,
}
use git_agentic.Fs.Listing.{children, is_child, list_dir, read_dir, longest}
use git_agentic.Fs.Paths.{FilePath, parent}
use git_agentic.Fs.ReadOnly.{ReadOnly}

-- A path one step below a directory, no longer than the longest of a tree
abbrev pub OneBelow : FilePath → ℕ → FilePath → Type 0
OneBelow here limit p = (length p ≡ suc (length here)) × (length p ≤ limit)

length-parent : (c : Text) (p : FilePath) → suc (length (parent (c ∷ p))) ≡ length (c ∷ p)
unfolding parent
length-parent c [] = refl
length-parent c (d ∷ p) = ap suc (length-parent d p)

child_length : (here p : FilePath) → is_child here p ≡ true → length p ≡ suc (length here)
child_length here [] e = cc
child_length here (c ∷ p) e =
    let same : parent (c ∷ p) ≡ here = eq_of_== (parent (c ∷ p)) here e in
    omega (arith, length-parent c p, ap (λ (q : FilePath). length q) same)

filter-All :
    (here : FilePath) (limit : ℕ) (ps : List FilePath)
    → All (λ (p : FilePath). length p ≤ limit) ps
    → All (OneBelow here limit) (filter (is_child here) ps)
unfolding filter
filter-All here limit [] h = tt
filter-All here limit (p ∷ ps) h = go (filter-All here limit ps h.1) (is_child here p) refl
  where
    go :
        All (OneBelow here limit) (filter (is_child here) ps)
        → (b : Bool) → is_child here p ≡ b
        → All
            (OneBelow here limit)
            (elim b [ true ↦ p ∷ filter (is_child here) ps | false ↦ filter (is_child here) ps ])
    go rest true e = ((child_length here p e, h.0), rest)
    go rest false e = rest

All-le :
    (ps : List FilePath) (a b : ℕ)
    → a ≤ b
    → All (λ (p : FilePath). length p ≤ a) ps
    → All (λ (p : FilePath). length p ≤ b) ps
All-le [] a b h hs = tt
All-le (p ∷ ps) a b h hs = (omega (arith, hs.0), All-le ps a b h hs.1)

paths_le :
    (nodes : Dict FilePath Node)
    → All (λ (p : FilePath). length p ≤ longest nodes) (map (λ e. e.0) nodes)
unfolding longest
paths_le [] = tt
paths_le ((p, n) ∷ nodes) = go (paths_le nodes) (ltb (longest nodes) (length p)) refl
  where
    go :
        All (λ (q : FilePath). length q ≤ longest nodes) (map (λ e. e.0) nodes)
        → (b : Bool) → ltb (longest nodes) (length p) ≡ b
        → All
            (λ (q : FilePath). length q ≤ (if b then length p else longest nodes))
            (p ∷ map (λ e. e.0) nodes)
    go rest true e = (omega arith, All-le _ (longest nodes) (length p) (ground arith) rest)
    go rest false e = (ground arith, rest)

listed_children :
    (here : FilePath) (d : Disk) (ps : List FilePath)
    → (list_dir here d).0 ≡ ok ps
    → children here d.nodes ≡ ps
listed_children here d ps e = ground arith

-- What `read_dir` lists is one step below the directory, and no longer than the longest path.
pub read_dir_below :
    (here : FilePath) (d : Disk) (ps : List FilePath)
    → (read_dir here d).0 ≡ ok ps
    → All (OneBelow here (longest d.nodes)) ps
unfolding read_dir sys_call children
read_dir_below here d ps h = go (first_outcome d.outcomes) h
  where
    go :
        (o : Outcome)
        → (perform o (list_dir here) (λ _. raise other) (later d)).0 ≡ ok ps
        → All (OneBelow here (longest d.nodes)) ps
    go works h =
        let same : children here d.nodes ≡ ps = listed_children here (later d) ps h in
        rw (sym same)
          (filter-All here (longest d.nodes) (map (λ e. e.0) d.nodes) (paths_le d.nodes))
    go fails h = cc
    go (torn n) h = cc

-- Two actions that do the same on every disk with a tree
pub record Agrees {E A : Type 0} (nodes : Dict FilePath Node) (m w : Action Disk E A) : Type 0 where
  pub at : (d : Disk) → d.nodes ≡ nodes → m d ≡ w d

pub Agrees-refl :
    {E A : Type 0} {nodes : Dict FilePath Node} (m : Action Disk E A) → Agrees nodes m m
Agrees-refl m = record { at = λ d e. refl }

-- Chains agree whose first parts agree and only read, if what follows agrees on what those yield.
pub Agrees-bind :
    {E A B : Type 0} {nodes : Dict FilePath Node} {P : A → Type 0} (m w : Action Disk E A)
    (f g : A → Action Disk E B)
    → ReadOnly m
    → Agrees nodes m w
    → ((d : Disk) (a : A) → d.nodes ≡ nodes → (m d).0 ≡ ok a → P a)
    → ((a : A) → P a → Agrees nodes (f a) (g a))
    → Agrees nodes (m >>= f) (w >>= g)
Agrees-bind {E} {A} {nodes = nodes} m w f g r mw gives same = record {
  at = λ d e.
      go d e (m d).0 (m d).1 refl ((r.keeps nodes).at d e)
      ∙ ap (λ (x : Result E A × Disk). continue x.0 g x.1) (mw.at d e);
}
  where
    go :
        (d : Disk)
        → d.nodes ≡ nodes
        → (x : Result E A) (t : Disk) → (m d).0 ≡ x
        → t.nodes ≡ nodes
        → continue x f t ≡ continue x g t
    go d e (ok a) t h k = (same a (gives d a e h)).at t k
    go d e (err x) t h k = refl
