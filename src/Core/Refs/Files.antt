-- ===== src/Core/Refs/Files.antt =====
-- The files of the refs and their temporary files are apart from each other.
use git_agentic.Common.{
  ◌≡◌, ◌≢◌, refl, sym, ◌∙◌, ap, [], ◌∷◌, ◌++◌, ok, ◌==◌, nat_eq, list_eq, All, Bool-cases, inl, inr,
}
use mathlib.Core.List.{append_cancel_left}
use git_agentic.Common.Text.{Text, codes, ends_with, split, split_from}
use git_agentic.Common.Text.Laws.{ends_with-append, split-injective}
use git_agentic.Fs.Paths.{
  FilePath, with_extension_tmp, with_extension_tmp-append, file_stem, tmp_suffix,
}
use git_agentic.Core.Refs.Names.{IsPlain, validate_branch_name_iff}
use git_agentic.Core.Refs.{Refs, validate_branch_name, head_path, branch_file}

-- The temporary file of a branch is the file of no branch.
tmp-ne-plain : (c : Text) (cs qs : FilePath) → All IsPlain qs → with_extension_tmp (c ∷ cs) ≢ qs
unfolding with_extension_tmp
tmp-ne-plain c [] [] v e = cc
tmp-ne-plain c (d ∷ cs) [] v e = cc
tmp-ne-plain c [] (q ∷ qs) v e =
    cc (
      v.0.no_tmp,
      ends_with-append tmp_suffix (file_stem c),
      ap (ends_with tmp_suffix) (first_eq e),
    )
  where
    first_eq : {a b : Text} {p q : FilePath} → ◌≡◌ {A = FilePath} (a ∷ p) (b ∷ q) → a ≡ b
    first_eq e = cc
tmp-ne-plain c (d ∷ cs) (q ∷ qs) v e = tmp-ne-plain d cs qs v.1 (cc)

split_from_cases :
    (piece s : Text) → (c : Text) × (cs : FilePath) × (split_from b'/' piece s ≡ c ∷ cs)
unfolding split_from
split_from_cases piece [] = (piece, [], refl)
split_from_cases piece (x ∷ s) = elim (Bool-cases (x == b'/')) [
  | inl e ↦ (piece, split_from b'/' [] s, rw (e, split_from))
  | inr e ↦
      let (c, cs, h) = split_from_cases (piece ++ (x ∷ [])) s in (c, cs, rw (e, split_from, h))
]

split_cases : (name : Text) → (c : Text) × (cs : FilePath) × (split b'/' name ≡ c ∷ cs)
unfolding split
split_cases name = split_from_cases [] name

module _ (r : Refs) where
  abbrev pub Valid : Text → Type 0
  Valid name = validate_branch_name name ≡ ok tt

  pub tmp-ne-branch_file :
      (n m : Text) → Valid n → Valid m → with_extension_tmp (branch_file r n) ≢ branch_file r m
  unfolding with_extension_tmp
  tmp-ne-branch_file n m vn vm e =
      let (c, cs, s) = split_cases n in
      tmp-ne-plain c cs (split b'/' m) ((validate_branch_name_iff m).0 vm).plain (
        below (
          append_cancel_left r.agentic_dir _ _ (
            sym (with_extension_tmp-append r.agentic_dir (codes "refs") (codes "heads" ∷ c ∷ cs))
            ∙ rw s at e)))
    where
      below : {p q : FilePath} {a b c d : Text} → ◌≡◌ {A = FilePath} (a ∷ b ∷ p) (c ∷ d ∷ q) → p ≡ q
      below e = cc

  pub head-ne-branch_file : (m : Text) → head_path r ≢ branch_file r m
  head-ne-branch_file m e = longer (append_cancel_left r.agentic_dir _ _ e)
    where
      longer : {a b c : Text} {p : FilePath} → ◌≡◌ {A = FilePath} (a ∷ []) (b ∷ c ∷ p) → ⊥
      longer e = cc

  pub tmp-ne-head : (n : Text) → with_extension_tmp (branch_file r n) ≢ head_path r
  unfolding with_extension_tmp
  tmp-ne-head n e =
      let (c, cs, s) = split_cases n in
      longer c cs (
        append_cancel_left r.agentic_dir _ _ (
          sym (with_extension_tmp-append r.agentic_dir (codes "refs") (codes "heads" ∷ c ∷ cs))
          ∙ rw s at e))
    where
      longer :
          (c : Text) (cs : FilePath) {a : Text} {p : FilePath}
          → ◌≡◌ {A = FilePath} (a ∷ codes "heads" ∷ p) (codes "HEAD" ∷ [])
          → ⊥
      longer c cs e = cc

  pub branch_file-injective : (n m : Text) → branch_file r n ≡ branch_file r m → n ≡ m
  branch_file-injective n m e =
      split-injective b'/' n m (below (append_cancel_left r.agentic_dir _ _ e))
    where
      below : {p q : FilePath} {a b : Text} → ◌≡◌ {A = FilePath} (a ∷ b ∷ p) (a ∷ b ∷ q) → p ≡ q
      below e = cc
