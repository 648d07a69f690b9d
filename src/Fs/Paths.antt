-- ===== src/Fs/Paths.antt =====
-- `std::path` on Unix: a path below the root of the tree is the list of its components.
use git_agentic.Common.{
  ℕ, ◌≡◌, sym, ◌∙◌, refl, ◌≢◌, Option, none, some, List, [], ◌∷◌, ◌++◌, ap, ◌==◌, if◌then◌else◌,
  nat_eq,
}
use git_agentic.Common.Text.{Text, codes}

abbrev pub FilePath : Type 0
FilePath = List Text

-- `path.parent()`
unfoldable pub parent : FilePath → FilePath
parent [] = []
parent (c ∷ []) = []
parent (c ∷ d ∷ p) = c ∷ parent (d ∷ p)

-- The text before the last dot and that behind it.
unfoldable pub rsplit_dot : Text → Option (Text × Text)
rsplit_dot [] = none
rsplit_dot (c ∷ s) = elim (rsplit_dot s) [
  | some (a, b) ↦ some (c ∷ a, b)
  | none ↦ (if c == b'.' then some ([], s) else none)
]

-- `path.file_stem()`: a leading dot begins no extension.
unfoldable pub file_stem : Text → Text
unfolding rsplit_dot
file_stem s = elim (rsplit_dot s) [ none ↦ s | some ([], b) ↦ s | some (c ∷ a, b) ↦ c ∷ a ]

abbrev pub tmp_suffix : Text
tmp_suffix = codes ".tmp"

-- `path.with_extension("tmp")`, which changes the last component
unfoldable pub with_extension_tmp : FilePath → FilePath
unfolding file_stem
with_extension_tmp [] = []
with_extension_tmp (c ∷ []) = (file_stem c ++ tmp_suffix) ∷ []
with_extension_tmp (c ∷ d ∷ p) = c ∷ with_extension_tmp (d ∷ p)

pub with_extension_tmp-append :
    (p : FilePath) (c : Text) (q : FilePath)
    → with_extension_tmp (p ++ (c ∷ q)) ≡ p ++ with_extension_tmp (c ∷ q)
unfolding with_extension_tmp
with_extension_tmp-append [] c q = refl
with_extension_tmp-append (a ∷ []) c q = refl
with_extension_tmp-append (a ∷ b ∷ p) c q =
    ap (λ (t : FilePath). a ∷ t) (with_extension_tmp-append (b ∷ p) c q)

-- The last byte of a text with a suffix is that of the suffix.
abbrev pub last_or : ℕ → Text → ℕ
last_or d [] = d
last_or d (c ∷ s) = last_or c s

last_or-append : (d : ℕ) (s : Text) (c : ℕ) (t : Text) → last_or d (s ++ (c ∷ t)) ≡ last_or c t
last_or-append d [] c t = refl
last_or-append d (a ∷ s) c t = last_or-append a s c t

-- A temporary name is no name that ends in another letter.
pub tmp_name_ne :
    (s t : Text) (a b c d : ℕ) → d ≢ b'p' → s ++ tmp_suffix ≢ t ++ (a ∷ b ∷ c ∷ d ∷ [])
tmp_name_ne s t a b c d ne e = ne (
    sym (last_or-append 0 t a (b ∷ c ∷ d ∷ []))
    ∙ ap (last_or 0) (sym e)
    ∙ last_or-append 0 s b'.' (b't' ∷ b'm' ∷ b'p' ∷ []))
