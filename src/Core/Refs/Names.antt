-- ===== src/Core/Refs/Names.antt =====
-- Which branch names are accepted, and where an accepted name can lead.
use git_agentic.Common.{
  ◌≡◌, ◌≢◌, ◌↔◌, refl, sym, ◌∙◌, true, false, ◌||◌, none, List, [], ◌∷◌, ◌++◌, ok, inl, inr, ◌==◌,
  nat_eq, list_eq, Eq, if◌then◌else◌, all, any, All, arith, option_eq, ==_ne, Option-cases,
}
use mathlib.Core.List.{append_assoc, append-nil}
use git_agentic.Common.Text.{Text, codes, ends_with, split}
use git_agentic.Fs.Paths.{FilePath, parent}
use git_agentic.Core.Refs.{
  later_components, first_components, components, is_normal, has_control, refuse_component,
  refuse_components, refuse_name, validate_branch_name, backslash,
}

abbrev text_eq : Eq Text
text_eq = list_eq

pub record IsPlain (c : Text) : Type 0 where
  pub filled : c ≢ []
  pub no_dot : c ≢ codes "."
  pub no_dots : c ≢ codes ".."
  pub no_tmp : ends_with (codes ".tmp") c ≡ false

-- What the documentation permits: `/`-separated plain components.
pub record IsBranchName (name : Text) : Type 0 where
  pub not_head : name ≢ codes "HEAD"
  pub no_backslash : any (λ c. c == backslash) name ≡ false
  pub no_control : has_control name ≡ false
  pub plain : All IsPlain (split b'/' name)

refuse_component_lem : (c : Text) → (refuse_component c ≡ none) ↔ IsPlain c
unfolding refuse_component
refuse_component_lem c = (
  λ h. record {
    filled = λ e. ground (arith, text_eq.same_iff c []);
    no_dot = λ e. ground (arith, text_eq.same_iff c (codes "."));
    no_dots = λ e. ground (arith, text_eq.same_iff c (codes ".."));
    no_tmp = ground arith;
  },
  λ v.
      rw (
        ==_ne c [] v.filled,
        ==_ne c (codes ".") v.no_dot,
        ==_ne c (codes "..") v.no_dots,
        v.no_tmp,
      ),
)

refuse_components_none : (cs : List Text) → refuse_components cs ≡ none → All IsPlain cs
unfolding refuse_components
refuse_components_none [] h = tt
refuse_components_none (c ∷ cs) h = elim (Option-cases (refuse_component c)) [
  | inl e ↦
      ((refuse_component_lem c).0 e, refuse_components_none cs (rw (e, refuse_components) at h))
  | inr (reason, e) ↦ ground arith
]

refuse_components_plain : (cs : List Text) → All IsPlain cs → refuse_components cs ≡ none
unfolding refuse_components
refuse_components_plain [] v = refl
refuse_components_plain (c ∷ cs) v =
    rw ((refuse_component_lem c).1 v.0, refuse_components) (refuse_components_plain cs v.1)

later_components_plain :
    (cs : List Text) → All IsPlain cs → all is_normal (later_components cs) ≡ true
unfolding later_components all
later_components_plain [] v = refl
later_components_plain (c ∷ cs) v =
    rw
      (
        ==_ne c [] v.0.filled,
        ==_ne c (codes ".") v.0.no_dot,
        ==_ne c (codes "..") v.0.no_dots,
        later_components,
      )
      (later_components_plain cs v.1)

first_components_plain :
    (cs : List Text) → All IsPlain cs → all is_normal (first_components cs) ≡ true
unfolding first_components
first_components_plain [] v = unfold all in refl
first_components_plain (c ∷ cs) v =
    rw (==_ne c [] v.0.filled, ==_ne c (codes ".") v.0.no_dot, first_components)
      (later_components_plain (c ∷ cs) v)

-- The check of `Path::components` refuses nothing that the checks before it let pass.
pub components_plain :
    (name : Text) → All IsPlain (split b'/' name) → all is_normal (components name) ≡ true
unfolding components
components_plain [] v = unfold all in refl
components_plain (c ∷ s) v = first_components_plain (split b'/' (c ∷ s)) v

validate_none : (name : Text) → validate_branch_name name ≡ ok tt → refuse_name name ≡ none
unfolding validate_branch_name
validate_none name h = ground arith

refuse_name-none : (name : Text) → refuse_name name ≡ none → IsBranchName name
unfolding refuse_name
refuse_name-none name h = record {
  not_head = λ e. ground (arith, text_eq.same_iff name (codes "HEAD"));
  no_backslash = ground arith;
  no_control = ground arith;
  plain = refuse_components_none (split b'/' name) (ground arith);
}

filled_name : (name : Text) → All IsPlain (split b'/' name) → name ≢ []
unfolding split
filled_name [] v e = v.0.filled refl
filled_name (c ∷ s) v e = cc

refuse_name_plain : (name : Text) → IsBranchName name → refuse_name name ≡ none
unfolding refuse_name
refuse_name_plain name v = ground (
  arith,
  text_eq.same_iff name [],
  filled_name name v.plain,
  text_eq.same_iff name (codes "HEAD"),
  refuse_components_plain (split b'/' name) v.plain,
  components_plain name v.plain,
)

-- A name is accepted exactly if it is not HEAD, holds no backslash and no control character, and
-- each component between its slashes is filled, is not a dot or two, and does not end in `.tmp`.
pub validate_branch_name_iff :
    (name : Text) → (validate_branch_name name ≡ ok tt) ↔ IsBranchName name
unfolding validate_branch_name
validate_branch_name_iff name = (
  λ h. refuse_name-none name (validate_none name h),
  λ v. rw (refuse_name_plain name v, validate_branch_name),
)

-- How a system resolves the components of a relative path from a directory on.
pub resolve_dots : FilePath → FilePath → FilePath
resolve_dots base [] = base
resolve_dots base (c ∷ p) =
    resolve_dots
      (if c == [] || c == codes "."
        then base
        else if c == codes ".."
        then parent base
        else base ++ (c ∷ []))
      p

resolve_dots_plain : (base p : FilePath) → All IsPlain p → resolve_dots base p ≡ base ++ p
unfolding resolve_dots
resolve_dots_plain base [] v = sym (append-nil base)
resolve_dots_plain base (c ∷ p) v =
    rw (==_ne c [] v.0.filled, ==_ne c (codes ".") v.0.no_dot, ==_ne c (codes "..") v.0.no_dots)
      (resolve_dots_plain (base ++ (c ∷ [])) p v.1 ∙ append_assoc base (c ∷ []) p)

-- Resolved from any directory, an accepted name leads straight down below that directory: it
-- names no parent, and no absolute path.
validated_stays_below :
    (base : FilePath) (name : Text)
    → validate_branch_name name ≡ ok tt
    → (resolve_dots base (split b'/' name) ≡ base ++ split b'/' name) × (split b'/' name ≢ [] ∷ [])
validated_stays_below base name h =
    let v = (validate_branch_name_iff name).0 h in
    (resolve_dots_plain base (split b'/' name) v.plain, λ e. filled_first _ e v.plain)
  where
    filled_first : (ps : List Text) → ps ≡ [] ∷ [] → All IsPlain ps → ⊥
    filled_first [] e v = cc
    filled_first (c ∷ ps) e v = v.0.filled (cc)
