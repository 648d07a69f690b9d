-- ===== src/Common/Text/Laws.antt =====
-- Laws of the text operations.
use Prim.Native.Nat.{ℕ, zero, suc, ◌≤◌, ◌<◌}
use git_agentic.Common.Tests.{nat_eq, list_eq}
use git_agentic.Common.Lists.{all, length, length-append, all-append}
use git_agentic.Common.Text.{
  Text, strip_prefix, starts_with, ends_with, split_from, split, is_hex_digit, white_space,
  strip_any, strip_all, trim_start, trim_end, trim, utf8_follow, is_utf8_from, is_utf8,
}
use mathlib.Core.Bool.{true}
use mathlib.Core.List.{
  List, [], ◌∷◌, ◌++◌, map, reverse, reverse-append, reverse-reverse, append_assoc,
}
use mathlib.Core.Option.{none, some}
use mathlib.Core.Path.{◌≡◌, refl, sym, ap, ◌∙◌}
use mathlib.Core.Logic.{◌≢◌, ◌⊎◌, inl, inr}
use native.Mathlib.Omega.{arith}

pub strip_prefix-append : (p s : Text) → strip_prefix p (p ++ s) ≡ some s
unfolding strip_prefix
strip_prefix-append [] s = refl
strip_prefix-append (c ∷ p) s = ground (arith, strip_prefix-append p s)

pub ends_with-append : (p s : Text) → ends_with p (s ++ p) ≡ true
unfolding ends_with starts_with
ends_with-append p s =
    rw reverse-append (rw (strip_prefix-append (reverse p) (reverse s), starts_with))

-- `split` loses nothing: the pieces with separators between them are the text.
abbrev join_tail : ℕ → List Text → Text
join_tail sep [] = []
join_tail sep (p ∷ ps) = sep ∷ (p ++ join_tail sep ps)

join_tail-split_from :
    (sep : ℕ) (piece s : Text) → join_tail sep (split_from sep piece s) ≡ sep ∷ (piece ++ s)
unfolding split_from
join_tail-split_from sep piece [] = refl
join_tail-split_from sep piece (c ∷ s) = ground (
  arith,
  join_tail-split_from sep [] s,
  join_tail-split_from sep (piece ++ (c ∷ [])) s,
  append_assoc piece (c ∷ []) s,
)

pub split-injective : (sep : ℕ) (s t : Text) → split sep s ≡ split sep t → s ≡ t
unfolding split
split-injective sep s t e = cc (join_tail-split_from sep [] s, join_tail-split_from sep [] t, e)

-- `c` begins none of the prefixes.
abbrev HeadsOff : ℕ → List Text → Type 0
HeadsOff c [] = Unit {0}
HeadsOff c ([] ∷ ps) = ⊥
HeadsOff c ((q ∷ p) ∷ ps) = (q ≢ c) × HeadsOff c ps

strip_any-none : (c : ℕ) (s : Text) (ps : List Text) → HeadsOff c ps → strip_any ps (c ∷ s) ≡ none
unfolding strip_any strip_prefix
strip_any-none c s [] h = refl
strip_any-none c s ([] ∷ ps) h = absurd h
strip_any-none c s ((q ∷ p) ∷ ps) h = ground (arith, strip_any-none c s ps h.1)

abbrev pub IsInk : ℕ → Type 0
IsInk c = (33 ≤ c) × (c < 128)

-- What begins or ends with a visible ASCII character is not trimmed there.
ink_first : (c : ℕ) → IsInk c → HeadsOff c white_space
ink_first c h = omega arith

ink_last : (c : ℕ) → IsInk c → HeadsOff c (map reverse white_space)
ink_last c h = omega arith

pub strip_all-ink : (fuel c : ℕ) (s : Text) → IsInk c → strip_all white_space fuel (c ∷ s) ≡ c ∷ s
unfolding strip_all
strip_all-ink zero c s h = refl
strip_all-ink (suc fuel) c s h = rw (strip_any-none c s white_space (ink_first c h), strip_all)

pub strip_all_end-ink :
    (fuel c : ℕ) (s : Text) → IsInk c → strip_all (map reverse white_space) fuel (c ∷ s) ≡ c ∷ s
unfolding strip_all
strip_all_end-ink zero c s h = refl
strip_all_end-ink (suc fuel) c s h =
    rw (strip_any-none c s (map reverse white_space) (ink_last c h), strip_all)

pub trim_start-ink : (c : ℕ) (s : Text) → IsInk c → trim_start (c ∷ s) ≡ c ∷ s
unfolding trim_start
trim_start-ink c s h = strip_all-ink (suc (length s)) c s h

strip_line :
    (fuel c : ℕ) (t : Text)
    → 0 < fuel
    → IsInk c
    → strip_all (map reverse white_space) fuel (10 ∷ c ∷ t) ≡ c ∷ t
unfolding strip_all strip_any strip_prefix
strip_line zero c t pos h = absurd (omega arith)
strip_line (suc fuel) c t pos h = strip_all_end-ink fuel c t h

-- The line end that the program writes is trimmed away again.
pub trim_end-line :
    (s : Text) (c : ℕ) → IsInk c → trim_end ((s ++ (c ∷ [])) ++ (10 ∷ [])) ≡ s ++ (c ∷ [])
unfolding trim_end
trim_end-line s c h =
    let fuel = length ((s ++ (c ∷ [])) ++ (10 ∷ [])) in
    let turned : reverse ((s ++ (c ∷ [])) ++ (10 ∷ [])) ≡ 10 ∷ c ∷ reverse s =
      reverse-append (s ++ (c ∷ [])) (10 ∷ [])
      ∙ ap (λ (t : Text). 10 ∷ t) (reverse-append s (c ∷ [])) in
    ap (λ (t : Text). reverse (strip_all (map reverse white_space) fuel t)) turned
    ∙ ap reverse
        (strip_line fuel c (reverse s) (omega (arith, length-append (s ++ (c ∷ [])) (10 ∷ []))) h)
    ∙ reverse-append (c ∷ []) (reverse s)
    ∙ ap (λ (t : Text). t ++ (c ∷ [])) (reverse-reverse s)

is_hex_digit-IsInk : (c : ℕ) → is_hex_digit c ≡ true → IsInk c
is_hex_digit-IsInk c h = ground arith

-- A text that is empty, or its last byte apart.
pub Snoc-cases : (s : Text) → (s ≡ []) ⊎ ((t : Text) × (c : ℕ) × (s ≡ t ++ (c ∷ [])))
Snoc-cases [] = inl refl
Snoc-cases (c ∷ s) = elim (Snoc-cases s) [
  | inl e ↦ inr ([], c, ap (λ (t : Text). c ∷ t) e)
  | inr (t, d, e) ↦ inr (c ∷ t, d, ap (λ (t : Text). c ∷ t) e)
]

digit_lines :
    (s : Text)
    → all is_hex_digit s ≡ true
    → s ≢ []
    → (t : Text) × (c : ℕ) × (s ≡ t ++ (c ∷ [])) × IsInk c
unfolding all
digit_lines s h ne = elim (Snoc-cases s) [
  | inl e ↦ absurd (ne e)
  | inr (t, c, e) ↦ (t, c, e, is_hex_digit-IsInk c (last_digit t c (rw e at h)))
]
  where
    last_digit :
        (t : Text) (c : ℕ) → all is_hex_digit (t ++ (c ∷ [])) ≡ true → is_hex_digit c ≡ true
    last_digit t c h = ground (arith, all-append is_hex_digit t (c ∷ []))

pub trim_start-digits :
    (s t : Text) → all is_hex_digit s ≡ true → s ≢ [] → trim_start (s ++ t) ≡ s ++ t
unfolding all
trim_start-digits [] t h ne = absurd (ne refl)
trim_start-digits (c ∷ s) t h ne = trim_start-ink c (s ++ t) (is_hex_digit-IsInk c (ground arith))

-- A line of hex digits is trimmed to the digits.
pub trim-digits : (s : Text) → all is_hex_digit s ≡ true → s ≢ [] → trim (s ++ (10 ∷ [])) ≡ s
unfolding trim
trim-digits s h ne =
    let (t, c, e, ink) = digit_lines s h ne in
    ap trim_end (trim_start-digits s (10 ∷ []) h ne)
    ∙ ap (λ (u : Text). trim_end (u ++ (10 ∷ []))) e
    ∙ trim_end-line t c ink
    ∙ sym e

is_utf8_from-ascii : (c : ℕ) (s : Text) → c < 128 → is_utf8_from [] (c ∷ s) ≡ is_utf8_from [] s
unfolding is_utf8_from utf8_follow
is_utf8_from-ascii c s h = ground arith

pub is_utf8-digits : (s t : Text) → all is_hex_digit s ≡ true → is_utf8 (s ++ t) ≡ is_utf8 t
unfolding is_utf8 all
is_utf8-digits [] t h = refl
is_utf8-digits (c ∷ s) t h =
    is_utf8_from-ascii c (s ++ t) (is_hex_digit-IsInk c (ground arith)).1
    ∙ unfold is_utf8 in is_utf8-digits s t (ground arith)
