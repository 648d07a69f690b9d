-- ===== src/Common/Text.antt =====
-- Rust's `&str` and `&[u8]`: both are a list of bytes, a `str` being valid UTF-8. What the
-- program uses of `core::str` is here.
pub mod Laws
use Prim.Native.Char.{code}
use git_agentic.Common.Tests.{◌==◌, if◌then◌else◌, leb, nat_eq, list_eq}
use Prim.Native.Nat.{ℕ, ◌+◌}
use Prim.Native.String.{String}
use mathlib.Core.Bool.{Bool, true, false, ◌&&◌, ◌||◌}
use mathlib.Core.List.{List, [], ◌∷◌, ◌++◌, map, reverse}
use git_agentic.Common.Lists.{length}
use mathlib.Core.Option.{Option, none, some}

abbrev pub Bytes : Type 0
Bytes = List ℕ

abbrev pub Text : Type 0
Text = List ℕ

-- The bytes of an ASCII literal.
abbrev pub codes : String → Text
codes String.[] = []
codes (String.◌∷◌ c s) = code c ∷ codes s

-- UTF-8 of the characters beyond ASCII that the program's texts hold: →, — and §
abbrev pub arrow : Text
arrow = 0xe2 ∷ 0x86 ∷ 0x92 ∷ []

abbrev pub section_sign : Text
section_sign = 0xc2 ∷ 0xa7 ∷ []

abbrev pub em_dash : Text
em_dash = 0xe2 ∷ 0x80 ∷ 0x94 ∷ []

unfoldable pub strip_prefix : Text → Text → Option Text
strip_prefix [] s = some s
strip_prefix (p ∷ ps) [] = none
strip_prefix (p ∷ ps) (c ∷ s) = if p == c then strip_prefix ps s else none

unfoldable pub starts_with : Text → Text → Bool
unfolding strip_prefix
starts_with p s = elim (strip_prefix p s) [ none ↦ false | some _ ↦ true ]

unfoldable pub ends_with : Text → Text → Bool
unfolding starts_with
ends_with p s = starts_with (reverse p) (reverse s)

-- `s.contains(p)`
unfoldable pub contains : Text → Text → Bool
unfolding starts_with
contains p [] = starts_with p []
contains p (c ∷ s) = starts_with p (c ∷ s) || contains p s

-- `s.split(c)`: one piece more than there are separators.
unfoldable pub split_from : ℕ → Text → Text → List Text
split_from sep piece [] = piece ∷ []
split_from sep piece (c ∷ s) = elim (c == sep) [
  | true ↦ piece ∷ split_from sep [] s
  | false ↦ split_from sep (piece ++ (c ∷ [])) s
]

unfoldable pub split : ℕ → Text → List Text
unfolding split_from
split sep s = split_from sep [] s

-- `s.split_once(c)`
unfoldable pub split_once : ℕ → Text → Option (Text × Text)
split_once sep [] = none
split_once sep (c ∷ s) =
    if c == sep
    then some ([], s)
    else elim (split_once sep s) [ none ↦ none | some (a, b) ↦ some (c ∷ a, b) ]

abbrev pub is_digit : ℕ → Bool
is_digit c = leb b'0' c && leb c b'9'

abbrev pub is_upper : ℕ → Bool
is_upper c = leb b'A' c && leb c b'Z'

abbrev pub is_lower : ℕ → Bool
is_lower c = leb b'a' c && leb c b'z'

-- `char::is_ascii_hexdigit`
abbrev pub is_hex_digit : ℕ → Bool
is_hex_digit c = is_digit c || (leb b'a' c && leb c b'f') || (leb b'A' c && leb c b'F')

abbrev pub lower : ℕ → ℕ
lower c = if is_upper c then c + 32 else c

abbrev pub to_ascii_lowercase : Text → Text
to_ascii_lowercase = map lower

-- The encodings of the characters with `White_Space`, which `str::trim` drops.
abbrev pub white_space : List Text
white_space =
    (9 ∷ [])
    ∷ (10 ∷ [])
    ∷ (11 ∷ [])
    ∷ (12 ∷ [])
    ∷ (13 ∷ [])
    ∷ (32 ∷ [])
    ∷ (0xc2 ∷ 0x85 ∷ [])
    ∷ (0xc2 ∷ 0xa0 ∷ [])
    ∷ (0xe1 ∷ 0x9a ∷ 0x80 ∷ [])
    ∷ (map (λ k. 0xe2 ∷ 0x80 ∷ k ∷ [])
          (0x80 ∷ 0x81 ∷ 0x82 ∷ 0x83 ∷ 0x84 ∷ 0x85 ∷ 0x86 ∷ 0x87 ∷ 0x88 ∷ 0x89 ∷ 0x8a ∷ 0xa8 ∷ 0xa9
            ∷ 0xaf ∷ [])
        ++ ((0xe2 ∷ 0x81 ∷ 0x9f ∷ []) ∷ (0xe3 ∷ 0x80 ∷ 0x80 ∷ []) ∷ []))

-- The rest of `s` behind the first of the prefixes that fits.
unfoldable pub strip_any : List Text → Text → Option Text
unfolding strip_prefix
strip_any [] s = none
strip_any (p ∷ ps) s = elim (strip_prefix p s) [ some rest ↦ some rest | none ↦ strip_any ps s ]

-- `trim_start_matches` with enough fuel: each round takes a byte at least.
unfoldable pub strip_all : List Text → ℕ → Text → Text
unfolding strip_any
strip_all ps ℕ.zero s = s
strip_all ps (ℕ.suc fuel) s = elim (strip_any ps s) [
  | some rest ↦ strip_all ps fuel rest
  | none ↦ s
]

unfoldable pub trim_start : Text → Text
unfolding strip_all
trim_start s = strip_all white_space (length s) s

unfoldable pub trim_end : Text → Text
unfolding strip_all
trim_end s = reverse (strip_all (map reverse white_space) (length s) (reverse s))

-- `s.trim()`
unfoldable pub trim : Text → Text
unfolding trim_start trim_end
trim s = trim_end (trim_start s)

-- What may follow a first byte of a UTF-8 sequence: the range of each byte to come.
abbrev pub between : ℕ → ℕ → ℕ → Bool
between lo hi c = leb lo c && leb c hi

abbrev cont : ℕ × ℕ
cont = (0x80, 0xbf)

unfoldable pub utf8_follow : ℕ → Option (List (ℕ × ℕ))
utf8_follow a =
    if leb a 0x7f
    then some []
    else if between 0xc2 0xdf a
    then some (cont ∷ [])
    else if a == 0xe0
    then some ((0xa0, 0xbf) ∷ cont ∷ [])
    else if a == 0xed
    then some ((0x80, 0x9f) ∷ cont ∷ [])
    else if between 0xe1 0xef a
    then some (cont ∷ cont ∷ [])
    else if a == 0xf0
    then some ((0x90, 0xbf) ∷ cont ∷ cont ∷ [])
    else if between 0xf1 0xf3 a
    then some (cont ∷ cont ∷ cont ∷ [])
    else if a == 0xf4
    then some ((0x80, 0x8f) ∷ cont ∷ cont ∷ [])
    else none

unfoldable pub is_utf8_from : List (ℕ × ℕ) → Bytes → Bool
unfolding utf8_follow
is_utf8_from [] [] = true
is_utf8_from ((lo, hi) ∷ rs) [] = false
is_utf8_from [] (a ∷ s) = elim (utf8_follow a) [ none ↦ false | some rs ↦ is_utf8_from rs s ]
is_utf8_from ((lo, hi) ∷ rs) (a ∷ s) = elim (between lo hi a) [
  | true ↦ is_utf8_from rs s
  | false ↦ false
]

-- `str::from_utf8(bytes).is_ok()`
unfoldable pub is_utf8 : Bytes → Bool
unfolding is_utf8_from
is_utf8 s = is_utf8_from [] s
