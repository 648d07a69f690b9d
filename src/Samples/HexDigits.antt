-- ===== src/Samples/HexDigits.antt =====
-- Hexadecimal in place of the crate hex.
use git_agentic.Common.{
  ℕ, zero, suc, ◌+◌, ◌-◌, ◌*◌, ◌/◌, ◌%◌, ◌<◌, ◌≡◌, refl, ap, true, ◌&&◌, Option, none, some,
  Option-cases, inl, inr, [], ◌∷◌, length, all, if◌then◌else◌, ltb, leb, arith,
}
use mathlib.Core.Path.{subst}
use git_agentic.Common.Text.{Bytes, Text, is_digit, is_hex_digit, lower, to_ascii_lowercase}
use git_agentic.External.{Hex, HexLaws, IsBytes}

abbrev digit : ℕ → ℕ
digit n = if ltb n 10 then 48 + n else 87 + n

abbrev nibble : ℕ → Option ℕ
nibble c =
    if is_digit c
    then some (c - 48)
    else if leb b'a' c && leb c b'f'
    then some (c - 87)
    else if leb b'A' c && leb c b'F'
    then some (c - 55)
    else none

abbrev pub encode : Bytes → Text
encode [] = []
encode (b ∷ bs) = digit (b / 16) ∷ digit (b % 16) ∷ encode bs

abbrev join : Option ℕ → Option ℕ → Option Bytes → Option Bytes
join (some h) (some l) (some bs) = some ((16 * h + l) ∷ bs)
join _ _ _ = none

abbrev pub decode : Text → Option Bytes
decode [] = some []
decode (c ∷ []) = none
decode (c ∷ d ∷ s) = let rest = decode s in join (nibble c) (nibble d) rest

abbrev pub hex : Hex
hex = record { encode = encode; decode = decode }

nibble-digit : (n : ℕ) → n < 16 → nibble (digit n) ≡ some n
nibble-digit n h = ground arith

digit_is : (n : ℕ) → n < 16 → is_hex_digit (digit n) ≡ true
digit_is n h = ground arith

digit-nibble :
    (c n : ℕ) → nibble c ≡ some n → (digit n ≡ lower c) × (is_hex_digit c ≡ true) × (n < 16)
digit-nibble c n e = (ground arith, ground arith, ground arith)

nibble_total : (c : ℕ) → is_hex_digit c ≡ true → (n : ℕ) × (nibble c ≡ some n)
nibble_total c h = elim (Option-cases (nibble c)) [ inl e ↦ absurd (ground arith) | inr t ↦ t ]

halves :
    (h l : ℕ)
    → h < 16
    → l < 16
    → ((16 * h + l) / 16 ≡ h) × ((16 * h + l) % 16 ≡ l) × (16 * h + l < 256)
halves h l hh hl = (omega arith, omega arith, omega arith)

-- What a text that decodes is made of
join_ok :
    (a b : Option ℕ) (r : Option Bytes) (o : Bytes)
    → join a b r ≡ some o
    → (h : ℕ) × (l : ℕ) × (bs : Bytes) × (a ≡ some h)
      × (b ≡ some l)
      × (r ≡ some bs)
      × ((16 * h + l) ∷ bs ≡ o)
join_ok (some h) (some l) (some bs) o e = (h, l, bs, refl, refl, refl, cc)
join_ok none b r o e = cc
join_ok (some h) none r o e = cc
join_ok (some h) (some l) none o e = cc

decode-encode : (b : Bytes) → IsBytes b → decode (encode b) ≡ some b
decode-encode [] v = refl
decode-encode (b ∷ bs) v =
    rw
      (
        nibble-digit (b / 16) (omega (arith, v.0)),
        nibble-digit (b % 16) (omega arith),
        decode-encode bs v.1,
      )
      (ap (λ n. some (n ∷ bs)) (omega arith))

-- What a text that decodes and its bytes are
record IsDecoded (s : Text) (b : Bytes) : Type 0 where
  encoded : encode b ≡ to_ascii_lowercase s
  digits : all is_hex_digit s ≡ true
  bytes : IsBytes b

IsDecoded-two :
    (c d h l : ℕ) (s : Text) (bs : Bytes)
    → nibble c ≡ some h
    → nibble d ≡ some l
    → IsDecoded s bs
    → IsDecoded (c ∷ d ∷ s) ((16 * h + l) ∷ bs)
unfolding all
IsDecoded-two c d h l s bs eh el v =
    let (lh, dh, small_h) = digit-nibble c h eh in
    let (ll, dl, small_l) = digit-nibble d l el in
    let (upper, low, byte) = halves h l small_h small_l in
    record {
      encoded = cc (upper, low, lh, ll, v.encoded);
      digits = rw (dh, dl) v.digits;
      bytes = (byte, v.bytes);
    }

decoded : (s : Text) (b : Bytes) → decode s ≡ some b → IsDecoded s b
unfolding all
decoded [] b e =
    subst (IsDecoded []) (nothing e) (record { encoded = refl; digits = refl; bytes = tt })
  where
    nothing : {b : Bytes} → ◌≡◌ {A = Option Bytes} (some []) (some b) → [] ≡ b
    nothing e = cc
decoded (c ∷ []) b e = cc
decoded (c ∷ d ∷ s) b e =
    let (h, l, bs, eh, el, er, eb) = join_ok (nibble c) (nibble d) (decode s) b e in
    subst (IsDecoded (c ∷ d ∷ s)) eb (IsDecoded-two c d h l s bs eh el (decoded s bs er))

length-encode : (b : Bytes) → length (encode b) ≡ 2 * length b
length-encode [] = omega arith
length-encode (b ∷ bs) = omega (arith, length-encode bs)

encode_digits : (b : Bytes) → IsBytes b → all is_hex_digit (encode b) ≡ true
unfolding all
encode_digits [] v = refl
encode_digits (b ∷ bs) v =
    rw (digit_is (b / 16) (omega (arith, v.0)), digit_is (b % 16) (omega arith), all)
      (encode_digits bs v.1)

decode_total :
    (s : Text) (n : ℕ)
    → length s ≡ 2 * n
    → all is_hex_digit s ≡ true
    → (b : Bytes) × (decode s ≡ some b)
unfolding all
decode_total [] n e h = ([], refl)
decode_total (c ∷ []) n e h = absurd (omega arith)
decode_total (c ∷ d ∷ s) zero e h = absurd (omega arith)
decode_total (c ∷ d ∷ s) (suc n) e h =
    let (a, ea) = nibble_total c (ground arith) in
    let (b, eb) = nibble_total d (ground arith) in
    let (bs, es) = decode_total s n (omega arith) (ground arith) in
    ((16 * a + b) ∷ bs, rw (ea, eb, es) refl)

pub hex_laws : HexLaws hex
hex_laws = record {
  decode-encode = decode-encode;
  encode-decode = λ s b e. (decoded s b e).encoded;
  length-encode = length-encode;
  encode_digits = encode_digits;
  decode_digits = λ s b e. (decoded s b e).digits;
  decode-IsBytes = λ s b e. (decoded s b e).bytes;
  decode_total = decode_total;
}
