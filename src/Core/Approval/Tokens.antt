-- ===== src/Core/Approval/Tokens.antt =====
-- Which tokens are accepted.
use git_agentic.Common.{
  ℕ, ◌+◌, ◌≤◌, ◌<◌, ◌≡◌, ◌↔◌, refl, sym, ap, ◌∙◌, true, false, Option, some, [], ◌∷◌, ◌++◌, ok, err,
  and_then-eq-ok, ◌==◌, nat_eq, list_eq, ==_refl, eq_of_==, arith, All,
}
use git_agentic.Common.Decimal.{
  to_decimal, parse_u64, parse_u64-to_decimal, to_decimal_digits, u64_bound,
}
use git_agentic.Common.Text.{Bytes, Text, split_once, to_ascii_lowercase, is_digit}
use git_agentic.External.{Hex, HexLaws, Hmac, HmacLaws}
use mathlib.Core.List.{append_cancel_left}
use git_agentic.Core.Approval.{
  signing_input, domain, ApprovalKey, expired, tag, generate_token, parse_token, check_parts,
  verify_token,
}

abbrev pub NoColon : Text → Type 0
NoColon = All (λ c. (c == b':') ≡ false)

digits_NoColon : (s : Text) → All (λ c. is_digit c ≡ true) s → NoColon s
digits_NoColon [] v = tt
digits_NoColon (c ∷ s) v = (digit_ne c v.0, digits_NoColon s v.1)
  where
    digit_ne : (c : ℕ) → is_digit c ≡ true → (c == b':') ≡ false
    digit_ne c h = ground arith

-- A text without colon ends at the first colon behind it.
split_once-NoColon : (s t : Text) → NoColon s → split_once b':' (s ++ (b':' ∷ t)) ≡ some (s, t)
unfolding split_once
split_once-NoColon [] t v = refl
split_once-NoColon (c ∷ s) t v = rw (v.0, split_once-NoColon s t v.1, split_once)

first_field :
    (s s' t t' : Text)
    → NoColon s
    → NoColon s'
    → s ++ (b':' ∷ t) ≡ s' ++ (b':' ∷ t')
    → (s ≡ s') × (t ≡ t')
first_field s s' t t' v v' e =
    let k : ◌≡◌ {A = Option (Text × Text)} (some (s, t)) (some (s', t')) =
      sym (split_once-NoColon s t v) ∙ ap (split_once b':') e ∙ split_once-NoColon s' t' v' in
    (cc, cc)

to_decimal-NoColon : (n : ℕ) → NoColon (to_decimal n)
to_decimal-NoColon n = digits_NoColon (to_decimal n) (to_decimal_digits n)

to_decimal-injective :
    (m n : ℕ) → m < u64_bound → n < u64_bound → to_decimal m ≡ to_decimal n → m ≡ n
to_decimal-injective m n hm hn e =
    cc (ap parse_u64 e, parse_u64-to_decimal m hm, parse_u64-to_decimal n hn)

-- The signed payload determines the address, the user and the time, for addresses without colon.
pub signing_input-injective :
    (g h : Text) (u v s t : ℕ)
    → NoColon g
    → NoColon h
    → u < u64_bound
    → v < u64_bound
    → s < u64_bound
    → t < u64_bound
    → signing_input g u s ≡ signing_input h v t
    → (g ≡ h) × (u ≡ v) × (s ≡ t)
unfolding signing_input
signing_input-injective g h u v s t ng nh hu hv hs ht e =
    let (eg, rest) = first_field g h _ _ ng nh (tail (append_cancel_left domain _ _ e)) in
    let (eu, et) =
      first_field (to_decimal u) (to_decimal v) _ _ (to_decimal-NoColon u) (to_decimal-NoColon v)
        rest in
    (eg, to_decimal-injective u v hu hv eu, to_decimal-injective s t hs ht et)
  where
    tail : {a b : ℕ} {p q : Text} → ◌≡◌ {A = Text} (a ∷ p) (b ∷ q) → p ≡ q
    tail e = cc

module _ (x : Hex) (hmac : Hmac) (laws : HexLaws x) (hmac_laws : HmacLaws hmac) where
  parse_token-generate_token :
      (key : ApprovalKey) (h : Text) (uid t : ℕ)
      → t < u64_bound
      → parse_token x hmac (generate_token x hmac key h uid t)
        ≡ ok (t, tag x hmac key (to_ascii_lowercase h) uid t)
  unfolding parse_token generate_token tag
  parse_token-generate_token key h uid t small = rw (
    split_once-NoColon (to_decimal t) (x.encode (tag x hmac key (to_ascii_lowercase h) uid t))
        (to_decimal-NoColon t),
    parse_u64-to_decimal t small,
    laws.decode-encode _ (hmac_laws.finalize-IsBytes _ _),
    hmac_laws.length-finalize,
  )

  -- What `verify_token` makes of a token that `generate_token` issued for the same address, in
  -- whatever case, and the same user: it is accepted up to 300 seconds before or after its time,
  -- and refused as expired beyond.
  pub verify_token-generate_token :
      (key : ApprovalKey) (g h : Text) (uid t now : ℕ)
      → t < u64_bound
      → to_ascii_lowercase g ≡ to_ascii_lowercase h
      → (now ≤ t + 300
          → t ≤ now + 300
          → verify_token x hmac key h uid (generate_token x hmac key g uid t) now ≡ ok tt)
        × (t + 300 < now
            → verify_token x hmac key h uid (generate_token x hmac key g uid t) now
              ≡ err (expired 300))
        × (now + 300 < t
            → verify_token x hmac key h uid (generate_token x hmac key g uid t) now
              ≡ err (expired 300))
  unfolding verify_token
  verify_token-generate_token key g h uid t now small same =
      rw (parse_token-generate_token key g uid t small) (
        λ a b. rw (same, ==_refl (tag x hmac key (to_ascii_lowercase h) uid t)) (ground arith),
        λ a. ground arith,
        λ a. ground arith,
      )

module _ (x : Hex) (hmac : Hmac) where
  check_parts_ok :
      (key : ApprovalKey) (h : Text) (uid now t : ℕ) (b : Bytes)
      → check_parts x hmac key h uid now (t, b) ≡ ok tt
      → (tag x hmac key (to_ascii_lowercase h) uid t ≡ b) × (now ≤ t + 300) × (t ≤ now + 300)
  unfolding check_parts
  check_parts_ok key h uid now t b e = (
    ground (arith, eq_of_== (tag x hmac key (to_ascii_lowercase h) uid t) b),
    ground arith,
    ground arith,
  )

  -- A token is accepted exactly if it parses as a time within 300 seconds of now and the tag of the
  -- address, the user and that time.
  pub verify_token_iff :
      (key : ApprovalKey) (h : Text) (uid : ℕ) (token : Text) (now : ℕ)
      → (verify_token x hmac key h uid token now ≡ ok tt) ↔ (
          (t : ℕ) × (parse_token x hmac token ≡ ok (t, tag x hmac key (to_ascii_lowercase h) uid t))
          × (now ≤ t + 300)
          × (t ≤ now + 300))
  unfolding verify_token
  verify_token_iff key h uid token now = (
    λ e.
        let ((t, b), p, c) =
          and_then-eq-ok (parse_token x hmac token) (check_parts x hmac key h uid now) e in
        let (same, early, late) = check_parts_ok key h uid now t b c in (t, rw same p, early, late),
    λ (t, p, early, late).
        rw (p, check_parts, ==_refl (tag x hmac key (to_ascii_lowercase h) uid t)) (ground arith),
  )
