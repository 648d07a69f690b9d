-- ===== src/Core/Hash.antt =====
-- crates/agentic-core/src/hash.rs: 32-byte content addresses and their hex form.
use git_agentic.Common.{
  ℕ, nat_eq, ◌≡◌, ◌≢◌, true, false, some, ◌++◌, Result, ok, err, length, take, drop, all, arith,
  ◌==◌, if◌then◌else◌, take-append-drop, length-drop, length-take_le, ==_ne, ok_or, ap,
  Option-cases, inl, inr, length-map,
}
use git_agentic.Common.Text.{Bytes, Text, is_hex_digit, to_ascii_lowercase, lower}
use git_agentic.External.{Hex, HexLaws, Blake3, IsBytes}

-- The raw digest.
abbrev pub Hash : Type 0
Hash = Bytes

abbrev pub IsHash : Hash → Type 0
IsHash h = (length h ≡ 32) × IsBytes h

-- `Hash::of`
abbrev pub of : Blake3 → Bytes → Hash
of b3 bytes = b3.digest bytes

pub data ParseHashError : Type 0 where
  wrong_length : ℕ → ParseHashError
  invalid_hex : ParseHashError

module _ (x : Hex) where
  unfoldable pub to_hex : Hash → Text
  to_hex h = x.encode h

  unfoldable pub short : Hash → Text
  unfolding to_hex
  short h = take 7 (to_hex h)

  unfoldable pub shard : Hash → Text × Text
  unfolding to_hex
  shard h = (take 2 (to_hex h), drop 2 (to_hex h))

  -- `Hash::from_str`
  unfoldable pub from_str : Text → Result ParseHashError Hash
  from_str s =
      if length s == 64 then ok_or (x.decode s) invalid_hex else err (wrong_length (length s))

  module _ (laws : HexLaws x) where
    pub length-to_hex : (h : Hash) → IsHash h → length (to_hex h) ≡ 64
    unfolding to_hex
    length-to_hex h v = omega (arith, laws.length-encode h)

    -- The hex form of an address parses to the address.
    pub from_str-to_hex : (h : Hash) → IsHash h → from_str (to_hex h) ≡ ok h
    unfolding from_str to_hex
    from_str-to_hex h v = ground (arith, laws.length-encode h, laws.decode-encode h)

    pub to_hex-injective : (h k : Hash) → IsHash h → IsHash k → to_hex h ≡ to_hex k → h ≡ k
    to_hex-injective h k vh vk e = cc (ap from_str e, from_str-to_hex h vh, from_str-to_hex k vk)

    decode-length : (s : Text) (h : Hash) → x.decode s ≡ some h → length s ≡ 64 → length h ≡ 32
    decode-length s h p e = omega (
      arith,
      laws.length-encode h,
      ap (length {A = ℕ}) (laws.encode-decode s h p),
      length-map lower s,
    )

    -- A text parses exactly if it is 64 hex digits of either case, and the address then prints as
    -- the text in lowercase. Any other text is refused, for its length before its digits.
    from_str_cases :
        (s : Text)
        → (length s ≢ 64 → from_str s ≡ err (wrong_length (length s)))
          × (length s ≡ 64 → all is_hex_digit s ≡ false → from_str s ≡ err invalid_hex)
          × (length s ≡ 64
              → all is_hex_digit s ≡ true
              → (h : Hash) × (from_str s ≡ ok h) × IsHash h × (to_hex h ≡ to_ascii_lowercase s))
    unfolding from_str to_hex
    from_str_cases s = (
      λ ne. ground (arith, ==_ne (length s) 64 ne),
      λ e bad. elim (Option-cases (x.decode s)) [
        | inl miss ↦ ground arith
        | inr (b, found) ↦ cc (bad, laws.decode_digits s b found)
      ],
      λ e digits.
          let (h, p) = laws.decode_total s 32 e digits in
          (
            h,
            ground arith,
            (decode-length s h p e, laws.decode-IsBytes s h p),
            laws.encode-decode s h p,
          ),
    )

    -- The two parts of a shard have 2 and 62 digits, and together are the hex form.
    pub shard_lem :
        (h : Hash)
        → IsHash h
        → (length (shard h).0 ≡ 2)
          × (length (shard h).1 ≡ 62)
          × ((shard h).0 ++ (shard h).1 ≡ to_hex h)
    unfolding shard
    shard_lem h v = (
      length-take_le 2 (to_hex h) (omega (arith, length-to_hex h v)),
      omega (arith, length-to_hex h v, length-drop 2 (to_hex h)),
      take-append-drop 2 (to_hex h),
    )

    -- Two addresses with the same shard, which is the place in the store, are the same.
    shard-injective : (h k : Hash) → IsHash h → IsHash k → shard h ≡ shard k → h ≡ k
    shard-injective h k vh vk e =
        to_hex-injective h k vh vk (cc (e, (shard_lem h vh).2, (shard_lem k vk).2))
