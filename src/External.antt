-- ===== src/External.antt =====
-- The crates that the program calls and the repository does not hold: each is a record of
-- operations, with the documented behaviour that the program relies on as a record of laws.
use git_agentic.Common.{ℕ, ◌*◌, ◌<◌, ◌≡◌, Option, some, Bool, true, length, All, all, List}
use git_agentic.Common.Text.{Bytes, Text, is_hex_digit, to_ascii_lowercase}

abbrev pub IsBytes : Bytes → Type 0
IsBytes = All (λ b. b < 256)

-- hex: `encode` writes two lowercase digits for each byte; `decode` reads digits of either case.
pub record Hex : Type 0 where
  pub encode : Bytes → Text
  pub decode : Text → Option Bytes

pub record HexLaws (x : Hex) : Type 0 where
  pub decode-encode : (b : Bytes) → IsBytes b → x.decode (x.encode b) ≡ some b
  pub encode-decode :
      (s : Text) (b : Bytes) → x.decode s ≡ some b → x.encode b ≡ to_ascii_lowercase s
  pub length-encode : (b : Bytes) → length (x.encode b) ≡ 2 * length b
  pub encode_digits : (b : Bytes) → IsBytes b → all is_hex_digit (x.encode b) ≡ true
  pub decode_digits : (s : Text) (b : Bytes) → x.decode s ≡ some b → all is_hex_digit s ≡ true
  pub decode-IsBytes : (s : Text) (b : Bytes) → x.decode s ≡ some b → IsBytes b
  pub decode_total :
      (s : Text) (n : ℕ)
      → length s ≡ 2 * n
      → all is_hex_digit s ≡ true
      → (b : Bytes) × (x.decode s ≡ some b)

-- blake3: a digest has 32 bytes. That no two inputs collide is assumed nowhere.
pub record Blake3 : Type 0 where
  pub digest : Bytes → Bytes

pub record Blake3Laws (x : Blake3) : Type 0 where
  pub length-digest : (b : Bytes) → length (x.digest b) ≡ 32
  pub digest-IsBytes : (b : Bytes) → IsBytes (x.digest b)

-- serde_json at one type: what was written reads back.
pub record Serde (A : Type 0) : Type 0 where
  pub to_vec : A → Bytes
  pub from_slice : Bytes → Option A

pub record SerdeLaws {A : Type 0} (x : Serde A) : Type 0 where
  pub from_slice-to_vec : (a : A) → x.from_slice (x.to_vec a) ≡ some a

-- zstd
pub record Zstd : Type 0 where
  pub encode_all : Bytes → Bytes
  pub decode_all : Bytes → Option Bytes

pub record ZstdLaws (x : Zstd) : Type 0 where
  pub decode_all-encode_all : (b : Bytes) → x.decode_all (x.encode_all b) ≡ some b

-- hmac over sha2: a tag has 32 bytes. Unforgeability is assumed nowhere.
pub record Hmac : Type 0 where
  pub finalize : Bytes → Bytes → Bytes

pub record HmacLaws (x : Hmac) : Type 0 where
  pub length-finalize : (key message : Bytes) → length (x.finalize key message) ≡ 32
  pub finalize-IsBytes : (key message : Bytes) → IsBytes (x.finalize key message)

-- regex, over bytes: whether a pattern matches, and its matches as start and end.
pub record Regex : Type 0 where
  pub is_match : Text → Bytes → Bool
  pub find_iter : Text → Bytes → List (ℕ × ℕ)

-- toml, at the type of the allowlist file: the `blob_hash` of each `[[ignore]]` entry.
pub record Toml : Type 0 where
  pub ignore_entries : Text → Option (List Text)

-- `f64`
pub record Float : Type 1 where
  pub F64 : Type 0
  pub of_ℕ : ℕ → F64
  pub sub : F64 → F64 → F64
  pub mul : F64 → F64 → F64
  pub div : F64 → F64 → F64
  pub log2 : F64 → F64
  pub lt : F64 → F64 → Bool
