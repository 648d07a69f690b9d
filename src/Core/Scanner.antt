-- ===== src/Core/Scanner.antt =====
-- crates/agentic-core/src/scanner.rs and scanner_patterns.rs: the secret scanner that every
-- blob passes before it is stored.
pub mod Runs
use git_agentic.Common.{
  ℕ, suc, ◌+◌, ◌-◌, ◌≡◌, refl, Bool, true, false, not, ◌||◌, Option, none, some, List, [], ◌∷◌,
  ◌++◌, Result, ok, err, length, take, drop, replicate, filter, ltb, if◌then◌else◌, nat_eq, ◌==◌,
  list_eq, String,
}
use git_agentic.Common.SortedMap
use git_agentic.Common.SortedMap.{SortedMap}
use git_agentic.Common.Text.{Bytes, Text, codes, is_digit, is_upper, is_lower}
use git_agentic.External.{Regex, Toml, Float, Hex}
use git_agentic.Fs.{is_some}
use git_agentic.Core.Hash.{Hash, ParseHashError, from_str}

pub record ScanPolicy : Type 0 where
  pub skip_entropy : Bool

-- `ScanPolicy::default()`
abbrev pub default_policy : ScanPolicy
default_policy = record { skip_entropy = false }

abbrev pub min_run_length : ℕ
min_run_length = 20

unfoldable pub is_base64ish : ℕ → Bool
is_base64ish b =
    is_digit b
    || is_upper b
    || is_lower b
    || b == b'+'
    || b == b'/'
    || b == b'='
    || b == b'_'
    || b == b'-'

pub data HitKind : Type 0 where
  pattern_name : Text → HitKind
  high_entropy : HitKind

pub record Hit : Type 0 where
  pub kind : HitKind
  pub offset : ℕ
  pub length : ℕ

pub record TokenPattern : Type 0 where
  pub name : Text
  pub regex : Text
  pub description : Text

abbrev pub token_pattern : String → String → String → TokenPattern
token_pattern name regex description = record {
  name = codes name;
  regex = codes regex;
  description = codes description;
}

-- `PATTERNS`
unfoldable pub patterns : List TokenPattern
patterns =
    token_pattern "github_pat" "gh[posur]_[A-Za-z0-9_]{36,}"
      "GitHub personal-access-token format (ghp_, gho_, ghs_, ghu_, ghr_)"
    ∷ token_pattern "aws_access_key_id" "AKIA[0-9A-Z]{16}" "AWS access key ID"
    ∷ token_pattern "anthropic_api_key" "sk-ant-(api|admin)-[A-Za-z0-9_-]{40,}"
        "Anthropic API or admin key"
    ∷ token_pattern "openai_api_key" "sk-(proj-)?[A-Za-z0-9]{48,}"
        "OpenAI API key (standard and project)"
    ∷ token_pattern "stripe_live_key" "(sk|pk)_live_[A-Za-z0-9]{24,}"
        "Stripe live secret or publishable key"
    ∷ token_pattern "private_key_pem_header" "-----BEGIN (RSA |EC |OPENSSH |DSA |)PRIVATE KEY-----"
        "PEM-encoded private-key header"
    ∷ []

-- An allowlist is a `BTreeSet` of blob addresses.
pub record Allowlist : Type 0 where
  pub blob_hashes : SortedMap (Unit {0})

abbrev pub empty_allowlist : Allowlist
empty_allowlist = record { blob_hashes = [] }

abbrev pub contains : Allowlist → Hash → Bool
contains a h = is_some (SortedMap.get a.blob_hashes h)

pub data AllowlistError : Type 0 where
  toml : AllowlistError
  hash : ParseHashError → AllowlistError

module _ (x : Hex) where
  unfoldable pub parse_entries : List Text → SortedMap (Unit {0}) → Result AllowlistError Allowlist
  parse_entries [] set = ok (record { blob_hashes = set })
  parse_entries (entry ∷ rest) set = elim (from_str x entry) [
    | ok h ↦ parse_entries rest (SortedMap.insert set h tt)
    | err e ↦ err (hash e)
  ]

  unfoldable pub from_toml : Toml → Text → Result AllowlistError Allowlist
  unfolding parse_entries
  from_toml t s = elim (t.ignore_entries s) [
    | none ↦ err toml
    | some entries ↦ parse_entries entries []
  ]

pub record Engine : Type 1 where
  pub regex : Regex
  pub float : Float

-- `counts[b as usize] += 1`
unfoldable pub bump : List ℕ → ℕ → List ℕ
bump [] b = []
bump (c ∷ cs) ℕ.zero = suc c ∷ cs
bump (c ∷ cs) (suc b) = c ∷ bump cs b

abbrev pub or_start : Option ℕ → ℕ → ℕ
or_start none i = i
or_start (some start) i = start

abbrev pub hits_of : Text → List (ℕ × ℕ) → List Hit
hits_of name [] = []
hits_of name ((start, end) ∷ ms) =
    record { kind = pattern_name name; offset = start; length = end - start } ∷ hits_of name ms

abbrev pub is_pattern : Hit → Bool
is_pattern h = elim h.kind [ pattern_name _ ↦ true | high_entropy ↦ false ]

module _ (x : Engine) where
  open x use {regex.{is_match, find_iter}, float.{F64, of_ℕ, sub, mul, div, log2, lt}}

  unfoldable pub count_bytes : List ℕ → Bytes → List ℕ
  unfolding bump
  count_bytes counts [] = counts
  count_bytes counts (b ∷ bytes) = count_bytes (bump counts b) bytes

  unfoldable pub sum_entropy : F64 → F64 → List ℕ → F64
  sum_entropy len h [] = h
  sum_entropy len h (c ∷ cs) =
      let p = div (of_ℕ c) len in sum_entropy len (if ltb 0 c then sub h (mul p (log2 p)) else h) cs

  unfoldable pub shannon_entropy : Bytes → F64
  unfolding count_bytes sum_entropy
  shannon_entropy [] = of_ℕ 0
  shannon_entropy (b ∷ bytes) =
      sum_entropy (of_ℕ (length (b ∷ bytes))) (of_ℕ 0) (count_bytes (replicate 256 0) (b ∷ bytes))

  -- `ENTROPY_THRESHOLD`, 4.5
  abbrev pub is_high_entropy : Bytes → Bool
  is_high_entropy run = lt (div (of_ℕ 9) (of_ℕ 2)) (shannon_entropy run)

  -- `maybe_emit_entropy_hit`
  unfoldable pub maybe_emit_entropy_hit : Bytes → ℕ → ℕ → List Hit
  maybe_emit_entropy_hit bytes start end =
      let len = end - start in
      if ltb len min_run_length
      then []
      else if is_high_entropy (take len (drop start bytes))
      then record { kind = high_entropy; offset = start; length = len } ∷ []
      else []

  abbrev pub close_run : Bytes → Option ℕ → ℕ → List Hit
  close_run bytes none i = []
  close_run bytes (some start) i = maybe_emit_entropy_hit bytes start i

  -- The loop of `scan_impl` over runs: `rest` is what is still to be read, from index `i` on.
  unfoldable pub entropy_hits : Bytes → Bytes → ℕ → Option ℕ → List Hit
  unfolding maybe_emit_entropy_hit
  entropy_hits bytes [] i run_start = close_run bytes run_start (length bytes)
  entropy_hits bytes (b ∷ rest) i run_start = elim (is_base64ish b) [
    | true ↦ entropy_hits bytes rest (i + 1) (some (or_start run_start i))
    | false ↦ close_run bytes run_start i ++ entropy_hits bytes rest (i + 1) none
  ]

  unfoldable pub pattern_hits : List TokenPattern → Bytes → List Hit
  pattern_hits [] bytes = []
  pattern_hits (p ∷ ps) bytes =
      (if is_match p.regex bytes then hits_of p.name (find_iter p.regex bytes) else [])
      ++ pattern_hits ps bytes

  unfoldable pub scan_impl : Bytes → List Hit
  scan_impl bytes = pattern_hits patterns bytes ++ entropy_hits bytes bytes 0 none

  unfoldable pub scan_with : Bytes → ScanPolicy → List Hit
  unfolding scan_impl
  scan_with bytes policy =
      if policy.skip_entropy then filter is_pattern (scan_impl bytes) else scan_impl bytes

  unfoldable pub scan : Bytes → List Hit
  unfolding scan_with
  scan bytes = scan_with bytes default_policy
