-- ===== src/Core/Approval.antt =====
-- crates/agentic-core/src/approval.rs: the tokens that approve a rollback with data loss.
pub mod Tokens
use git_agentic.Common.{
  ℕ, ◌+◌, ◌-◌, ◌≡◌, Bool, true, false, Option, none, some, List, [], ◌∷◌, ◌++◌, Result, ok, err,
  and_then, ok_or, ltb, length, ◌==◌, nat_eq, list_eq, if◌then◌else◌,
}
use git_agentic.Common.Decimal.{to_decimal, parse_u64}
use git_agentic.Common.Text.{Bytes, Text, codes, split_once, to_ascii_lowercase}
use git_agentic.External.{Hex, Hmac}

abbrev pub approval_token_ttl_seconds : ℕ
approval_token_ttl_seconds = 300

abbrev pub domain : Text
domain = codes "git.agentic/rollback-approval/v1"

abbrev pub approval_key_len : ℕ
approval_key_len = 32

pub record ApprovalKey : Type 0 where
  pub key : Bytes

pub data ApprovalKeyError : Type 0 where
  wrong_length : (expected actual : ℕ) → ApprovalKeyError

pub data ApprovalRejection : Type 0 where
  malformed invalid_signature : ApprovalRejection
  expired : (ttl : ℕ) → ApprovalRejection

-- `ApprovalKey::from_bytes`
unfoldable pub from_bytes : Bytes → Result ApprovalKeyError ApprovalKey
from_bytes bytes =
    if length bytes == approval_key_len
    then ok (record { key = bytes })
    else err (wrong_length approval_key_len (length bytes))

unfoldable pub audit_decision : ApprovalRejection → Text
audit_decision malformed = codes "rejected_malformed"
audit_decision (expired ttl) = codes "rejected_expired"
audit_decision invalid_signature = codes "rejected_invalid_signature"

abbrev colon : Text
colon = b':' ∷ []

unfoldable pub signing_input : Text → ℕ → ℕ → Bytes
signing_input commit_hash peer_uid timestamp =
    domain
    ++ (colon
        ++ (commit_hash ++ (colon ++ (to_decimal peer_uid ++ (colon ++ to_decimal timestamp)))))

module _ (x : Hex) (hmac : Hmac) where
  unfoldable pub tag : ApprovalKey → Text → ℕ → ℕ → Bytes
  unfolding signing_input
  tag key commit_hash peer_uid timestamp =
      hmac.finalize key.key (signing_input commit_hash peer_uid timestamp)

  unfoldable pub generate_token : ApprovalKey → Text → ℕ → ℕ → Text
  unfolding tag
  generate_token key commit_hash peer_uid now =
      to_decimal now ++ (colon ++ x.encode (tag key (to_ascii_lowercase commit_hash) peer_uid now))

  -- The distance of two times, of which one difference is 0: their `max`
  abbrev pub delta : ℕ → ℕ → ℕ
  delta now timestamp = (now - timestamp) + (timestamp - now)

  -- The time stamp and the tag of a token
  unfoldable pub parse_token : Text → Result ApprovalRejection (ℕ × Bytes)
  parse_token token = and_then (ok_or (split_once b':' token) malformed) λ parts.
      and_then (ok_or (parse_u64 parts.0) malformed) λ timestamp.
        and_then (ok_or (x.decode parts.1) malformed) λ provided_tag.
          if length provided_tag == 32 then ok (timestamp, provided_tag) else err malformed

  -- What `verify_token` checks of them: the time first, then the tag
  unfoldable pub check_parts :
      ApprovalKey → Text → ℕ → ℕ → ℕ × Bytes → Result ApprovalRejection (Unit {0})
  unfolding tag
  check_parts key commit_hash peer_uid now (timestamp, provided_tag) =
      if ltb approval_token_ttl_seconds (delta now timestamp)
      then err (expired approval_token_ttl_seconds)
      else if tag key (to_ascii_lowercase commit_hash) peer_uid timestamp == provided_tag
      then ok tt
      else err invalid_signature

  unfoldable pub verify_token :
      ApprovalKey → Text → ℕ → Text → ℕ → Result ApprovalRejection (Unit {0})
  unfolding parse_token check_parts
  verify_token key commit_hash peer_uid token now =
      and_then (parse_token token) (check_parts key commit_hash peer_uid now)
