-- ===== src/Agenticd/PeerAuth.antt =====
-- crates/agenticd/src/peer_auth.rs: which users may connect, and whose commits name them.
use git_agentic.Common.{ℕ, Bool, true, Option, none, some, List, any, ◌==◌, nat_eq}

-- An allowlist is a `BTreeSet`, of which only membership is read.
pub data PeerAuthPolicy : Type 0 where
  allowlist : List ℕ → PeerAuthPolicy
  insecure_allow_any : PeerAuthPolicy

unfoldable pub is_allowed : PeerAuthPolicy → ℕ → Bool
is_allowed (allowlist set) uid = any (λ u. u == uid) set
is_allowed insecure_allow_any uid = true

unfoldable pub attestation_for : PeerAuthPolicy → ℕ → Option ℕ
attestation_for (allowlist set) uid = some uid
attestation_for insecure_allow_any uid = none
