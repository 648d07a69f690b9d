-- ===== src/Agenticd/Rollback/Gate.antt =====
-- crates/agenticd/src/rollback/mod.rs: the approval that a rollback with data loss needs.
use git_agentic.Common.{ℕ, true, false, Option, none, some, [], ◌∷◌, Result, ok, err, map_err}
use git_agentic.Common.Text.{Text, codes, split_once, between}
use git_agentic.Core.Approval.{ApprovalRejection, ApprovalKey, verify_token}
use git_agentic.Core.Approval
use git_agentic.Core.Hash.{Hash, to_hex}
use git_agentic.Agenticd.Failure.{ApprovalError}
use git_agentic.Agenticd.Daemon.{Outside, DaemonState, AuditEvent}

-- `ApprovalError::audit_decision`
unfoldable pub audit_decision : ApprovalError → Text
audit_decision ApprovalError.key_not_configured = codes "rejected_no_key_configured"
audit_decision ApprovalError.no_peer_uid = codes "rejected_no_peer_uid"
audit_decision ApprovalError.token_required = codes "rejected_no_token"
audit_decision (ApprovalError.rejected r) = Approval.audit_decision r

-- `chars().take(n)` of valid UTF-8: a byte from 0x80 to 0xbf goes on with a character.
unfoldable pub take_chars : ℕ → Text → Text
take_chars n [] = []
take_chars n (c ∷ s) = elim (between 0x80 0xbf c) [
  | true ↦ c ∷ take_chars n s
  | false ↦ (elim n [ ℕ.zero ↦ [] | ℕ.suc m ↦ c ∷ take_chars m s ])
]

unfoldable pub token_prefix_for_audit : Text → Text
unfolding take_chars
token_prefix_for_audit token = elim (split_once b':' token) [
  | some (stamp, tag) ↦ take_chars 8 tag
  | none ↦ take_chars 8 token
]

abbrev pub prefix_of : Option Text → Option Text
prefix_of none = none
prefix_of (some token) = some (token_prefix_for_audit token)

abbrev pub decision_of : Result ApprovalError (Unit {0}) → Text
decision_of (ok _) = codes "accepted"
decision_of (err e) = audit_decision e

module _ {S : Type 0} (o : Outside S) (st : DaemonState S) where
  -- What the gate decides, at a time
  unfoldable pub decide : Text → Option ℕ → Option Text → ℕ → Result ApprovalError (Unit {0})
  decide commit_hash peer_uid approval_token now = elim st.approval_key [
    | none ↦ err ApprovalError.key_not_configured
    | some key ↦ (elim peer_uid [
      | none ↦ err ApprovalError.no_peer_uid
      | some uid ↦ (elim approval_token [
        | none ↦ err ApprovalError.token_required
        | some token ↦
            map_err ApprovalError.rejected (verify_token o.hex o.hmac key commit_hash uid token now)
      ])
    ])
  ]

  -- The one event that the gate writes, whatever it decides
  unfoldable pub audit_forced_data_loss :
      Option ℕ → Text → Result ApprovalError (Unit {0}) → Option Text → AuditEvent
  audit_forced_data_loss peer_uid commit_hash decision approval_token = record {
    peer_uid = peer_uid;
    target_commit_hash = commit_hash;
    decision = decision_of decision;
    token_prefix = prefix_of approval_token;
  }

  unfoldable pub approval_gate :
      Hash → Option ℕ → Option Text → S → Result ApprovalError (Unit {0}) × S
  unfolding decide audit_forced_data_loss
  approval_gate target peer_uid approval_token s =
      let commit_hash = to_hex o.hex target in
      let decision = decide commit_hash peer_uid approval_token (o.unix_seconds s) in
      (decision, o.audit (audit_forced_data_loss peer_uid commit_hash decision approval_token) s)
