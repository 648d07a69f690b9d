-- ===== src/Agenticd/Rollback/Approved.antt =====
-- A rollback that accepts the loss of data runs with a token for this commit and this user only.
use git_agentic.Common.{
  ℕ, ◌≡◌, refl, true, Option, none, some, Result, ok, err, map_err, bind-eq-ok,
}
use git_agentic.Common.Text.{Text}
use git_agentic.Core.Approval.{ApprovalKey, ApprovalRejection, verify_token}
use git_agentic.Core.Hash.{Hash, to_hex}
use git_agentic.Proto.Messages.{RollbackOutput}
use git_agentic.Agenticd.Failure.{ApprovalError, Root, failure}
use git_agentic.Agenticd.Daemon.{Outside, DaemonState}
use git_agentic.Agenticd.Rollback.Gate.{decide, approval_gate}
use git_agentic.Agenticd.Rollback.MemoryPhase.{RollbackArgs}
use git_agentic.Agenticd.Rollback.Phases.{resolve_target, pass_gate, execute}

module _ {S : Type 0} (o : Outside S) (st : DaemonState S) where
  -- The daemon has a key, the connection a user, and the request a token that is valid for them.
  pub record Approved (commit_hash : Text) (peer_uid : Option ℕ) (token : Option Text) (now : ℕ)
      : Type 0 where
    pub key : ApprovalKey
    pub uid : ℕ
    pub given : Text
    pub has_key : st.approval_key ≡ some key
    pub has_uid : peer_uid ≡ some uid
    pub has_token : token ≡ some given
    pub verifies : verify_token o.hex o.hmac key commit_hash uid given now ≡ ok tt

  verified :
      (r : Result ApprovalRejection (Unit {0}))
      → map_err ApprovalError.rejected r ≡ ok tt
      → r ≡ ok tt
  verified (ok tt) e = refl
  verified (err r) e = cc

  pub decide-Approved :
      (commit_hash : Text) (peer_uid : Option ℕ) (token : Option Text) (now : ℕ)
      → decide o st commit_hash peer_uid token now ≡ ok tt
      → Approved commit_hash peer_uid token now
  unfolding decide
  decide-Approved commit_hash peer_uid token now e =
      go st.approval_key refl peer_uid refl token refl e
    where
      go :
          (k : Option ApprovalKey)
          → st.approval_key ≡ k
          → (u : Option ℕ) → peer_uid ≡ u
          → (t : Option Text) → token ≡ t
          → decide o (record st { approval_key = k }) commit_hash u t now ≡ ok tt
          → Approved commit_hash peer_uid token now
      go none ek u eu t et e = cc
      go (some k) ek none eu t et e = cc
      go (some k) ek (some u) eu none et e = cc
      go (some k) ek (some u) eu (some t) et e = record {
        key = k;
        uid = u;
        given = t;
        has_key = ek;
        has_uid = eu;
        has_token = et;
        verifies = verified _ e;
      }

  -- A rollback that accepts the loss of data and reports success, a dry run too, was asked for with
  -- a token that is valid for the commit that its target names, for the user at the other end of the
  -- connection, and at the time of the check; a daemon without a key runs none.
  pub execute-Approved :
      (args : RollbackArgs) (peer_uid : Option ℕ) (s : S) (out : RollbackOutput)
      → args.accept_data_loss ≡ true
      → (execute o st args peer_uid s).0 ≡ ok out
      → (h : Hash) × ((resolve_target o st args.target s).0 ≡ ok h)
        × Approved
            (to_hex o.hex h)
            peer_uid
            args.approval_token
            (o.unix_seconds (resolve_target o st args.target s).1)
  unfolding execute
  execute-Approved args peer_uid s out accept e =
      let (h, found, rest) = bind-eq-ok (resolve_target o st args.target) _ s e in
      let (u, passed, _) =
        bind-eq-ok (pass_gate o st args h peer_uid) _ (resolve_target o st args.target s).1 rest in
      (h, found, decide-Approved _ _ _ _ (gate_passed h _ passed))
    where
      opened :
          (r : Result ApprovalError (Unit {0})) (u : Unit {0})
          → map_err (λ e. failure (Root.approval e)) r ≡ ok u
          → r ≡ ok tt
      opened (ok tt) u e = refl
      opened (err r) u e = cc

      gate_passed :
          (h : Hash) (t : S) {u : Unit {0}}
          → (pass_gate o st args h peer_uid t).0 ≡ ok u
          → decide o st (to_hex o.hex h) peer_uid args.approval_token (o.unix_seconds t) ≡ ok tt
      gate_passed h t {u} e = opened _ u (unfold pass_gate approval_gate in (rw accept at e))
