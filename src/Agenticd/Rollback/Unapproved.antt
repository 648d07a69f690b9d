-- ===== src/Agenticd/Rollback/Unapproved.antt =====
-- A rollback that accepts the loss of data and is not approved does nothing.
use git_agentic.Common.{
  ℕ, ◌≡◌, ◌++◌, ◌>>=◌, refl, true, Option, Result, ok, err, Action, lift, continue, bind-ok, ok_or,
  map_err,
}
use git_agentic.Common.Text.{Text, codes}
use git_agentic.Fs.{Disk}
use git_agentic.Core.Error.{Error as CoreError}
use git_agentic.Core.Hash.{Hash, to_hex}
use git_agentic.Core.Refs.{resolve}
use git_agentic.Core.Refs.Reads.{resolve-ReadOnly}
use git_agentic.Core.Staging.{on_disk}
use git_agentic.Proto.Messages.{RollbackOutput}
use git_agentic.Agenticd.Failure.{ApprovalError, Failure, Root, failure, anyhow}
use git_agentic.Agenticd.Daemon.{Outside, DaemonState}
use git_agentic.Agenticd.Rollback.Approved.{Approved, decide-Approved}
use git_agentic.Agenticd.Rollback.Gate.{decide, approval_gate, audit_forced_data_loss}
use git_agentic.Agenticd.Rollback.MemoryPhase.{RollbackArgs}
use git_agentic.Agenticd.Rollback.Phases.{resolve_target, pass_gate, carry_out, execute}

module _ {S : Type 0} (o : Outside S) (st : DaemonState S) where
  -- The refs have been read, and no more: the tree of the disk is the same, and so is all else.
  pub record OnlyRead (s t : S) : Type 0 where
    pub disk : Disk
    pub same_files : disk.nodes ≡ (st.disk.disk s).nodes
    pub state : t ≡ st.disk.set_disk disk s

  -- What a rollback ends in that is refused: its target is not found, or its one event is added to
  -- the audit log.
  pub data Refused (args : RollbackArgs) (peer_uid : Option ℕ) (s : S)
      : Result Failure RollbackOutput × S → Type 0 where
    unresolved :
        (e : Failure) (t : S)
        → (resolve_target o st args.target s).0 ≡ err e
        → OnlyRead s t
        → Refused args peer_uid s (err e, t)
    unapproved :
        (h : Hash) (e : ApprovalError) (t : S)
        → (resolve_target o st args.target s).0 ≡ ok h
        → OnlyRead s t
        → Refused args peer_uid s (
          err (failure (Root.approval e)),
          o.audit
              (audit_forced_data_loss o st peer_uid (to_hex o.hex h) (err e) args.approval_token)
              t,
        )

  resolve-OnlyRead : (name : Text) (s : S) → OnlyRead s (resolve_target o st name s).1
  unfolding resolve_target on_disk
  resolve-OnlyRead name s = record {
    disk = reading.1;
    same_files =
        ((resolve-ReadOnly o.hex st.refs name).keeps (st.disk.disk s).nodes).at (st.disk.disk s)
          refl;
    state = go reading.0;
  }
    where
      reading : Result CoreError (Option Hash) × Disk
      reading = resolve o.hex st.refs name (st.disk.disk s)

      found : Option Hash → Action S Failure Hash
      found h = lift (ok_or h (anyhow (codes "ref not found: " ++ name)))

      go :
          (r : Result CoreError (Option Hash))
          → (continue
              (map_err (λ e. failure (Root.core e)) r)
              found
              (st.disk.set_disk reading.1 s)).1
            ≡ st.disk.set_disk reading.1 s
      go (ok h) = refl
      go (err e) = refl

  -- A rollback that accepts the loss of data, to a target for which there is no valid token, has
  -- read the refs to find its target and has done nothing else but add an event to the audit log:
  -- no object has been loaded or stored, no file, no ref and no memory has been touched, and the
  -- reply is the error of the gate, or that of a target that is not found.
  pub execute_unapproved :
      (args : RollbackArgs) (peer_uid : Option ℕ) (s : S)
      → args.accept_data_loss ≡ true
      → ((h : Hash)
          → (resolve_target o st args.target s).0 ≡ ok h
          → ¬ Approved o st
              (to_hex o.hex h)
              peer_uid
              args.approval_token
              (o.unix_seconds (resolve_target o st args.target s).1))
      → Refused args peer_uid s (execute o st args peer_uid s)
  unfolding execute
  execute_unapproved args peer_uid s accept without = go (resolve_target o st args.target s).0 refl
    where
      t : S
      t = (resolve_target o st args.target s).1

      later : Hash → Action S Failure RollbackOutput
      later h = pass_gate o st args h peer_uid >>= λ _. carry_out o st args h peer_uid

      judged :
          (h : Hash) (r : Result ApprovalError (Unit {0}))
          → (resolve_target o st args.target s).0 ≡ ok h
          → decide o st (to_hex o.hex h) peer_uid args.approval_token (o.unix_seconds t) ≡ r
          → ¬ Approved o st (to_hex o.hex h) peer_uid args.approval_token (o.unix_seconds t)
          → Refused args peer_uid s (later h t)
      judged h (ok tt) found e n = elim (n (decide-Approved o st _ _ _ _ e)) [ ]
      judged h (err x) found e n =
          unfold pass_gate approval_gate in
          rw (accept, e) (unapproved h x t found (resolve-OnlyRead args.target s))

      go :
          (r : Result Failure Hash)
          → (resolve_target o st args.target s).0 ≡ r
          → Refused args peer_uid s (execute o st args peer_uid s)
      go (ok h) e =
          rw (bind-ok (resolve_target o st args.target) later s e) (judged h _ e refl (without h e))
      go (err e) f = rw f (unresolved e t f (resolve-OnlyRead args.target s))
