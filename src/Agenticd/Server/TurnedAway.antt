-- ===== src/Agenticd/Server/TurnedAway.antt =====
-- Requests to roll back with the loss of data that are turned away, through the whole of `dispatch`.
use git_agentic.Common.{
  ℕ, ◌+◌, ◌-◌, ◌≡◌, refl, Bool, true, false, Option, none, Result, ok, err, Action, continue,
  nat_eq, ◌==◌, pure,
}
use git_agentic.Common.Text.{Text}
use git_agentic.Core.Hash.{Hash, to_hex}
use git_agentic.Proto.Messages.{Request, RequestV0, Response, request_of_v0, RollbackOutput}
use git_agentic.Agenticd.Failure.{Failure}
use git_agentic.Agenticd.Daemon.{Outside, DaemonState}
use git_agentic.Agenticd.PeerAuth.{insecure_allow_any, attestation_for}
use git_agentic.Agenticd.Rollback.Approved.{Approved}
use git_agentic.Agenticd.Rollback.Unapproved.{Refused, execute_unapproved}
use git_agentic.Agenticd.Rollback.MemoryPhase.{RollbackArgs}
use git_agentic.Agenticd.Rollback.Phases.{resolve_target}
use git_agentic.Agenticd.Rollback.Phases
use git_agentic.Agenticd.Server.Dispatch.{
  Queue, queue_full, shutting_down, check_shutdown, with_commit_slot, write_arm, dispatch,
  rollback_args,
}

module _ {S : Type 0} (w : Queue S) (o : Outside S) (st : DaemonState S) where
  -- The state when the lock is had
  abbrev pub queued : S → S
  queued s = w.wait_for_lock (w.set_free_slots (w.free_slots s - 1) s)

  -- A slot of the queue is free again.
  abbrev pub release : S → S
  release s = w.set_free_slots (w.free_slots s + 1) s

  -- How a request ends that rolls nothing back: nothing has been done when the daemon shuts down or
  -- the queue is full; else the request has waited in its slot, which is free again, and then the
  -- daemon was shutting down or the rollback was refused.
  pub data TurnedAway (args : RollbackArgs) (peer_uid : Option ℕ) (s : S)
      : Result Failure Response × S → Type 0 where
    shut : TurnedAway args peer_uid s (err shutting_down, s)
    full : TurnedAway args peer_uid s (ok queue_full, s)
    shut_in_queue : TurnedAway args peer_uid s (err shutting_down, release (queued s))
    refused :
        (e : Failure) (t : S)
        → Refused o st args peer_uid (queued s) (err e, t)
        → TurnedAway args peer_uid s (err e, release t)

  replied : RollbackOutput → Action S Failure Response
  replied out = pure (Response.rollback out)

  answered :
      (args : RollbackArgs) (peer_uid : Option ℕ) (s : S) (r : Result Failure RollbackOutput × S)
      → Refused o st args peer_uid (queued s) r
      → TurnedAway args peer_uid s
          ((continue r.0 replied r.1).0, release (continue r.0 replied r.1).1)
  answered args peer_uid s _ (Refused.unresolved e t f k) = refused e t (Refused.unresolved e t f k)
  answered args peer_uid s _ (Refused.unapproved h e t f k) =
      refused _ _ (Refused.unapproved h e t f k)

  -- A request to roll back with the loss of data, without a valid token, is turned away.
  dispatch_unapproved :
      (target : Text) (dry_run : Bool) (token : Option Text) (peer_uid : Option ℕ) (s : S)
      → ((h : Hash)
          → (resolve_target o st target (queued s)).0 ≡ ok h
          → ¬ Approved o st
              (to_hex o.hex h)
              peer_uid
              token
              (o.unix_seconds (resolve_target o st target (queued s)).1))
      → TurnedAway
          (rollback_args o st target dry_run true token)
          peer_uid
          s
          (dispatch o st w (Request.rollback target dry_run true token) peer_uid s)
  unfolding dispatch write_arm check_shutdown with_commit_slot replied
  dispatch_unapproved target dry_run token peer_uid s without =
      go (w.is_cancelled s) refl (w.free_slots s == 0) refl (w.is_cancelled (queued s)) refl
    where
      args : RollbackArgs
      args = rollback_args o st target dry_run true token

      go :
          (entry : Bool)
          → w.is_cancelled s ≡ entry
          → (is_full : Bool) → (w.free_slots s == 0) ≡ is_full
          → (late : Bool) → w.is_cancelled (queued s) ≡ late
          → TurnedAway args peer_uid s
              (dispatch o st w (Request.rollback target dry_run true token) peer_uid s)
      go true c b f late l = rw c shut
      go false c true f late l = rw (c, f) full
      go false c false f true l = rw (c, f, l) shut_in_queue
      go false c false f false l =
          rw (c, f, l)
            (answered args peer_uid s (Phases.execute o st args peer_uid (queued s))
              (execute_unapproved o st args peer_uid (queued s) refl without))

  -- A client of the old protocol cannot lose data: its request to roll back with data loss, which
  -- has no token, is turned away, whatever key the daemon has. At most the refs have been read, an
  -- event has been added to the audit log, and a slot of the queue has been held for the time.
  pub v0_never_rolls_back :
      (target : Text) (dry_run : Bool) (peer_uid : Option ℕ) (s : S)
      → TurnedAway
          (rollback_args o st target dry_run true none)
          peer_uid
          s
          (dispatch o st w (request_of_v0 (RequestV0.rollback target dry_run true)) peer_uid s)
  unfolding request_of_v0
  v0_never_rolls_back target dry_run peer_uid s =
      dispatch_unapproved target dry_run none peer_uid s λ h found a. cc (a.has_token)

  -- A daemon that was started to admit any user runs no rollback that accepts the loss of data: the
  -- request is turned away, whoever asks, whatever token comes with the request and whatever key the
  -- daemon has. At most the refs have been read, an event has been added to the audit log, and a
  -- slot of the queue has been held for the time.
  pub insecure_never_rolls_back :
      (target : Text) (dry_run : Bool) (token : Option Text) (uid : ℕ) (s : S)
      → TurnedAway
          (rollback_args o st target dry_run true token)
          (attestation_for insecure_allow_any uid)
          s
          (dispatch o st w
            (Request.rollback target dry_run true token)
            (attestation_for insecure_allow_any uid)
            s)
  unfolding attestation_for
  insecure_never_rolls_back target dry_run token uid s =
      dispatch_unapproved target dry_run token none s λ h found a. cc (a.has_uid)
