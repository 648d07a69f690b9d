-- ===== src/Agenticd/Server/Refusals.antt =====
-- Requests that change nothing: those that read, and those to write that are refused.
use git_agentic.Common.{
  ℕ, zero, suc, ◌+◌, ◌-◌, ◌≡◌, refl, Bool, true, false, Option, none, some, ok, err, Result, ◌⊎◌,
  inl, inr, Action, lift, Keeps, Keeps-bind, Keeps-lift, Keeps-pure, if◌then◌else◌, nat_eq, list_eq,
  ◌==◌,
}
use git_agentic.Common.Text.{Text, codes, Bytes}
use git_agentic.Core.Hash.{Hash}
use git_agentic.Core.Refs.{RefsSnapshot, resolve, resolve_frozen}
use git_agentic.Core.Refs.Reads.{resolve-ReadOnly}
use git_agentic.Core.Refs.Walks.{snapshot-ReadOnly}
use git_agentic.Core.Staging.{walk_log_from, walk_log, commit_of_object}
use git_agentic.Core.Diff.{
  load_commit, load_tree, load_blob, load_entries, diff_tree, to_str, diff_model_blob, diff,
}
use git_agentic.Proto.Messages.{CommitInput, Request, Response}
use git_agentic.Agenticd.Failure.{Failure, Root, on_refs, rooted}
use git_agentic.Agenticd.Daemon.{Outside, DaemonState}
use git_agentic.Agenticd.Rollback.DryRun.{
  ReadsKeep, on_disk-Keeps, rooted-Keeps, context-Keeps, Keeps-if,
}
use git_agentic.Agenticd.Server.Dispatch.{
  Queue, queue_full, shutting_down, check_shutdown, lock, with_commit_slot, write_arm, dispatch,
  read_object, handle_diff, frozen, log_from,
}

-- The requests that write
pub data IsWrite : Request → Type 0 where
  commit : (input : CommitInput) → IsWrite (Request.commit input)
  rollback :
      (target : Text) (dry_run accept : Bool) (token : Option Text)
      → IsWrite (Request.rollback target dry_run accept token)

-- Why the daemon refuses to write: it shuts down, the queue is full, or the signal to shut down has
-- come while the request waited for the lock.
pub data Refusing {S : Type 0} (w : Queue S) (s : S) : Type 0 where
  stopped : w.is_cancelled s ≡ true → Refusing w s
  full : w.free_slots s ≡ 0 → Refusing w s
  stopped_in_queue :
      w.is_cancelled (w.wait_for_lock (w.set_free_slots (w.free_slots s - 1) s)) ≡ true
      → Refusing w s

-- `P` speaks of the files, of the refs, of the objects and of the memory, not of the slots that are
-- taken; and what others do while a request waits for the lock keeps it.
pub record QueueKeeps {S : Type 0} (w : Queue S) (P : S → Type 0) : Type 0 where
  pub slots_keep : (n : ℕ) (s : S) → P s → P (w.set_free_slots n s)
  pub wait_keeps : (s : S) → P s → P (w.wait_for_lock s)

module _ {S : Type 0} (w : Queue S) {P : S → Type 0} (q : QueueKeeps w P) where
  slot-Keeps : (arm : Action S Failure Response) → Keeps P arm → Keeps P (with_commit_slot w arm)
  unfolding with_commit_slot
  slot-Keeps arm k = record { at = λ s h. go s h (w.free_slots s == 0) }
    where
      taken : S → S
      taken s = w.set_free_slots (w.free_slots s - 1) s

      held : S → Result Failure Response × S
      held s = (
        (arm (taken s)).0,
        w.set_free_slots (w.free_slots (arm (taken s)).1 + 1) (arm (taken s)).1,
      )

      go :
          (s : S)
          → P s
          → (b : Bool)
          → let r : Result Failure Response × S = if b then (ok queue_full, s) else held s in P r.1
      go s h true = h
      go s h false = q.slots_keep _ _ (k.at _ (q.slots_keep _ s h))

  lock-Keeps : Keeps P (lock w)
  lock-Keeps = record { at = λ s h. q.wait_keeps s h }

  -- What a request to write finds when it is refused: the state as it was, and the reply that says
  -- so.
  abbrev pub TurnsDown : Action S Failure Response → S → Type 0
  TurnsDown m s = P (m s).1 × (((m s).0 ≡ err shutting_down) ⊎ ((m s).0 ≡ ok queue_full))

  arm-TurnsDown :
      (arm : Action S Failure Response) (s : S) → P s → Refusing w s → TurnsDown (write_arm w arm) s
  unfolding write_arm check_shutdown with_commit_slot
  arm-TurnsDown arm s h x =
      go x (w.is_cancelled s) refl (w.free_slots s == 0) refl (w.is_cancelled queued) refl
    where
      queued : S
      queued = w.wait_for_lock (w.set_free_slots (w.free_slots s - 1) s)

      go :
          Refusing w s
          → (entry : Bool) → w.is_cancelled s ≡ entry
          → (is_full : Bool) → (w.free_slots s == 0) ≡ is_full
          → (late : Bool) → w.is_cancelled queued ≡ late
          → TurnsDown (write_arm w arm) s
      go x true c b f l e = rw c (h, inl refl)
      go x false c true f l e = rw (c, f) (h, inr refl)
      go x false c false f true e =
          rw (c, f, e) (q.slots_keep _ _ (q.wait_keeps _ (q.slots_keep _ s h)), inl refl)
      go (stopped g) false c false f false e = cc
      go (full g) false c false f false e = cc (rw g at f)
      go (stopped_in_queue g) false c false f false e = cc

module _ {S : Type 0} (o : Outside S) (st : DaemonState S) {P : S → Type 0}
    (rk : ReadsKeep o st P) where
  load_commit-Keeps : (h : Hash) → Keeps P (load_commit st.store h)
  unfolding load_commit
  load_commit-Keeps h = Keeps-bind _ _ (rk.get_keeps h) λ x. Keeps-lift _

  load_entries-Keeps : (h : Option Hash) → Keeps P (load_entries st.store h)
  unfolding load_tree
  load_entries-Keeps none = Keeps-pure _
  load_entries-Keeps (some h) =
      Keeps-bind _ _ (Keeps-bind _ _ (rk.get_keeps h) λ x. Keeps-lift _) λ t. Keeps-pure _

  diff_tree-Keeps : (a b : Option Hash) → Keeps P (diff_tree st.store a b)
  unfolding diff_tree
  diff_tree-Keeps a b = Keeps-if _ (Keeps-pure _) (
      Keeps-bind _ _ (load_entries-Keeps a)
        λ x. Keeps-bind _ _ (load_entries-Keeps b) λ y. Keeps-pure _)

  to_str-Keeps : (lossy : Bytes → Text) (h : Option Hash) → Keeps P (to_str st.store lossy h)
  unfolding load_blob
  to_str-Keeps lossy none = Keeps-pure _
  to_str-Keeps lossy (some h) =
      Keeps-bind _ _ (Keeps-bind _ _ (rk.get_keeps h) λ x. Keeps-lift _) λ b. Keeps-pure _

  model-Keeps :
      (lossy : Bytes → Text) (a b : Option Hash) → Keeps P (diff_model_blob st.store lossy a b)
  unfolding diff_model_blob
  model-Keeps lossy a b = Keeps-if _ (Keeps-pure _) (
      Keeps-bind _ _ (to_str-Keeps lossy a)
        λ x. Keeps-bind _ _ (to_str-Keeps lossy b) λ y. Keeps-pure _)

  diff-Keeps : (lossy : Bytes → Text) (from to : Hash) → Keeps P (diff st.store lossy from to)
  unfolding diff
  diff-Keeps lossy from to = Keeps-bind _ _ (load_commit-Keeps from) λ a.
      Keeps-bind _ _ (load_commit-Keeps to) λ b.
        Keeps-bind _ _ (diff_tree-Keeps a.prompts b.prompts) λ prompts.
          Keeps-bind _ _ (diff_tree-Keeps a.tools b.tools)
            λ tools. Keeps-bind _ _ (model-Keeps lossy a.model b.model) λ model. Keeps-pure _

  handle_diff-Keeps :
      (view : RefsSnapshot) (from to : Text) → Keeps P (handle_diff o st view from to)
  unfolding handle_diff
  handle_diff-Keeps view from to = Keeps-bind _ _ (frozen-Keeps from) λ f.
      Keeps-bind _ _ (frozen-Keeps to)
        λ t. Keeps-bind _ _ (rooted-Keeps Root.core _ (diff-Keeps o.lossy f t)) λ d. Keeps-pure _
    where
      frozen-Keeps : (name : Text) → Keeps P (frozen o st view name)
      frozen-Keeps name =
          Keeps-bind (rooted Root.core (lift (resolve_frozen o.hex view name))) _
            (record { at = λ s h. h }) λ found. record { at = λ s h. h }

  walk-Keeps : (limit : ℕ) (h : Option Hash) → Keeps P (walk_log_from st.store limit h)
  unfolding walk_log_from
  walk-Keeps limit none = Keeps-pure _
  walk-Keeps zero (some h) = Keeps-pure _
  walk-Keeps (suc limit) (some h) = Keeps-bind _ _ (rk.get_keeps h) λ x.
      Keeps-bind _ _ (Keeps-lift (commit_of_object x))
        λ c. Keeps-bind _ _ (walk-Keeps limit c.parent) λ later. Keeps-pure _

  log-Keeps : (limit : ℕ) (h : Option Hash) → Keeps P (log_from o st limit h)
  unfolding walk_log
  log-Keeps limit none = Keeps-pure _
  log-Keeps limit (some h) =
      Keeps-bind _ _ (rooted-Keeps Root.core _ (walk-Keeps limit (some h))) λ l. Keeps-pure _

  read_object-Keeps : (hash : Text) → Keeps P (read_object o st hash)
  unfolding read_object
  read_object-Keeps hash = Keeps-bind _ _ (context-Keeps _ _ (Keeps-lift _)) λ h.
      Keeps-bind _ _ (context-Keeps _ _ (rooted-Keeps Root.core _ (rk.get_keeps h)))
        λ x. Keeps-pure _

  resolving-Keeps : (name : Text) → Keeps P (on_refs st.disk (resolve o.hex st.refs name))
  resolving-Keeps name =
      rooted-Keeps Root.core _ (on_disk-Keeps o st rk _ (resolve-ReadOnly o.hex st.refs name))

  module _ (w : Queue S) (q : QueueKeeps w P) where
    -- The requests that read change neither files nor refs, objects or memory, whether they succeed
    -- or fail. So it is with a request to write while the daemon refuses to write, since it shuts
    -- down or its queue is full, also if the signal to shut down comes while the request waits for
    -- the lock; and then its reply is the error of the shutdown or that of the full queue.
    pub dispatch_idle :
        (r : Request) (peer_uid : Option ℕ) (s : S)
        → P s
        → (IsWrite r → Refusing w s)
        → P (dispatch o st w r peer_uid s).1
          × (IsWrite r
              → ((dispatch o st w r peer_uid s).0 ≡ err shutting_down)
                ⊎ ((dispatch o st w r peer_uid s).0 ≡ ok queue_full))
    unfolding dispatch
    dispatch_idle Request.ping peer_uid s h x = (h, λ y. elim y [ ])
    dispatch_idle (Request.resolve_ref name) peer_uid s h x = (
      (Keeps-bind _ _ (context-Keeps _ _ (resolving-Keeps name)) λ f. Keeps-pure _).at s h,
      λ y. elim y [ ],
    )
    dispatch_idle (Request.log limit) peer_uid s h x = (
      (Keeps-bind _ _ (resolving-Keeps (codes "HEAD"))
            λ head. Keeps-bind _ _ (log-Keeps limit head) λ l. Keeps-pure _).at
          s h,
      λ y. elim y [ ],
    )
    dispatch_idle (Request.diff from to) peer_uid s h x = (
      (slot-Keeps w q _ (
            Keeps-bind _ _ (lock-Keeps w q) λ u.
              Keeps-bind _ _
                (rooted-Keeps Root.core _
                  (on_disk-Keeps o st rk _ (snapshot-ReadOnly o.hex st.refs o.lossy)))
                λ view.
                  Keeps-bind _ _ (handle_diff-Keeps view from to)
                    λ d. Keeps-pure (Response.diff d))).at
          s h,
      λ y. elim y [ ],
    )
    dispatch_idle (Request.read_object hash) peer_uid s h x =
        ((read_object-Keeps hash).at s h, λ y. elim y [ ])
    dispatch_idle (Request.commit input) peer_uid s h x =
        let r = arm-TurnsDown w q _ s h (x (IsWrite.commit input)) in (r.0, λ y. r.1)
    dispatch_idle (Request.rollback target dry_run accept token) peer_uid s h x =
        let r = arm-TurnsDown w q _ s h (x (IsWrite.rollback target dry_run accept token)) in
        (r.0, λ y. r.1)
