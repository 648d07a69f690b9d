-- ===== src/Agenticd/Server/Dispatch.antt =====
-- crates/agenticd/src/server.rs: `dispatch` and `handle_diff`. A request runs alone but for the time
-- it waits for the commit lock: what others do to the state meanwhile is a parameter.
use git_agentic.Common.{
  ℕ, ◌+◌, ◌-◌, ◌*◌, Bool, true, false, Option, none, some, List, [], ◌∷◌, ◌++◌, map, ok, err,
  Action, pure, lift, ◌>>=◌, ◌>>◌, map_err, ok_or, ltb, ◌==◌, nat_eq, list_eq, if◌then◌else◌,
  length,
}
use git_agentic.Common.Decimal.{to_decimal}
use git_agentic.Common.Text.{Bytes, Text, codes, arrow}
use git_agentic.Core.Hash.{Hash, to_hex, from_str, short}
use git_agentic.Core.Object.{Object, Commit}
use git_agentic.Core.Refs.{RefsSnapshot, resolve, resolve_frozen}
use git_agentic.Core.Refs.Listing.{snapshot}
use git_agentic.Core.Staging.{walk_log}
use git_agentic.Core.Diff.{
  diff, CommitDiff, TreeDiff, TreeEntry, TreeModification, HashChange, StringChange,
}
use git_agentic.Proto.Messages.{
  CommitInput, Request, Response, LogEntry, DiffOutput, reply_not_found, reply_concurrency,
  reply_validation,
}
use git_agentic.Agenticd.Failure.{Failure, Root, anyhow, rooted, with_context, on_refs}
use git_agentic.Agenticd.Daemon.{Outside, DaemonState}
use git_agentic.Agenticd.Commit
use git_agentic.Agenticd.Commit.{is_none}
use git_agentic.Agenticd.Rollback.Phases
use git_agentic.Agenticd.Rollback.MemoryPhase.{RollbackArgs}

-- What the requests share beside the state of commits: the shutdown signal, the free slots of the
-- commit queue, and the passing of time in the queue.
pub record Queue (S : Type 0) : Type 0 where
  pub is_cancelled : S → Bool
  pub free_slots : S → ℕ
  pub set_free_slots : ℕ → S → S
  pub wait_for_lock : S → S

-- `max_object_bytes`
abbrev pub max_object_bytes : ℕ
max_object_bytes = 10 * 1024 * 1024

abbrev pub queue_full : Response
queue_full =
    reply_concurrency (codes "commit_queue_full") (codes "commit queue is full; retry shortly")

abbrev pub shutting_down : Failure
shutting_down = anyhow (codes "daemon is shutting down; refusing new write-path work")

module _ {S : Type 0} (w : Queue S) where
  -- `check_shutdown`
  unfoldable pub check_shutdown : Action S Failure (Unit {0})
  check_shutdown s = (if w.is_cancelled s then err shutting_down else ok tt, s)

  -- `try_commit_slot`, and the drop of the slot at the end of the arm, on every path
  unfoldable pub with_commit_slot : Action S Failure Response → Action S Failure Response
  with_commit_slot arm s =
      if w.free_slots s == 0
      then (ok queue_full, s)
      else (let r = arm (w.set_free_slots (w.free_slots s - 1) s) in
          (r.0, w.set_free_slots (w.free_slots r.1 + 1) r.1))

  -- `commit_lock.lock_owned().await`
  abbrev pub lock : Action S Failure (Unit {0})
  lock s = (ok tt, w.wait_for_lock s)

  -- The shutdown discipline of the arms that write
  unfoldable pub write_arm : Action S Failure Response → Action S Failure Response
  unfolding check_shutdown with_commit_slot
  write_arm arm = do check_shutdown; with_commit_slot (do lock; check_shutdown; arm)

abbrev pub sign : ℕ → Text → Text
sign c name = c ∷ 32 ∷ name

-- `render_tree`
unfoldable pub render_tree : Option TreeDiff → List Text
render_tree none = []
render_tree (some td) =
    map (λ (e : TreeEntry). sign b'+' e.name) td.added
    ++ (map (λ (e : TreeEntry). sign b'-' e.name) td.removed
        ++ map (λ (m : TreeModification). sign b'~' m.name) td.modified)

abbrev pub arrowed : Text → Text → Text
arrowed a b = a ++ (32 ∷ (arrow ++ (32 ∷ b)))

module _ {S : Type 0} (o : Outside S) (st : DaemonState S) where
  abbrev pub render_change : Option Hash → Option Hash → Text
  render_change none none = []
  render_change none (some t) = arrowed (codes "memory snapshot added") (short o.hex t)
  render_change (some f) none =
      codes "memory snapshot removed (was " ++ (short o.hex f ++ codes ")")
  render_change (some f) (some t) =
      arrowed (codes "memory snapshot " ++ short o.hex f) (short o.hex t)

  abbrev pub memory_summary : Option HashChange → Text
  memory_summary none = []
  memory_summary (some ch) = render_change ch.from ch.to

  abbrev pub or_none : Option Text → Text
  or_none none = codes "(none)"
  or_none (some t) = t

  abbrev pub schema_summary : Option StringChange → Text
  schema_summary none = []
  schema_summary (some sc) = arrowed (codes "schema_version " ++ or_none sc.from) (or_none sc.to)

  abbrev pub is_changed {ℓ} : {A : Type ℓ} → Option A → Bool
  is_changed none = false
  is_changed (some _) = true

  abbrev pub diff_output : Hash → Hash → CommitDiff → DiffOutput
  diff_output from to d = record {
    from = to_hex o.hex from;
    to = to_hex o.hex to;
    prompts = render_tree d.prompts;
    tools = render_tree d.tools;
    model_changed = is_changed d.model;
    memory_summary = memory_summary d.memory_snapshot;
    schema_summary = schema_summary d.schema_version;
  }

  abbrev pub frozen : RefsSnapshot → Text → Action S Failure Hash
  frozen view name = do
    found ← rooted Root.core (lift (resolve_frozen o.hex view name))
    lift (ok_or found (anyhow (codes "ref not found: " ++ name)))

  unfoldable pub handle_diff : RefsSnapshot → Text → Text → Action S Failure DiffOutput
  unfolding render_tree
  handle_diff view from to = do
    from_hash ← frozen view from
    to_hash ← frozen view to
    d ← rooted Root.core (diff st.store o.lossy from_hash to_hash)
    pure (diff_output from_hash to_hash d)

  abbrev pub log_entry : Hash × Commit → LogEntry
  log_entry (h, c) = record {
    hash = to_hex o.hex h;
    message = c.message;
    author = c.author;
    timestamp = o.fmt.to_rfc3339 c.timestamp;
  }

  abbrev pub log_from : ℕ → Option Hash → Action S Failure (List LogEntry)
  log_from limit none = pure []
  log_from limit (some h) = do
    entries ← rooted Root.core (walk_log st.store h limit)
    pure (map log_entry entries)

  -- The canonical bytes of an object: those that its address is of
  unfoldable pub canonical : Object → Text × Bytes
  canonical (Object.blob b) = (codes "blob", b.bytes)
  canonical (Object.tree t) = (codes "tree", o.codec.tree_json.to_vec t)
  canonical (Object.commit c) = (codes "commit", o.codec.commit_json.to_vec c)

  abbrev pub too_long : Hash → ℕ → Text
  too_long h n =
      codes "object "
      ++ (to_hex o.hex h
          ++ (codes " is too large to fetch inline ("
              ++ (to_decimal n
                  ++ (codes " bytes > " ++ (to_decimal max_object_bytes ++ codes " byte limit)")))))

  unfoldable pub object_reply : Hash → Text × Bytes → Response
  object_reply h (object_kind, bytes) =
      if ltb max_object_bytes (length bytes)
      then reply_validation (codes "object_too_large") (too_long h (length bytes))
      else Response.object_data (to_hex o.hex h) object_kind bytes

  unfoldable pub read_object : Text → Action S Failure Response
  unfolding canonical object_reply
  read_object hash = do
    h ←
        with_context (codes "invalid hash: " ++ hash)
          (lift (map_err (λ e. anyhow (o.fmt.hash_error e)) (from_str o.hex hash)))
    object ← with_context (codes "reading object " ++ hash) (rooted Root.core (st.store.get h))
    pure (object_reply h (canonical object))

  abbrev pub resolved : Text → Option Hash → Response
  resolved name none = reply_not_found (codes "ref_not_found") (codes "ref not found: " ++ name)
  resolved name (some h) = Response.resolve_ref (to_hex o.hex h)

  abbrev pub rollback_args : Text → Bool → Bool → Option Text → RollbackArgs
  rollback_args target dry_run accept_data_loss approval_token = record {
    target = target;
    dry_run = dry_run;
    accept_data_loss = accept_data_loss;
    approval_token = approval_token;
    repo = st.repo_root;
  }

  -- `commit::execute`: at the time of the call
  abbrev pub commit_now : CommitInput → Option ℕ → Action S Failure Response
  commit_now input peer_uid s =
      (Commit.execute_with_now o st input peer_uid (o.utc_now s) >>= λ out.
      pure (Response.commit out))
        s

  unfoldable pub dispatch : Queue S → Request → Option ℕ → Action S Failure Response
  unfolding write_arm read_object handle_diff
  dispatch w Request.ping peer_uid = pure Response.pong
  dispatch w (Request.resolve_ref name) peer_uid = do
    found ←
        with_context (codes "resolving ref " ++ name) (on_refs st.disk (resolve o.hex st.refs name))
    pure (resolved name found)
  dispatch w (Request.commit input) peer_uid = write_arm w (commit_now input peer_uid)
  dispatch w (Request.log limit) peer_uid = do
    head ← on_refs st.disk (resolve o.hex st.refs (codes "HEAD"))
    entries ← log_from limit head
    pure (Response.log entries)
  dispatch w (Request.diff from to) peer_uid = with_commit_slot w (do
    lock w
    view ← on_refs st.disk (snapshot o.hex st.refs o.lossy)
    out ← handle_diff view from to
    pure (Response.diff out))
  dispatch w (Request.read_object hash) peer_uid = read_object hash
  dispatch w (Request.rollback target dry_run accept_data_loss approval_token) peer_uid =
      write_arm w (do
        out ←
            Phases.execute o st (rollback_args target dry_run accept_data_loss approval_token)
              peer_uid
        pure (Response.rollback out))
