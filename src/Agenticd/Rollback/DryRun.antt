-- ===== src/Agenticd/Rollback/DryRun.antt =====
-- A dry run of a rollback changes nothing.
use git_agentic.Common.{
  ℕ, ◌≡◌, refl, Bool, true, false, Option, none, some, Action, pure, ◌>>=◌, Keeps, Keeps-bind,
  Keeps-pure, Keeps-lift, if◌then◌else◌, ◌==◌, nat_eq, list_eq, ◌++◌,
}
use git_agentic.Common.Text.{Text, codes}
use git_agentic.Fs.{Disk}
use git_agentic.Fs.ReadOnly.{ReadOnly}
use git_agentic.Core.Hash.{Hash}
use git_agentic.Core.Object.{Commit}
use git_agentic.Core.Refs.Reads.{read_head-ReadOnly, read_branch-ReadOnly, resolve-ReadOnly}
use git_agentic.Core.Staging.{on_disk}
use git_agentic.Memory.Adapter.{MemoryAdapter}
use git_agentic.Agenticd.Migrate.Reads.{load_steps-ReadOnly}
use git_agentic.Agenticd.Failure.{Failure, Root, rooted, with_context}
use git_agentic.Agenticd.Daemon.{Outside, DaemonState, AuditEvent}
use git_agentic.Agenticd.Rollback.Gate.{approval_gate}
use git_agentic.Agenticd.Rollback.Loaders.{load_commit, load_manifest}
use git_agentic.Agenticd.Rollback.MemoryPhase.{
  RollbackArgs, migrate_back, memory_back, memory_phase, Plan, migrated_plan, restored_plan,
}
use git_agentic.Agenticd.Rollback.Phases.{
  resolve_target, pass_gate, carry_out, execute, current_branch, prompts_phase, finish,
  rewritten_plan,
}

-- What holds of a state whatever is only read: `P` may speak of the files, of the refs, of the
-- objects and of the memory, and not of the calls that the disk will fail, nor of the audit log.
pub record ReadsKeep {S : Type 0} (o : Outside S) (st : DaemonState S) (P : S → Type 0)
    : Type 0 where
  pub same_files :
      (s : S) (d : Disk) → P s → d.nodes ≡ (st.disk.disk s).nodes → P (st.disk.set_disk d s)
  pub get_keeps : (h : Hash) → Keeps P (st.store.get h)
  pub audit_keeps : (event : AuditEvent) (s : S) → P s → P (o.audit event s)
  pub version_keeps : (a : MemoryAdapter S) → st.memory ≡ some a → Keeps P a.current_schema_version
  pub names_keep :
      (a : MemoryAdapter S) (target : Text)
      → st.memory ≡ some a
      → Keeps P (a.migrations_after target)

module _ {S : Type 0} {P : S → Type 0} where
  pub rooted-Keeps :
      {E A : Type 0} (root : E → Root) (m : Action S E A) → Keeps P m → Keeps P (rooted root m)
  rooted-Keeps root m k = record { at = k.at }

  pub context-Keeps :
      {A : Type 0} (text : Text) (m : Action S Failure A)
      → Keeps P m
      → Keeps P (with_context text m)
  context-Keeps text m k = record { at = k.at }

  pub Keeps-if :
      {E A : Type 0} (b : Bool) {x y : Action S E A}
      → Keeps P x
      → Keeps P y
      → Keeps P (if b then x else y)
  Keeps-if true kx ky = kx
  Keeps-if false kx ky = ky

module _ {S : Type 0} (o : Outside S) (st : DaemonState S) {P : S → Type 0}
    (rk : ReadsKeep o st P) where
  pub on_disk-Keeps :
      {E A : Type 0} (m : Action Disk E A) → ReadOnly m → Keeps P (on_disk st.disk m)
  unfolding on_disk
  on_disk-Keeps m r = record {
    at = λ s h.
        rk.same_files s (m (st.disk.disk s)).1 h
          ((r.keeps (st.disk.disk s).nodes).at (st.disk.disk s) refl);
  }

  resolve_target-Keeps : (name : Text) → Keeps P (resolve_target o st name)
  unfolding resolve_target
  resolve_target-Keeps name =
      Keeps-bind _ _ (rooted-Keeps _ _ (on_disk-Keeps _ (resolve-ReadOnly o.hex st.refs name)))
        λ h. Keeps-lift _

  gate-Keeps :
      (args : RollbackArgs) (h : Hash) (peer_uid : Option ℕ)
      → Keeps P (approval_gate o st h peer_uid args.approval_token)
  unfolding approval_gate
  gate-Keeps args h peer_uid = record { at = λ s v. rk.audit_keeps _ s v }

  pass_gate-Keeps :
      (args : RollbackArgs) (h : Hash) (peer_uid : Option ℕ)
      → Keeps P (pass_gate o st args h peer_uid)
  unfolding pass_gate
  pass_gate-Keeps args h peer_uid =
      Keeps-if args.accept_data_loss (rooted-Keeps _ _ (gate-Keeps args h peer_uid)) (Keeps-pure tt)

  load_commit-Keeps : (h : Hash) → Keeps P (load_commit o st h)
  unfolding load_commit
  load_commit-Keeps h = Keeps-bind _ _ (rooted-Keeps _ _ (rk.get_keeps h)) λ c. Keeps-lift _

  current_branch-Keeps : Keeps P (current_branch o st)
  unfolding current_branch
  current_branch-Keeps =
      Keeps-bind _ _ (rooted-Keeps _ _ (on_disk-Keeps _ (read_head-ReadOnly o.hex st.refs)))
        λ h. Keeps-lift _

  module _ (args : RollbackArgs) (dry : args.dry_run ≡ true) where
    migrate_back-Keeps :
        (a : MemoryAdapter S)
        → st.memory ≡ some a
        → (live target : Text) → Keeps P (migrate_back o st args a live target)
    unfolding migrate_back
    migrate_back-Keeps a there live target = rw dry (
        Keeps-if (live == target) (Keeps-pure _) (
          Keeps-bind _ _ (context-Keeps _ _ (rooted-Keeps _ _ (rk.names_keep a target there)))
            λ names.
              Keeps-bind _ _
                (context-Keeps _ _ (
                  rooted-Keeps _ _ (
                    on_disk-Keeps _
                      (load_steps-ReadOnly st.refs.agentic_dir args.accept_data_loss names))))
                λ steps.
                  Keeps-bind _ _ (Keeps-pure tt) λ u. Keeps-pure (migrated_plan o st live target)))

    memory_back-Keeps :
        (a : MemoryAdapter S) (target : Text) (m : Option Hash)
        → Keeps P (memory_back o st args a target m)
    unfolding memory_back
    memory_back-Keeps a target none = Keeps-pure _
    memory_back-Keeps a target (some h) =
        rw dry (Keeps-bind _ _ (Keeps-pure tt) λ u. Keeps-pure (restored_plan o st h))

    prompts_phase-Keeps : (h : Option Hash) → Keeps P (prompts_phase o st args h)
    unfolding prompts_phase
    prompts_phase-Keeps none = Keeps-pure _
    prompts_phase-Keeps (some h) =
        rw dry (Keeps-bind _ _ (Keeps-pure tt) λ u. Keeps-pure (rewritten_plan o st args.repo h))

    memory_phase-Keeps : (target : Commit) → Keeps P (memory_phase o st args target)
    unfolding memory_phase load_manifest
    memory_phase-Keeps target = go target.schema_version
      where
        body :
            (v : Text) (a : MemoryAdapter S)
            → st.memory ≡ some a
            → Keeps P (
                with_context
                  (codes "reading live schema version")
                  (rooted Root.memory a.current_schema_version)
                >>= λ live. migrate_back o st args a live v >>= λ migrated.
                    memory_back o st args a v target.memory_snapshot >>= λ restored.
                    pure (migrated ++ restored))
        body v a e =
            Keeps-bind _ _ (context-Keeps _ _ (rooted-Keeps _ _ (rk.version_keeps a e))) λ live.
              Keeps-bind _ _ (migrate_back-Keeps a e live v) λ migrated.
                Keeps-bind _ _ (memory_back-Keeps a v target.memory_snapshot)
                  λ restored. Keeps-pure _

        with_adapter :
            (v : Text) (m : Option (MemoryAdapter S))
            → st.memory ≡ m
            → Keeps P (memory_phase o st args (record target { schema_version = some v }))
        with_adapter v none e = rw e (record { at = λ s h. h })
        with_adapter v (some a) e = rw e (record { at = λ s h. (body v a e).at s h })

        go :
            (v : Option Text)
            → Keeps P (memory_phase o st args (record target { schema_version = v }))
        go none = Keeps-pure _
        go (some v) = with_adapter v st.memory refl

    finish-Keeps :
        (plan : Plan) (target : Commit) (h : Hash) (branch : Text) (tip : Option Hash)
        (peer_uid : Option ℕ)
        → Keeps P (finish o st args plan target h branch tip peer_uid)
    unfolding finish
    finish-Keeps plan target h branch tip peer_uid = rw dry (Keeps-pure _)

    carry_out-Keeps : (h : Hash) (peer_uid : Option ℕ) → Keeps P (carry_out o st args h peer_uid)
    unfolding carry_out
    carry_out-Keeps h peer_uid = Keeps-bind _ _ (load_commit-Keeps h) λ target.
        Keeps-bind _ _ (Keeps-lift _) λ u. Keeps-bind _ _ current_branch-Keeps λ branch.
          Keeps-bind _ _
            (rooted-Keeps _ _ (on_disk-Keeps _ (read_branch-ReadOnly o.hex st.refs branch)))
            λ tip. Keeps-bind _ _ (memory_phase-Keeps target) λ memory_plan.
              Keeps-bind _ _ (prompts_phase-Keeps target.prompts)
                λ prompts_plan. finish-Keeps _ target h branch tip peer_uid

  -- A dry run of a rollback, whether it succeeds or fails, keeps whatever reading keeps: the files,
  -- the refs, the objects and the memory are as before it.
  pub dry_run-Keeps :
      (args : RollbackArgs) (peer_uid : Option ℕ)
      → args.dry_run ≡ true
      → Keeps P (execute o st args peer_uid)
  unfolding execute
  dry_run-Keeps args peer_uid dry =
      Keeps-bind _ _ (resolve_target-Keeps args.target) λ h.
        Keeps-bind _ _ (pass_gate-Keeps args h peer_uid) λ u. carry_out-Keeps args dry h peer_uid
