-- ===== src/Agenticd/Rollback/Phases.antt =====
-- crates/agenticd/src/rollback/mod.rs: `execute`, phase after phase. The plan of a phase is what it
-- pushes to `plan`.
use git_agentic.Common.{
  ℕ, true, false, not, ◌&&◌, Option, none, some, [], ◌∷◌, ◌++◌, Result, ok, err, Action, pure, lift,
  ◌>>=◌, ◌>>◌, nat_eq, list_eq, if◌then◌else◌, ok_or,
}
use git_agentic.Common.SortedMap.{SortedMap}
use git_agentic.Common.Text.{Bytes, Text, codes, arrow, em_dash, section_sign}
use git_agentic.Fs.Paths.{FilePath}
use git_agentic.Core.Hash.{Hash, to_hex, short}
use git_agentic.Core.Object.{Commit}
use git_agentic.Core.Refs.{HeadRef, read_head, read_branch, resolve}
use git_agentic.Core.Staging.{CommitInputs, CommitOutputs, stage_and_commit_with_now}
use git_agentic.Proto.Messages.{RollbackOutput}
use git_agentic.Agenticd.Failure.{Failure, Root, anyhow, rooted, with_context, on_refs}
use git_agentic.Agenticd.Daemon.{Outside, DaemonState}
use git_agentic.Agenticd.Rollback.Gate.{approval_gate}
use git_agentic.Agenticd.Rollback.Loaders.{load_commit}
use git_agentic.Agenticd.Rollback.MemoryPhase.{
  RollbackArgs, Plan, is_some, unless_dry, memory_phase,
}
use git_agentic.Agenticd.Rollback.Writeback.{
  restore_prompts, read_text_blobs, read_model_text, shown,
}

module _ {S : Type 0} (o : Outside S) (st : DaemonState S) where
  -- A snapshot without a schema version is refused.
  unfoldable pub validate_target_shape : Commit → Hash → Result Failure (Unit {0})
  validate_target_shape target h =
      if is_some target.memory_snapshot && not (is_some target.schema_version)
      then err (
          anyhow (
            codes "target commit "
            ++ (short o.hex h
                ++ codes
                    " has memory_snapshot but no schema_version; this state should not be reachable through normal commit-write paths (see ADR-0002 and docs/plans/a8-reverse-migration/source.md "
                ++ (section_sign
                    ++ codes
                        "Q2). Refusing rollback. If you reached this through a custom SDK or a legacy commit, please file a v1.1 issue."))))
      else ok tt

  unfoldable pub resolve_target : Text → Action S Failure Hash
  resolve_target name = do
    found ← on_refs st.disk (resolve o.hex st.refs name)
    lift (ok_or found (anyhow (codes "ref not found: " ++ name)))

  -- Only a rollback that accepts the loss of data passes through the gate.
  unfoldable pub pass_gate : RollbackArgs → Hash → Option ℕ → Action S Failure (Unit {0})
  pass_gate args target peer_uid =
      if args.accept_data_loss
      then rooted Root.approval (approval_gate o st target peer_uid args.approval_token)
      else pure tt

  abbrev pub branch_of_head : Option HeadRef → Result Failure Text
  branch_of_head (some (HeadRef.branch b)) = ok b
  branch_of_head (some (HeadRef.detached h)) =
      err (anyhow (codes "rollback from a detached HEAD is not supported (Chunk C+1)"))
  branch_of_head none =
      err (anyhow (codes "repo has no HEAD; commit something before rolling back"))

  unfoldable pub current_branch : Action S Failure Text
  current_branch = do head ← on_refs st.disk (read_head o.hex st.refs); lift (branch_of_head head)

  abbrev pub tip_plan : Option Hash → Plan
  tip_plan none = []
  tip_plan (some c) =
      (codes "current branch tip "
        ++ (short o.hex c ++ (codes " " ++ (arrow ++ codes " forward-record over it"))))
      ∷ []

  abbrev pub rewritten_plan : FilePath → Hash → Plan
  rewritten_plan repo prompts_hash =
      (codes "rewrite "
        ++ (shown (repo ++ (codes "prompts" ∷ []))
            ++ (codes " from target prompts tree " ++ short o.hex prompts_hash)))
      ∷ []

  unfoldable pub prompts_phase : RollbackArgs → Option Hash → Action S Failure Plan
  prompts_phase args none =
      pure ((codes "no prompts in target " ++ (em_dash ++ codes " skipping prompts rewrite")) ∷ [])
  prompts_phase args (some prompts_hash) = do
    unless_dry args.dry_run (restore_prompts o st args.repo prompts_hash)
    pure (rewritten_plan args.repo prompts_hash)

  abbrev pub tools_plan : Option Hash → Plan
  tools_plan none = []
  tools_plan (some h) =
      codes "tools manifest present in target; pinning into .agentic/config.toml is a follow-up"
      ∷ []

  abbrev pub model_plan : Option Hash → Plan
  model_plan none = []
  model_plan (some h) =
      (codes "model version captured in target "
        ++ (em_dash ++ codes " operator must redeploy if it changed"))
      ∷ []

  -- The inputs of the commit that records the rollback over the current tip
  unfoldable pub rollback_inputs :
      Commit
      → Hash
      → Option Hash
      → SortedMap Bytes
      → SortedMap Bytes
      → Option Text
      → Option ℕ
      → CommitInputs
  rollback_inputs target target_hash tip prompts tools model peer_uid = record {
    author = codes "agentic-rollback";
    message = codes "Rollback to " ++ short o.hex target_hash;
    parent = tip;
    code_sha = target.code_sha;
    prompts = prompts;
    tools = tools;
    model = model;
    memory_snapshot = target.memory_snapshot;
    schema_version = target.schema_version;
    intent = none;
    plan = none;
    transcript = none;
    evals = none;
    cost_cents = 0;
    peer_uid = peer_uid;
    exempt_entropy_prefixes = st.exempt_entropy_prefixes;
  }

  -- `stage_and_commit`: at the time of the call
  unfoldable pub stage_now : Text → CommitInputs → Action S Failure CommitOutputs
  stage_now branch inputs s =
      with_context (codes "forward-recording rollback commit")
        (rooted Root.core
          (stage_and_commit_with_now st.store st.disk o.hex st.refs branch inputs (o.utc_now s)))
        s

  unfoldable pub forward_record :
      Commit → Hash → Text → Option Hash → Option ℕ → Action S Failure CommitOutputs
  unfolding rollback_inputs stage_now
  forward_record target target_hash branch tip peer_uid = do
    prompts ← read_text_blobs o st target.prompts
    tools ← read_text_blobs o st target.tools
    model ← read_model_text o st target
    stage_now branch (rollback_inputs target target_hash tip prompts tools model peer_uid)

  abbrev pub recorded_plan : CommitOutputs → Plan
  recorded_plan out =
      (codes "forward-recorded rollback as "
        ++ (short o.hex out.commit_hash ++ (codes " on " ++ out.branch)))
      ∷ []

  -- What a dry run returns, and what the other records
  unfoldable pub finish :
      RollbackArgs
      → Plan
      → Commit
      → Hash
      → Text
      → Option Hash
      → Option ℕ
      → Action S Failure RollbackOutput
  unfolding forward_record
  finish args plan target target_hash branch tip peer_uid =
      if args.dry_run
      then pure (record { planned_steps = plan; executed = false; new_head_hash = none })
      else (do
        out ← forward_record target target_hash branch tip peer_uid
        pure (record {
          planned_steps = plan ++ recorded_plan out;
          executed = true;
          new_head_hash = some (to_hex o.hex out.commit_hash);
        }))

  abbrev pub target_plan : Hash → Commit → Plan
  target_plan target_hash target =
      (codes "target commit "
        ++ (short o.hex target_hash ++ (codes " (" ++ (target.message ++ codes ")"))))
      ∷ []

  -- What follows the gate
  unfoldable pub carry_out : RollbackArgs → Hash → Option ℕ → Action S Failure RollbackOutput
  unfolding validate_target_shape current_branch memory_phase prompts_phase finish
  carry_out args target_hash peer_uid = do
    target ← load_commit o st target_hash
    lift (validate_target_shape target target_hash)
    branch ← current_branch
    tip ← on_refs st.disk (read_branch o.hex st.refs branch)
    memory_plan ← memory_phase o st args target
    prompts_plan ← prompts_phase args target.prompts
    finish args
        (target_plan target_hash target
          ++ (tip_plan tip
              ++ (memory_plan
                  ++ (prompts_plan ++ (tools_plan target.tools ++ model_plan target.model)))))
        target target_hash branch tip peer_uid

  unfoldable pub execute : RollbackArgs → Option ℕ → Action S Failure RollbackOutput
  unfolding resolve_target pass_gate carry_out
  execute args peer_uid = do
    target_hash ← resolve_target args.target
    pass_gate args target_hash peer_uid
    carry_out args target_hash peer_uid
