-- ===== src/Agenticd/Rollback/MemoryPhase.antt =====
-- crates/agenticd/src/rollback/mod.rs: the part of `execute` that migrates the schema and restores
-- the memory. The plan of a phase is what it pushes to `plan`.
use git_agentic.Common.{
  Bool, true, false, Option, none, some, List, [], ◌∷◌, ◌++◌, ok, Action, pure, lift, ◌>>=◌, ◌>>◌,
  ◌==◌, nat_eq, list_eq, if◌then◌else◌, ok_or,
}
use git_agentic.Common.Text.{Text, codes, arrow, em_dash}
use git_agentic.Fs.Paths.{FilePath}
use git_agentic.Core.Hash.{Hash, short}
use git_agentic.Core.Object.{Commit}
use git_agentic.Core.Staging.{on_disk}
use git_agentic.Memory.Adapter.{MemoryAdapter}
use git_agentic.Agenticd.Migrate.{load_steps}
use git_agentic.Agenticd.Failure.{Failure, Root, anyhow, rooted, with_context}
use git_agentic.Agenticd.Daemon.{Outside, DaemonState}
use git_agentic.Agenticd.Rollback.Loaders.{load_manifest}

pub record RollbackArgs : Type 0 where
  pub target : Text
  pub dry_run : Bool
  pub accept_data_loss : Bool
  pub approval_token : Option Text
  pub repo : FilePath

abbrev pub Plan : Type 0
Plan = List Text

abbrev pub is_some {ℓ} : {A : Type ℓ} → Option A → Bool
is_some none = false
is_some (some _) = true

-- Unless it is a dry run
abbrev pub unless_dry :
    {S : Type 0} → Bool → Action S Failure (Unit {0}) → Action S Failure (Unit {0})
unless_dry true m = pure tt
unless_dry false m = m

module _ {S : Type 0} (o : Outside S) (st : DaemonState S) where
  abbrev pub no_backend : Failure
  no_backend = anyhow (codes "target commit has a schema_version but no memory backend is attached")

  abbrev pub migrated_plan : Text → Text → Plan
  migrated_plan live target_schema =
      (codes "reverse schema migrations: "
        ++ (live ++ (codes " " ++ (arrow ++ (codes " " ++ target_schema)))))
      ∷ []

  -- The migrations from the live version back to the target's, loaded, and run unless it is a dry
  -- run
  unfoldable pub migrate_back : RollbackArgs → MemoryAdapter S → Text → Text → Action S Failure Plan
  migrate_back args adapter live target_schema =
      if live == target_schema
      then pure (
          (codes "schema already at "
            ++ (target_schema ++ (codes " " ++ (em_dash ++ codes " no migrations needed"))))
          ∷ [])
      else (do
        names ←
            with_context (codes "querying pending reverse migrations")
              (rooted Root.memory (adapter.migrations_after target_schema))
        steps ← with_context (codes "loading reverse migration files") (
            rooted Root.migrate
              (on_disk st.disk (load_steps st.refs.agentic_dir names args.accept_data_loss)))
        unless_dry args.dry_run (
            with_context (codes "running reverse migrations")
              (rooted Root.memory (adapter.apply_reverse_migrations steps)))
        pure (migrated_plan live target_schema))

  unfoldable pub restore_memory : MemoryAdapter S → Text → Hash → Action S Failure (Unit {0})
  restore_memory adapter target_schema manifest_hash = do
    manifest ← load_manifest o st manifest_hash
    with_context (codes "pausing data capture for restore window")
        (rooted Root.memory adapter.begin_restore)
    restored ← (λ s.
        let r =
          adapter.restore_with_guard
            (record { manifest = manifest; schema_version = target_schema }) s in
        (ok r.0, adapter.drop_guard r.1))
    with_context (codes "restoring memory snapshot") (rooted Root.memory (lift restored))

  abbrev pub restored_plan : Hash → Plan
  restored_plan manifest_hash =
      (codes "restore memory from manifest " ++ short o.hex manifest_hash) ∷ []

  unfoldable pub memory_back :
      RollbackArgs → MemoryAdapter S → Text → Option Hash → Action S Failure Plan
  unfolding restore_memory
  memory_back args adapter target_schema none = pure (
      (codes "no memory snapshot in target " ++ (em_dash ++ codes " skipping memory data restore"))
      ∷ [])
  memory_back args adapter target_schema (some manifest_hash) = do
    unless_dry args.dry_run (restore_memory adapter target_schema manifest_hash)
    pure (restored_plan manifest_hash)

  -- Schema migrations and memory
  unfoldable pub memory_phase : RollbackArgs → Commit → Action S Failure Plan
  unfolding migrate_back memory_back
  memory_phase args target = elim target.schema_version [
    | none ↦ pure (
        (codes "no schema_version in target "
          ++ (em_dash ++ codes " skipping schema migration and memory restore"))
        ∷ [])
    | some target_schema ↦ (do
      adapter ← lift (ok_or st.memory no_backend)
      live ←
          with_context (codes "reading live schema version")
            (rooted Root.memory adapter.current_schema_version)
      migrated ← migrate_back args adapter live target_schema
      restored ← memory_back args adapter target_schema target.memory_snapshot
      pure (migrated ++ restored))
  ]
