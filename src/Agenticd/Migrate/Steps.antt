-- ===== src/Agenticd/Migrate/Steps.antt =====
-- The steps that are loaded are those that were asked for, and each passed the checks.
use git_agentic.Common.{
  ◌≡◌, refl, sym, ap, ◌∙◌, Bool, false, List, [], ◌∷◌, map, Result, ok, Action, lift, All, Yields,
  Yields-pure, Yields-bind, arith,
}
use git_agentic.Common.Text.{Text, codes, contains}
use git_agentic.Fs.{Disk, exists}
use git_agentic.Fs.Paths.{FilePath}
use git_agentic.Memory.InMemory.{
  MigrationStep, InMemoryState, migrations_after, apply_reverse_migrations,
}
use git_agentic.Memory.InMemory.Reversal.{IsLive, reverse_to_target}
use git_agentic.Agenticd.Migrate.{
  MigrateError, lines, is_marked, slash, validate_migration_name, check_irreversible, read_sql,
  require, load_step, load_all, load_steps, down_path, schema_dir, no_schema_dir, missing_file,
}

-- What a step that was loaded is
pub record IsLoaded (accept : Bool) (step : MigrationStep) : Type 0 where
  pub no_slash : contains slash step.name ≡ false
  pub no_dots : contains (codes "..") step.name ≡ false
  pub unmarked : accept ≡ false → is_marked (lines step.sql) ≡ false

abbrev names_of : List MigrationStep → List Text
names_of = map (λ (m : MigrationStep). m.name)

-- The result of a pure check
checked : {A : Type 0} (r : Result MigrateError A) → Yields {S = Disk} (λ a. r ≡ ok a) (lift r)
checked r = record { at = λ s a e. e }

anything : {A : Type 0} (m : Action Disk MigrateError A) → Yields (λ a. Unit {0}) m
anything m = record { at = λ s a e. tt }

module _ (dir : FilePath) (accept : Bool) where
  loaded :
      (name sql : Text)
      → validate_migration_name name ≡ ok tt
      → check_irreversible name sql accept ≡ ok tt
      → IsLoaded accept (record { name = name; sql = sql })
  unfolding validate_migration_name check_irreversible
  loaded name sql v c = record {
    no_slash = ground arith;
    no_dots = ground arith;
    unmarked = λ a. ground arith;
  }

  load_step-Yields :
      (name : Text) → Yields (λ s. (s.name ≡ name) × IsLoaded accept s) (load_step dir accept name)
  unfolding load_step
  load_step-Yields name = Yields-bind _ _ (checked (validate_migration_name name)) λ u v.
      Yields-bind _ _ (anything (require (λ d. exists d (down_path dir name)) (missing_file name)))
        λ u t. Yields-bind _ _ (anything (read_sql (down_path dir name) name)) λ sql t.
          Yields-bind _ _ (checked (check_irreversible name sql accept))
            λ w c. Yields-pure _ (refl, loaded name sql v c)

  load_all-Yields :
      (names : List Text)
      → Yields
          (λ steps. (names_of steps ≡ names) × All (IsLoaded accept) steps)
          (load_all dir accept names)
  unfolding load_all
  load_all-Yields [] = Yields-pure [] (refl, tt)
  load_all-Yields (name ∷ names) = Yields-bind _ _ (load_step-Yields name) λ step (e, v).
      Yields-bind _ _ (load_all-Yields names) λ steps (es, vs). Yields-pure _ (cc (e, es), (v, vs))

  -- The steps that `load_steps` returns have the names that were asked for, in their order; no name
  -- has a slash or two dots, and unless data loss is accepted no file is marked irreversible.
  load_steps-IsLoaded :
      (names : List Text) (d : Disk) (steps : List MigrationStep)
      → (load_steps dir names accept d).0 ≡ ok steps
      → (map (λ (m : MigrationStep). m.name) steps ≡ names) × All (IsLoaded accept) steps
  unfolding load_steps
  load_steps-IsLoaded [] d steps e =
      (Yields-pure {P = λ s. (names_of s ≡ []) × All (IsLoaded accept) s} [] (refl, tt)).at d steps
        e
  load_steps-IsLoaded (name ∷ names) d steps e =
      (Yields-bind _ _ (anything (require (λ d. exists d (schema_dir dir)) no_schema_dir))
          λ u t. load_all-Yields (name ∷ names)).at
        d steps e

  -- Where the live version is the newest applied migration, or the baseline when none is applied: a
  -- rollback that loads the steps of what `migrations_after` lists for a target, from whatever disk,
  -- and then reverses them makes the target the live version and leaves the tables as they are.
  pub load_steps_reach :
      {Json : Type 0} (target : Text) (names : List Text) (s : InMemoryState Json) (d : Disk)
      (steps : List MigrationStep)
      → IsLive s
      → migrations_after target s ≡ ok names
      → (load_steps dir names accept d).0 ≡ ok steps
      → ((apply_reverse_migrations steps s).0 ≡ ok tt)
        × ((apply_reverse_migrations steps s).1.schema_version ≡ target)
        × ((apply_reverse_migrations steps s).1.tables ≡ s.tables)
  load_steps_reach target names s d steps live listed e =
      let same = (load_steps-IsLoaded names d steps e).0 in
      reverse_to_target target steps s live (listed ∙ ap ok (sym same))
