-- ===== src/Agenticd/Migrate/Reads.antt =====
-- Loading reverse migrations changes no file.
use git_agentic.Common.{refl, Bool, List, [], ◌∷◌}
use git_agentic.Common.Text.{Text}
use git_agentic.Fs.{Disk, exists}
use git_agentic.Fs.Paths.{FilePath}
use git_agentic.Fs.ReadOnly.{
  ReadOnly, ReadOnly-pure, ReadOnly-lift, ReadOnly-bind, ReadOnly-at, ReadOnly-read,
}
use git_agentic.Agenticd.Migrate.{
  MigrateError, require, read_sql, load_step, load_all, load_steps, down_path, schema_dir,
  missing_file, no_schema_dir, validate_migration_name, check_irreversible,
}

require-ReadOnly : (p : Disk → Bool) (e : MigrateError) → ReadOnly (require p e)
require-ReadOnly p e = ReadOnly-at _ (λ d. refl)

read_sql-ReadOnly : (p : FilePath) (name : Text) → ReadOnly (read_sql p name)
unfolding read_sql
read_sql-ReadOnly p name = record {
  keeps = λ nodes. record { at = ((ReadOnly-read p).keeps nodes).at };
}

module _ (agentic_dir : FilePath) (accept : Bool) where
  load_step-ReadOnly : (name : Text) → ReadOnly (load_step agentic_dir accept name)
  unfolding load_step
  load_step-ReadOnly name = ReadOnly-bind _ _ (ReadOnly-lift (validate_migration_name name)) λ u.
      ReadOnly-bind _ _
        (require-ReadOnly (λ d. exists d (down_path agentic_dir name)) (missing_file name))
        λ u. ReadOnly-bind _ _ (read_sql-ReadOnly (down_path agentic_dir name) name) λ sql.
          ReadOnly-bind _ _ (ReadOnly-lift (check_irreversible name sql accept))
            λ u. ReadOnly-pure (record { name = name; sql = sql })

  load_all-ReadOnly : (names : List Text) → ReadOnly (load_all agentic_dir accept names)
  unfolding load_all
  load_all-ReadOnly [] = ReadOnly-pure []
  load_all-ReadOnly (name ∷ names) =
      ReadOnly-bind _ _ (load_step-ReadOnly name)
        λ step. ReadOnly-bind _ _ (load_all-ReadOnly names) λ steps. ReadOnly-pure (step ∷ steps)

  pub load_steps-ReadOnly : (names : List Text) → ReadOnly (load_steps agentic_dir names accept)
  unfolding load_steps
  load_steps-ReadOnly [] = ReadOnly-pure []
  load_steps-ReadOnly (name ∷ names) =
      ReadOnly-bind _ _ (require-ReadOnly (λ d. exists d (schema_dir agentic_dir)) no_schema_dir)
        λ u. load_all-ReadOnly (name ∷ names)
