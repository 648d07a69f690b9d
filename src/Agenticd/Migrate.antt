-- ===== src/Agenticd/Migrate.antt =====
-- crates/agenticd/src/migrate.rs: the reverse migrations of a rollback, loaded before any runs.
pub mod Steps
pub mod Reads
use git_agentic.Common.{
  ℕ, ◌≡◌, Bool, true, false, ◌||◌, Option, none, some, List, [], ◌∷◌, ◌++◌, map, Result, ok, err,
  Action, pure, raise, lift, ◌>>=◌, ◌>>◌, ◌==◌, nat_eq, list_eq, if◌then◌else◌, map_err,
}
use git_agentic.Common.Text.{Text, Bytes, codes, split, contains, starts_with, trim, is_utf8}
use git_agentic.Fs.{Disk, ErrorKind, exists, read}
use git_agentic.Fs.Paths.{FilePath}
use git_agentic.Memory.InMemory.{MigrationStep}

-- The errors, without their messages
pub data MigrateError : Type 0 where
  no_schema_dir : MigrateError
  escapes_schema_dir : Text → MigrateError
  missing_file : Text → MigrateError
  unreadable : Text → MigrateError
  irreversible : Text → MigrateError

-- `str::lines`: a last line that is empty is none, and a carriage return at the end of a line
-- goes, at that of the last line too, where `trim` drops it anyway.
abbrev pub strip_cr : Text → Text
strip_cr [] = []
strip_cr (c ∷ []) = if c == 13 then [] else c ∷ []
strip_cr (c ∷ d ∷ s) = c ∷ strip_cr (d ∷ s)

abbrev pub drop_last_empty : List Text → List Text
drop_last_empty [] = []
drop_last_empty ([] ∷ []) = []
drop_last_empty (l ∷ ls) = l ∷ drop_last_empty ls

unfoldable pub lines : Text → List Text
lines s = map strip_cr (drop_last_empty (split 10 s))

abbrev pub slash : Text
slash = b'/' ∷ []

abbrev pub backslash_text : Text
backslash_text = 92 ∷ []

unfoldable pub validate_migration_name : Text → Result MigrateError (Unit {0})
validate_migration_name name =
    if contains slash name || contains backslash_text name || contains (codes "..") name
    then err (escapes_schema_dir name)
    else ok tt

-- Whether the first line that is not blank is the marker
unfoldable pub is_marked : List Text → Bool
is_marked [] = false
is_marked (line ∷ rest) =
    if trim line == [] then is_marked rest else starts_with (codes "-- IRREVERSIBLE") (trim line)

unfoldable pub check_irreversible : Text → Text → Bool → Result MigrateError (Unit {0})
unfolding lines is_marked
check_irreversible name sql accept_data_loss =
    if accept_data_loss
    then ok tt
    else if is_marked (lines sql)
    then err (irreversible name)
    else ok tt

abbrev pub schema_dir : FilePath → FilePath
schema_dir agentic_dir = agentic_dir ++ (codes "schema" ∷ [])

abbrev pub down_path : FilePath → Text → FilePath
down_path agentic_dir name = schema_dir agentic_dir ++ ((name ++ codes ".down.sql") ∷ [])

-- `fs::read_to_string`, whatever its error
unfoldable pub read_sql : FilePath → Text → Action Disk MigrateError Text
read_sql path name d = (
  elim (read path d).0 [
    | ok b ↦ (if is_utf8 b then ok b else err (unreadable name))
    | err e ↦ err (unreadable name)
  ],
  (read path d).1,
)

-- A check that stops on a condition of the disk
abbrev pub require : (Disk → Bool) → MigrateError → Action Disk MigrateError (Unit {0})
require p e d = (if p d then ok tt else err e, d)

unfoldable pub load_step : FilePath → Bool → Text → Action Disk MigrateError MigrationStep
unfolding validate_migration_name read_sql check_irreversible
load_step agentic_dir accept_data_loss name = do
  lift (validate_migration_name name)
  require (λ d. exists d (down_path agentic_dir name)) (missing_file name)
  sql ← read_sql (down_path agentic_dir name) name
  lift (check_irreversible name sql accept_data_loss)
  pure (record { name = name; sql = sql })

unfoldable pub load_all :
    FilePath → Bool → List Text → Action Disk MigrateError (List MigrationStep)
unfolding load_step
load_all agentic_dir accept_data_loss [] = pure []
load_all agentic_dir accept_data_loss (name ∷ names) = do
  step ← load_step agentic_dir accept_data_loss name
  steps ← load_all agentic_dir accept_data_loss names
  pure (step ∷ steps)

unfoldable pub load_steps :
    FilePath → List Text → Bool → Action Disk MigrateError (List MigrationStep)
unfolding load_all
load_steps agentic_dir [] accept_data_loss = pure []
load_steps agentic_dir (name ∷ names) accept_data_loss = do
  require (λ d. exists d (schema_dir agentic_dir)) no_schema_dir
  load_all agentic_dir accept_data_loss (name ∷ names)
