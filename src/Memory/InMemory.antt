-- ===== src/Memory/InMemory.antt =====
-- crates/agentic-memory/src/in_memory.rs, and `MigrationStep` of adapter.rs: the adapter that keeps
-- its tables in memory, here its tables and its migrations.
pub mod Reversal
pub mod Snapshot
pub mod Tables
pub mod Flat
pub mod Restored
use git_agentic.Common.{
  ℕ, suc, ◌-◌, ◌≡◌, Bool, true, false, Option, none, some, List, [], ◌∷◌, ◌++◌, Result, ok, err,
  Action, length, take, drop, ◌==◌, nat_eq, list_eq, if◌then◌else◌,
}
use mathlib.Core.List.{reverse}
use git_agentic.Common.Dict.{Dict, get, insert}
use git_agentic.Common.Text.{Text, codes}

pub record MigrationStep : Type 0 where
  pub name : Text
  pub sql : Text

pub record InMemoryState (Json : Type 0) : Type 0 where
  pub schema_version : Text
  pub tables : Dict Text (List Json)
  pub applied_migrations : List Text

-- The errors of the adapter, without their messages
pub data MemoryError : Type 0 where
  unknown_target : Text → MemoryError
  step_mismatch : Text → MemoryError
  no_such_migration : Text → MemoryError

abbrev pub baseline : Text
baseline = codes "0.0.0"

abbrev pub rows_or_none {ℓ} : {A : Type ℓ} → Option (List A) → List A
rows_or_none none = []
rows_or_none (some rows) = rows

abbrev pub last_or : Text → List Text → Text
last_or d [] = d
last_or d (n ∷ names) = last_or n names

-- `iter().position(|n| n == target)`
unfoldable pub position : Text → List Text → Option ℕ
position target [] = none
position target (n ∷ names) =
    if n == target
    then some 0
    else elim (position target names) [ none ↦ none | some i ↦ some (suc i) ]

-- What checks the steps against the applied migrations, newest first
unfoldable pub check_steps : List Text → List MigrationStep → Result MemoryError (Unit {0})
check_steps expected [] = ok tt
check_steps [] (step ∷ steps) = err (no_such_migration step.name)
check_steps (applied ∷ expected) (step ∷ steps) =
    let rest = check_steps expected steps in
    if applied == step.name then rest else err (step_mismatch step.name)

module _ {Json : Type 0} where
  -- `InMemoryAdapter::new`
  abbrev pub new_state : InMemoryState Json
  new_state = record { schema_version = baseline; tables = []; applied_migrations = [] }

  abbrev pub set_schema_version : Text → InMemoryState Json → InMemoryState Json
  set_schema_version version s = record s { schema_version = version }

  unfoldable pub apply_migration : Text → InMemoryState Json → InMemoryState Json
  apply_migration name s = record s {
    applied_migrations = s.applied_migrations ++ (name ∷ []);
    schema_version = name;
  }

  unfoldable pub insert_rows : Text → List Json → InMemoryState Json → InMemoryState Json
  insert_rows table rows s = record s {
    tables = insert s.tables table (rows_or_none (get s.tables table) ++ rows);
  }

  unfoldable pub rows_of : Text → InMemoryState Json → List Json
  rows_of table s = rows_or_none (get s.tables table)

  abbrev pub known_or_live : Text → InMemoryState Json → Option ℕ → Result MemoryError (List Text)
  known_or_live target s (some pos) = ok (reverse (drop (suc pos) s.applied_migrations))
  known_or_live target s none =
      if target == s.schema_version then ok [] else err (unknown_target target)

  unfoldable pub migrations_after : Text → InMemoryState Json → Result MemoryError (List Text)
  unfolding position
  migrations_after target s =
      if target == baseline
      then ok (reverse s.applied_migrations)
      else known_or_live target s (position target s.applied_migrations)

  abbrev pub truncated : InMemoryState Json → List MigrationStep → InMemoryState Json
  truncated s steps =
      let kept = take (length s.applied_migrations - length steps) s.applied_migrations in
      record s { applied_migrations = kept; schema_version = last_or baseline kept }

  -- Nothing is changed unless every step passes the check.
  unfoldable pub apply_reverse_migrations :
      List MigrationStep → Action (InMemoryState Json) MemoryError (Unit {0})
  unfolding check_steps
  apply_reverse_migrations [] s = (ok tt, s)
  apply_reverse_migrations (step ∷ steps) s =
      elim (check_steps (reverse s.applied_migrations) (step ∷ steps)) [
        | ok _ ↦ (ok tt, truncated s (step ∷ steps))
        | err e ↦ (err e, s)
      ]
