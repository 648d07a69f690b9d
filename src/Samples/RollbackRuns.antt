-- ===== src/Samples/RollbackRuns.antt =====
-- Runs of the segments and of the reverse migrations at concrete inputs.
use git_agentic.Common.{
  ℕ, ◌≡◌, ◌≢◌, refl, false, none, some, List, [], ◌∷◌, ◌++◌, ok, list_beq, nat_eq, list_eq,
}
use git_agentic.Common.Dict.{get}
use git_agentic.Common.Ordered.{text_compare}
use git_agentic.Common.Text.{
  codes, split, split_from, contains, starts_with, strip_prefix, strip_any, strip_all, trim,
  trim_start, trim_end, is_utf8, is_utf8_from, utf8_follow,
}
use git_agentic.Fs.{Disk, file, dir, stat, read, sys_call}
use git_agentic.Fs.Paths.{FilePath}
use git_agentic.Memory.Segment.{
  SegmentRef, SegmentManifest, number, lo_compare, range_compare, pk_compare, pk_sort_key, push,
  push_entry, validate_invariants, check_entries, check_pairs,
}
use git_agentic.Memory.Segment.Manifest.{IsNew, push_keeps_valid}
use git_agentic.Memory.InMemory.{
  MigrationStep, migrations_after, apply_reverse_migrations, position,
}
use git_agentic.Agenticd.Migrate.{
  load_steps, load_all, load_step, validate_migration_name, read_sql, check_irreversible, lines,
  is_marked,
}
use git_agentic.Agenticd.Migrate.Steps.{load_steps_reach}
use git_agentic.Samples.StoreRuns.{zeros}
use git_agentic.Samples.OtherRuns.{migrated}

abbrev segment_ref : ℕ → ℕ → SegmentRef
segment_ref lo hi = record {
  table = codes "notes";
  pk_lo = number (some lo) none [];
  pk_hi = number (some hi) none [];
  segment = zeros;
  row_count = 1;
}

abbrev manifest : SegmentManifest
manifest = record {
  schema_version = codes "001";
  entries = segment_ref 1 4 ∷ segment_ref 9 12 ∷ [];
}

manifest_valid : validate_invariants manifest ≡ ok tt
unfolding validate_invariants check_entries check_pairs range_compare lo_compare pk_compare
    pk_sort_key text_compare
manifest_valid = refl

five-IsNew : IsNew (segment_ref 5 8) manifest.entries
unfolding lo_compare pk_compare pk_sort_key text_compare
five-IsNew = (λ e. cc, (λ e. cc, tt))

push_keeps_valid_example : validate_invariants (push (segment_ref 5 8) manifest) ≡ ok tt
push_keeps_valid_example = push_keeps_valid (segment_ref 5 8) manifest manifest_valid five-IsNew

-- Tests: of two entries with one lower key, the later push stands first, so that a manifest with
-- the wider range pushed last is refused, as is one with the same entry pushed twice.
wider_last : validate_invariants (push (segment_ref 1 8) manifest) ≢ ok tt
unfolding validate_invariants check_entries check_pairs range_compare lo_compare pk_compare
    pk_sort_key text_compare push push_entry
wider_last e = cc

abbrev home : FilePath
home = codes "a" ∷ []

abbrev schema_disk : Disk
schema_disk = record {
  nodes =
      (home ++ (codes "schema" ∷ []), dir)
      ∷ (home ++ (codes "schema" ∷ codes "003.down.sql" ∷ []), file (codes "DROP"))
      ∷ [];
  outcomes = [];
}

abbrev loaded : List MigrationStep
loaded = record { name = codes "003"; sql = codes "DROP" } ∷ []

load_works : (load_steps home (codes "003" ∷ []) false schema_disk).0 ≡ ok loaded
unfolding load_steps load_all load_step validate_migration_name read_sql check_irreversible lines
    is_marked stat get read sys_call list_beq split split_from contains starts_with strip_prefix
    strip_any strip_all trim trim_start trim_end is_utf8 is_utf8_from utf8_follow
load_works = refl

listed_two : migrations_after (codes "002") migrated ≡ ok (codes "003" ∷ [])
unfolding migrations_after position list_beq
listed_two = refl

load_steps_reach_example :
    ((apply_reverse_migrations loaded migrated).0 ≡ ok tt)
    × ((apply_reverse_migrations loaded migrated).1.schema_version ≡ codes "002")
    × ((apply_reverse_migrations loaded migrated).1.tables ≡ migrated.tables)
load_steps_reach_example =
    load_steps_reach home false (codes "002") (codes "003" ∷ []) migrated schema_disk loaded refl
      listed_two load_works
