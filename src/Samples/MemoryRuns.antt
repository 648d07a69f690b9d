-- ===== src/Samples/MemoryRuns.antt =====
-- A run of the snapshot of the tables in memory, and of its restore, over a store in memory.
use git_agentic.Common.{
  ℕ, zero, suc, ◌≡◌, ◌≢◌, refl, sym, ap, ◌∙◌, false, Option, none, some, List, [], ◌∷◌, ◌++◌,
  Result, ok, err, Action, filter, ◌⊎◌, ◌==◌, ==_refl, list_beq, list_eq, nat_eq,
}
use mathlib.Core.List.{append-nil}
use git_agentic.Common.Dict.{get, insert, remove}
use git_agentic.Common.Ordered.{text_compare}
use git_agentic.Common.Text.{Text, Bytes, codes, starts_with}
use git_agentic.External.{Serde, SerdeLaws}
use git_agentic.Fs.{
  Disk, create_dir, create_dir_all, create_dirs, read, rename, stat, sys_call, write,
}
use git_agentic.Fs.Atomic.{replace}
use git_agentic.Fs.Paths.{file_stem, parent, rsplit_dot, with_extension_tmp}
use git_agentic.Core.Hash.{of, shard, to_hex}
use git_agentic.Core.Scanner.{
  bump, count_bytes, entropy_hits, is_base64ish, maybe_emit_entropy_hit, pattern_hits, patterns,
  scan, scan_impl, scan_with, shannon_entropy, sum_entropy, empty_allowlist,
}
use git_agentic.Core.Staging.OneDisk.{objects_of}
use git_agentic.Core.Store.{
  ObjectStore, fs_store, fs_put_raw, fs_get_raw, bytes_checked, check_integrity, path_for, read_at,
  write_at,
}
use git_agentic.Core.Store.Laws.{RawLaws, fs_store-RawLaws}
use git_agentic.Memory.Adapter.{SnapshotHandle}
use git_agentic.Memory.Error.{Error as MemoryError}
use git_agentic.Memory.InMemory.{InMemoryState, rows_of}
use git_agentic.Memory.Segment.{Value, Segment, Embedding, new_manifest, push, push_entry}
use git_agentic.Memory.InMemory.Snapshot.{
  MemoryOf, Table, place, sort_tables, snapshot_tables, snapshot, restore_tables,
  restore_with_guard,
}
use git_agentic.Memory.InMemory.Tables.{IsMap}
use git_agentic.Memory.InMemory.Restored.{Clash, restore-snapshot}
use git_agentic.Samples.Crates.{crates}
use git_agentic.Samples.StoreRuns.{empty_disk}
use git_agentic.Samples.RefsRuns.{refs}
use git_agentic.Samples.Coders.{Coder, number, pair, iso, option, list, text, alone}

abbrev value_enc : Value → Bytes
value_enc (Value.number i f t) =
    0 ∷ (pair (option number) (pair (option number) text)).enc (i, (f, t))
value_enc (Value.string t) = 1 ∷ text.enc t
value_enc (Value.any_other t) = 2 ∷ text.enc t

abbrev number_fields : Coder (Option ℕ × (Option ℕ × Text))
number_fields = pair (option number) (pair (option number) text)

abbrev reads : {A B : Type 0} → (A → B) → Option (A × Bytes) → Option (B × Bytes)
reads f none = none
reads f (some (a, r)) = some (f a, r)

abbrev number_of : Option ℕ × (Option ℕ × Text) → Value
number_of p = Value.number p.0 p.1.0 p.1.1

abbrev value_dec : Bytes → Option (Value × Bytes)
value_dec [] = none
value_dec (zero ∷ r) = reads number_of (number_fields.dec r)
value_dec (suc zero ∷ r) = reads Value.string (text.dec r)
value_dec (suc (suc n) ∷ r) = reads Value.any_other (text.dec r)

value_law : (v : Value) (r : Bytes) → value_dec (value_enc v ++ r) ≡ some (v, r)
value_law (Value.number i f t) r = ap (reads number_of) (number_fields.law (i, (f, t)) r)
value_law (Value.string t) r = ap (reads Value.string) (text.law t r)
value_law (Value.any_other t) r = ap (reads Value.any_other) (text.law t r)

abbrev value : Coder Value
value = record { enc = value_enc; dec = value_dec; law = value_law }

abbrev embedding : Coder Embedding
embedding =
    iso (λ e. (e.row_idx, e.vector)) (λ p. record { row_idx = p.0; vector = p.1 }) (λ e. refl)
      (pair number (list number))

abbrev SegmentFields : Type 0
SegmentFields =
    Text × (Text × (Value × (Value × (ℕ × (List Value × (List Embedding × List (Text × Value)))))))

abbrev segment : Coder Segment
segment =
    iso {B = SegmentFields}
      (λ s. (
        s.table,
        (
          s.schema_version,
          (s.pk_lo, (s.pk_hi, (s.row_count, (s.rows, (s.embeddings, s.metadata))))),
        ),
      ))
      (λ p. record {
        table = p.0;
        schema_version = p.1.0;
        pk_lo = p.1.1.0;
        pk_hi = p.1.1.1.0;
        row_count = p.1.1.1.1.0;
        rows = p.1.1.1.1.1.0;
        embeddings = p.1.1.1.1.1.1.0;
        metadata = p.1.1.1.1.1.1.1;
      })
      (λ s. refl)
      (pair text (
        pair text (
          pair value (
            pair value
              (pair number (pair (list value) (pair (list embedding) (list (pair text value)))))))))

abbrev segment_json : Serde Segment
segment_json = record { to_vec = segment.enc; from_slice = λ b. alone (λ s. s) (segment.dec b) }

segment_json_laws : SerdeLaws segment_json
segment_json_laws = record {
  from_slice-to_vec = λ s.
      ap (alone (λ t. t)) (ap segment.dec (sym (append-nil (segment.enc s))) ∙ segment.law s []);
}

-- The tables, and the disk of the object store
abbrev World : Type 0
World = InMemoryState Value × Disk

abbrev objects : ObjectStore Disk
objects = fs_store crates (objects_of refs empty_allowlist)

abbrev on_world : {E A : Type 0} → Action Disk E A → Action World E A
on_world m s = ((m s.1).0, (s.0, (m s.1).1))

abbrev store : ObjectStore World
store = record {
  put_with_policy = λ o p. on_world (objects.put_with_policy o p);
  put_raw = λ k b. on_world (objects.put_raw k b);
  get = λ h. on_world (objects.get h);
  get_raw = λ h. on_world (objects.get_raw h);
  has = λ s h. objects.has s.1 h;
}

objects_laws : RawLaws objects (of crates.codec.blake3)
objects_laws = fs_store-RawLaws crates (objects_of refs empty_allowlist)

store_laws : RawLaws store (of crates.codec.blake3)
store_laws = record {
  put_raw_address = λ b s h e. objects_laws.put_raw_address b s.1 h e;
  get_raw_address = λ h s b e. objects_laws.get_raw_address h s.1 b e;
}

abbrev memory : MemoryOf World
memory = record { memory = λ s. s.0; set_memory = λ m s. (m, s.1) }

abbrev shown : Bytes → Text
shown b = codes "at line 1"

abbrev tables : List Table
tables =
    (codes "users", Value.string (codes "u2") ∷ Value.string (codes "u1") ∷ [])
    ∷ (codes "items", Value.any_other (codes "i1") ∷ [])
    ∷ (codes "none", [])
    ∷ []

apart : (a b : Text) → (a == b) ≡ false → a ≢ b
apart a b e same = cc (==_refl b, ap (λ c. c == b) same, e)

tables-IsMap : IsMap tables
unfolding list_beq
tables-IsMap = (
  (apart (codes "users") (codes "items") refl, (apart (codes "users") (codes "none") refl, tt)),
  ((apart (codes "items") (codes "none") refl, tt), (tt, tt)),
)

abbrev before : World
before =
    (record { schema_version = codes "1"; tables = tables; applied_migrations = [] }, empty_disk)

abbrev taken : Result MemoryError SnapshotHandle × World
taken = snapshot store memory segment_json shown before

abbrev handle : SnapshotHandle
handle = elim taken.0 [
  | ok h ↦ h
  | err e ↦ record { manifest = new_manifest []; schema_version = [] }
]

-- The tables when something else has been written into them
abbrev later : World
later = (
  record {
    schema_version = codes "1";
    tables = (codes "users", Value.string (codes "u3") ∷ []) ∷ [];
    applied_migrations = [];
  },
  taken.1.1,
)

restore-snapshot_example :
    Clash store
      (of crates.codec.blake3)
      store_laws
      memory
      segment_json
      segment_json_laws
      shown
      (codes "1")
      tables
      later
    ⊎ ((t : Text)
        → rows_of t
            (memory.memory (restore_with_guard store memory segment_json shown handle later).1)
          ≡ rows_of t (memory.memory before))
unfolding snapshot snapshot_tables sort_tables place restore_with_guard restore_tables push
    push_entry get insert text_compare list_beq fs_put_raw fs_get_raw bytes_checked check_integrity
    path_for write_at read_at shard to_hex scan scan_with scan_impl pattern_hits patterns
    entropy_hits is_base64ish filter bump count_bytes maybe_emit_entropy_hit shannon_entropy
    sum_entropy replace create_dir_all parent create_dir create_dirs sys_call remove write rename
    with_extension_tmp file_stem rsplit_dot stat read starts_with
restore-snapshot_example =
    restore-snapshot store (of crates.codec.blake3) store_laws memory segment_json segment_json_laws
      shown (λ m s. refl) before later handle tables-IsMap refl refl
