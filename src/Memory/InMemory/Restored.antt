-- ===== src/Memory/InMemory/Restored.antt =====
-- A restore brings back the tables of which a snapshot was taken.
use git_agentic.Common.{
  ◌≡◌, ◌≢◌, refl, sym, ◌∙◌, Bool, true, false, List, [], ◌∷◌, ◌++◌, Result, ok, err, Action, pure,
  ◌>>=◌, bind-eq-ok, bind-ok, All, ap, map, ◌==◌, nat_eq, list_eq, eq_of_==, if◌then◌else◌,
  Bool-cases, ◌⊎◌, ==_refl, inl, inr, map_err, map_err-eq-ok, ok_or,
}
use mathlib.Core.List.{append-nil}
use git_agentic.Common.Dict.{Dict, get, insert}
use git_agentic.Common.Text.{Text, Bytes}
use git_agentic.External.{Serde, SerdeLaws}
use git_agentic.Core.Error.{Error as CoreError}
use git_agentic.Core.Hash.{Hash}
use git_agentic.Core.Object.{ObjectKind}
use git_agentic.Core.Store.{ObjectStore}
use git_agentic.Core.Store.Laws.{RawLaws}
use git_agentic.Memory.Adapter.{SnapshotHandle}
use git_agentic.Memory.Error.{Error}
use git_agentic.Memory.InMemory.{InMemoryState, rows_or_none, rows_of}
use git_agentic.Memory.Segment.{Value, Segment, SegmentManifest, new_manifest, push, push_entry}
use git_agentic.Memory.InMemory.Snapshot.{
  Table, sort_tables, segment_of, ref_of, MemoryOf, put_segment, snapshot_tables, snapshot,
  read_segment, restore_tables, restore_with_guard,
}
use git_agentic.Memory.InMemory.Tables.{
  flat, Without, IsMap, flat_get, flat-sort_tables, sort_tables-All, sort-IsMap, Entry, tables_of,
  insert_entry, refs-insert_entry, insert_entry-All, flat-insert_entry,
}
use git_agentic.Memory.InMemory.Flat.{flat-append, flat_empty, flat_behind, added}

-- The states that a store goes through while it is read
pub data Reading {S : Type 0} (store : ObjectStore S) (u : S) : S → Type 0 where
  start : Reading store u u
  read_on : (h : Hash) (t : S) → Reading store u t → Reading store u (store.get_raw h t).1

abbrev pub In : Table → List Table → Type 0
In e [] = ⊥
In e (f ∷ l) = (e ≡ f) ⊎ In e l

module _ {S : Type 0} (store : ObjectStore S) (address : Bytes → Hash) (x : RawLaws store address)
    (mem : MemoryOf S) (segment_json : Serde Segment) (laws : SerdeLaws segment_json)
    (shown_error : Bytes → Text) where
  abbrev encoded : Text → Table → Bytes
  encoded version e = segment_json.to_vec (segment_of version e.0 e.1)

  -- When a store is read from a state on, it returns for a segment of some tables other bytes, which
  -- have the same address.
  pub record Clash (version : Text) (tables : List Table) (u : S) : Type 0 where
    pub table : Table
    pub is_in : In table tables
    pub state : S
    pub reached : Reading store u state
    pub bytes : Bytes
    pub returned : (store.get_raw (address (encoded version table)) state).0 ≡ ok bytes
    pub other : bytes ≢ encoded version table
    pub same_address : address bytes ≡ address (encoded version table)

  abbrev Fresh : List Table → List Entry → Type 0
  Fresh tables l = All (λ (e : Table). All (λ (f : Entry). e.0 ≢ f.0.table) l) tables

  insert_entry-Fresh :
      (tables : List Table) (e : Entry) (l : List Entry)
      → Without e.0.table tables
      → Fresh tables l
      → Fresh tables (insert_entry e l)
  insert_entry-Fresh [] e l w h = tt
  insert_entry-Fresh (k ∷ tables) e l w h = (
    insert_entry-All (λ f. k.0 ≢ f.0.table) e l (λ same. w.0 (sym same)) h.0,
    insert_entry-Fresh tables e l w.1 h.1,
  )

  every_in : (P : Table → Type 0) (l : List Table) → ((e : Table) → In e l → P e) → All P l
  every_in P [] k = tt
  every_in P (e ∷ l) k = (k e (inl refl), every_in P l (λ f i. k f (inr i)))

  module _ (version : Text) (whole : List Table) where
    -- An entry has the address of the segment of one of the tables, and its rows.
    record HasRows (e : Entry) : Type 0 where
      table : Table
      is_in : In table whole
      addressed : address (encoded version table) ≡ e.0.segment
      same_rows : table.1 ≡ e.1

    -- What a manifest holds when some tables have been put behind what it held
    record Taken (tables : List Table) (l : List Entry) (m : SegmentManifest) : Type 0 where
      entries : List Entry
      same : map (λ e. e.0) entries ≡ m.entries
      held : All HasRows entries
      rows : (t : Text) → flat t (tables_of entries) ≡ flat t (tables ++ tables_of l)

    taken :
        (tables : List Table) (l : List Entry) (m n : SegmentManifest) (s : S)
        → All (λ e. In e whole) tables
        → IsMap tables
        → Fresh tables l
        → map (λ e. e.0) l ≡ m.entries
        → All HasRows l
        → (snapshot_tables store mem segment_json shown_error version tables m s).0 ≡ ok n
        → Taken tables l n
    unfolding snapshot_tables push
    taken [] l m n s i d f same held e =
        let last : n ≡ m = cc e in
        record { entries = l; same = rw last same; held = held; rows = λ t. refl }
    taken ((k, []) ∷ tables) l m n s i d f same held e =
        let r = taken tables l m n s i.1 d.1 f.1 same held e in
        record {
          entries = r.entries;
          same = r.same;
          held = r.held;
          rows = λ t. r.rows t ∙ sym (flat_empty t k (tables ++ tables_of l));
        }
    taken ((k, v ∷ rows) ∷ tables) l m n s i d f same held e =
        let segment = segment_of version k (v ∷ rows) in
        let bytes = segment_json.to_vec segment in
        let storing = put_segment store mem segment_json shown_error segment in
        let (h, put, later) = bind-eq-ok storing _ s e in
        let u = (store.put_raw ObjectKind.segment bytes s).1 in
        let entry : Entry = (ref_of k h (v ∷ rows), v ∷ rows) in
        let r =
          taken tables (insert_entry entry l) (push entry.0 m) n u i.1 d.1
            (insert_entry-Fresh tables entry l d.0 f.1)
            (refs-insert_entry entry l ∙ ap (λ y. push_entry entry.0 y) same)
            (insert_entry-All HasRows entry l
              (record {
                table = (k, v ∷ rows);
                is_in = i.0;
                addressed = x.put_raw_address bytes s h (map_err-eq-ok Error.core _ put);
                same_rows = refl;
              })
              held)
            later in
        record {
          entries = r.entries;
          same = r.same;
          held = r.held;
          rows = λ t.
              r.rows t
              ∙ (flat-append t tables (tables_of (insert_entry entry l))
                  ∙ (ap (λ z. flat t tables ++ z) (flat-insert_entry t entry l f.0)
                      ∙ flat_behind t (k, v ∷ rows) tables (tables_of l) d.0));
        }

    -- What is read under the address of an entry has its rows, or its bytes are others with that
    -- address.
    read_rows :
        (u s : S) (e : Entry) (segment : Segment)
        → Reading store u s
        → HasRows e
        → (read_segment store mem segment_json shown_error e.0 s).0 ≡ ok segment
        → Clash version whole u ⊎ (segment.rows ≡ e.1)
    read_rows u s e segment k h r = go (store.get_raw e.0.segment s).0 _ refl r
      where
        wanted : Bytes
        wanted = encoded version h.table

        go :
            (y : Result CoreError Bytes) (f : Bytes → Error)
            → (store.get_raw e.0.segment s).0 ≡ y
            → (elim (map_err Error.core y) [
              | err z ↦ err z
              | ok bytes ↦ ok_or (segment_json.from_slice bytes) (f bytes)
            ])
              ≡ ok segment
            → Clash version whole u ⊎ (segment.rows ≡ e.1)
        go (ok bytes) f g r = elim (Bool-cases (bytes == wanted)) [
          | inl q ↦
              (let last : segment_of version h.table.0 h.table.1 ≡ segment = cc (
                  rw
                    (
                      eq_of_== bytes wanted q,
                      laws.from_slice-to_vec (segment_of version h.table.0 h.table.1),
                    )
                    at r) in
                inr (ap (λ (y : Segment). y.rows) (sym last) ∙ h.same_rows))
          | inr q ↦ inl (record {
            table = h.table;
            is_in = h.is_in;
            state = s;
            reached = k;
            bytes = bytes;
            returned = rw h.addressed g;
            other = λ same. cc (==_refl wanted, ap (λ c. c == wanted) same, q);
            same_address = x.get_raw_address e.0.segment s bytes g ∙ sym h.addressed;
          })
        ]
        go (err z) f g r = cc

    restored :
        (u : S) (l : List Entry) (tables out : Dict Text (List Value)) (s : S)
        → Reading store u s
        → All HasRows l
        → (restore_tables store mem segment_json shown_error (map (λ e. e.0) l) tables s).0 ≡ ok out
        → Clash version whole u
          ⊎ ((t : Text)
              → rows_or_none (get out t) ≡ rows_or_none (get tables t) ++ flat t (tables_of l))
    unfolding restore_tables flat
    restored u [] tables out s k h e =
        let same : out ≡ tables = cc e in
        inr λ t.
          ap (λ d. rows_or_none (get d t)) same ∙ sym (append-nil (rows_or_none (get tables t)))
    restored u (f ∷ l) tables out s k h e =
        let reading = read_segment store mem segment_json shown_error f.0 in
        let (segment, read, rest) = bind-eq-ok reading _ s e in
        let ih =
          restored u l
            (insert tables f.0.table (rows_or_none (get tables f.0.table) ++ segment.rows)) out
            (store.get_raw f.0.segment s).1 (read_on f.0.segment s k) h.1 rest in
        elim (read_rows u s f segment k h.0 read) [
          | inl c ↦ inl c
          | inr same ↦ (elim ih [
            | inl c ↦ inl c
            | inr rows ↦
                inr λ t.
                  rows t ∙ added f.0.table t segment.rows f.1 (flat t (tables_of l)) tables same
          ])
        ]

    restoring :
        ((m : InMemoryState Value) (s : S) → mem.memory (mem.set_memory m s) ≡ m)
        → (target : SnapshotHandle) (u : S) (l : List Entry)
        → map (λ e. e.0) l ≡ target.manifest.entries
        → All HasRows l
        → (restore_with_guard store mem segment_json shown_error target u).0 ≡ ok tt
        → Clash version whole u
          ⊎ ((t : Text)
              → rows_of t
                  (mem.memory (restore_with_guard store mem segment_json shown_error target u).1)
                ≡ flat t (tables_of l))
    unfolding restore_with_guard rows_of get
    restoring lens target u l same held e =
        go ((mem.memory u).schema_version == target.schema_version) _ e
      where
        reading : Action S Error (Dict Text (List Value))
        reading = restore_tables store mem segment_json shown_error target.manifest.entries []

        writing : Dict Text (List Value) → Action S Error (Unit {0})
        writing tables v = (ok tt, mem.set_memory (record (mem.memory v) { tables = tables }) v)

        go :
            (b : Bool) (f : Error)
            → (if b then (reading >>= writing) u else (err f, u)).0 ≡ ok tt
            → Clash version whole u
              ⊎ ((t : Text)
                  → rows_of t (mem.memory (if b then (reading >>= writing) u else (err f, u)).1)
                    ≡ flat t (tables_of l))
        go true f e =
            let (out, read, done) = bind-eq-ok reading writing u e in
            elim (restored u l [] out u start held (rw same read)) [
              | inl c ↦ inl c
              | inr rows ↦ inr λ t.
                  ap (λ (p : Result Error (Unit {0}) × S). rows_of t (mem.memory p.1))
                    (bind-ok reading writing u read)
                  ∙ (ap (λ (m : InMemoryState Value). rows_of t m)
                        (lens (record (mem.memory (reading u).1) { tables = out }) (reading u).1)
                      ∙ rows t)
            ]
        go false f e = cc

  start-Fresh : (tables : List Table) → Fresh tables []
  start-Fresh [] = tt
  start-Fresh (k ∷ tables) = (tt, start-Fresh tables)

  -- When a restore of a snapshot succeeds, whatever the tables and the store hold by then, every
  -- table has the rows that it had when the snapshot was taken, in their order; unless the store has
  -- returned, in place of the segment of one of its tables, other bytes with the same address.
  pub restore-snapshot :
      (lens : (m : InMemoryState Value) (s : S) → mem.memory (mem.set_memory m s) ≡ m) (s u : S)
      (handle : SnapshotHandle)
      → IsMap (mem.memory s).tables
      → (snapshot store mem segment_json shown_error s).0 ≡ ok handle
      → (restore_with_guard store mem segment_json shown_error handle u).0 ≡ ok tt
      → Clash (mem.memory s).schema_version (mem.memory s).tables u
        ⊎ ((t : Text)
            → rows_of t
                (mem.memory (restore_with_guard store mem segment_json shown_error handle u).1)
              ≡ rows_of t (mem.memory s))
  unfolding snapshot rows_of
  restore-snapshot lens s u handle d took back =
      let version = (mem.memory s).schema_version in
      let sorted = sort_tables (mem.memory s).tables in
      let storing = snapshot_tables store mem segment_json shown_error version sorted in
      let finish : SegmentManifest → Action S Error SnapshotHandle =
        λ m. pure (record { manifest = m; schema_version = version }) in
      let (m, stored, made) = bind-eq-ok (storing (new_manifest version)) finish s took in
      let r =
        taken version (mem.memory s).tables sorted [] (new_manifest version) m s
          (sort_tables-All (λ e. In e (mem.memory s).tables) (mem.memory s).tables
            (every_in (λ e. In e (mem.memory s).tables) (mem.memory s).tables (λ e i. i)))
          (sort-IsMap (mem.memory s).tables d) (start-Fresh sorted) refl tt stored in
      let manifest : handle.manifest ≡ m = cc made in
      elim (restoring version (mem.memory s).tables lens handle u r.entries
        (r.same ∙ ap (λ (n : SegmentManifest). n.entries) (sym manifest)) r.held back) [
          | inl c ↦ inl c
          | inr rows ↦ inr λ t.
              rows t
              ∙ (r.rows t
                  ∙ (ap (λ (l : List Table). flat t l) (append-nil sorted)
                      ∙ (flat-sort_tables t (mem.memory s).tables d
                          ∙ flat_get t (mem.memory s).tables d)))
        ]
