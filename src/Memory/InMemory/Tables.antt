-- ===== src/Memory/InMemory/Tables.antt =====
-- Lists of tables, and the entries of a manifest, as the rows that each table has in them.
use git_agentic.Common.{
  ◌≡◌, ◌≢◌, refl, sym, ◌∙◌, List, [], ◌∷◌, ◌++◌, All, ap, map, ◌==◌, nat_eq, list_eq, ==_ne,
  eq_of_==, if◌then◌else◌, Bool-cases, inl, inr, arith,
}
use mathlib.Core.List.{append-nil}
use git_agentic.Common.Dict.{get}
use git_agentic.Common.Ordered.{Ordering, text_compare}
use git_agentic.Common.Text.{Text}
use git_agentic.Memory.InMemory.{rows_or_none}
use git_agentic.Memory.Segment.{Value, SegmentRef, push_entry, lo_compare}
use git_agentic.Memory.InMemory.Snapshot.{Table, place, sort_tables}

-- The rows of a table in a list of tables
unfoldable pub flat : Text → List Table → List Value
flat t [] = []
flat t ((k, rows) ∷ l) = let rest = flat t l in if k == t then rows ++ rest else rest

-- No table has this name.
abbrev pub Without : Text → List Table → Type 0
Without k = All (λ (e : Table). k ≢ e.0)

abbrev pub IsMap : List Table → Type 0
IsMap [] = Unit {0}
IsMap (e ∷ l) = Without e.0 l × IsMap l

pub flat_none : (t : Text) (l : List Table) → Without t l → flat t l ≡ []
unfolding flat
flat_none t [] h = refl
flat_none t ((k, rows) ∷ l) h = rw (==_ne k t (λ e. h.0 (sym e))) (flat_none t l h.1)

pub flat_get : (t : Text) (l : List Table) → IsMap l → flat t l ≡ rows_or_none (get l t)
unfolding flat get
flat_get t [] h = refl
flat_get t ((k, rows) ∷ l) h = elim (Bool-cases (k == t)) [
  | inl e ↦ rw (e, flat_none t l (rw (sym (eq_of_== k t e)) h.0)) (append-nil rows)
  | inr e ↦ rw e (flat_get t l h.1)
]

flat_swap :
    (t : Text) (e f : Table) (l : List Table) → e.0 ≢ f.0 → flat t (e ∷ f ∷ l) ≡ flat t (f ∷ e ∷ l)
unfolding flat
flat_swap t e f l ne = ground (arith, eq_of_== e.0 t, eq_of_== f.0 t)

place-All : (P : Table → Type 0) (e : Table) (l : List Table) → P e → All P l → All P (place e l)
unfolding place
place-All P e [] p h = (p, tt)
place-All P e (f ∷ l) p h = go (text_compare e.0 f.0) (place-All P e l p h.1)
  where
    go :
        (o : Ordering)
        → All P (place e l)
        → All P (elim o [ Ordering.gt ↦ f ∷ place e l | _ ↦ e ∷ f ∷ l ])
    go Ordering.gt ih = (h.0, ih)
    go Ordering.lt ih = (p, (h.0, h.1))
    go Ordering.eq ih = (p, (h.0, h.1))

pub flat-cons :
    (t : Text) (f : Table) (x y : List Table)
    → flat t x ≡ flat t y
    → flat t (f ∷ x) ≡ flat t (f ∷ y)
unfolding flat
flat-cons t f x y e = rw e refl

flat-place :
    (t : Text) (e : Table) (l : List Table) → Without e.0 l → flat t (place e l) ≡ flat t (e ∷ l)
unfolding place
flat-place t e [] h = refl
flat-place t e (f ∷ l) h = go (text_compare e.0 f.0) (flat-place t e l h.1)
  where
    go :
        (o : Ordering)
        → flat t (place e l) ≡ flat t (e ∷ l)
        → flat t (elim o [ Ordering.gt ↦ f ∷ place e l | _ ↦ e ∷ f ∷ l ]) ≡ flat t (e ∷ f ∷ l)
    go Ordering.gt ih =
        flat-cons t f (place e l) (e ∷ l) ih ∙ flat_swap t f e l (λ same. h.0 (sym same))
    go Ordering.lt ih = refl
    go Ordering.eq ih = refl

pub sort_tables-All : (P : Table → Type 0) (l : List Table) → All P l → All P (sort_tables l)
unfolding sort_tables
sort_tables-All P [] h = tt
sort_tables-All P (e ∷ l) h = place-All P e (sort_tables l) h.0 (sort_tables-All P l h.1)

sort-Without : (k : Text) (l : List Table) → Without k l → Without k (sort_tables l)
sort-Without k l h = sort_tables-All (λ f. k ≢ f.0) l h

pub flat-sort_tables : (t : Text) (l : List Table) → IsMap l → flat t (sort_tables l) ≡ flat t l
unfolding sort_tables
flat-sort_tables t [] h = refl
flat-sort_tables t (e ∷ l) h =
    flat-place t e (sort_tables l) (sort-Without e.0 l h.0)
    ∙ flat-cons t e (sort_tables l) l (flat-sort_tables t l h.1)

place-IsMap : (e : Table) (l : List Table) → Without e.0 l → IsMap l → IsMap (place e l)
unfolding place
place-IsMap e [] w h = (tt, tt)
place-IsMap e (f ∷ l) w h = go (text_compare e.0 f.0) (place-IsMap e l w.1 h.1)
  where
    go :
        (o : Ordering)
        → IsMap (place e l)
        → IsMap (elim o [ Ordering.gt ↦ f ∷ place e l | _ ↦ e ∷ f ∷ l ])
    go Ordering.gt ih = (place-All (λ g. f.0 ≢ g.0) e l (λ same. w.0 (sym same)) h.0, ih)
    go Ordering.lt ih = (w, h)
    go Ordering.eq ih = (w, h)

pub sort-IsMap : (l : List Table) → IsMap l → IsMap (sort_tables l)
unfolding sort_tables
sort-IsMap [] h = tt
sort-IsMap (e ∷ l) h = place-IsMap e (sort_tables l) (sort-Without e.0 l h.0) (sort-IsMap l h.1)

-- The entries of a manifest with the rows that their segments hold
abbrev pub Entry : Type 0
Entry = SegmentRef × List Value

abbrev pub table_of : Entry → Table
table_of (r, rows) = (r.table, rows)

unfoldable pub insert_entry : Entry → List Entry → List Entry
insert_entry e [] = e ∷ []
insert_entry e (f ∷ l) =
    let rest = insert_entry e l in
    elim (lo_compare f.0 e.0) [ Ordering.lt ↦ f ∷ rest | _ ↦ e ∷ f ∷ l ]

pub refs-insert_entry :
    (e : Entry) (l : List Entry)
    → map (λ f. f.0) (insert_entry e l) ≡ push_entry e.0 (map (λ f. f.0) l)
unfolding insert_entry push_entry
refs-insert_entry e [] = refl
refs-insert_entry e (f ∷ l) = go (lo_compare f.0 e.0) (refs-insert_entry e l)
  where
    go :
        (o : Ordering)
        → map (λ f. f.0) (insert_entry e l) ≡ push_entry e.0 (map (λ f. f.0) l)
        → map (λ f. f.0) (elim o [ Ordering.lt ↦ f ∷ insert_entry e l | _ ↦ e ∷ f ∷ l ]) ≡ (elim o [
          | Ordering.lt ↦ f.0 ∷ push_entry e.0 (map (λ f. f.0) l)
          | _ ↦ e.0 ∷ f.0 ∷ map (λ f. f.0) l
        ])
    go Ordering.lt ih = ap (λ x. f.0 ∷ x) ih
    go Ordering.eq ih = refl
    go Ordering.gt ih = refl

pub insert_entry-All :
    (P : Entry → Type 0) (e : Entry) (l : List Entry) → P e → All P l → All P (insert_entry e l)
unfolding insert_entry
insert_entry-All P e [] p h = (p, tt)
insert_entry-All P e (f ∷ l) p h = go (lo_compare f.0 e.0) (insert_entry-All P e l p h.1)
  where
    go :
        (o : Ordering)
        → All P (insert_entry e l)
        → All P (elim o [ Ordering.lt ↦ f ∷ insert_entry e l | _ ↦ e ∷ f ∷ l ])
    go Ordering.lt ih = (h.0, ih)
    go Ordering.eq ih = (p, (h.0, h.1))
    go Ordering.gt ih = (p, (h.0, h.1))

abbrev pub tables_of : List Entry → List Table
tables_of l = map (λ e. table_of e) l

pub flat-insert_entry :
    (t : Text) (e : Entry) (l : List Entry)
    → All (λ (f : Entry). e.0.table ≢ f.0.table) l
    → flat t (tables_of (insert_entry e l)) ≡ flat t (table_of e ∷ tables_of l)
unfolding insert_entry
flat-insert_entry t e [] h = refl
flat-insert_entry t e (f ∷ l) h = go (lo_compare f.0 e.0) (flat-insert_entry t e l h.1)
  where
    go :
        (o : Ordering)
        → flat t (tables_of (insert_entry e l)) ≡ flat t (table_of e ∷ tables_of l)
        → flat t (tables_of (elim o [ Ordering.lt ↦ f ∷ insert_entry e l | _ ↦ e ∷ f ∷ l ]))
          ≡ flat t (table_of e ∷ table_of f ∷ tables_of l)
    go Ordering.lt ih =
        flat-cons t (table_of f) (tables_of (insert_entry e l)) (table_of e ∷ tables_of l) ih
        ∙ flat_swap t (table_of f) (table_of e) (tables_of l) (λ same. h.0 (sym same))
    go Ordering.eq ih = refl
    go Ordering.gt ih = refl
