-- ===== src/Memory/InMemory/Flat.antt =====
-- Rows of lists of tables that are appended, and of a table to which rows are added.
use git_agentic.Common.{
  ◌≡◌, refl, sym, List, [], ◌∷◌, ◌++◌, ◌==◌, nat_eq, list_eq, eq_of_==, if◌then◌else◌, Bool-cases,
  inl, inr, arith,
}
use mathlib.Core.List.{append_assoc}
use git_agentic.Common.Dict.{Dict, get, insert, get-insert}
use git_agentic.Common.Text.{Text}
use git_agentic.Memory.InMemory.{rows_or_none}
use git_agentic.Memory.Segment.{Value}
use git_agentic.Memory.InMemory.Snapshot.{Table}
use git_agentic.Memory.InMemory.Tables.{flat, Without, flat_none}

pub flat-append : (t : Text) (k l : List Table) → flat t (k ++ l) ≡ flat t k ++ flat t l
unfolding flat
flat-append t [] l = refl
flat-append t ((j, rows) ∷ k) l = elim (Bool-cases (j == t)) [
  | inl e ↦ rw (e, flat-append t k l) (sym (append_assoc rows (flat t k) (flat t l)))
  | inr e ↦ rw e (flat-append t k l)
]

pub flat_empty : (t k : Text) (l : List Table) → flat t ((k, []) ∷ l) ≡ flat t l
unfolding flat
flat_empty t k l = ground arith

-- A table that is none of the later ones may stand before them or behind them.
pub flat_behind :
    (t : Text) (e : Table) (k l : List Table)
    → Without e.0 k
    → flat t k ++ flat t (e ∷ l) ≡ flat t (e ∷ (k ++ l))
unfolding flat
flat_behind t e k l w = elim (Bool-cases (e.0 == t)) [
  | inl same ↦ rw (same, flat-append t k l, flat_none t k (rw (sym (eq_of_== e.0 t same)) w)) refl
  | inr other ↦ rw (other, flat-append t k l) refl
]

-- Rows that are added to a table are added to that one only.
pub added :
    (k t : Text) (r q z : List Value) (tables : Dict Text (List Value))
    → r ≡ q
    → rows_or_none (get (insert tables k (rows_or_none (get tables k) ++ r)) t) ++ z
      ≡ rows_or_none (get tables t) ++ (if k == t then q ++ z else z)
added k t r q z tables same = elim (Bool-cases (k == t)) [
  | inl e ↦
      rw (get-insert tables k t (rows_or_none (get tables k) ++ r), e, same, eq_of_== k t e)
        (append_assoc (rows_or_none (get tables t)) q z)
  | inr e ↦ rw (get-insert tables k t (rows_or_none (get tables k) ++ r), e) refl
]
