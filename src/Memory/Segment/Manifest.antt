-- ===== src/Memory/Segment/Manifest.antt =====
-- Pushing an entry of a new key keeps a manifest valid.
use git_agentic.Common.{
  ◌⊎◌, inl, inr, and_then-eq-ok, nat_eq, list_eq, ◌≡◌, ◌≢◌, refl, ap, ◌∙◌, List, [], ◌∷◌, ok, err,
  All, arith,
}
use git_agentic.Common.Ordered.{Ordering, lt_of_gt, eq_of_text_compare, text_compare_refl}
use git_agentic.Common.Text.{Text}
use git_agentic.Memory.Segment.{
  SegmentRef, SegmentManifest, rank, pk_compare, pk_sort_key, lo_compare, range_compare, push_entry,
  push, empty_schema_version, check_pair, check_pairs, check_entries, validate_invariants,
}

lo_lt_of_gt : (a b : SegmentRef) → lo_compare a b ≡ Ordering.gt → lo_compare b a ≡ Ordering.lt
unfolding lo_compare pk_compare
lo_lt_of_gt a b h = ground (
  arith,
  lt_of_gt a.table b.table,
  eq_of_text_compare a.table b.table,
  text_compare_refl a.table,
  lt_of_gt (rank (pk_sort_key a.pk_lo)) (rank (pk_sort_key b.pk_lo)),
)

-- Entries of different keys that `lo_compare` puts in order are in order.
before : (a b : SegmentRef) → lo_compare a b ≡ Ordering.lt → check_pair (range_compare a b) ≡ ok tt
unfolding range_compare
before a b h = rw h refl

Ordering-cases : (o : Ordering) → (o ≡ Ordering.lt) ⊎ ((o ≡ Ordering.eq) ⊎ (o ≡ Ordering.gt))
Ordering-cases Ordering.lt = inl refl
Ordering-cases Ordering.eq = inr (inl refl)
Ordering-cases Ordering.gt = inr (inr refl)

-- No entry has the key of `r`.
abbrev pub IsNew : SegmentRef → List SegmentRef → Type 0
IsNew r = All (λ x. lo_compare x r ≢ Ordering.eq)

check_pairs_ok :
    (prev x : SegmentRef) (xs : List SegmentRef)
    → check_pairs prev (x ∷ xs) ≡ ok tt
    → (check_pair (range_compare prev x) ≡ ok tt) × (check_pairs x xs ≡ ok tt)
unfolding check_pairs
check_pairs_ok prev x xs h =
    let (u, p, q) = and_then-eq-ok (check_pair (range_compare prev x)) (λ _. check_pairs x xs) h in
    (p, q)

check_pairs_two :
    (prev x : SegmentRef) (xs : List SegmentRef)
    → check_pair (range_compare prev x) ≡ ok tt
    → check_pairs x xs ≡ ok tt
    → check_pairs prev (x ∷ xs) ≡ ok tt
unfolding check_pairs
check_pairs_two prev x xs p q = rw p q

push_entry_later :
    (r x : SegmentRef) (xs : List SegmentRef)
    → lo_compare x r ≡ Ordering.lt
    → push_entry r (x ∷ xs) ≡ x ∷ push_entry r xs
unfolding push_entry
push_entry_later r x xs e = rw (e, push_entry)

push_entry_here :
    (r x : SegmentRef) (xs : List SegmentRef)
    → lo_compare x r ≡ Ordering.gt
    → push_entry r (x ∷ xs) ≡ r ∷ x ∷ xs
unfolding push_entry
push_entry_here r x xs e = rw (e, push_entry)

check_pairs-push_entry :
    (prev r : SegmentRef) (xs : List SegmentRef)
    → lo_compare prev r ≡ Ordering.lt
    → check_pairs prev xs ≡ ok tt
    → IsNew r xs
    → check_pairs prev (push_entry r xs) ≡ ok tt
unfolding push_entry
check_pairs-push_entry prev r [] lt h v =
    check_pairs_two prev r [] (before prev r lt) (unfold check_pairs in refl)
check_pairs-push_entry prev r (x ∷ xs) lt h v =
    let (p, q) = check_pairs_ok prev x xs h in
    elim (Ordering-cases (lo_compare x r)) [
      | inl e ↦
          ap (check_pairs prev) (push_entry_later r x xs e)
          ∙ check_pairs_two prev x (push_entry r xs) p (check_pairs-push_entry x r xs e q v.1)
      | inr (inl e) ↦ absurd (v.0 e)
      | inr (inr e) ↦
          ap (check_pairs prev) (push_entry_here r x xs e)
          ∙ check_pairs_two prev r (x ∷ xs) (before prev r lt)
              (check_pairs_two r x xs (before r x (lo_lt_of_gt x r e)) q)
    ]

check_entries-push_entry :
    (r : SegmentRef) (xs : List SegmentRef)
    → check_entries xs ≡ ok tt
    → IsNew r xs
    → check_entries (push_entry r xs) ≡ ok tt
unfolding push_entry check_entries
check_entries-push_entry r [] h v = unfold check_pairs in refl
check_entries-push_entry r (x ∷ xs) h v = elim (Ordering-cases (lo_compare x r)) [
  | inl e ↦ ap check_entries (push_entry_later r x xs e) ∙ check_pairs-push_entry x r xs e h v.1
  | inr (inl e) ↦ absurd (v.0 e)
  | inr (inr e) ↦
      ap check_entries (push_entry_here r x xs e)
      ∙ check_pairs_two r x xs (before r x (lo_lt_of_gt x r e)) h
]

-- A manifest that passes the check of its invariants passes it after a push of an entry whose table
-- and lower key no entry has.
pub push_keeps_valid :
    (r : SegmentRef) (m : SegmentManifest)
    → validate_invariants m ≡ ok tt
    → IsNew r m.entries
    → validate_invariants (push r m) ≡ ok tt
unfolding validate_invariants push
push_keeps_valid r m h v = go m.schema_version h
  where
    go :
        (version : Text)
        → (elim version [ [] ↦ err empty_schema_version | _ ∷ _ ↦ check_entries m.entries ]) ≡ ok tt
        → (elim version [
          | [] ↦ err empty_schema_version
          | _ ∷ _ ↦ check_entries (push_entry r m.entries)
        ])
          ≡ ok tt
    go [] h = cc
    go (c ∷ s) h = check_entries-push_entry r m.entries h v
