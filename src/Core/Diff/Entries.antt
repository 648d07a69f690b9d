-- ===== src/Core/Diff/Entries.antt =====
-- What the diff of two trees lists: each name that differs, once under what happened to it.
use git_agentic.Common.{
  ◌≡◌, ◌≢◌, ◌↔◌, ◌⊎◌, inl, inr, refl, sym, ap, ◌∙◌, false, Bool-cases, Option, none, some, List, [],
  ◌∷◌, ◌==◌, nat_eq, list_eq, Eq, ==_refl, eq_of_==,
}
use mathlib.Core.Path.{subst}
use git_agentic.Common.SortedMap
use git_agentic.Common.SortedMap.{SortedMap, keys, get-insert}
use git_agentic.Common.Text.{Text}
use git_agentic.Core.Hash.{Hash}
use git_agentic.Core.Object.{TypedRef}
use git_agentic.Core.Diff.{
  TreeDiff, TreeEntry, TreeModification, classify, diff_names, add_names, diff_entries,
}

abbrev pub In : {A : Type 0} → A → List A → Type 0
In x [] = ⊥
In x (y ∷ ys) = (y ≡ x) ⊎ In x ys

abbrev text_eq : Eq Text
text_eq = list_eq

abbrev pub hash_of : Option TypedRef → Option Hash
hash_of none = none
hash_of (some r) = some r.hash

In-keys : {V : Type 0} (m : SortedMap V) (n : Text) → (In n (keys m)) ↔ (SortedMap.get m n ≢ none)
unfolding SortedMap.get
In-keys [] n = (λ i. absurd i, λ h. h refl)
In-keys ((k, v) ∷ m) n = elim (Bool-cases (k == n)) [
  | inl e ↦ (λ i. rw (e) (λ k. cc), λ h. inl (eq_of_== k n e))
  | inr e ↦ (
    λ i. rw e (elim i [ inl p ↦ absurd (cc (e, p, ==_refl n)) | inr j ↦ (In-keys m n).0 j ]),
    λ h. inr ((In-keys m n).1 (rw e at h)),
  )
]

get-add_names :
    (ns : List Text) (m : SortedMap (Unit {0})) (n : Text)
    → (SortedMap.get (add_names ns m) n ≢ none) ↔ (In n ns ⊎ (SortedMap.get m n ≢ none))
unfolding add_names
get-add_names [] m n = (λ h. inr h, λ t. elim t [ inl i ↦ absurd i | inr h ↦ h ])
get-add_names (k ∷ ns) m n = elim (Bool-cases (k == n)) [
  | inl e ↦
      (λ h. inl (inl (eq_of_== k n e)), λ t. rw (get-insert (add_names ns m) k n tt, e) (λ k. cc))
  | inr e ↦ (
    λ h. elim ((get-add_names ns m n).0 (rw (get-insert (add_names ns m) k n tt, e) at h)) [
      | inl i ↦ inl (inr i)
      | inr g ↦ inr g
    ],
    λ t.
        rw (get-insert (add_names ns m) k n tt, e)
          ((get-add_names ns m n).1 (elim t [
            | inl (inl p) ↦ absurd (cc (e, p, ==_refl n))
            | inl (inr i) ↦ inl i
            | inr g ↦ inr g
          ])),
  )
]

-- The two sides of a name that was added, and of one that was removed
abbrev pub AddedAt : Option TypedRef → Option TypedRef → Hash → Type 0
AddedAt ga gb h = (ga ≡ none) × (hash_of gb ≡ some h)

abbrev pub RemovedAt : Option TypedRef → Option TypedRef → Hash → Type 0
RemovedAt ga gb h = (hash_of ga ≡ some h) × (gb ≡ none)

classify_added :
    (n m : Text) (h : Hash) (ga gb : Option TypedRef) (d : TreeDiff)
    → In (record { name = m; hash = h }) (classify n ga gb d).added
      ↔ (((n ≡ m) × AddedAt ga gb h) ⊎ In (record { name = m; hash = h }) d.added)
classify_added n m h none none d = (λ i. inr i, λ t. elim t [ inl (_, v) ↦ cc v.1 | inr i ↦ i ])
classify_added n m h none (some b) d = (
  λ i. elim i [
    | inl e ↦ inl (ap (λ (t : TreeEntry). t.name) e, (refl, ap (λ (t : TreeEntry). some t.hash) e))
    | inr j ↦ inr j
  ],
  λ t. elim t [ inl (e, v) ↦ inl (cc (e, v.1)) | inr j ↦ inr j ],
)
classify_added n m h (some a) none d = (λ i. inr i, λ t. elim t [ inl (_, v) ↦ cc | inr i ↦ i ])
classify_added n m h (some a) (some b) d = elim (Bool-cases (a.hash == b.hash)) [
  | inl q ↦ rw q (λ i. inr i, λ t. elim t [ inl (_, v) ↦ cc v.0 | inr i ↦ i ])
  | inr q ↦ rw q (λ i. inr i, λ t. elim t [ inl (_, v) ↦ cc v.0 | inr i ↦ i ])
]

classify_removed :
    (n m : Text) (h : Hash) (ga gb : Option TypedRef) (d : TreeDiff)
    → In (record { name = m; hash = h }) (classify n ga gb d).removed
      ↔ (((n ≡ m) × RemovedAt ga gb h) ⊎ In (record { name = m; hash = h }) d.removed)
classify_removed n m h none none d = (λ i. inr i, λ t. elim t [ inl (_, v) ↦ cc v.0 | inr i ↦ i ])
classify_removed n m h none (some b) d = (λ i. inr i, λ t. elim t [ inl (_, v) ↦ cc | inr i ↦ i ])
classify_removed n m h (some a) none d = (
  λ i. elim i [
    | inl e ↦ inl (ap (λ (t : TreeEntry). t.name) e, (ap (λ (t : TreeEntry). some t.hash) e, refl))
    | inr j ↦ inr j
  ],
  λ t. elim t [ inl (e, v) ↦ inl (cc (e, v.0)) | inr j ↦ inr j ],
)
classify_removed n m h (some a) (some b) d = elim (Bool-cases (a.hash == b.hash)) [
  | inl q ↦ rw q (λ i. inr i, λ t. elim t [ inl (_, v) ↦ cc v.1 | inr i ↦ i ])
  | inr q ↦ rw q (λ i. inr i, λ t. elim t [ inl (_, v) ↦ cc v.1 | inr i ↦ i ])
]

-- The two sides of a name that was modified
abbrev pub Modified : Option TypedRef → Option TypedRef → Hash → Hash → Type 0
Modified ga gb f t = (hash_of ga ≡ some f) × (hash_of gb ≡ some t) × (f ≢ t)

classify_modified :
    (n m : Text) (f t : Hash) (ga gb : Option TypedRef) (d : TreeDiff)
    → In (record { name = m; from = f; to = t }) (classify n ga gb d).modified
      ↔ (((n ≡ m) × Modified ga gb f t) ⊎ In (record { name = m; from = f; to = t }) d.modified)
classify_modified n m f t none none d =
    (λ i. inr i, λ s. elim s [ inl (_, v) ↦ cc v.0 | inr i ↦ i ])
classify_modified n m f t none (some b) d =
    (λ i. inr i, λ s. elim s [ inl (_, v) ↦ cc v.0 | inr i ↦ i ])
classify_modified n m f t (some a) none d =
    (λ i. inr i, λ s. elim s [ inl (_, v) ↦ cc v.1 | inr i ↦ i ])
classify_modified n m f t (some a) (some b) d = elim (Bool-cases (a.hash == b.hash)) [
  | inl q ↦ rw q (
    λ i. inr i,
    λ s. elim s [ inl (_, v) ↦ absurd (v.2 (cc (v.0, v.1, eq_of_== a.hash b.hash q))) | inr i ↦ i ],
  )
  | inr q ↦ rw q (
    λ i. elim i [
      | inl e ↦ inl (
        ap (λ (t : TreeModification). t.name) e,
        (
          ap (λ (t : TreeModification). some t.from) e,
          ap (λ (t : TreeModification). some t.to) e,
          λ p. differ a.hash b.hash q (
              ap (λ (t : TreeModification). t.from) e
              ∙ p
              ∙ sym (ap (λ (t : TreeModification). t.to) e)),
        ),
      )
      | inr j ↦ inr j
    ],
    λ s. elim s [ inl (e, v) ↦ inl (cc (e, v.0, v.1)) | inr j ↦ inr j ],
  )
]
  where
    differ : (x y : Hash) → (x == y) ≡ false → x ≢ y
    differ x y q p = cc (q, p, ==_refl y)

-- One name more, for a list of which each name contributes what `P` says of it.
one_more :
    (P : Text → Type 0) {X Y : Type 0} (n m : Text) (ns : List Text)
    → (Y ↔ (((n ≡ m) × P n) ⊎ X))
    → (X ↔ (In m ns × P m))
    → (Y ↔ (In m (n ∷ ns) × P m))
one_more P n m ns here later = (
  λ i. elim (here.0 i) [
    | inl t ↦ (inl t.0, subst P t.0 t.1)
    | inr j ↦ (inr (later.0 j).0, (later.0 j).1)
  ],
  λ t. here.1 (elim t.0 [ inl e ↦ inl (e, subst P (sym e) t.1) | inr j ↦ inr (later.1 (j, t.1)) ]),
)

module _ (a b : SortedMap TypedRef) where
  -- What the two trees hold at a name
  abbrev pub left : Text → Option TypedRef
  left n = SortedMap.get a n

  abbrev pub right : Text → Option TypedRef
  right n = SortedMap.get b n

  abbrev pub Added : Hash → Text → Type 0
  Added h n = AddedAt (left n) (right n) h

  abbrev pub Removed : Hash → Text → Type 0
  Removed h n = RemovedAt (left n) (right n) h

  abbrev pub Changed : Hash → Hash → Text → Type 0
  Changed f t n = Modified (left n) (right n) f t

  names_added :
      (m : Text) (h : Hash) (ns : List Text)
      → In (record { name = m; hash = h }) (diff_names a b ns).added ↔ (In m ns × Added h m)
  unfolding diff_names
  names_added m h [] = (λ i. absurd i, λ t. t.0)
  names_added m h (n ∷ ns) =
      one_more (Added h) n m ns (classify_added n m h (left n) (right n) (diff_names a b ns))
        (names_added m h ns)

  names_removed :
      (m : Text) (h : Hash) (ns : List Text)
      → In (record { name = m; hash = h }) (diff_names a b ns).removed ↔ (In m ns × Removed h m)
  unfolding diff_names
  names_removed m h [] = (λ i. absurd i, λ t. t.0)
  names_removed m h (n ∷ ns) =
      one_more (Removed h) n m ns (classify_removed n m h (left n) (right n) (diff_names a b ns))
        (names_removed m h ns)

  names_modified :
      (m : Text) (f t : Hash) (ns : List Text)
      → In (record { name = m; from = f; to = t }) (diff_names a b ns).modified
        ↔ (In m ns × Changed f t m)
  unfolding diff_names
  names_modified m f t [] = (λ i. absurd i, λ t. t.0)
  names_modified m f t (n ∷ ns) =
      one_more (Changed f t) n m ns
        (classify_modified n m f t (left n) (right n) (diff_names a b ns)) (names_modified m f t ns)

  all_names : List Text
  all_names = keys (add_names (keys a) (add_names (keys b) []))

  -- A name of either tree is looked at.
  looked_at : (n : Text) → (left n ≢ none) ⊎ (right n ≢ none) → In n all_names
  unfolding all_names
  looked_at n t = (In-keys _ n).1 (
      (get-add_names (keys a) _ n).1 (elim t [
        | inl h ↦ inl ((In-keys a n).1 h)
        | inr h ↦ inr ((get-add_names (keys b) [] n).1 (inl ((In-keys b n).1 h)))
      ]))

  found : (o : Option TypedRef) (h : Hash) → hash_of o ≡ some h → o ≢ none
  found none h e = cc
  found (some r) h e = λ k. cc

  -- The diff of two trees lists exactly what happened: as added the names of the second tree that
  -- the first lacks, as removed those of the first that the second lacks, as modified those at
  -- which both hold different hashes, each with the hashes that the trees hold.
  pub diff_entries_lem :
      ((m : Text) (h : Hash)
        → In (record { name = m; hash = h }) (diff_entries a b).added
          ↔ ((SortedMap.get a m ≡ none) × (hash_of (SortedMap.get b m) ≡ some h)))
      × ((m : Text) (h : Hash)
          → In (record { name = m; hash = h }) (diff_entries a b).removed
            ↔ ((hash_of (SortedMap.get a m) ≡ some h) × (SortedMap.get b m ≡ none)))
      × ((m : Text) (f t : Hash)
          → In (record { name = m; from = f; to = t }) (diff_entries a b).modified ↔ (
              (hash_of (SortedMap.get a m) ≡ some f)
              × (hash_of (SortedMap.get b m) ≡ some t)
              × (f ≢ t)))
  unfolding diff_entries all_names
  diff_entries_lem = (
    λ m h. (
      λ i. ((names_added m h all_names).0 i).1,
      λ v. (names_added m h all_names).1 (looked_at m (inr (found (right m) h v.1)), v),
    ),
    λ m h. (
      λ i. ((names_removed m h all_names).0 i).1,
      λ v. (names_removed m h all_names).1 (looked_at m (inl (found (left m) h v.0)), v),
    ),
    λ m f t. (
      λ i. ((names_modified m f t all_names).0 i).1,
      λ v. (names_modified m f t all_names).1 (looked_at m (inl (found (left m) f v.0)), v),
    ),
  )
