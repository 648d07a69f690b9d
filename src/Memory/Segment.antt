-- ===== src/Memory/Segment.antt =====
-- crates/agentic-memory/src/segment.rs: segments and the manifest of a snapshot.
pub mod Manifest
use git_agentic.Common.{
  ℕ, ◌≡◌, Bool, true, false, Option, none, some, List, [], ◌∷◌, Result, ok, err, and_then, ok_or,
  length,
}
use git_agentic.Common.Ordered.{Ordering, text_compare}
use git_agentic.Common.SortedMap.{SortedMap}
use git_agentic.Common.Text.{Text, Bytes}
use git_agentic.External.{Blake3, Serde}
use git_agentic.Core.Hash.{Hash, of}

-- `serde_json::Value`, as far as it is read here: of a number its value as an i64, the bits of its
-- value as an f64 and its JSON; of anything else but a string its JSON. An i64 is its distance from
-- the least one.
pub data Value : Type 0 where
  number : Option ℕ → Option ℕ → Text → Value
  string : Text → Value
  any_other : Text → Value

-- An f32 is its bits.
pub record Embedding : Type 0 where
  pub row_idx : ℕ
  pub vector : List ℕ

pub record Segment : Type 0 where
  pub table : Text
  pub schema_version : Text
  pub pk_lo : Value
  pub pk_hi : Value
  pub row_count : ℕ
  pub rows : List Value
  pub embeddings : List Embedding
  pub metadata : SortedMap Value

pub record SegmentRef : Type 0 where
  pub table : Text
  pub pk_lo : Value
  pub pk_hi : Value
  pub segment : Hash
  pub row_count : ℕ

pub record SegmentManifest : Type 0 where
  pub schema_version : Text
  pub entries : List SegmentRef

pub data PkKey : Type 0 where
  int : ℕ → PkKey
  float : ℕ → PkKey
  text : Text → PkKey

-- The derived order: the variant, then its payload
abbrev pub rank : PkKey → List ℕ
rank (int n) = 0 ∷ n ∷ []
rank (float bits) = 1 ∷ bits ∷ []
rank (text s) = 2 ∷ s

unfoldable pub pk_compare : PkKey → PkKey → Ordering
pk_compare a b = text_compare (rank a) (rank b)

unfoldable pub pk_sort_key : Value → PkKey
pk_sort_key (number (some i) f json) = int i
pk_sort_key (number none (some f) json) = float f
pk_sort_key (number none none json) = text json
pk_sort_key (string s) = text s
pk_sort_key (any_other json) = text json

-- `Ord` of a tuple: the first part that differs decides.
abbrev pub then_compare : Ordering → Ordering → Ordering
then_compare Ordering.lt o = Ordering.lt
then_compare Ordering.eq o = o
then_compare Ordering.gt o = Ordering.gt

-- The key of `push`, and that of `validate_invariants`
unfoldable pub lo_compare : SegmentRef → SegmentRef → Ordering
unfolding pk_compare pk_sort_key
lo_compare a b =
    then_compare (text_compare a.table b.table)
      (pk_compare (pk_sort_key a.pk_lo) (pk_sort_key b.pk_lo))

unfoldable pub range_compare : SegmentRef → SegmentRef → Ordering
unfolding lo_compare
range_compare a b =
    then_compare (lo_compare a b) (pk_compare (pk_sort_key a.pk_hi) (pk_sort_key b.pk_hi))

-- `SegmentManifest::new`
abbrev pub new_manifest : Text → SegmentManifest
new_manifest version = record { schema_version = version; entries = [] }

-- The place before the first entry that is not less
unfoldable pub push_entry : SegmentRef → List SegmentRef → List SegmentRef
unfolding lo_compare
push_entry r [] = r ∷ []
push_entry r (x ∷ xs) =
    let rest = push_entry r xs in elim (lo_compare x r) [ Ordering.lt ↦ x ∷ rest | _ ↦ r ∷ x ∷ xs ]

-- `SegmentManifest::push`
unfoldable pub push : SegmentRef → SegmentManifest → SegmentManifest
unfolding push_entry
push r m = record m { entries = push_entry r m.entries }

pub data ManifestError : Type 0 where
  not_json empty_schema_version out_of_order duplicate_entry : ManifestError

-- What is said of an entry behind another
abbrev pub check_pair : Ordering → Result ManifestError (Unit {0})
check_pair Ordering.lt = ok tt
check_pair Ordering.eq = err duplicate_entry
check_pair Ordering.gt = err out_of_order

unfoldable pub check_pairs : SegmentRef → List SegmentRef → Result ManifestError (Unit {0})
unfolding range_compare
check_pairs prev [] = ok tt
check_pairs prev (next ∷ rest) =
    and_then (check_pair (range_compare prev next)) λ _. check_pairs next rest

unfoldable pub check_entries : List SegmentRef → Result ManifestError (Unit {0})
unfolding check_pairs
check_entries [] = ok tt
check_entries (first ∷ rest) = check_pairs first rest

unfoldable pub validate_invariants : SegmentManifest → Result ManifestError (Unit {0})
unfolding check_entries
validate_invariants m = elim m.schema_version [
  | [] ↦ err empty_schema_version
  | _ ∷ _ ↦ check_entries m.entries
]

module _ (b3 : Blake3) (segment_json : Serde Segment) (manifest_json : Serde SegmentManifest) where
  unfoldable pub segment_hash : Segment → Hash
  segment_hash s = of b3 (segment_json.to_vec s)

  unfoldable pub canonical_size : Segment → ℕ
  canonical_size s = length (segment_json.to_vec s)

  unfoldable pub manifest_hash : SegmentManifest → Hash
  manifest_hash m = of b3 (manifest_json.to_vec m)

  unfoldable pub from_canonical_bytes : Bytes → Result ManifestError SegmentManifest
  unfolding validate_invariants
  from_canonical_bytes bytes =
      and_then (ok_or (manifest_json.from_slice bytes) not_json)
        λ m. and_then (validate_invariants m) λ _. ok m
