-- ===== src/Common/SortedMap.antt =====
-- `BTreeMap` with byte-string keys: entries in the order of their keys, so equal maps are equal
-- lists, whatever the order of insertion.
use Prim.Native.Nat.{ℕ}
use git_agentic.Common.Ordered.{
  Ordering, text_compare, text_compare_refl, eq_of_text_compare, gt_of_lt, lt_of_gt, text_lt_trans,
}
use git_agentic.Common.Tests.{Eq, ◌==◌, if◌then◌else◌, nat_eq, list_eq}
use git_agentic.Common.Lists.{All}
use mathlib.Core.Path.{◌≡◌, refl}
use mathlib.Core.Logic.{◌≢◌}
use mathlib.Core.List.{List, [], ◌∷◌, map}
use mathlib.Core.Option.{Option, none, some}
use native.Mathlib.Omega.{arith}

abbrev Key : Type 0
Key = List ℕ

abbrev key_eq : Eq Key
key_eq = list_eq

abbrev pub SortedMap {ℓ} : Type ℓ → Type ℓ
SortedMap V = List (List ℕ × V)

module _ {ℓ} {V : Type ℓ} where
  unfoldable pub get : SortedMap V → List ℕ → Option V
  get [] k = none
  get ((j, v) ∷ m) k = if j == k then some v else get m k

  unfoldable pub insert : SortedMap V → List ℕ → V → SortedMap V
  insert [] k v = (k, v) ∷ []
  insert ((j, w) ∷ m) k v = elim (text_compare k j) [
    | Ordering.lt ↦ (k, v) ∷ (j, w) ∷ m
    | Ordering.eq ↦ (j, v) ∷ m
    | Ordering.gt ↦ (j, w) ∷ insert m k v
  ]

  abbrev pub keys : SortedMap V → List (List ℕ)
  keys = map (λ e. e.0)

  abbrev pub IsSorted : SortedMap V → Type 0
  IsSorted [] = Unit {0}
  IsSorted (e ∷ m) = All (λ f. text_compare e.0 f.0 ≡ Ordering.lt) m × IsSorted m

  pub get-insert :
      (m : SortedMap V) (k j : List ℕ) (v : V)
      → get (insert m k v) j ≡ (if k == j then some v else get m j)
  unfolding get insert
  get-insert [] k j v = refl
  get-insert ((i, w) ∷ m) k j v = ground (
    arith,
    key_eq.same_iff k j,
    key_eq.same_iff i k,
    key_eq.same_iff i j,
    eq_of_text_compare k i,
    text_compare_refl k,
    get-insert m k j v,
  )

  All-insert :
      (a : List ℕ) (m : SortedMap V) (k : List ℕ) (v : V)
      → text_compare a k ≡ Ordering.lt
      → All (λ f. text_compare a f.0 ≡ Ordering.lt) m
      → All (λ f. text_compare a f.0 ≡ Ordering.lt) (insert m k v)
  unfolding insert
  All-insert a [] k v h s = (h, tt)
  All-insert a ((j, w) ∷ m) k v h s = ground (arith, All-insert a m k v h s.1)

  All-trans :
      (a b : List ℕ) (m : SortedMap V)
      → text_compare a b ≡ Ordering.lt
      → All (λ f. text_compare b f.0 ≡ Ordering.lt) m
      → All (λ f. text_compare a f.0 ≡ Ordering.lt) m
  All-trans a b [] h s = tt
  All-trans a b ((j, w) ∷ m) h s = (text_lt_trans a b j h s.0, All-trans a b m h s.1)

  pub insert-IsSorted :
      (m : SortedMap V) (k : List ℕ) (v : V) → IsSorted m → IsSorted (insert m k v)
  unfolding insert
  insert-IsSorted [] k v s = (tt, tt)
  insert-IsSorted ((j, w) ∷ m) k v s =
      ground (arith, All-trans k j m, lt_of_gt k j, All-insert j m k v, insert-IsSorted m k v s.1)

  -- Two insertions at different keys commute, so a map is the same list in either order.
  pub insert_comm :
      (m : SortedMap V) (k j : List ℕ) (v w : V)
      → k ≢ j
      → insert (insert m k v) j w ≡ insert (insert m j w) k v
  unfolding insert
  insert_comm [] k j v w ne = ground (
    arith,
    eq_of_text_compare j k,
    eq_of_text_compare k j,
    gt_of_lt j k,
    lt_of_gt j k,
    gt_of_lt k j,
    lt_of_gt k j,
  )
  insert_comm ((i, x) ∷ m) k j v w ne = ground (
    arith,
    eq_of_text_compare j k,
    eq_of_text_compare k j,
    eq_of_text_compare j i,
    eq_of_text_compare k i,
    gt_of_lt j k,
    lt_of_gt j k,
    gt_of_lt j i,
    lt_of_gt j i,
    gt_of_lt k i,
    lt_of_gt k i,
    text_lt_trans k i j,
    text_lt_trans j i k,
    text_compare_refl i,
    insert_comm m k j v w ne,
  )
