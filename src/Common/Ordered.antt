-- ===== src/Common/Ordered.antt =====
-- The byte-wise order of Rust's `str` and `[u8; 32]`, the order of every `BTreeMap` here.
use Prim.Native.Nat.{compare, Ordering}
use Prim.Native.Nat.{ℕ}
use mathlib.Core.Path.{◌≡◌, refl}
use mathlib.Core.List.{List, [], ◌∷◌}
use native.Mathlib.Omega.{arith}
pub use Prim.Native.Nat.{Ordering}

unfoldable pub text_compare : List ℕ → List ℕ → Ordering
text_compare [] [] = Ordering.eq
text_compare [] (y ∷ ys) = Ordering.lt
text_compare (x ∷ xs) [] = Ordering.gt
text_compare (x ∷ xs) (y ∷ ys) = elim (compare x y) [
  | Ordering.lt ↦ Ordering.lt
  | Ordering.eq ↦ text_compare xs ys
  | Ordering.gt ↦ Ordering.gt
]

pub text_compare_refl : (xs : List ℕ) → text_compare xs xs ≡ Ordering.eq
unfolding text_compare
text_compare_refl [] = refl
text_compare_refl (x ∷ xs) = ground (arith, text_compare_refl xs)

pub eq_of_text_compare : (xs ys : List ℕ) → text_compare xs ys ≡ Ordering.eq → xs ≡ ys
unfolding text_compare
eq_of_text_compare [] [] h = refl
eq_of_text_compare [] (y ∷ ys) h = cc
eq_of_text_compare (x ∷ xs) [] h = cc
eq_of_text_compare (x ∷ xs) (y ∷ ys) h = ground (arith, eq_of_text_compare xs ys)

pub gt_of_lt :
    (xs ys : List ℕ) → text_compare xs ys ≡ Ordering.lt → text_compare ys xs ≡ Ordering.gt
unfolding text_compare
gt_of_lt [] [] h = cc
gt_of_lt [] (y ∷ ys) h = refl
gt_of_lt (x ∷ xs) [] h = cc
gt_of_lt (x ∷ xs) (y ∷ ys) h = ground (arith, gt_of_lt xs ys)

pub lt_of_gt :
    (xs ys : List ℕ) → text_compare xs ys ≡ Ordering.gt → text_compare ys xs ≡ Ordering.lt
unfolding text_compare
lt_of_gt [] [] h = cc
lt_of_gt [] (y ∷ ys) h = cc
lt_of_gt (x ∷ xs) [] h = refl
lt_of_gt (x ∷ xs) (y ∷ ys) h = ground (arith, lt_of_gt xs ys)

pub text_lt_trans :
    (xs ys zs : List ℕ)
    → text_compare xs ys ≡ Ordering.lt
    → text_compare ys zs ≡ Ordering.lt
    → text_compare xs zs ≡ Ordering.lt
unfolding text_compare
text_lt_trans [] [] zs h k = cc
text_lt_trans [] (y ∷ ys) [] h k = cc
text_lt_trans [] (y ∷ ys) (z ∷ zs) h k = refl
text_lt_trans (x ∷ xs) [] zs h k = cc
text_lt_trans (x ∷ xs) (y ∷ ys) [] h k = cc
text_lt_trans (x ∷ xs) (y ∷ ys) (z ∷ zs) h k = ground (arith, text_lt_trans xs ys zs)
