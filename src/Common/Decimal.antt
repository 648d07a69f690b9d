-- ===== src/Common/Decimal.antt =====
-- Rust's decimal form of a `u64`: `Display`, and `FromStr`, which lets one `+` pass.
use Prim.Native.Nat.{ℕ, zero, suc, ◌+◌, ◌-◌, ◌*◌, ◌/◌, ◌%◌, ◌^◌, ◌<◌}
use git_agentic.Common.Tests.{◌==◌, if◌then◌else◌, ltb, nat_eq, list_eq, Bool-cases, Option-cases}
use git_agentic.Common.Lists.{All, All-append}
use git_agentic.Common.Text.{Text, is_digit}
use mathlib.Core.Bool.{true, false, ◌&&◌}
use mathlib.Core.List.{[], ◌∷◌, ◌++◌}
use mathlib.Core.Option.{Option, none, some}
use mathlib.Core.Path.{◌≡◌, refl, ap, ◌∙◌}
use mathlib.Core.Logic.{◌≢◌, inl, inr}
use native.Mathlib.Omega.{arith}
use native.Mathlib.Nat.{pow-suc}

abbrev pub u64_bound : ℕ
u64_bound = 0x10000000000000000

unfoldable pub digits_of : ℕ → ℕ → Text
digits_of ℕ.zero n = []
digits_of (ℕ.suc fuel) n =
    let front = digits_of fuel (n / 10) in
    if ltb n 10 then (48 + n) ∷ [] else front ++ ((48 + n % 10) ∷ [])

-- `n.to_string()`: a u64 has 20 digits at most.
unfoldable pub to_decimal : ℕ → Text
unfolding digits_of
to_decimal n = digits_of 20 n

-- One digit more, within a u64
unfoldable pub push_digit : ℕ → ℕ → Option ℕ
push_digit v c =
    if is_digit c && ltb (v * 10 + (c - 48)) u64_bound then some (v * 10 + (c - 48)) else none

unfoldable pub parse_digits : ℕ → Text → Option ℕ
unfolding push_digit
parse_digits v [] = some v
parse_digits v (c ∷ s) = elim (push_digit v c) [ none ↦ none | some w ↦ parse_digits w s ]

-- `s.parse::<u64>()`
unfoldable pub parse_u64 : Text → Option ℕ
unfolding parse_digits
parse_u64 [] = none
parse_u64 (c ∷ s) =
    if c == b'+' then (if s == [] then none else parse_digits 0 s) else parse_digits 0 (c ∷ s)

abbrev next : Option ℕ → ℕ → Option ℕ
next none c = none
next (some v) c = push_digit v c

parse_digits-append :
    (v : ℕ) (s : Text) (c : ℕ) → parse_digits v (s ++ (c ∷ [])) ≡ next (parse_digits v s) c
unfolding parse_digits
parse_digits-append v [] c = ground arith
parse_digits-append v (d ∷ s) c = elim (Option-cases (push_digit v d)) [
  | inl e ↦ rw (e, parse_digits) refl
  | inr (w, e) ↦ rw (e, parse_digits) (parse_digits-append w s c)
]

push_digit_lem : (n : ℕ) → n < u64_bound → push_digit (n / 10) (48 + n % 10) ≡ some n
unfolding push_digit
push_digit_lem n h = ground arith

parse_digits-digits_of :
    (fuel n : ℕ)
    → n < 10 ^ fuel
    → 0 < fuel
    → n < u64_bound
    → parse_digits 0 (digits_of fuel n) ≡ some n
unfolding digits_of
parse_digits-digits_of zero n h pos small = absurd (omega arith)
parse_digits-digits_of (suc fuel) n h pos small = elim (Bool-cases (ltb n 10)) [
  | inl e ↦ rw e (unfold parse_digits push_digit in ground arith)
  | inr e ↦ rw e (
      parse_digits-append 0 (digits_of fuel (n / 10)) (48 + n % 10)
      ∙ ap (λ o. next o (48 + n % 10))
          (parse_digits-digits_of fuel (n / 10) (fewer fuel h) (some_left fuel h e) (omega arith))
      ∙ push_digit_lem n small)
]
  where
    fewer : (fuel : ℕ) → n < 10 ^ suc fuel → n / 10 < 10 ^ fuel
    fewer fuel h = omega (arith, pow-suc 10 fuel)

    some_left : (fuel : ℕ) → n < 10 ^ suc fuel → ltb n 10 ≡ false → 0 < fuel
    some_left zero h e = absurd (ground arith)
    some_left (suc fuel) h e = omega arith

digits_of_digits : (fuel n : ℕ) → All (λ c. is_digit c ≡ true) (digits_of fuel n)
unfolding digits_of
digits_of_digits zero n = tt
digits_of_digits (suc fuel) n = elim (Bool-cases (ltb n 10)) [
  | inl e ↦ rw e (ground arith, tt)
  | inr e ↦ rw e (All-append _ _ _ (digits_of_digits fuel (n / 10)) (ground arith, tt))
]

parse_u64-digits :
    (c : ℕ) (s : Text) → is_digit c ≡ true → parse_u64 (c ∷ s) ≡ parse_digits 0 (c ∷ s)
unfolding parse_u64
parse_u64-digits c s h = ground arith

snoc_filled : (s : Text) (c : ℕ) → s ++ (c ∷ []) ≢ []
snoc_filled [] c e = cc
snoc_filled (d ∷ s) c e = cc

filled : (fuel n : ℕ) → 0 < fuel → digits_of fuel n ≢ []
unfolding digits_of
filled zero n pos e = omega arith
filled (suc fuel) n pos e = elim (Bool-cases (ltb n 10)) [
  | inl t ↦ cc (rw t at e)
  | inr t ↦ snoc_filled _ _ (rw t at e)
]

parse_u64-digits_of :
    (fuel n : ℕ) → n < 10 ^ fuel → 0 < fuel → n < u64_bound → parse_u64 (digits_of fuel n) ≡ some n
parse_u64-digits_of fuel n h pos small =
    go (digits_of fuel n) (filled fuel n pos) (digits_of_digits fuel n)
      (parse_digits-digits_of fuel n h pos small)
  where
    go :
        (s : Text)
        → s ≢ []
        → All (λ c. is_digit c ≡ true) s
        → parse_digits 0 s ≡ some n
        → parse_u64 s ≡ some n
    go [] ne v e = absurd (ne refl)
    go (c ∷ s) ne v e = parse_u64-digits c s v.0 ∙ e

-- A u64 reads back from its decimal form.
pub parse_u64-to_decimal : (n : ℕ) → n < u64_bound → parse_u64 (to_decimal n) ≡ some n
unfolding to_decimal
parse_u64-to_decimal n h = parse_u64-digits_of 20 n (omega arith) (omega arith) h

pub to_decimal_digits : (n : ℕ) → All (λ c. is_digit c ≡ true) (to_decimal n)
unfolding to_decimal
to_decimal_digits n = digits_of_digits 20 n
