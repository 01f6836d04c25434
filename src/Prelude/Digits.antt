-- ===== src/Prelude/Digits.antt =====
-- Decimal numerals: `to_string` and `parse` of the standard library's unsigned integers.
use Prim.Native.Nat.{ℕ, zero, suc, ◌+◌, ◌-◌, ◌*◌, ◌/◌, ◌%◌, ◌<◌, ◌≤◌}
use mathlib.Core.Path.{◌≡◌, refl, ◌∙◌}
use mathlib.Core.Logic.{inl, inr}
use mathlib.Core.Bool.{Bool, true, ◌&&◌}
use mathlib.Core.List.{[], ◌∷◌, ◌++◌}
use native.Mathlib.Omega.{arith}
use factum.Prelude.Tests.{ltb, leb, if◌then◌else◌, Bool-cases}
use factum.Prelude.Bytes.{Text}
use factum.Prelude.Lists.{length, length-append}

-- The digits of `n`, most significant first. `to_string` gives fuel enough: `show_fuel-enough`.
pub show_fuel : ℕ → ℕ → Text
show_fuel zero n = []
show_fuel (suc f) n =
    let front = show_fuel f (n / 10) in
    if ltb n 10 then (48 + n) ∷ [] else front ++ ((48 + n % 10) ∷ [])

unfoldable pub to_string : ℕ → Text
unfolding show_fuel
to_string n = show_fuel (suc n) n

-- `is_ascii_digit`
unfoldable pub is_digit : ℕ → Bool
is_digit c = leb 48 c && leb c 57

unfoldable pub all_digits : Text → Bool
unfolding is_digit
all_digits [] = true
all_digits (c ∷ cs) = is_digit c && all_digits cs

-- The value of a run of digits, with what stands before it.
unfoldable pub value_from : ℕ → Text → ℕ
value_from acc [] = acc
value_from acc (c ∷ cs) = value_from (acc * 10 + (c - 48)) cs

pub value_from-append :
    (acc : ℕ) (xs ys : Text) → value_from acc (xs ++ ys) ≡ value_from (value_from acc xs) ys
unfolding value_from
value_from-append acc [] ys = refl
value_from-append acc (x ∷ xs) ys = value_from-append (acc * 10 + (x - 48)) xs ys

pub all_digits-append : (xs ys : Text) → all_digits (xs ++ ys) ≡ (all_digits xs && all_digits ys)
unfolding all_digits
all_digits-append [] ys = refl
all_digits-append (x ∷ xs) ys = ground (arith, all_digits-append xs ys)

-- With enough fuel the digits read back.
value_from-show_fuel : (f n : ℕ) → n < f → value_from 0 (show_fuel f n) ≡ n
unfolding show_fuel
value_from-show_fuel zero n h = elim h [ ]
value_from-show_fuel (suc f) n h = elim (Bool-cases (ltb n 10)) [
  | inl small ↦ rw small (unfold value_from in omega arith)
  | inr big ↦ rw big (
      value_from-append 0 (show_fuel f (n / 10)) ((48 + n % 10) ∷ [])
      ∙ (rw (value_from-show_fuel f (n / 10) (ground arith)) (unfold value_from in omega arith)))
]

all_digits-show_fuel : (f n : ℕ) → all_digits (show_fuel f n) ≡ true
unfolding show_fuel all_digits
all_digits-show_fuel zero n = refl
all_digits-show_fuel (suc f) n = ground (
  arith,
  all_digits-append (show_fuel f (n / 10)) ((48 + n % 10) ∷ []),
  all_digits-show_fuel f (n / 10),
)

-- Printing and then reading a number gives it back.
pub value_from-to_string : (n : ℕ) → value_from 0 (to_string n) ≡ n
unfolding to_string
value_from-to_string n = value_from-show_fuel (suc n) n (omega arith)

pub all_digits-to_string : (n : ℕ) → all_digits (to_string n) ≡ true
unfolding to_string
all_digits-to_string n = all_digits-show_fuel (suc n) n

pub to_string_pos : (n : ℕ) → 1 ≤ length (to_string n)
unfolding to_string show_fuel
to_string_pos n = elim (Bool-cases (ltb n 10)) [
  | inl small ↦ rw small (omega arith)
  | inr big ↦ rw big (omega (arith, length-append (show_fuel n (n / 10)) ((48 + n % 10) ∷ [])))
]

to_string_runs : to_string 230 ≡ b'2' ∷ b'3' ∷ b'0' ∷ []
unfolding to_string
to_string_runs = refl
