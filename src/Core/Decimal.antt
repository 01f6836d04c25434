-- ===== src/Core/Decimal.antt =====
-- `Literal::dec_from_str` and `to_canonical_string` on decimals, of
-- crates/factum-core/src/types.rs.
pub mod RoundTrip
use factum.Prelude.{
  ℕ, zero, suc, ◌-◌, ◌^◌, ◌%◌, Bool, true, false, ◌&&◌, not, Option, none, some, [], ◌∷◌, ◌++◌,
  Text, leb, eqb, if◌then◌else◌, length, ℤ, pos, negsuc, Result, ok, err, codes,
}
use factum.Prelude.Digits.{all_digits, value_from, to_string}
use factum.Prelude.Strings.{trim, split_once}
use factum.Core.Platform.{Platform}
use factum.Core.Types.{Literal, dec, CoreError, invalid_decimal}

abbrev pub i128_max : ℕ
i128_max = 2 ^ 127 - 1

-- the magnitude with the sign put on it
abbrev pub with_sign : Bool → ℕ → ℤ
with_sign true zero = pos zero
with_sign true (suc n) = negsuc n
with_sign false n = pos n

-- The sign and the rest: `strip_prefix('-')`, `strip_prefix('+')`.
unfoldable pub split_sign : Text → Bool × Text
split_sign [] = (false, [])
split_sign (c ∷ cs) =
    if eqb c b'-' then (true, cs) else if eqb c b'+' then (false, cs) else (false, c ∷ cs)

-- The parts before and after the point.
unfoldable pub split_point : Text → Text × Text
unfolding split_once
split_point s = elim (split_once b'.' s) [ none ↦ (s, []) | some r ↦ r ]

abbrev pub is_empty : Text → Bool
is_empty [] = true
is_empty (c ∷ cs) = false

-- `combined.parse::<i128>()` on a run of digits: none when it is empty or out of range. The
-- product with the sign cannot overflow, since the parsed number is not negative.
unfoldable pub parse_i128 : Text → Option ℕ
unfolding value_from
parse_i128 [] = none
parse_i128 (c ∷ cs) = let v = value_from 0 (c ∷ cs) in if leb v i128_max then some v else none

module _ {p : Platform} where
  -- What follows the sign and the split; `s` is the trimmed text, for the error. The scale is the
  -- number of digits after the point, as a u8.
  unfoldable pub dec_of_parts : Text → Bool → Text → Text → Result (CoreError p) (Literal p)
  unfolding all_digits parse_i128
  dec_of_parts s negative int_part frac_part =
      if is_empty int_part && is_empty frac_part
      then err (invalid_decimal s)
      else if not (all_digits int_part && all_digits frac_part)
      then err (invalid_decimal s)
      else elim (parse_i128 (int_part ++ frac_part)) [
        | none ↦ err (invalid_decimal s)
        | some m ↦ ok (dec (with_sign negative m) (length frac_part % 256))
      ]

  -- `Literal::dec_from_str`
  unfoldable pub dec_from_str : Text → Result (CoreError p) (Literal p)
  unfolding trim split_sign split_point dec_of_parts
  dec_from_str text =
      let s = trim text in
      let (negative, rest) = split_sign s in
      let (int_part, frac_part) = split_point rest in dec_of_parts s negative int_part frac_part

-- `"0".repeat(n)`
unfoldable pub zeros : ℕ → Text
zeros zero = []
zeros (suc n) = b'0' ∷ zeros n

-- `split_at(k)`
unfoldable pub split_at : ℕ → Text → Text × Text
split_at zero s = ([], s)
split_at (suc k) [] = ([], [])
split_at (suc k) (c ∷ cs) = let (a, b) = split_at k cs in (c ∷ a, b)

-- The digits of the magnitude with the point put in.
unfoldable pub point_digits : Text → ℕ → Text
unfolding zeros split_at
point_digits s scale =
    if eqb scale 0
    then s
    else if leb (length s) scale
    then codes "0." ++ (zeros (scale - length s) ++ s)
    else (let (int_part, frac_part) = split_at (length s - scale) s in
        int_part ++ (b'.' ∷ frac_part))

-- `to_canonical_string` of `Dec(mantissa, scale)`
unfoldable pub dec_to_string : ℤ → ℕ → Text
unfolding point_digits to_string
dec_to_string (pos m) scale = point_digits (to_string m) scale
dec_to_string (negsuc m) scale = b'-' ∷ point_digits (to_string (suc m)) scale
