-- ===== src/Core/Parser/Durations.antt =====
-- `parse_duration` of crates/factum-core/src/parser.rs reads the nanoseconds of a canonical
-- duration.
use factum.Prelude.{
  ℕ, ◌^◌, ◌≤◌, ◌<◌, false, ◌≡◌, refl, ap, ◌∙◌, some, [], ◌∷◌, ◌++◌, Text, codes, text_eq, eqb,
  lt→ltb, length, All, All-append, arith,
}
use factum.Prelude.Digits.{value_from, to_string, value_from-to_string, to_string_pos}
use factum.Prelude.Strings.Trim.{IsGraphic, trim-IsGraphic}
use factum.Core.Decimal.RoundTrip.{IsDigit, All-digits, to_string-All, digits-IsGraphic}
use factum.Core.Parser.Terms.{parse_unsigned, strip_ns, parse_duration, duration_in}

strip_ns-digits : (s : Text) → All IsDigit s → strip_ns (s ++ codes "ns") ≡ some s
unfolding strip_ns text_eq
strip_ns-digits [] h = refl
strip_ns-digits (c ∷ cs) h = ground (arith, strip_ns-digits cs h.1)

parse_unsigned-digits :
    (bound : ℕ) (s : Text)
    → 1 ≤ length s
    → All IsDigit s
    → value_from 0 s < bound
    → parse_unsigned bound s ≡ some (value_from 0 s)
unfolding parse_unsigned
parse_unsigned-digits bound [] l h v = absurd (omega arith)
parse_unsigned-digits bound (c ∷ cs) l h v =
    let no_plus : eqb c b'+' ≡ false = ground arith in
    rw (no_plus, parse_unsigned)
      (rw (All-digits (c ∷ cs) h) (rw (lt→ltb (value_from 0 (c ∷ cs)) bound v) refl))

duration_in-ns :
    (s : Text) → All IsDigit s → duration_in (s ++ codes "ns") ≡ parse_unsigned (2 ^ 64) s
unfolding duration_in
duration_in-ns s h = rw (strip_ns-digits s h, duration_in) refl

pub parse_duration-to_string :
    (n : ℕ) → n < 2 ^ 64 → parse_duration (to_string n ++ codes "ns") ≡ some n
unfolding parse_duration
parse_duration-to_string n h =
    let digits = to_string n in
    let graphic =
      All-append IsGraphic digits (codes "ns") (digits-IsGraphic digits (to_string-All n))
        ((omega arith, omega arith), ((omega arith, omega arith), tt)) in
    ap duration_in (trim-IsGraphic (digits ++ codes "ns") graphic)
    ∙ (duration_in-ns digits (to_string-All n)
        ∙ (parse_unsigned-digits (2 ^ 64) digits (to_string_pos n) (to_string-All n)
              (omega (arith, value_from-to_string n))
            ∙ ap some (value_from-to_string n)))
