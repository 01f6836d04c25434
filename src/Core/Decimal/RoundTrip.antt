-- ===== src/Core/Decimal/RoundTrip.antt =====
-- `dec_from_str` reads what `to_canonical_string` prints (crates/factum-core/src/types.rs).
use mathlib.Core.List.{append-nil}
use factum.Prelude.{
  ℕ, zero, suc, ◌-◌, ◌≤◌, ◌<◌, Bool, Bool-cases, true, false, ◌≡◌, refl, ap, ◌∙◌, inl, inr, none,
  some, [], ◌∷◌, ◌++◌, Text, leb, if◌then◌else◌, length, length-append, ℤ, pos, negsuc, ok, All,
  All-append, le→leb, arith,
}
use factum.Prelude.Digits.{
  all_digits, value_from, to_string, value_from-to_string, all_digits-to_string, to_string_pos,
}
use factum.Prelude.Strings.{split_once, trim}
use factum.Prelude.Strings.Trim.{IsGraphic, trim-IsGraphic}
use factum.Core.Platform.{Platform}
use factum.Core.Types.{dec}
use factum.Core.Decimal.{
  i128_max, with_sign, split_sign, split_point, parse_i128, dec_of_parts, dec_from_str, zeros,
  split_at, point_digits, dec_to_string,
}

abbrev pub IsDigit : ℕ → Type 0
IsDigit c = (48 ≤ c) × (c ≤ 57)

pub digits-All : (s : Text) → all_digits s ≡ true → All IsDigit s
unfolding all_digits
digits-All [] h = tt
digits-All (c ∷ cs) h = (ground arith, digits-All cs (ground arith))

pub All-digits : (s : Text) → All IsDigit s → all_digits s ≡ true
unfolding all_digits
All-digits [] h = refl
All-digits (c ∷ cs) h = ground (arith, All-digits cs h.1)

pub digits-IsGraphic : (s : Text) → All IsDigit s → All IsGraphic s
digits-IsGraphic [] h = tt
digits-IsGraphic (c ∷ cs) h = ((omega arith, omega arith), digits-IsGraphic cs h.1)

pub to_string-All : (n : ℕ) → All IsDigit (to_string n)
to_string-All n = digits-All (to_string n) (all_digits-to_string n)

-- The digits with the point between them, if there is a scale.
abbrev pub joined : ℕ → Text → Text → Text
joined zero int frac = int
joined (suc n) int frac = int ++ (b'.' ∷ frac)

pub record Splits (s : Text) (scale : ℕ) (int frac : Text) : Type 0 where
  pub shape : point_digits s scale ≡ joined scale int frac
  pub starts : 1 ≤ length int
  pub int_digits : All IsDigit int
  pub frac_digits : All IsDigit frac
  pub value : value_from 0 (int ++ frac) ≡ value_from 0 s
  pub scaled : length frac ≡ scale

value_from-zeros : (d : ℕ) (s : Text) → value_from 0 (zeros d ++ s) ≡ value_from 0 s
unfolding value_from zeros
value_from-zeros zero s = refl
value_from-zeros (suc d) s = value_from-zeros d s

length-zeros : (d : ℕ) → length (zeros d) ≡ d
unfolding zeros
length-zeros zero = refl
length-zeros (suc d) = omega (arith, length-zeros d)

zeros-All : (d : ℕ) → All IsDigit (zeros d)
unfolding zeros
zeros-All zero = tt
zeros-All (suc d) = ((omega arith, omega arith), zeros-All d)

split_at-append : (k : ℕ) (s : Text) → (split_at k s).0 ++ (split_at k s).1 ≡ s
unfolding split_at
split_at-append zero s = refl
split_at-append (suc k) [] = refl
split_at-append (suc k) (c ∷ cs) = ap (λ (r : Text). c ∷ r) (split_at-append k cs)

length-split_at : (k : ℕ) (s : Text) → k ≤ length s → length (split_at k s).0 ≡ k
unfolding split_at
length-split_at zero s h = refl
length-split_at (suc k) [] h = absurd (omega arith)
length-split_at (suc k) (c ∷ cs) h = omega (arith, length-split_at k cs (omega arith))

split_at-All :
    (k : ℕ) (s : Text) → All IsDigit s → All IsDigit (split_at k s).0 × All IsDigit (split_at k s).1
unfolding split_at
split_at-All zero s h = (tt, h)
split_at-All (suc k) [] h = (tt, tt)
split_at-All (suc k) (c ∷ cs) h = let (a, b) = split_at-All k cs h.1 in ((h.0, a), b)

pub point_digits-Splits :
    (s : Text) (scale : ℕ)
    → 1 ≤ length s
    → All IsDigit s
    → (int : Text) × (frac : Text) × Splits s scale int frac
unfolding point_digits
point_digits-Splits s zero h d = (
  s,
  [],
  record {
    shape = refl;
    starts = h;
    int_digits = d;
    frac_digits = tt;
    value = ap (value_from 0) (append-nil s);
    scaled = refl;
  },
)
point_digits-Splits s (suc k) h d = elim (Bool-cases (leb (length s) (suc k))) [
  | inl small ↦ (
    b'0' ∷ [],
    zeros (suc k - length s) ++ s,
    record {
      shape = ground arith;
      starts = omega arith;
      int_digits = ((omega arith, omega arith), tt);
      frac_digits =
          All-append IsDigit (zeros (suc k - length s)) s (zeros-All (suc k - length s)) d;
      value = value_from-zeros (suc (suc k - length s)) s;
      scaled =
          ground
            (arith, length-append (zeros (suc k - length s)) s, length-zeros (suc k - length s));
    },
  )
  | inr large ↦
      let cut = length s - suc k in
      (
        (split_at cut s).0,
        (split_at cut s).1,
        record {
          shape = ground arith;
          starts = ground (arith, length-split_at cut s);
          int_digits = (split_at-All cut s d).0;
          frac_digits = (split_at-All cut s d).1;
          value = ap (value_from 0) (split_at-append cut s);
          scaled = ground (
            arith,
            length-split_at cut s,
            length-append (split_at cut s).0 (split_at cut s).1,
            ap length (split_at-append cut s),
          );
        },
      )
]

split_once-none : (s : Text) → All IsDigit s → split_once b'.' s ≡ none
unfolding split_once
split_once-none [] h = refl
split_once-none (c ∷ cs) h = ground (arith, split_once-none cs h.1)

split_once-point : (s r : Text) → All IsDigit s → split_once b'.' (s ++ (b'.' ∷ r)) ≡ some (s, r)
unfolding split_once
split_once-point [] r h = refl
split_once-point (c ∷ cs) r h = ground (arith, split_once-point cs r h.1)

split_point-joined :
    (scale : ℕ) (int frac : Text)
    → All IsDigit int
    → length frac ≡ scale
    → split_point (joined scale int frac) ≡ (int, frac)
unfolding split_point
split_point-joined zero int [] h e = rw (split_once-none int h, split_point) refl
split_point-joined zero int (c ∷ cs) h e = absurd (omega arith)
split_point-joined (suc n) int frac h e = rw (split_once-point int frac h, split_point) refl

joined-IsGraphic :
    (scale : ℕ) (int frac : Text)
    → All IsDigit int
    → All IsDigit frac
    → All IsGraphic (joined scale int frac)
joined-IsGraphic zero int frac h k = digits-IsGraphic int h
joined-IsGraphic (suc n) int frac h k =
    All-append IsGraphic int (b'.' ∷ frac) (digits-IsGraphic int h)
      ((omega arith, omega arith), digits-IsGraphic frac k)

split_sign-joined :
    (scale : ℕ) (int frac : Text)
    → 1 ≤ length int
    → All IsDigit int
    → split_sign (joined scale int frac) ≡ (false, joined scale int frac)
unfolding split_sign
split_sign-joined scale [] frac s h = absurd (omega arith)
split_sign-joined zero (c ∷ cs) frac s h = ground arith
split_sign-joined (suc n) (c ∷ cs) frac s h = ground arith

parse_i128-reads :
    (s : Text) → 1 ≤ length s → value_from 0 s ≤ i128_max → parse_i128 s ≡ some (value_from 0 s)
unfolding parse_i128
parse_i128-reads [] h v = absurd (omega arith)
parse_i128-reads (c ∷ cs) h v = rw (le→leb (value_from 0 (c ∷ cs)) i128_max v, parse_i128) refl

signed-IsGraphic :
    (negative : Bool) (scale : ℕ) (int frac t : Text)
    → t ≡ (if negative then b'-' ∷ joined scale int frac else joined scale int frac)
    → All IsDigit int
    → All IsDigit frac
    → All IsGraphic t
signed-IsGraphic true scale int frac t e h k =
    rw e ((omega arith, omega arith), joined-IsGraphic scale int frac h k)
signed-IsGraphic false scale int frac t e h k = rw e (joined-IsGraphic scale int frac h k)

split_sign-signed :
    (negative : Bool) (scale : ℕ) (int frac t : Text)
    → t ≡ (if negative then b'-' ∷ joined scale int frac else joined scale int frac)
    → 1 ≤ length int
    → All IsDigit int
    → split_sign t ≡ (negative, joined scale int frac)
unfolding split_sign
split_sign-signed true scale int frac t e s h = rw e refl
split_sign-signed false scale int frac t e s h = rw e (split_sign-joined scale int frac s h)

module _ {p : Platform} where
  dec_of_parts-reads :
      (text : Text) (negative : Bool) (int frac : Text) (m : ℕ)
      → 1 ≤ length int
      → All IsDigit int
      → All IsDigit frac
      → value_from 0 (int ++ frac) ≡ m
      → m ≤ i128_max
      → length frac < 256
      → dec_of_parts {p = p} text negative int frac ≡ ok (dec (with_sign negative m) (length frac))
  unfolding dec_of_parts
  dec_of_parts-reads text negative [] frac m h d d' v b l = absurd (omega arith)
  dec_of_parts-reads text negative (c ∷ cs) frac m h d d' v b l =
      rw (All-digits (c ∷ cs) d, dec_of_parts)
        (rw (All-digits frac d') (
          rw (parse_i128-reads (c ∷ cs ++ frac) (omega arith) (rw v b))
            (rw v (ap (λ (n : ℕ). ok (dec (with_sign negative m) n)) (omega arith)))))

  dec_from_str-parts :
      (t : Text) (negative : Bool) (rest int frac : Text)
      → trim t ≡ t
      → split_sign t ≡ (negative, rest)
      → split_point rest ≡ (int, frac)
      → dec_from_str {p = p} t ≡ dec_of_parts t negative int frac
  unfolding dec_from_str
  dec_from_str-parts t negative rest int frac h1 h2 h3 =
      ap
        (λ (u : Text).
          dec_of_parts u (split_sign u).0 (split_point (split_sign u).1).0
            (split_point (split_sign u).1).1)
        h1
      ∙ (ap (λ (r : Bool × Text). dec_of_parts t r.0 (split_point r.1).0 (split_point r.1).1) h2
          ∙ ap (λ (q : Text × Text). dec_of_parts t negative q.0 q.1) h3)

  -- the digits of a magnitude, with or without the sign
  signed-reads :
      (negative : Bool) (m s : ℕ) (t : Text)
      → m ≤ i128_max
      → s < 256
      → t ≡ (if negative then b'-' ∷ point_digits (to_string m) s else point_digits (to_string m) s)
      → dec_from_str {p = p} t ≡ ok (dec (with_sign negative m) s)
  signed-reads negative m s t b l e =
      let (int, frac, v) =
        point_digits-Splits (to_string m) s (to_string_pos m) (to_string-All m) in
      let shown : t ≡ (if negative then b'-' ∷ joined s int frac else joined s int frac) =
        e ∙ ap (λ (d : Text). if negative then b'-' ∷ d else d) v.shape in
      dec_from_str-parts t negative (joined s int frac) int frac
        (trim-IsGraphic t (signed-IsGraphic negative s int frac t shown v.int_digits v.frac_digits))
        (split_sign-signed negative s int frac t shown v.starts v.int_digits)
        (split_point-joined s int frac v.int_digits v.scaled)
      ∙ (dec_of_parts-reads t negative int frac m v.starts v.int_digits v.frac_digits
            (v.value ∙ value_from-to_string m) b (omega (arith, v.scaled))
          ∙ ap (λ (n : ℕ). ok (dec (with_sign negative m) n)) v.scaled)

abbrev pub magnitude : ℤ → ℕ
magnitude (pos n) = n
magnitude (negsuc n) = suc n

-- A decimal whose mantissa has at most the magnitude 2^127 - 1 and whose scale is a byte is read
-- back from its canonical text, with its scale.
pub dec_from_str-dec_to_string :
    (p : Platform) (m : ℤ) (s : ℕ)
    → magnitude m ≤ i128_max
    → s < 256
    → dec_from_str {p = p} (dec_to_string m s) ≡ ok (dec m s)
unfolding dec_to_string
dec_from_str-dec_to_string p (pos m) s h l =
    signed-reads false m s (dec_to_string (pos m) s) h l refl
dec_from_str-dec_to_string p (negsuc m) s h l =
    signed-reads true (suc m) s (dec_to_string (negsuc m) s) h l refl
