-- ===== src/Core/Lexer/Numbers.antt =====
-- Numbers and symbols: what crates/factum-core/src/lexer.rs makes of text that opens with neither
-- mark.
use mathlib.Core.List.{append_assoc}
use factum.Prelude.{
  ℕ, zero, suc, Bool, Bool-cases, true, false, ◌&&◌, ◌||◌, ◌≡◌, refl, sym, ap, subst, ◌∙◌, inl, inr,
  [], ◌∷◌, ◌++◌, Text, eqb, if◌then◌else◌, if_intro, eqb_iff, ok, All, arith,
}
use factum.Prelude.Digits.{is_digit}
use factum.Core.Decimal.RoundTrip.{IsDigit, joined}
use factum.Core.Lexer.Scan.{
  Place, Cursor, scan_name, scan_digits, next_col, is_digit_at, is_symbol_byte, as_char,
  unexpected_character,
}
use factum.Core.Lexer.{
  Step, symbol, number, named, next_token, lex_fraction, lex_number, finish_number,
}
use factum.Core.Lexer.Reads.{Scans, Passes, NoDigit, is_digit-true, scan_digits-reads}
use factum.Core.Lexer.Yields.{Gives, IsDelimited, IsDelimited-NoDigit, delimited, word-Gives}

-- A number ends where the text does not go on with a point.
NoPoint : Text → Type 0
NoPoint [] = Unit
NoPoint (r ∷ rs) = eqb r b'.' ≡ false

IsDelimited-NoPoint : (rest : Text) → IsDelimited rest → NoPoint rest
unfolding NoPoint
IsDelimited-NoPoint [] d = tt
IsDelimited-NoPoint (r ∷ rs) d = delimited (λ x. eqb x b'.' ≡ false) r rs refl refl refl d

finish_number-Gives :
    (start : Place) (buf s rest : Text) (c : Cursor)
    → buf ≡ s
    → c.rest ≡ rest
    → NoPoint rest
    → Gives (number s) rest (finish_number start buf c)
unfolding NoPoint
finish_number-Gives start buf s [] c b e n = rw (e, Gives) (ap number b, refl)
finish_number-Gives start buf s (r ∷ rs) c b e n = rw (e, Gives) (rw n (ap number b, refl))

-- behind the digits before the point
fraction-Gives :
    (start : Place) (s rest : Text) (r : Text × Cursor)
    → Scans s rest (ok r)
    → NoPoint rest
    → Gives (number s) rest (lex_fraction start r)
unfolding lex_fraction NoPoint
fraction-Gives start s [] (buf, c) h n =
    rw (h.1, lex_fraction) (finish_number-Gives start buf s [] c h.0 h.1 n)
fraction-Gives start s (x ∷ xs) (buf, c) h n =
    rw (h.1, lex_fraction) (rw n (finish_number-Gives start buf s (x ∷ xs) c h.0 h.1 n))

-- and at the point
point-Gives :
    (start : Place) (s frac rest : Text) (r : Text × Cursor)
    → Scans s (b'.' ∷ (frac ++ rest)) (ok r)
    → All IsDigit frac
    → IsDelimited rest
    → Gives (number (s ++ (b'.' ∷ frac))) rest (lex_fraction start r)
unfolding lex_fraction
point-Gives start s frac rest (buf, c) h f d =
    let more = scan_digits (frac ++ rest) (next_col c.place) (buf ++ (b'.' ∷ [])) in
    let scanned =
      scan_digits-reads frac rest (next_col c.place) (buf ++ (b'.' ∷ [])) f
        (IsDelimited-NoDigit rest d) in
    rw (h.1, lex_fraction)
      (finish_number-Gives start more.0 (s ++ (b'.' ∷ frac)) rest more.1
        (scanned.0
          ∙ (append_assoc buf (b'.' ∷ []) frac ∙ ap (λ (t : Text). t ++ (b'.' ∷ frac)) h.0))
        scanned.1 (IsDelimited-NoPoint rest d))

point-NoDigit : (r : Text) → NoDigit (b'.' ∷ r)
unfolding is_digit
point-NoDigit r = refl

digits-Gives :
    (start : Place) (scale : ℕ) (int frac rest : Text) (pl : Place) (buf : Text)
    → All IsDigit int
    → All IsDigit frac
    → IsDelimited rest
    → Gives
        (number (buf ++ joined scale int frac))
        rest
        (lex_fraction start (scan_digits (joined scale int frac ++ rest) pl buf))
digits-Gives start zero int frac rest pl buf h k d =
    fraction-Gives start (buf ++ int) rest (scan_digits (int ++ rest) pl buf)
      (scan_digits-reads int rest pl buf h (IsDelimited-NoDigit rest d))
      (IsDelimited-NoPoint rest d)
digits-Gives start (suc n) int frac rest pl buf h k d = rw (append_assoc int (b'.' ∷ frac) rest) (
    rw (sym (append_assoc buf int (b'.' ∷ frac))) (
      point-Gives start (buf ++ int) frac rest (scan_digits (int ++ (b'.' ∷ (frac ++ rest))) pl buf)
        (scan_digits-reads int (b'.' ∷ (frac ++ rest)) pl buf h (point-NoDigit (frac ++ rest))) k
        d))

-- A byte of a symbol is none of the marks.
mark-ne : (d x : ℕ) → is_symbol_byte d ≡ false → is_symbol_byte x ≡ true → eqb x d ≡ false
mark-ne d x h k = elim (Bool-cases (eqb x d)) [
  | inr e ↦ e
  | inl e ↦ absurd (cc (h, k, ap is_symbol_byte ((eqb_iff x d).0 e)))
]

-- Behind the tests for the marks stands the choice between a number and a symbol.
unmarked :
    (P : Step → Type 0) (x : ℕ) (xs : Text) (pl : Place)
    → is_symbol_byte x ≡ true
    → P (
        if is_digit x || (eqb x b'-' && is_digit_at 0 xs)
        then lex_number (x ∷ xs) pl
        else named symbol
            (unexpected_character (as_char x))
            pl
            (scan_name is_symbol_byte 0 (x ∷ xs) pl []))
    → P (next_token x xs pl)
unfolding next_token
unmarked P x xs pl s h =
    rw (mark-ne b'(' x refl s, next_token)
      (rw (mark-ne b')' x refl s) (
        rw (mark-ne b'[' x refl s) (
          rw (mark-ne b']' x refl s) (
            rw (mark-ne 34 x refl s) (
              rw (mark-ne b'?' x refl s) (
                rw (mark-ne b':' x refl s) (
                  rw (mark-ne b'<' x refl s)
                    (rw (mark-ne b'@' x refl s) (rw (mark-ne b'#' x refl s) h)))))))))

-- A head: bytes of a symbol, and no digit or minus sign in front.
abbrev pub IsHead : Text → Type 0
IsHead [] = ⊥
IsHead (x ∷ xs) = Passes is_symbol_byte (x ∷ xs) × (is_digit x ≡ false) × (eqb x b'-' ≡ false)

pub symbol-Gives :
    (x : ℕ) (xs rest : Text) (pl : Place)
    → IsHead (x ∷ xs)
    → IsDelimited rest
    → Gives (symbol (x ∷ xs)) rest (next_token x (xs ++ rest) pl)
symbol-Gives x xs rest pl h d = unmarked (Gives (symbol (x ∷ xs)) rest) x (xs ++ rest) pl h.0.0.1 (
    rw h.1 (
      rw h.2 (
        word-Gives symbol (unexpected_character (as_char x)) is_symbol_byte pl (x ∷ xs) rest pl refl
          refl refl (omega arith, h.0) d)))

pub digit-symbol : (x : ℕ) → IsDigit x → is_symbol_byte x ≡ true
digit-symbol x h = ground arith

digit-ne-minus : (x : ℕ) → IsDigit x → eqb x b'-' ≡ false
digit-ne-minus x h = ground arith

pub joined-cons :
    (scale x : ℕ) (int frac : Text) → joined scale (x ∷ int) frac ≡ x ∷ joined scale int frac
joined-cons zero x int frac = refl
joined-cons (suc n) x int frac = refl

-- the choice at a digit
digit-Gives :
    (x : ℕ) (t s rest : Text) (pl : Place)
    → IsDigit x
    → Gives (number s) rest (lex_fraction pl (scan_digits (x ∷ t) pl []))
    → Gives (number s) rest (next_token x t pl)
unfolding lex_number
digit-Gives x t s rest pl h g =
    let P : Step → Type 0 = Gives (number s) rest in
    unmarked P x t pl (digit-symbol x h) (
      if_intro P (is_digit x || (eqb x b'-' && is_digit_at 0 t))
        (λ _. if_intro P (eqb x b'-') (λ e. absurd (cc (e, digit-ne-minus x h))) (λ _. g))
        (λ e.
          absurd
            (cc (e, ap (λ (b : Bool). b || (eqb x b'-' && is_digit_at 0 t)) (is_digit-true x h)))))

-- the choice at a minus sign
minus-Gives :
    (x : ℕ) (t s rest : Text) (pl : Place)
    → IsDigit x
    → Gives (number s) rest (lex_fraction pl (scan_digits (x ∷ t) (next_col pl) (b'-' ∷ [])))
    → Gives (number s) rest (next_token b'-' (x ∷ t) pl)
unfolding lex_number is_digit
minus-Gives x t s rest pl h g =
    let P : Step → Type 0 = Gives (number s) rest in
    unmarked P b'-' (x ∷ t) pl refl (
      if_intro P (is_digit b'-' || (eqb b'-' b'-' && is_digit_at 0 (x ∷ t))) (λ _. g)
        (λ e. absurd (ground arith)))

-- A number in the canonical form, without or with its sign.
pub unsigned-Gives :
    (scale x : ℕ) (int frac rest : Text) (pl : Place)
    → All IsDigit (x ∷ int)
    → All IsDigit frac
    → IsDelimited rest
    → Gives
        (number (x ∷ joined scale int frac))
        rest
        (next_token x (joined scale int frac ++ rest) pl)
unsigned-Gives scale x int frac rest pl h k d =
    digit-Gives x (joined scale int frac ++ rest) (x ∷ joined scale int frac) rest pl h.0 (
      subst (λ (t : Text). Gives (number t) rest (lex_fraction pl (scan_digits (t ++ rest) pl [])))
        (joined-cons scale x int frac) (digits-Gives pl scale (x ∷ int) frac rest pl [] h k d))

pub signed-Gives :
    (scale x : ℕ) (int frac rest : Text) (pl : Place)
    → All IsDigit (x ∷ int)
    → All IsDigit frac
    → IsDelimited rest
    → Gives
        (number (b'-' ∷ x ∷ joined scale int frac))
        rest
        (next_token b'-' (x ∷ (joined scale int frac ++ rest)) pl)
signed-Gives scale x int frac rest pl h k d =
    minus-Gives x (joined scale int frac ++ rest) (b'-' ∷ x ∷ joined scale int frac) rest pl h.0 (
      subst
        (λ (t : Text).
          Gives (number (b'-' ∷ t)) rest
            (lex_fraction pl (scan_digits (t ++ rest) (next_col pl) (b'-' ∷ []))))
        (joined-cons scale x int frac)
        (digits-Gives pl scale (x ∷ int) frac rest (next_col pl) (b'-' ∷ []) h k d))
