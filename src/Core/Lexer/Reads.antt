-- ===== src/Core/Lexer/Reads.antt =====
-- What the scans of crates/factum-core/src/lexer.rs make of ASCII text.
use mathlib.Core.List.{append_assoc, append-nil}
use factum.Prelude.{
  ℕ, ◌<◌, Bool, true, false, not, ◌≡◌, refl, sym, ap, subst, [], ◌∷◌, ◌++◌, Text, eqb, lt→ltb,
  if_intro, eqb_iff, Result, ok, err, All, arith,
}
use factum.Prelude.Digits.{is_digit}
use factum.Core.Canonical.{escape}
use factum.Core.Decimal.RoundTrip.{IsDigit}
use factum.Core.Lexer.Scan.{
  Place, Cursor, LexError, stop, take, name_action, scan_name, scan_uri, plain, string_from,
  scan_paren, scan_digits, next_col, as_char, unescape, push, string_action, read_utf8_char,
}

-- The scan gives this text, and this is left.
abbrev pub Scans : Text → Text → Result LexError (Text × Cursor) → Type 0
Scans s rest (err e) = ⊥
Scans s rest (ok (b, c)) = (b ≡ s) × (c.rest ≡ rest)

-- ASCII characters that pass a test, and a text that does not go on with one.
abbrev pub Passes : (ℕ → Bool) → Text → Type 0
Passes test s = All (λ c. (c < 128) × (test c ≡ true)) s

abbrev pub Stops : (ℕ → Bool) → Text → Type 0
Stops test [] = Unit
Stops test (r ∷ rs) = (r < 128) × (test r ≡ false)

name_action-take :
    (test : ℕ → Bool) (x : ℕ) (xs : Text)
    → x < 128
    → test x ≡ true
    → name_action test 0 x xs ≡ take 0
unfolding name_action
name_action-take test x xs h e = rw (lt→ltb x 128 h, name_action) (rw e refl)

name_action-stop :
    (test : ℕ → Bool) (x : ℕ) (xs : Text)
    → x < 128
    → test x ≡ false
    → name_action test 0 x xs ≡ stop
unfolding name_action
name_action-stop test x xs h e = rw (lt→ltb x 128 h, name_action) (rw e refl)

-- A character more at the end of what is copied.
Scans-assoc :
    (buf : Text) (x : ℕ) (s rest : Text) (r : Result LexError (Text × Cursor))
    → Scans ((buf ++ (x ∷ [])) ++ s) rest r
    → Scans (buf ++ (x ∷ s)) rest r
Scans-assoc buf x s rest r h = subst (λ (t : Text). Scans t rest r) (append_assoc buf (x ∷ []) s) h

pub scan_name-Scans :
    (test : ℕ → Bool) (s rest : Text) (pl : Place) (buf : Text)
    → Passes test s
    → Stops test rest
    → Scans (buf ++ s) rest (scan_name test 0 (s ++ rest) pl buf)
unfolding scan_name
scan_name-Scans test [] [] pl buf h k = (sym (append-nil buf), refl)
scan_name-Scans test [] (r ∷ rs) pl buf h k =
    rw (name_action-stop test r rs k.0 k.1, Scans) (sym (append-nil buf), refl)
scan_name-Scans test (x ∷ xs) rest pl buf h k =
    rw (name_action-take test x (xs ++ rest) h.0.0 h.0.1, Scans)
      (Scans-assoc buf x xs rest (scan_name test 0 (xs ++ rest) (next_col pl) (buf ++ (x ∷ [])))
        (scan_name-Scans test xs rest (next_col pl) (buf ++ (x ∷ [])) h.1 k))

abbrev pub is_uri_byte : ℕ → Bool
is_uri_byte c = not (eqb c b'>')

pub scan_uri-Scans :
    (start : Place) (s rest : Text) (pl : Place) (buf : Text)
    → Passes is_uri_byte s
    → Scans (buf ++ s) rest (scan_uri start 0 (s ++ (b'>' ∷ rest)) pl buf)
unfolding scan_uri name_action
scan_uri-Scans start [] rest pl buf h = (sym (append-nil buf), refl)
scan_uri-Scans start (x ∷ xs) rest pl buf h =
    rw (name_action-take is_uri_byte x (xs ++ (b'>' ∷ rest)) h.0.0 h.0.1, Scans)
      (Scans-assoc buf x xs rest
        (scan_uri start 0 (xs ++ (b'>' ∷ rest)) (next_col pl) (buf ++ (x ∷ [])))
        (scan_uri-Scans start xs rest (next_col pl) (buf ++ (x ∷ [])) h.1))

string_action-push :
    (x : ℕ) (xs : Text)
    → x < 128
    → eqb x 34 ≡ false
    → eqb x 92 ≡ false
    → string_action (plain 0) x xs ≡ push (x ∷ []) (plain 0)
unfolding string_action read_utf8_char
string_action-push x xs l q b = rw (q, string_action) (rw b (rw (lt→ltb x 128 l) refl))

-- What an escaped character adds, and what a plain one does.
string_from-escaped :
    (start : Place) (e x : ℕ) (s rest t : Text) (pl : Place) (buf : Text)
    → unescape e ≡ x ∷ []
    → ((pl' : Place)
        → Scans ((buf ++ (x ∷ [])) ++ s) rest (string_from start (plain 0) t pl' (buf ++ (x ∷ []))))
    → Scans (buf ++ (x ∷ s)) rest (string_from start (plain 0) (92 ∷ e ∷ t) pl buf)
unfolding string_from string_action
string_from-escaped start e x s rest t pl buf u h = rw (append-nil buf) (
    rw u (
      Scans-assoc buf x s rest
        (string_from start (plain 0) t (next_col (next_col pl)) (buf ++ (x ∷ [])))
        (h (next_col (next_col pl)))))

string_from-plain :
    (start : Place) (x : ℕ) (s rest t : Text) (pl : Place) (buf : Text)
    → x < 128
    → eqb x 34 ≡ false
    → eqb x 92 ≡ false
    → ((pl' : Place)
        → Scans ((buf ++ (x ∷ [])) ++ s) rest (string_from start (plain 0) t pl' (buf ++ (x ∷ []))))
    → Scans (buf ++ (x ∷ s)) rest (string_from start (plain 0) (x ∷ t) pl buf)
unfolding string_from string_action
string_from-plain start x s rest t pl buf l q b h =
    rw (string_action-push x t l q b, Scans)
      (Scans-assoc buf x s rest (string_from start (plain 0) t (next_col pl) (buf ++ (x ∷ [])))
        (h (next_col pl)))

abbrev pub IsAscii : Text → Type 0
IsAscii s = All (λ c. c < 128) s

-- The body of a string literal in the canonical form gives the string.
pub string_from-Scans :
    (start : Place) (s rest : Text) (pl : Place) (buf : Text)
    → IsAscii s
    → Scans (buf ++ s) rest (string_from start (plain 0) (escape s ++ (34 ∷ rest)) pl buf)
unfolding string_from escape unescape
string_from-Scans start [] rest pl buf h = (sym (append-nil buf), refl)
string_from-Scans start (c ∷ cs) rest pl buf h =
    let ih = λ (pl' : Place). string_from-Scans start cs rest pl' (buf ++ (c ∷ [])) h.1 in
    let P : Text → Type 0 =
      λ t. Scans (buf ++ (c ∷ cs)) rest (string_from start (plain 0) (t ++ (34 ∷ rest)) pl buf) in
    if_intro P (eqb c 92)
      (λ e.
        string_from-escaped start 92 c cs rest (escape cs ++ (34 ∷ rest)) pl buf
          (ap (λ (n : ℕ). n ∷ []) (sym ((eqb_iff c 92).0 e))) ih)
      λ n1.
        if_intro P (eqb c 34)
          (λ e.
            string_from-escaped start 34 c cs rest (escape cs ++ (34 ∷ rest)) pl buf
              (ap (λ (n : ℕ). n ∷ []) (sym ((eqb_iff c 34).0 e))) ih)
          λ n2.
            if_intro P (eqb c 10)
              (λ e.
                string_from-escaped start b'n' c cs rest (escape cs ++ (34 ∷ rest)) pl buf
                  (ap (λ (n : ℕ). n ∷ []) (sym ((eqb_iff c 10).0 e))) ih)
              λ n3.
                if_intro P (eqb c 9)
                  (λ e.
                    string_from-escaped start b't' c cs rest (escape cs ++ (34 ∷ rest)) pl buf
                      (ap (λ (n : ℕ). n ∷ []) (sym ((eqb_iff c 9).0 e))) ih)
                  λ n4.
                    if_intro P (eqb c 13)
                      (λ e.
                        string_from-escaped start b'r' c cs rest (escape cs ++ (34 ∷ rest)) pl buf
                          (ap (λ (n : ℕ). n ∷ []) (sym ((eqb_iff c 13).0 e))) ih)
                      λ n5.
                        string_from-plain start c cs rest (escape cs ++ (34 ∷ rest)) pl buf h.0 n2
                          n1 ih

-- The body of a date or a duration.
abbrev pub IsBody : ℕ → Type 0
IsBody c = (c < 128) × (eqb c b')' ≡ false)

pub scan_paren-reads :
    (s rest : Text) (pl : Place) (buf : Text)
    → All IsBody s
    → Scans (buf ++ s) rest (ok (scan_paren (s ++ (b')' ∷ rest)) pl buf))
unfolding scan_paren as_char
scan_paren-reads [] rest pl buf h = (sym (append-nil buf), refl)
scan_paren-reads (x ∷ xs) rest pl buf h =
    rw (h.0.1, scan_paren)
      (rw (lt→ltb x 128 h.0.0) (
        Scans-assoc buf x xs rest
          (ok (scan_paren (xs ++ (b')' ∷ rest)) (next_col pl) (buf ++ (x ∷ []))))
          (scan_paren-reads xs rest (next_col pl) (buf ++ (x ∷ [])) h.1)))

pub is_digit-true : (x : ℕ) → IsDigit x → is_digit x ≡ true
unfolding is_digit
is_digit-true x h = ground arith

-- The text does not go on with a digit.
abbrev pub NoDigit : Text → Type 0
NoDigit [] = Unit
NoDigit (r ∷ rs) = is_digit r ≡ false

pub scan_digits-reads :
    (s rest : Text) (pl : Place) (buf : Text)
    → All IsDigit s
    → NoDigit rest
    → Scans (buf ++ s) rest (ok (scan_digits (s ++ rest) pl buf))
unfolding scan_digits
scan_digits-reads [] [] pl buf h k = (sym (append-nil buf), refl)
scan_digits-reads [] (r ∷ rs) pl buf h k = rw (k, scan_digits) (sym (append-nil buf), refl)
scan_digits-reads (x ∷ xs) rest pl buf h k =
    let digit : is_digit x ≡ true = is_digit-true x h.0 in
    rw (digit, scan_digits)
      (Scans-assoc buf x xs rest (ok (scan_digits (xs ++ rest) (next_col pl) (buf ++ (x ∷ []))))
        (scan_digits-reads xs rest (next_col pl) (buf ++ (x ∷ [])) h.1 k))
