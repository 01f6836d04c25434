-- ===== src/Core/Lexer/Progress.antt =====
-- Each token of crates/factum-core/src/lexer.rs takes at least one byte.
use factum.Prelude.{
  ℕ, suc, ◌+◌, ◌≤◌, ◌<◌, Bool, Bool-cases, true, false, not, ◌&&◌, ◌||◌, ◌≡◌, refl, ◌⊎◌, inl, inr,
  Option, none, some, [], ◌∷◌, ◌++◌, Text, codes, eqb, if_elim, length, length-append, Result, ok,
  err, arith,
}
use factum.Core.Lexer.Scan.{
  Place, Cursor, LexError, LexMessage, Action, stop, take, plain, escaped, name_action, scan_name,
  scan_uri, StringState, StringAction, close, push, string_action, string_from, scan_string,
  scan_paren, scan_digits, next_col, as_char, is_digit_at, is_name_byte, is_entity_byte,
  is_symbol_byte, entity_expected, expected_date, expected_dur, expected_open_date,
  expected_open_dur, keyword_expected, unexpected_character, variable_expected,
}
use factum.Core.Lexer.{
  TokenKind, Step, skip, skip_place, named, closed, expect_text, lex_body, lex_open, lex_hash,
  lex_fraction, next_token, finish_number, lex_number, next_is, var, keyword, entity, symbol, uri,
  str, date, duration,
}
use factum.Prelude.Digits.{is_digit}
use factum.Core.Parser.Base.{is_eof}

-- A scan leaves at most so many bytes.
abbrev pub Within : {A : Type 0} → ℕ → Result LexError (A × Cursor) → Type 0
Within n (err e) = Unit
Within n (ok (a, c)) = length c.rest ≤ n

-- A scan that copies each byte it takes.
abbrev pub Conserves : ℕ → Result LexError (Text × Cursor) → Type 0
Conserves n (err e) = Unit
Conserves n (ok (s, c)) = length s + length c.rest ≡ n

-- A token that is not the end, with fewer than so many bytes left.
abbrev pub Advances : ℕ → Step → Type 0
Advances n (err e) = Unit
Advances n (ok (t, c)) = (length c.rest < n) × (is_eof t.kind ≡ false)

Action-cases :
    (a : Action) → (a ≡ stop) ⊎ ((k : ℕ) × (a ≡ take k)) ⊎ ((m : LexMessage) × (a ≡ Action.fail m))
Action-cases stop = inl refl
Action-cases (take k) = inr (inl (k, refl))
Action-cases (Action.fail m) = inr (inr (m, refl))

StringAction-cases :
    (a : StringAction)
    → (a ≡ close)
      ⊎ ((bytes : Text) × (st : StringState) × (a ≡ push bytes st))
      ⊎ ((m : LexMessage) × (a ≡ StringAction.fail m))
StringAction-cases close = inl refl
StringAction-cases (push bytes st) = inr (inl (bytes, st, refl))
StringAction-cases (StringAction.fail m) = inr (inr (m, refl))

Conserves-eq :
    {m n : ℕ} (r : Result LexError (Text × Cursor)) → m ≡ n → Conserves m r → Conserves n r
Conserves-eq (err e) p h = tt
Conserves-eq (ok (s, c)) p h = omega arith

Within-suc : {A : Type 0} (n : ℕ) (r : Result LexError (A × Cursor)) → Within n r → Within (suc n) r
Within-suc n (err e) h = tt
Within-suc n (ok (a, c)) h = omega arith

pub skip_le :
    (comment : Bool) (xs : Text) (pl : Place) → length (skip comment xs pl).rest ≤ length xs
unfolding skip
skip_le comment [] pl = omega arith
skip_le comment (x ∷ xs) pl =
    ground (arith, skip_le (not (eqb x 10) && (comment || eqb x b';')) xs (skip_place x pl))

pub scan_name-Conserves :
    (test : ℕ → Bool) (pending : ℕ) (xs : Text) (pl : Place) (buf : Text)
    → Conserves (length buf + length xs) (scan_name test pending xs pl buf)
unfolding scan_name
scan_name-Conserves test pending [] pl buf = refl
scan_name-Conserves test pending (x ∷ xs) pl buf =
    elim (Action-cases (name_action test pending x xs)) [
      | inl e ↦ rw (e, Conserves) refl
      | inr (inl (k, e)) ↦
          rw (e, Conserves)
            (Conserves-eq (scan_name test k xs (next_col pl) (buf ++ x ∷ []))
              (omega (arith, length-append buf (x ∷ [])))
              (scan_name-Conserves test k xs (next_col pl) (buf ++ x ∷ [])))
      | inr (inr (m, e)) ↦ rw (e, Conserves) tt
    ]

pub scan_uri-Within :
    (start : Place) (pending : ℕ) (xs : Text) (pl : Place) (buf : Text)
    → Within (length xs) (scan_uri start pending xs pl buf)
unfolding scan_uri
scan_uri-Within start pending [] pl buf = tt
scan_uri-Within start pending (x ∷ xs) pl buf =
    elim (Action-cases (name_action (λ c. not (eqb c b'>')) pending x xs)) [
      | inl e ↦ rw (e, Within) (omega arith)
      | inr (inl (k, e)) ↦
          rw (e, Within)
            (Within-suc (length xs) (scan_uri start k xs (next_col pl) (buf ++ x ∷ []))
              (scan_uri-Within start k xs (next_col pl) (buf ++ x ∷ [])))
      | inr (inr (m, e)) ↦ rw (e, Within) tt
    ]

pub string_from-Within :
    (start : Place) (st : StringState) (xs : Text) (pl : Place) (buf : Text)
    → Within (length xs) (string_from start st xs pl buf)
unfolding string_from
string_from-Within start (plain k) [] pl buf = tt
string_from-Within start escaped [] pl buf = tt
string_from-Within start st (x ∷ xs) pl buf = elim (StringAction-cases (string_action st x xs)) [
  | inl e ↦ rw (e, Within) (omega arith)
  | inr (inl (bytes, st', e)) ↦
      rw (e, Within)
        (Within-suc (length xs) (string_from start st' xs (next_col pl) (buf ++ bytes))
          (string_from-Within start st' xs (next_col pl) (buf ++ bytes)))
  | inr (inr (m, e)) ↦ rw (e, Within) tt
]

pub scan_paren_le :
    (xs : Text) (pl : Place) (buf : Text) → length (scan_paren xs pl buf).1.rest ≤ length xs
unfolding scan_paren
scan_paren_le [] pl buf = omega arith
scan_paren_le (x ∷ xs) pl buf = ground (arith, scan_paren_le xs (next_col pl) (buf ++ as_char x))

pub scan_digits_le :
    (xs : Text) (pl : Place) (buf : Text) → length (scan_digits xs pl buf).1.rest ≤ length xs
unfolding scan_digits
scan_digits_le [] pl buf = omega arith
scan_digits_le (x ∷ xs) pl buf = ground (arith, scan_digits_le xs (next_col pl) (buf ++ x ∷ []))

-- The first byte is a digit.
scan_first :
    (x : ℕ) (xs : Text) (pl : Place)
    → is_digit x ≡ true
    → length (scan_digits (x ∷ xs) pl []).1.rest ≤ length xs
unfolding scan_digits
scan_first x xs pl h = rw (h, scan_digits) (scan_digits_le xs (next_col pl) (x ∷ []))

-- What the wrappers of a scan make of it.
closed-Advances :
    (kind : Text → TokenKind) (start : Place) (n : ℕ) (r : Result LexError (Text × Cursor))
    → ((s : Text) → is_eof (kind s) ≡ false)
    → Within n r
    → Advances (suc n) (closed kind start r)
closed-Advances kind start n (err e) k h = tt
closed-Advances kind start n (ok (s, c)) k h = (omega arith, k s)

named-Advances :
    (kind : Text → TokenKind) (m : LexMessage) (start : Place) (n : ℕ)
    (r : Result LexError (Text × Cursor))
    → ((s : Text) → is_eof (kind s) ≡ false)
    → Conserves n r
    → Advances n (named kind m start r)
named-Advances kind m start n (err e) k h = tt
named-Advances kind m start n (ok ([], c)) k h = tt
named-Advances kind m start n (ok (b ∷ bs, c)) k h = (omega arith, k (b ∷ bs))

-- What the text of `expect_text` leaves.
WithinSome : ℕ → Option Cursor → Type 0
WithinSome n none = Unit
WithinSome n (some c) = length c.rest ≤ n

WithinSome-suc : (n : ℕ) (o : Option Cursor) → WithinSome n o → WithinSome (suc n) o
unfolding WithinSome
WithinSome-suc n none h = tt
WithinSome-suc n (some c) h = omega arith

expect_text-WithinSome : (es xs : Text) (pl : Place) → WithinSome (length xs) (expect_text es xs pl)
unfolding WithinSome expect_text
expect_text-WithinSome [] xs pl = omega arith
expect_text-WithinSome (e ∷ es) [] pl = tt
expect_text-WithinSome (e ∷ es) (x ∷ xs) pl =
    if_elim (WithinSome (suc (length xs))) (eqb x e)
      (WithinSome-suc (length xs) (expect_text es xs (next_col pl))
        (expect_text-WithinSome es xs (next_col pl)))
      tt

lex_open-Advances :
    (kind : Text → TokenKind) (m : LexMessage) (start : Place) (n : ℕ) (rest : Text)
    (o : Option Cursor)
    → ((s : Text) → is_eof (kind s) ≡ false)
    → length rest ≤ n
    → WithinSome (length rest) o
    → Advances (suc n) (lex_open kind m start o)
unfolding lex_open WithinSome
lex_open-Advances kind m start n rest none k h h' = tt
lex_open-Advances kind m start n rest (some c) k h h' =
    closed-Advances kind start n (ok (scan_paren c.rest c.place [])) k
      (omega (arith, scan_paren_le c.rest c.place []))

lex_body-Advances :
    (kind : Text → TokenKind) (m m' : LexMessage) (start : Place) (n : ℕ) (o : Option Cursor)
    → ((s : Text) → is_eof (kind s) ≡ false)
    → WithinSome n o
    → Advances (suc n) (lex_body kind m m' start o)
unfolding lex_body WithinSome
lex_body-Advances kind m m' start n none k h = tt
lex_body-Advances kind m m' start n (some c) k h =
    lex_open-Advances kind m' start n c.rest (expect_text (b'(' ∷ []) c.rest c.place) k h
      (expect_text-WithinSome (b'(' ∷ []) c.rest c.place)

finish_number-Advances :
    (start : Place) (n : ℕ) (buf : Text) (c : Cursor)
    → length c.rest < n
    → Advances n (finish_number start buf c)
finish_number-Advances start n buf c h =
    if_elim (Advances n) (next_is b'.' c.rest && is_digit_at 1 c.rest) tt (h, refl)

lex_fraction-Advances :
    (start : Place) (n : ℕ) (buf rest : Text) (pl : Place)
    → length rest < n
    → Advances n (lex_fraction start (buf, record { rest = rest; place = pl }))
unfolding lex_fraction
lex_fraction-Advances start n buf [] pl h =
    finish_number-Advances start n buf (record { rest = []; place = pl }) h
lex_fraction-Advances start n buf (x ∷ xs) pl h =
    let scanned = scan_digits xs (next_col pl) (buf ++ b'.' ∷ []) in
    if_elim (Advances n) (eqb x b'.')
      (finish_number-Advances start n scanned.0 scanned.1
        (omega (arith, scan_digits_le xs (next_col pl) (buf ++ b'.' ∷ []))))
      (finish_number-Advances start n buf (record { rest = x ∷ xs; place = pl }) h)

-- a digit, or a minus sign
lex_number-Advances :
    (x : ℕ) (xs : Text) (pl : Place)
    → (is_digit x || (eqb x b'-' && is_digit_at 0 xs)) ≡ true
    → Advances (suc (length xs)) (lex_number (x ∷ xs) pl)
unfolding lex_number is_digit
lex_number-Advances x xs pl h = elim (Bool-cases (eqb x b'-')) [
  | inl minus ↦
      let scanned = scan_digits xs (next_col pl) (b'-' ∷ []) in
      rw minus (
        lex_fraction-Advances pl (suc (length xs)) scanned.0 scanned.1.rest scanned.1.place
          (omega (arith, scan_digits_le xs (next_col pl) (b'-' ∷ []))))
  | inr other ↦
      rw (other, lex_number)
        (lex_fraction-Advances pl (suc (length xs)) (scan_digits (x ∷ xs) pl []).0
          (scan_digits (x ∷ xs) pl []).1.rest (scan_digits (x ∷ xs) pl []).1.place
          (ground (arith, scan_first x xs pl)))
]

lex_hash-Advances :
    (xs : Text) (pl start : Place) → Advances (suc (length xs)) (lex_hash xs pl start)
unfolding lex_hash
lex_hash-Advances [] pl start = tt
lex_hash-Advances (x ∷ xs) pl start =
    let A = Advances (suc (suc (length xs))) in
    if_elim A (eqb x b't') (omega arith, refl)
      (if_elim A (eqb x b'f') (omega arith, refl)
        (if_elim A (eqb x b'd' && next_is b'a' xs)
          (lex_body-Advances date expected_date expected_open_date start (suc (length xs)) _
            (λ s. refl)
            (WithinSome-suc (length xs) _ (expect_text-WithinSome (codes "ate") xs (next_col pl))))
          (if_elim A (eqb x b'd' && next_is b'u' xs)
            (lex_body-Advances duration expected_dur expected_open_dur start (suc (length xs)) _
              (λ s. refl)
              (WithinSome-suc (length xs) _ (expect_text-WithinSome (codes "ur") xs (next_col pl))))
            tt)))

-- a scan of a name, from the first byte on
name-Advances :
    (kind : Text → TokenKind) (m : LexMessage) (start : Place) (test : ℕ → Bool) (xs : Text)
    (pl : Place)
    → ((s : Text) → is_eof (kind s) ≡ false)
    → Advances (length xs) (named kind m start (scan_name test 0 xs pl []))
name-Advances kind m start test xs pl k =
    named-Advances kind m start (length xs) (scan_name test 0 xs pl []) k
      (Conserves-eq (scan_name test 0 xs pl []) (omega arith) (scan_name-Conserves test 0 xs pl []))

Advances-suc : (n : ℕ) (r : Step) → Advances n r → Advances (suc n) r
Advances-suc n (err e) h = tt
Advances-suc n (ok (t, c)) h = (omega arith, h.1)

pub next_token-Advances :
    (x : ℕ) (xs : Text) (pl : Place) → Advances (suc (length xs)) (next_token x xs pl)
unfolding next_token scan_string
next_token-Advances x xs pl =
    let n = length xs in
    let A = Advances (suc n) in
    if_elim A (eqb x b'(') (omega arith, refl)
      (if_elim A (eqb x b')') (omega arith, refl)
        (if_elim A (eqb x b'[') (omega arith, refl)
          (if_elim A (eqb x b']') (omega arith, refl)
            (if_elim A (eqb x 34)
              (closed-Advances str pl n _ (λ s. refl)
                (string_from-Within pl (plain 0) xs (next_col pl) []))
              (if_elim A (eqb x b'?')
                (Advances-suc n _ (
                  name-Advances var variable_expected pl is_name_byte xs (next_col pl) (λ s. refl)))
                (if_elim A (eqb x b':')
                  (Advances-suc n _ (
                    name-Advances keyword keyword_expected pl is_name_byte xs (next_col pl)
                      (λ s. refl)))
                  (if_elim A (eqb x b'<')
                    (closed-Advances uri pl n _ (λ s. refl)
                      (scan_uri-Within pl 0 xs (next_col pl) []))
                    (if_elim A (eqb x b'@')
                      (Advances-suc n _ (
                        name-Advances entity entity_expected pl is_entity_byte xs (next_col pl)
                          (λ s. refl)))
                      (if_elim A (eqb x b'#') (lex_hash-Advances xs (next_col pl) pl)
                        (elim (Bool-cases (is_digit x || (eqb x b'-' && is_digit_at 0 xs))) [
                          | inl digit ↦ rw digit (lex_number-Advances x xs pl digit)
                          | inr other ↦ rw other (
                              name-Advances symbol (unexpected_character (as_char x)) pl
                                is_symbol_byte (x ∷ xs) pl (λ s. refl))
                        ]))))))))))
