-- ===== src/Core/Lexer.antt =====
-- crates/factum-core/src/lexer.rs: the tokens of a source text. The lexer's state is what is left
-- of the source and the place it stands at. A `while` loop over the source is a recursion on what
-- is left of it, where a character of several bytes is checked at its first byte and copied byte by
-- byte.
pub mod Scan
pub mod Progress
pub mod Total
pub mod Reads
pub mod Yields
pub mod Numbers
pub mod Lexes
use factum.Prelude.{
  ℕ, zero, suc, ◌+◌, Bool, true, false, not, ◌&&◌, ◌||◌, Option, none, some, List, [], ◌∷◌, ◌++◌,
  Text, codes, ltb, leb, eqb, if◌then◌else◌, length, Result, ok, err, ◌>>=◌,
}
use factum.Prelude.Digits.{is_digit}
use factum.Core.Lexer.Scan.{
  Place, Cursor, LexMessage, LexError, next_col, lex_error, scan_name, scan_string, scan_uri,
  scan_paren, scan_digits, is_name_byte, is_entity_byte, is_symbol_byte, is_digit_at,
  unexpected_character, variable_expected, keyword_expected, entity_expected, expected_date,
  expected_open_date, expected_dur, expected_open_dur, unknown_prefix, multi_dot, too_many_tokens,
  as_char,
}

pub data TokenKind : Type 0 where
  lparen rparen lbracket rbracket : TokenKind
  symbol : Text → TokenKind
  var : Text → TokenKind
  keyword : Text → TokenKind
  str : Text → TokenKind
  number : Text → TokenKind
  date : Text → TokenKind
  duration : Text → TokenKind
  bool : Bool → TokenKind
  uri : Text → TokenKind
  entity : Text → TokenKind
  eof : TokenKind

pub record Token : Type 0 where
  pub kind : TokenKind
  pub place : Place

-- What a step gives: a token and the state behind it.
abbrev pub Step : Type 0
Step = Result LexError (Token × Cursor)

-- a byte of white space
abbrev pub is_ws : ℕ → Bool
is_ws x = eqb x b' ' || eqb x 9 || eqb x 13 || eqb x 10

-- The place behind a byte that is skipped: only here a newline counts.
abbrev pub skip_place : ℕ → Place → Place
skip_place x pl =
    if eqb x 10 then record { offset = pl.offset + 1; line = pl.line + 1; col = 1 } else next_col pl

-- `skip_ws_and_comments`; the flag says that it stands in a comment.
unfoldable pub skip : Bool → Text → Place → Cursor
skip comment [] pl = record { rest = []; place = pl }
skip comment (x ∷ xs) pl =
    if not comment && not (is_ws x) && not (eqb x b';')
    then record { rest = x ∷ xs; place = pl }
    else skip (not (eqb x 10) && (comment || eqb x b';')) xs (skip_place x pl)

-- a token of one byte
abbrev pub single : TokenKind → Text → Place → Step
single k xs pl = ok (record { kind = k; place = pl }, record { rest = xs; place = next_col pl })

-- a token whose text must not be empty
abbrev pub named : (Text → TokenKind) → LexMessage → Place → Result LexError (Text × Cursor) → Step
named kind empty start (err e) = err e
named kind empty start (ok ([], c)) = lex_error empty start
named kind empty start (ok (b ∷ bs, c)) = ok (record { kind = kind (b ∷ bs); place = start }, c)

abbrev pub closed : (Text → TokenKind) → Place → Result LexError (Text × Cursor) → Step
closed kind start (err e) = err e
closed kind start (ok (s, c)) = ok (record { kind = kind s; place = start }, c)

-- the letters that must come next
unfoldable pub expect_text : Text → Text → Place → Option Cursor
expect_text [] xs pl = some (record { rest = xs; place = pl })
expect_text (e ∷ es) [] pl = none
expect_text (e ∷ es) (x ∷ xs) pl =
    let rest = expect_text es xs (next_col pl) in if eqb x e then rest else none

-- the body of `#date(` and `#dur(`, behind its parenthesis
unfoldable pub lex_open : (Text → TokenKind) → LexMessage → Place → Option Cursor → Step
unfolding scan_paren
lex_open kind no_open start none = lex_error no_open start
lex_open kind no_open start (some c) = closed kind start (ok (scan_paren c.rest c.place []))

-- the same, behind its word
unfoldable pub lex_body :
    (Text → TokenKind) → LexMessage → LexMessage → Place → Option Cursor → Step
unfolding lex_open expect_text
lex_body kind no_word no_open start none = lex_error no_word start
lex_body kind no_word no_open start (some c) =
    lex_open kind no_open start (expect_text (b'(' ∷ []) c.rest c.place)

-- `peek_at(k) == Some(x)` and `peek_at(k).is_some_and(is_ascii_digit)`, on the bytes from there on
abbrev pub next_is : ℕ → Text → Bool
next_is x [] = false
next_is x (y ∷ ys) = eqb y x

-- `lex_hash_prefixed`, behind the `#`
unfoldable pub lex_hash : Text → Place → Place → Step
unfolding lex_body expect_text
lex_hash [] pl start = lex_error unknown_prefix start
lex_hash (x ∷ xs) pl start =
    if eqb x b't'
    then ok (record { kind = bool true; place = start }, record { rest = xs; place = next_col pl })
    else if eqb x b'f'
    then ok (record { kind = bool false; place = start }, record { rest = xs; place = next_col pl })
    else if eqb x b'd' && next_is b'a' xs
    then lex_body date expected_date expected_open_date start
        (expect_text (codes "ate") xs (next_col pl))
    else if eqb x b'd' && next_is b'u' xs
    then lex_body duration expected_dur expected_open_dur start
        (expect_text (codes "ur") xs (next_col pl))
    else lex_error unknown_prefix start

-- the test on a second point, and the token
abbrev pub finish_number : Place → Text → Cursor → Step
finish_number start buf c =
    if next_is b'.' c.rest && is_digit_at 1 c.rest
    then lex_error (multi_dot buf) start
    else ok (record { kind = number buf; place = start }, c)

-- what follows the integer part
unfoldable pub lex_fraction : Place → Text × Cursor → Step
unfolding scan_digits
lex_fraction start (buf, c) = elim (c.rest) [
  | [] ↦ finish_number start buf c
  | x ∷ xs ↦
      if eqb x b'.'
      then (let (more, c') = scan_digits xs (next_col c.place) (buf ++ b'.' ∷ []) in
          finish_number start more c')
      else finish_number start buf c
]

-- `lex_number`
unfoldable pub lex_number : Text → Place → Step
unfolding scan_digits lex_fraction
lex_number [] pl = lex_fraction pl (scan_digits [] pl [])
lex_number (x ∷ xs) pl =
    if eqb x b'-'
    then lex_fraction pl (scan_digits xs (next_col pl) (b'-' ∷ []))
    else lex_fraction pl (scan_digits (x ∷ xs) pl [])

-- `next_token`, at a byte that is there
unfoldable pub next_token : ℕ → Text → Place → Step
unfolding scan_name scan_string scan_uri lex_hash lex_number
next_token x xs pl =
    if eqb x b'('
    then single lparen xs pl
    else if eqb x b')'
    then single rparen xs pl
    else if eqb x b'['
    then single lbracket xs pl
    else if eqb x b']'
    then single rbracket xs pl
    else if eqb x 34
    then closed str pl (scan_string pl xs (next_col pl))
    else if eqb x b'?'
    then named var variable_expected pl (scan_name is_name_byte 0 xs (next_col pl) [])
    else if eqb x b':'
    then named keyword keyword_expected pl (scan_name is_name_byte 0 xs (next_col pl) [])
    else if eqb x b'<'
    then closed uri pl (scan_uri pl 0 xs (next_col pl) [])
    else if eqb x b'@'
    then named entity entity_expected pl (scan_name is_entity_byte 0 xs (next_col pl) [])
    else if eqb x b'#'
    then lex_hash xs (next_col pl) pl
    else if is_digit x || (eqb x b'-' && is_digit_at 0 xs)
    then lex_number (x ∷ xs) pl
    else named symbol (unexpected_character (as_char x)) pl
        (scan_name is_symbol_byte 0 (x ∷ xs) pl [])

abbrev pub max_tokens : ℕ
max_tokens = 1_000_000

-- the token list behind a token
abbrev pub push_token :
    Token → Option (Result LexError (List Token)) → Option (Result LexError (List Token))
push_token t none = none
push_token t (some (err e)) = some (err e)
push_token t (some (ok ts)) = some (ok (t ∷ ts))

-- The loop of `tokenize`, on fuel, with the number of the tokens so far; `none` is no result of the
-- code.
unfoldable pub tokenize_from : ℕ → ℕ → Cursor → Option (Result LexError (List Token))
unfolding skip next_token
tokenize_from zero count c = none
tokenize_from (suc fuel) count c =
    let at : Cursor = skip false c.rest c.place in
    elim (at.rest) [
      | [] ↦ some (ok (record { kind = eof; place = at.place } ∷ []))
      | x ∷ xs ↦
          if leb max_tokens count
          then some (lex_error too_many_tokens at.place)
          else elim (next_token x xs at.place) [
            | err e ↦ some (err e)
            | ok (t, c') ↦ push_token t (tokenize_from fuel (count + 1) c')
          ]
    ]

-- `Lexer::tokenize`, with one unit of fuel more than there are bytes
unfoldable pub tokenize : Text → Option (Result LexError (List Token))
unfolding tokenize_from
tokenize src =
    tokenize_from (suc (length src)) 0
      (record { rest = src; place = record { offset = 0; line = 1; col = 1 } })
