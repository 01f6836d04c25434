-- ===== src/Core/Lexer/Scan.antt =====
-- The loops of crates/factum-core/src/lexer.rs that copy a run of characters. The numbers of lines
-- and columns are u32, which an input below 4 GB does not exceed.
use factum.Prelude.{
  ℕ, zero, suc, ◌+◌, ◌/◌, ◌%◌, Bool, false, not, ◌&&◌, ◌||◌, [], ◌∷◌, ◌++◌, Text, ltb, leb, eqb,
  if◌then◌else◌, Result, ok, err,
}
use factum.Prelude.Digits.{is_digit}

pub record Place : Type 0 where
  pub offset : ℕ
  pub line : ℕ
  pub col : ℕ

pub record Cursor : Type 0 where
  pub rest : Text
  pub place : Place

-- The messages of `LexError`, with what they quote.
pub data LexMessage : Type 0 where
  too_many_tokens unterminated_string unterminated_escape invalid_utf8 truncated_utf8
        variable_expected :
      LexMessage
  keyword_expected unterminated_uri entity_expected expected_date expected_open_date expected_dur :
      LexMessage
  expected_open_dur unknown_prefix : LexMessage
  multi_dot : Text → LexMessage
  unexpected_character : Text → LexMessage

pub record LexError : Type 0 where
  pub message : LexMessage
  pub place : Place

abbrev pub lex_error : {A : Type 0} → LexMessage → Place → Result LexError A
lex_error m pl = err (record { message = m; place = pl })

-- `advance`
abbrev pub next_col : Place → Place
next_col pl = record pl { offset = pl.offset + 1; col = pl.col + 1 }

abbrev pub is_alpha : ℕ → Bool
is_alpha c = (leb b'a' c && leb c b'z') || (leb b'A' c && leb c b'Z')

-- the ASCII bytes of variables and keywords
abbrev pub is_name_byte : ℕ → Bool
is_name_byte c = is_alpha c || (leb b'0' c && leb c b'9') || eqb c b'-' || eqb c b'_'

-- the ASCII bytes of entities
abbrev pub is_entity_byte : ℕ → Bool
is_entity_byte c = is_name_byte c || eqb c b':' || eqb c b'.'

-- the bytes that end a symbol
abbrev pub is_delimiter : ℕ → Bool
is_delimiter c =
    eqb c b'('
    || eqb c b')'
    || eqb c b'['
    || eqb c b']'
    || eqb c b' '
    || eqb c 9
    || eqb c 10
    || eqb c 13
    || eqb c b';'
    || eqb c 34
    || eqb c b':'
    || eqb c b'?'
    || eqb c b'@'
    || eqb c b'<'
    || eqb c b'#'

abbrev pub is_symbol_byte : ℕ → Bool
is_symbol_byte c = not (is_delimiter c)

-- A digit stands at the index.
abbrev pub is_digit_at : ℕ → Text → Bool
is_digit_at i [] = false
is_digit_at zero (x ∷ xs) = leb b'0' x && leb x b'9'
is_digit_at (suc i) (x ∷ xs) = is_digit_at i xs

abbrev pub is_continuation : ℕ → Bool
is_continuation c = leb 0x80 c && leb c 0xBF

-- `from_utf8` on one character of two, three or four bytes
unfoldable pub is_utf8_2 : ℕ → ℕ → Bool
is_utf8_2 a b = leb 0xC2 a && is_continuation b

unfoldable pub is_utf8_3 : ℕ → ℕ → ℕ → Bool
is_utf8_3 a b c =
    is_continuation c
    && (if eqb a 0xE0
        then leb 0xA0 b && leb b 0xBF
        else if eqb a 0xED
        then leb 0x80 b && leb b 0x9F
        else is_continuation b)

unfoldable pub is_utf8_4 : ℕ → ℕ → ℕ → ℕ → Bool
is_utf8_4 a b c d =
    leb a 0xF4
    && is_continuation c
    && is_continuation d
    && (if eqb a 0xF0
        then leb 0x90 b && leb b 0xBF
        else if eqb a 0xF4
        then leb 0x80 b && leb b 0x8F
        else is_continuation b)

-- What a loop does with a byte: it ends before it, copies it (with so many more bytes of the same
-- character to come), or fails.
pub data Action : Type 0 where
  stop : Action
  take : ℕ → Action
  fail : LexMessage → Action

abbrev take_if : Bool → ℕ → Action
take_if valid k = if valid then take k else fail invalid_utf8

-- `read_utf8_char`, on the bytes from its first one
unfoldable pub read_utf8_char : ℕ → Text → Action
unfolding is_utf8_2 is_utf8_3 is_utf8_4
read_utf8_char x xs =
    if ltb x 0x80
    then take 0
    else if leb 0xC0 x && leb x 0xDF
    then elim xs [ b ∷ _ ↦ take_if (is_utf8_2 x b) 1 | [] ↦ fail truncated_utf8 ]
    else if leb 0xE0 x && leb x 0xEF
    then elim xs [ b ∷ c ∷ _ ↦ take_if (is_utf8_3 x b c) 2 | _ ↦ fail truncated_utf8 ]
    else if leb 0xF0 x && leb x 0xF7
    then elim xs [ b ∷ c ∷ d ∷ _ ↦ take_if (is_utf8_4 x b c d) 3 | _ ↦ fail truncated_utf8 ]
    else fail invalid_utf8

-- the body of the loops of `lex_var`, `lex_keyword`, `lex_entity` and `lex_symbol`
unfoldable pub name_action : (ℕ → Bool) → ℕ → ℕ → Text → Action
unfolding read_utf8_char
name_action test (suc pending) x xs = take pending
name_action test zero x xs =
    if ltb x 0x80 then if test x then take 0 else stop else read_utf8_char x xs

unfoldable pub scan_name : (ℕ → Bool) → ℕ → Text → Place → Text → Result LexError (Text × Cursor)
unfolding name_action
scan_name test pending [] pl buf = ok (buf, record { rest = []; place = pl })
scan_name test pending (x ∷ xs) pl buf = elim (name_action test pending x xs) [
  | stop ↦ ok (buf, record { rest = x ∷ xs; place = pl })
  | take k ↦ scan_name test k xs (next_col pl) (buf ++ x ∷ [])
  | fail m ↦ lex_error m pl
]

-- the loop of `lex_uri`
unfoldable pub scan_uri : Place → ℕ → Text → Place → Text → Result LexError (Text × Cursor)
unfolding name_action
scan_uri start pending [] pl buf = lex_error unterminated_uri start
scan_uri start pending (x ∷ xs) pl buf = elim (name_action (λ c. not (eqb c b'>')) pending x xs) [
  | stop ↦ ok (buf, record { rest = xs; place = next_col pl })
  | take k ↦ scan_uri start k xs (next_col pl) (buf ++ x ∷ [])
  | fail m ↦ lex_error m pl
]

-- `c as char` for a byte: the character of that number, in UTF-8
unfoldable pub as_char : ℕ → Text
as_char c = if ltb c 0x80 then c ∷ [] else (0xC0 + c / 64) ∷ (0x80 + c % 64) ∷ []

-- Where the loop of `lex_string` stands: in the text, or behind a backslash.
pub data StringState : Type 0 where
  plain : ℕ → StringState
  escaped : StringState

pub data StringAction : Type 0 where
  close : StringAction
  push : Text → StringState → StringAction
  fail : LexMessage → StringAction

-- the character for the one behind a backslash
unfoldable pub unescape : ℕ → Text
unfolding as_char
unescape x =
    if eqb x b'n'
    then 10 ∷ []
    else if eqb x b't'
    then 9 ∷ []
    else if eqb x b'r'
    then 13 ∷ []
    else as_char x

abbrev push_char : ℕ → Action → StringAction
push_char x stop = push [] (plain 0)
push_char x (take k) = push (x ∷ []) (plain k)
push_char x (fail m) = fail m

-- the body of the loop of `lex_string`
unfoldable pub string_action : StringState → ℕ → Text → StringAction
unfolding read_utf8_char unescape
string_action (plain (suc pending)) x xs = push (x ∷ []) (plain pending)
string_action (plain zero) x xs =
    if eqb x 34
    then close
    else if eqb x 92
    then push [] escaped
    else push_char x (read_utf8_char x xs)
string_action escaped x xs = push (unescape x) (plain 0)

abbrev unfinished : StringState → Place → Place → Result LexError (Text × Cursor)
unfinished (plain pending) start pl = lex_error unterminated_string start
unfinished escaped start pl = lex_error unterminated_escape pl

unfoldable pub string_from :
    Place → StringState → Text → Place → Text → Result LexError (Text × Cursor)
unfolding string_action
string_from start st [] pl buf = unfinished st start pl
string_from start st (x ∷ xs) pl buf = elim (string_action st x xs) [
  | close ↦ ok (buf, record { rest = xs; place = next_col pl })
  | push bytes st' ↦ string_from start st' xs (next_col pl) (buf ++ bytes)
  | fail m ↦ lex_error m pl
]

-- `lex_string`, behind the opening quote
unfoldable pub scan_string : Place → Text → Place → Result LexError (Text × Cursor)
unfolding string_from
scan_string start xs pl = string_from start (plain 0) xs pl []

-- the loop over the body of a date or a duration: to the closing parenthesis or the end
unfoldable pub scan_paren : Text → Place → Text → Text × Cursor
unfolding as_char
scan_paren [] pl buf = (buf, record { rest = []; place = pl })
scan_paren (x ∷ xs) pl buf =
    let rest = scan_paren xs (next_col pl) (buf ++ as_char x) in
    if eqb x b')' then (buf, record { rest = xs; place = next_col pl }) else rest

-- the loop over digits
unfoldable pub scan_digits : Text → Place → Text → Text × Cursor
unfolding is_digit
scan_digits [] pl buf = (buf, record { rest = []; place = pl })
scan_digits (x ∷ xs) pl buf =
    let rest = scan_digits xs (next_col pl) (buf ++ x ∷ []) in
    if is_digit x then rest else (buf, record { rest = x ∷ xs; place = pl })
