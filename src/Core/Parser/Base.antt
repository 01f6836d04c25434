-- ===== src/Core/Parser/Base.antt =====
-- The state of the parser in crates/factum-core/src/parser.rs and its helpers. The tokens from the
-- position on are the state; the last of them is always the end of the input, where `advance`
-- stays. The depth of the recursion is passed down. `{:?}` of a token and the texts of foreign
-- errors are left out of the messages.
use factum.Prelude.{
  ℕ, ◌+◌, Bool, true, false, ◌&&◌, List, [], ◌∷◌, Text, text_eq, eqb, leb, if◌then◌else◌, Option,
  none, some, Result, ok, err,
}
use factum.Core.Lexer.{
  Token, TokenKind, lparen, rparen, lbracket, rbracket, symbol, var, keyword, str, number, date,
  duration, bool, uri, entity, eof,
}
use factum.Core.Lexer.Scan.{Place, LexMessage, LexError}

pub data ParseMessage : Type 0 where
  lexer : LexMessage → ParseMessage
  expected : TokenKind → TokenKind → ParseMessage
  expected_symbol unknown_field unknown_permission unknown_provenance unexpected_token :
      Text → ParseMessage
  too_many_tokens unbalanced_paren depth_limit_exceeded expected_node_id expected_note
        expected_keyword :
      ParseMessage
  missing_pred expected_number bad_number bad_confidence bad_authority expected_permission :
      ParseMessage
  expected_dep expected_head positional_after_named bad_decimal bad_date bad_duration : ParseMessage
  unexpected_term expected_validity expected_datetime expected_provenance expected_source :
      ParseMessage
  expected_doc missing_model expected_text : ParseMessage

pub record ParseError : Type 0 where
  pub message : ParseMessage
  pub place : Place

-- `out_of_fuel` is no result of the code.
pub data Outcome {ℓ} (A : Type ℓ) : Type ℓ where
  done : A → List Token → Outcome A
  failed : ParseError → Outcome A
  out_of_fuel : Outcome A

abbrev pub Parser {ℓ} : Type ℓ → Type ℓ
Parser A = List Token → Outcome A

abbrev pub pure {ℓ} : {A : Type ℓ} → A → Parser A
pure a ts = done a ts

abbrev pub run {ℓ} : {A : Type ℓ} → List Token → Parser A → Outcome A
run ts m = m ts

module _ {ℓ κ} {A : Type ℓ} {B : Type κ} where
  abbrev pub bind : Outcome A → (A → Parser B) → Outcome B
  bind (done a ts) f = f a ts
  bind (failed e) f = failed e
  bind out_of_fuel f = out_of_fuel

  infixl 1 ◌>>=◌ ◌>>◌
  abbrev pub ◌>>=◌ : Parser A → (A → Parser B) → Parser B
  m >>= f = λ ts. bind (m ts) f

  abbrev pub ◌>>◌ : Parser A → Parser B → Parser B
  m >> k = m >>= λ _. k

abbrev pub origin : Place
origin = record { offset = 0; line = 0; col = 0 }

abbrev pub from_lexer : LexError → ParseError
from_lexer e = record { message = lexer e.message; place = e.place }

-- `peek_kind`
unfoldable pub peek : List Token → TokenKind
peek [] = eof
peek (t ∷ ts) = t.kind

abbrev pub is_eof : TokenKind → Bool
is_eof eof = true
is_eof _ = false

-- `advance`: the state behind it
unfoldable pub advance : List Token → List Token
advance [] = []
advance (t ∷ ts) = if is_eof t.kind then t ∷ ts else ts

-- `error`, at the token that stands there
unfoldable pub error {ℓ} : {A : Type ℓ} → ParseMessage → Parser A
error m [] = failed (record { message = m; place = origin })
error m (t ∷ ts) = failed (record { message = m; place = t.place })

-- `mem::discriminant`
unfoldable pub discriminant : TokenKind → ℕ
discriminant lparen = 0
discriminant rparen = 1
discriminant lbracket = 2
discriminant rbracket = 3
discriminant (symbol s) = 4
discriminant (var s) = 5
discriminant (keyword s) = 6
discriminant (str s) = 7
discriminant (number s) = 8
discriminant (date s) = 9
discriminant (duration s) = 10
discriminant (bool b) = 11
discriminant (uri s) = 12
discriminant (entity s) = 13
discriminant eof = 14

unfoldable pub same_kind : TokenKind → TokenKind → Bool
unfolding discriminant
same_kind a b = eqb (discriminant a) (discriminant b)

-- `expect`, with its special case at the end of the input
unfoldable pub expect : TokenKind → Parser (Unit {0})
unfolding same_kind peek advance error
expect k ts =
    if same_kind (peek ts) k
    then done tt (advance ts)
    else if same_kind k rparen && is_eof (peek ts)
    then error unbalanced_paren ts
    else error (expected k (peek ts)) ts

-- the next token is the symbol
unfoldable pub is_symbol : Text → TokenKind → Bool
is_symbol s (symbol t) = text_eq t s
is_symbol s _ = false

-- `peek_kind_at(1)` is the symbol
unfoldable pub peek_second : Text → List Token → Bool
unfolding is_symbol peek
peek_second s [] = false
peek_second s (t ∷ ts) = is_symbol s (peek ts)

-- `expect_symbol`
unfoldable pub expect_symbol : Text → Parser (Unit {0})
unfolding is_symbol peek advance error
expect_symbol s ts =
    if is_symbol s (peek ts) then done tt (advance ts) else error (expected_symbol s) ts

-- `advance().clone()`: the token, and the state behind it
unfoldable pub next : Parser TokenKind
unfolding peek advance
next ts = done (peek ts) (advance ts)

abbrev pub max_parse_depth : ℕ
max_parse_depth = 128

-- `with_depth`
unfoldable pub with_depth {ℓ} : {A : Type ℓ} → ℕ → (ℕ → Parser A) → Parser A
unfolding error
with_depth depth f ts =
    if leb max_parse_depth depth then error depth_limit_exceeded ts else f (depth + 1) ts

-- a foreign result, and its error
unfoldable pub lift {ℓ} : {A : Type ℓ} → ParseMessage → Option A → Parser A
unfolding error
lift m none ts = error m ts
lift m (some a) ts = done a ts

abbrev pub from_result : {E A : Type 0} → Result E A → Option A
from_result (ok a) = some a
from_result (err e) = none
