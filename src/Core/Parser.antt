-- ===== src/Core/Parser.antt =====
-- crates/factum-core/src/parser.rs: recursive descent over the tokens.
pub mod Base
pub mod Terms
pub mod Nodes
pub mod Ensures
pub mod Depth
pub mod Shrinks
pub mod Sound
pub mod Total
pub mod Durations
pub mod Tokens
pub mod RoundTrip
pub mod Spells
pub mod Canonical
use factum.Prelude.{
  ℕ, zero, suc, ◌+◌, ◌*◌, Bool, true, false, not, ◌&&◌, ◌||◌, Option, none, some, List, [], ◌∷◌,
  ◌++◌, Text, codes, text_eq, ltb, eqb, if◌then◌else◌, length, Result, ok, err,
}
use factum.Core.Platform.{Platform}
use factum.Core.Types.{Node, Predicate}
use factum.Core.Lexer.{
  Token, TokenKind, lparen, rparen, lbracket, rbracket, symbol, max_tokens, tokenize,
}
use factum.Core.Lexer.Scan.{LexError}
use factum.Core.Parser.Base.{
  Outcome, done, failed, out_of_fuel, Parser, pure, run, ◌>>=◌, ◌>>◌, ParseError, from_lexer,
  too_many_tokens, origin, peek, peek_second, is_eof, advance, expect, same_kind,
}
use factum.Core.Parser.Terms.{parse_body}
use factum.Core.Parser.Nodes.{parse_node}

-- the depth behind a token, from one more than `d`
abbrev pub deeper : TokenKind → ℕ → TokenKind → ℕ
deeper close d k =
    if same_kind k lparen || same_kind k lbracket
    then suc (suc d)
    else if same_kind k close
    then d
    else suc d

-- the loop of `skip_sexp`, with the depth that is left to close
unfoldable pub skip_balanced : TokenKind → ℕ → List Token → List Token
skip_balanced close zero ts = ts
skip_balanced close (suc d) [] = []
skip_balanced close (suc d) (t ∷ ts) =
    if is_eof t.kind then t ∷ ts else skip_balanced close (deeper close d t.kind) ts

-- `skip_sexp`
unfoldable pub skip_sexp : List Token → List Token
unfolding skip_balanced
skip_sexp ts =
    if same_kind (peek ts) lparen
    then skip_balanced rparen 1 (advance ts)
    else if same_kind (peek ts) lbracket
    then skip_balanced rbracket 1 (advance ts)
    else advance ts

-- the tokens, or the error in their place
unfoldable pub with_tokens :
    {A : Type 0} → Option (Result LexError (List Token)) → Parser A → Outcome A
with_tokens none k = out_of_fuel
with_tokens (some (err e)) k = failed (from_lexer e)
with_tokens (some (ok ts)) k =
    if ltb max_tokens (length ts)
    then failed (record { message = too_many_tokens; place = origin })
    else k ts

module _ {p : Platform} where
  -- the loop of `parse`
  unfoldable pub parse_nodes : ℕ → Parser (List (Node p))
  unfolding parse_node skip_sexp
  parse_nodes zero ts = out_of_fuel
  parse_nodes (suc fuel) ts =
      let node =
        run ts (do n ← parse_node (2 * length ts + 2) 0; ns ← parse_nodes fuel; pure (n ∷ ns)) in
      let skipped = parse_nodes fuel (skip_sexp ts) in
      let stray = parse_nodes fuel (advance ts) in
      if is_eof (peek ts)
      then done [] ts
      else if same_kind (peek ts) lparen
      then if peek_second (codes "node") ts then node else skipped
      else stray

  -- `Parser::parse`
  unfoldable pub parse : Text → Outcome (List (Node p))
  unfolding tokenize with_tokens parse_nodes
  parse src = with_tokens (tokenize src) (λ ts. parse_nodes (suc (length ts)) ts)

  -- `Parser::parse_predicate`, behind the lexer
  unfoldable pub single_predicate : Parser (Predicate p)
  unfolding parse_body expect
  single_predicate ts =
      run ts do expect lparen; q ← parse_body (2 * length ts + 2) 0; expect rparen; pure q

  -- `Parser::parse_predicate`
  unfoldable pub parse_predicate : Text → Outcome (Predicate p)
  unfolding tokenize with_tokens single_predicate
  parse_predicate src = with_tokens (tokenize src) single_predicate
