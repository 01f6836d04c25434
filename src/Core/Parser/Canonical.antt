-- ===== src/Core/Parser/Canonical.antt =====
-- `parse_predicate` (crates/factum-core/src/parser.rs) reads what `canonical_predicate`
-- (crates/factum-core/src/serialize.rs) prints.
use factum.Prelude.{
  ℕ, ◌≤◌, ◌<◌, false, ◌≡◌, Option, none, some, List, [], ◌∷◌, length, ltb, Result, ok, err, arith,
}
use factum.Core.Platform.{Platform}
use factum.Core.Types.{Predicate, compound}
use factum.Core.Canonical.{canonical_predicate}
use factum.Core.Lexer.{Token, tokenize, max_tokens}
use factum.Core.Lexer.Scan.{LexError}
use factum.Core.Lexer.Lexes.{Lists, tokenize-Lists}
use factum.Core.Parser.Base.{done, max_parse_depth}
use factum.Core.Parser.{with_tokens, single_predicate, parse_predicate}
use factum.Core.Parser.Depth.{predicate_depth}
use factum.Core.Parser.Tokens.{PredicateFits, term_tokens, Begins-length}
use factum.Core.Parser.RoundTrip.{single_predicate-reads}
use factum.Core.Parser.Spells.{PredicateSpells, canonical_predicate-Lexes}

not-ltb : (a b : ℕ) → b ≤ a → ltb a b ≡ false
not-ltb a b h = ground arith

-- A token list within the limit is handed to the parser.
with_tokens-reads :
    {p : Platform} (q : Predicate p) (r : Option (Result LexError (List Token)))
    → Lists (term_tokens (compound q)) r
    → length (term_tokens (compound q)) < max_tokens
    → predicate_depth q < max_parse_depth
    → PredicateFits q
    → (rest : List Token) × (with_tokens r single_predicate ≡ done q rest)
unfolding with_tokens
with_tokens-reads q none h n d v = absurd h
with_tokens-reads q (some (err e)) h n d v = absurd h
with_tokens-reads q (some (ok ts)) (last, b, e) n d v =
    let few : length ts ≤ max_tokens =
      omega (arith, Begins-length (term_tokens (compound q)) ts (last ∷ []) b) in
    (
      last ∷ [],
      rw (not-ltb max_tokens (length ts) few, with_tokens)
          (single_predicate-reads q ts (last ∷ []) b d v),
    )

-- `parse_predicate` returns a predicate from its canonical text, if it has fewer tokens than the
-- limit and nests less deep than the limit, and its parts can be spelled. Each head is a name of
-- one ASCII character or more, none of them a delimiter and the first neither a digit nor a minus
-- sign. Variables and the names of named arguments have one character or more, which are ASCII
-- letters, digits, minus signs and underscores; entities may have colons and points as well. Texts
-- are ASCII, URIs are ASCII without the mark that ends them, and dates are printed in ASCII without
-- a closing parenthesis. Decimals, durations and dates lie in the ranges that the program can read.
pub parse_predicate-canonical_predicate :
    {p : Platform} (q : Predicate p)
    → PredicateSpells q
    → PredicateFits q
    → predicate_depth q < max_parse_depth
    → length (term_tokens (compound q)) < max_tokens
    → (rest : List Token) × (parse_predicate (canonical_predicate q) ≡ done q rest)
unfolding parse_predicate
parse_predicate-canonical_predicate q s v d n =
    with_tokens-reads q (tokenize (canonical_predicate q))
      (tokenize-Lists (canonical_predicate-Lexes q s) (omega arith)) n d v
