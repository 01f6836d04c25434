-- ===== src/Tests/Parser.antt =====
-- Tests of the lexer and the parser, and their theorems at concrete texts.
use factum.Prelude.{
  ◌<◌, ◌≡◌, refl, Option, some, List, [], ◌∷◌, All, codes, suc, pos, negsuc, ok, arith,
}
use factum.Prelude.Digits.{is_digit}
use factum.Core.Decimal.{dec_from_str, dec_to_string}
use factum.Core.Decimal.RoundTrip.{dec_from_str-dec_to_string}
use factum.Core.Parser.Canonical.{parse_predicate-canonical_predicate}
use factum.Core.Canonical.{canonical_predicate, canonical_head, canonical_literal}
use factum.Core.Parser.Spells.{PredicateSpells}
use factum.Core.Parser.Tokens.{term_tokens, PredicateFits}
use factum.Core.Types.{
  dur, Predicate, PredicateHead, predicate, Term, lit, compound, cons, nil, end, arg, str, dec,
}
use factum.Core.Lexer.{Token, tokenize, max_tokens}
use factum.Core.Lexer.Total.{Tokenizes, tokenize_total}
use factum.Core.Parser.{parse, parse_predicate}
use factum.Core.Parser.Base.{Outcome, done, max_parse_depth}
use factum.Core.Parser.Depth.{predicate_depth}
use factum.Core.Parser.Ensures.{Ensures}
use factum.Core.Parser.Sound.{IsParsed}
use factum.Core.Parser.Total.{parse_total, parse_predicate_total}
use factum.Tests.Data.{small}

tokenize_total_example : Tokenizes (suc max_tokens) (tokenize (codes "(p \"a\" #t) ; note"))
tokenize_total_example = tokenize_total (codes "(p \"a\" #t) ; note")

parse_total_example :
    Ensures
      (λ ns rest. All IsParsed ns)
      (parse {p = small} (codes "(node a :pred (p @x [1 2]) :conf 0.5 :perm internal)"))
parse_total_example =
    parse_total small (codes "(node a :pred (p @x [1 2]) :conf 0.5 :perm internal)")

parse_predicate_total_example :
    Ensures
      (λ q rest. predicate_depth q < max_parse_depth)
      (parse_predicate {p = small} (codes "(p (q (r @x)))"))
parse_predicate_total_example = parse_predicate_total small (codes "(p (q (r @x)))")

-- the predicate of an outcome
abbrev value : Outcome (Predicate small) → Option (Predicate small)
value (done q ts) = some q
value _ = Option.none

parse_named :
    value (parse_predicate (codes "(p ?v (q 1.50) :k \"a\\n\")"))
    ≡ some (
        predicate
          (PredicateHead.name (codes "p"))
          (cons (Term.var (codes "v")) (
            cons
              (compound
                (predicate (PredicateHead.name (codes "q")) (cons (lit (dec (pos 150) 2)) nil) end))
              nil))
          (arg (codes "k") (lit (str (b'a' ∷ 10 ∷ []))) end))
unfolding parse_predicate
parse_named = refl

dec_from_str-dec_to_string_example :
    dec_from_str {p = small} (dec_to_string (negsuc 4) 2) ≡ ok (dec (negsuc 4) 2)
dec_from_str-dec_to_string_example =
    dec_from_str-dec_to_string small (negsuc 4) 2 (omega arith) (omega arith)

minus_five_hundredths : dec_to_string (negsuc 4) 2 ≡ codes "-0.05"
unfolding dec_to_string
minus_five_hundredths = refl

-- `(p [?x] :k #dur(7ns))`
abbrev small_predicate : Predicate small
small_predicate =
    predicate (PredicateHead.name (codes "p"))
      (cons (Term.list (cons (Term.var (codes "x")) nil)) nil) (arg (codes "k") (lit (dur 7)) end)

parse_predicate-canonical_predicate_example :
    (rest : List Token) × (parse_predicate (canonical_predicate small_predicate)
      ≡ done small_predicate rest)
unfolding term_tokens predicate_depth PredicateFits PredicateSpells is_digit
parse_predicate-canonical_predicate_example =
    parse_predicate-canonical_predicate small_predicate
      (
        (((omega arith, refl), tt), refl, refl),
        (((omega arith, ((omega arith, refl), tt)), tt), tt),
        ((omega arith, ((omega arith, refl), tt)), tt, tt),
      )
      (tt, ((tt, tt), tt), (omega arith, tt)) (omega arith) (omega arith)

small_text : canonical_predicate small_predicate ≡ codes "(p [?x] :k #dur(7ns))"
unfolding canonical_predicate canonical_head canonical_literal
small_text = refl
