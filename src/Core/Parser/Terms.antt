-- ===== src/Core/Parser/Terms.antt =====
-- Terms and predicates in crates/factum-core/src/parser.rs.
use factum.Prelude.{
  ℕ, zero, suc, ◌*◌, ◌%◌, ◌^◌, Bool, true, false, ◌&&◌, ◌||◌, List, [], ◌∷◌, Text, codes, text_eq,
  eqb, ltb, if◌then◌else◌, Option, none, some,
}
use factum.Prelude.Digits.{all_digits, is_digit, value_from}
use factum.Prelude.Strings.{trim}
use factum.Core.Platform.{Platform}
use factum.Core.Decimal.{dec_from_str}
use factum.Core.Types.{
  Literal, PredicateHead, Term, Terms, NamedArgs, Predicate, ent, lit, compound, list, nil, cons,
  end, arg, predicate,
}
use factum.Core.Lexer.{
  Token, TokenKind, lparen, rparen, lbracket, rbracket, symbol, keyword, number, duration, entity,
  eof,
}
use factum.Core.Parser.Base.{
  done, out_of_fuel, Parser, pure, run, ◌>>=◌, ◌>>◌, ParseMessage, bad_decimal, bad_date,
  bad_duration, unexpected_term, expected_head, positional_after_named, peek, is_eof, advance,
  error, same_kind, expect, next, with_depth, lift, from_result,
}

-- `parse` of an unsigned integer below a bound: one `+` is accepted before the digits
unfoldable pub parse_unsigned : ℕ → Text → Option ℕ
unfolding all_digits value_from
parse_unsigned bound [] = none
parse_unsigned bound (c ∷ cs) =
    let digits = if eqb c b'+' then cs else c ∷ cs in
    elim digits [
      | [] ↦ none
      | d ∷ ds ↦
          if all_digits (d ∷ ds) && ltb (value_from 0 (d ∷ ds)) bound
          then some (value_from 0 (d ∷ ds))
          else none
    ]

-- `strip_suffix("ns")`
unfoldable pub strip_ns : Text → Option Text
strip_ns [] = none
strip_ns (c ∷ cs) =
    let rest = strip_ns cs in
    if text_eq (c ∷ cs) (codes "ns")
    then some []
    else elim rest [ none ↦ none | some r ↦ some (c ∷ r) ]

-- The digits before the first character that is none, and the rest.
unfoldable pub split_unit : Text → Text × Text
unfolding is_digit
split_unit [] = ([], [])
split_unit (c ∷ cs) =
    let (digits, unit) = split_unit cs in if is_digit c then (c ∷ digits, unit) else ([], c ∷ cs)

abbrev pub nanos_per_second : ℕ
nanos_per_second = 10 ^ 9

-- The seconds of a number with its unit, as nanoseconds; the products of seconds are u64 and wrap
-- around, as in a release build.
unfoldable pub duration_of : ℕ → Text → Option ℕ
duration_of n unit =
    if text_eq unit (codes "s")
    then some (n * nanos_per_second)
    else if text_eq unit (codes "m")
    then some (n * 60 % 2 ^ 64 * nanos_per_second)
    else if text_eq unit (codes "h")
    then some (n * 3600 % 2 ^ 64 * nanos_per_second)
    else if text_eq unit (codes "d")
    then some (n * 86400 % 2 ^ 64 * nanos_per_second)
    else none

-- the part of `parse_duration` behind the test for "ns". The code splits at a character's number,
-- which is its byte's, since digits stand before it.
unfoldable pub parse_duration_unit : Text → Option ℕ
unfolding parse_unsigned split_unit duration_of
parse_duration_unit s =
    let (digits, unit) = split_unit s in
    elim (parse_unsigned (2 ^ 64) digits) [ none ↦ none | some n ↦ duration_of n unit ]

-- the choice between the two forms
unfoldable pub duration_in : Text → Option ℕ
unfolding strip_ns parse_unsigned parse_duration_unit
duration_in s = elim (strip_ns s) [
  | some digits ↦ parse_unsigned (2 ^ 64) digits
  | none ↦ parse_duration_unit s
]

-- `parse_duration`, in nanoseconds
unfoldable pub parse_duration : Text → Option ℕ
unfolding trim duration_in
parse_duration text = duration_in (trim text)

-- a loop ends before a token
abbrev pub closes : TokenKind → List Token → Bool
closes k ts = same_kind (peek ts) k || is_eof (peek ts)

abbrev pub map_option : {A B : Type 0} → (A → B) → Option A → Option B
map_option f none = none
map_option f (some a) = some (f a)

-- the token as a predicate's head
unfoldable pub head_of_token : TokenKind → Parser PredicateHead
head_of_token (symbol s) ts = done (PredicateHead.name s) ts
head_of_token _ ts = error expected_head ts

module _ {p : Platform} where
  -- the positional and the named arguments behind one more of either
  abbrev pub positional : Term p → Terms p × NamedArgs p → Terms p × NamedArgs p
  positional t (ts, ns) = (cons t ts, ns)

  abbrev pub named : Text → Term p → Terms p × NamedArgs p → Terms p × NamedArgs p
  named k t (ts, ns) = (ts, arg k t ns)

  -- the decimal, date or duration of a token
  abbrev pub literal : ParseMessage → Option (Literal p) → Parser (Term p)
  literal m o = lift m o >>= λ l. pure (lit l)

  -- the terms of one token
  unfoldable pub parse_atom : TokenKind → Parser (Term p)
  unfolding dec_from_str parse_duration lift
  parse_atom (TokenKind.var s) ts = done (Term.var s) (advance ts)
  parse_atom (entity s) ts = done (ent s) (advance ts)
  parse_atom (number s) ts = literal bad_decimal (from_result (dec_from_str {p = p} s)) (advance ts)
  parse_atom (TokenKind.str s) ts = done (lit (Literal.str s)) (advance ts)
  parse_atom (TokenKind.bool b) ts = done (lit (Literal.bool b)) (advance ts)
  parse_atom (TokenKind.date s) ts =
      literal bad_date (map_option Literal.date (p.parse_date s)) (advance ts)
  parse_atom (duration s) ts =
      literal bad_duration (map_option Literal.dur (parse_duration s)) (advance ts)
  parse_atom (TokenKind.uri s) ts = done (lit (Literal.uri s)) (advance ts)
  parse_atom (symbol s) ts = done (ent s) (advance ts)
  parse_atom _ ts = error unexpected_term ts

-- what a term opens with
pub data Nesting : Type 0 where
  predicate_form list_form atom : Nesting

unfoldable pub nesting : TokenKind → Nesting
nesting lparen = predicate_form
nesting lbracket = list_form
nesting _ = atom

-- how the loop over the arguments goes on
pub data ArgForm : Type 0 where
  last misplaced positional_arg : ArgForm
  named_arg : Text → ArgForm

unfoldable pub arg_form_of : Bool → TokenKind → ArgForm
arg_form_of in_named rparen = last
arg_form_of in_named eof = last
arg_form_of in_named (keyword k) = named_arg k
arg_form_of in_named _ = if in_named then misplaced else positional_arg

abbrev pub arg_form : Bool → List Token → ArgForm
arg_form in_named ts = arg_form_of in_named (peek ts)

module _ {p : Platform} where
  -- the two forms that nest, with the parser of what stands inside
  abbrev pub in_parens : (ℕ → Parser (Predicate p)) → ℕ → Parser (Term p)
  in_parens body depth = do next; q ← body depth; expect rparen; pure (compound q)

  abbrev pub in_brackets : (ℕ → Parser (Terms p)) → ℕ → Parser (Term p)
  in_brackets items depth = do next; is ← items depth; expect rbracket; pure (list is)

-- The recursion, on fuel: `parse_term`, the loop over the items of a list, and the loop of
-- `parse_predicate_body_inner`, whose flag says that a named argument has been read.
unfoldable mutual
  unfolding peek same_kind advance error expect next with_depth head_of_token parse_atom nesting
      arg_form_of

  pub parse_term : {p : Platform} → ℕ → ℕ → Parser (Term p)
  parse_term zero depth ts = out_of_fuel
  parse_term (suc fuel) depth ts = elim (nesting (peek ts)) [
    | predicate_form ↦ with_depth depth (in_parens (parse_body_inner fuel)) ts
    | list_form ↦ with_depth depth (in_brackets (parse_items fuel)) ts
    | atom ↦ parse_atom (peek ts) ts
  ]

  pub parse_items : {p : Platform} → ℕ → ℕ → Parser (Terms p)
  parse_items zero depth ts = out_of_fuel
  parse_items (suc fuel) depth ts = elim (closes rbracket ts) [
    | true ↦ done nil ts
    | false ↦ run ts do t ← parse_term fuel depth; is ← parse_items fuel depth; pure (cons t is)
  ]

  pub parse_args : {p : Platform} → ℕ → ℕ → Bool → Parser (Terms p × NamedArgs p)
  parse_args zero depth in_named ts = out_of_fuel
  parse_args (suc fuel) depth in_named ts = elim (arg_form in_named ts) [
    | last ↦ done (nil, end) ts
    | named_arg k ↦
        run (advance ts)
          do t ← parse_term fuel depth; rest ← parse_args fuel depth true; pure (named k t rest)
    | misplaced ↦ error positional_after_named ts
    | positional_arg ↦
        run ts
          do t ← parse_term fuel depth; rest ← parse_args fuel depth false; pure (positional t rest)
  ]

  pub parse_body_inner : {p : Platform} → ℕ → ℕ → Parser (Predicate p)
  parse_body_inner zero depth ts = out_of_fuel
  parse_body_inner (suc fuel) depth ts =
      run ts do
        k ← next
        h ← head_of_token k
        r ← parse_args fuel depth false
        pure (predicate h r.0 r.1)

module _ {p : Platform} where
  -- `parse_predicate_body`
  unfoldable pub parse_body : ℕ → ℕ → Parser (Predicate p)
  unfolding parse_body_inner with_depth
  parse_body fuel depth = with_depth depth (parse_body_inner fuel)

  abbrev pub predicate_in_parens : (ℕ → Parser (Predicate p)) → ℕ → Parser (Predicate p)
  predicate_in_parens body depth = do expect lparen; q ← body depth; expect rparen; pure q

  -- `parse_predicate_form`
  unfoldable pub parse_predicate_form : ℕ → ℕ → Parser (Predicate p)
  unfolding parse_body_inner with_depth expect
  parse_predicate_form fuel depth = with_depth depth (predicate_in_parens (parse_body_inner fuel))
