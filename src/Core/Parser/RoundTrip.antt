-- ===== src/Core/Parser/RoundTrip.antt =====
-- The parser (crates/factum-core/src/parser.rs) reads the tokens of a predicate's canonical form
-- back.
use factum.Prelude.{
  ℕ, zero, suc, ◌+◌, ◌*◌, ◌≤◌, ◌<◌, Bool, true, false, ◌≡◌, refl, ap, ◌∙◌, List, [], ◌∷◌, ◌++◌,
  length, arith, ◌||◌,
}
use factum.Core.Platform.{Platform}
use factum.Core.Types.{
  Literal, dec, dur, Term, Terms, NamedArgs, Predicate, PredicateHead, ent, lit, compound, list,
  nil, cons, end, arg, predicate,
}
use factum.Core.Lexer.{
  Token, TokenKind, lparen, rparen, lbracket, rbracket, symbol, keyword, entity, eof,
}
use factum.Core.Parser.Base.{done, peek, is_eof, same_kind, advance, next, max_parse_depth}
use factum.Core.Parser.Terms.{
  nesting, atom, arg_form_of, positional_arg, parse_atom, parse_term, parse_items, parse_args,
  parse_body, parse_body_inner, in_parens, in_brackets, head_of_token,
}
use factum.Core.Decimal.RoundTrip.{dec_from_str-dec_to_string}
use factum.Core.Parser.Durations.{parse_duration-to_string}
use factum.Core.Parser.{single_predicate}
use factum.Core.Parser.Ensures.{advance_lt, advance_le}
use factum.Core.Parser.Depth.{term_depth, terms_depth, named_depth, predicate_depth}
use factum.Core.Parser.Tokens.{
  LiteralFits, literal_token, term_tokens, terms_tokens, named_tokens, predicate_tokens, TermFits,
  TermsFit, NamedFit, PredicateFits, Begins, Begins-append, Begins-next, Begins-length,
  expect-reads, closes-reads, with_depth-reads, bind-reads,
}

-- the tokens that a term opens with
starts_term : TokenKind → Bool
starts_term rparen = false
starts_term rbracket = false
starts_term (keyword k) = false
starts_term eof = false
starts_term _ = true

starts_arg : (k : TokenKind) → starts_term k ≡ true → arg_form_of false k ≡ positional_arg
unfolding starts_term arg_form_of
starts_arg rparen h = cc
starts_arg rbracket h = cc
starts_arg (keyword k) h = cc
starts_arg eof h = cc
starts_arg _ h = refl

starts_item : (k : TokenKind) → starts_term k ≡ true → (same_kind k rbracket || is_eof k) ≡ false
unfolding starts_term same_kind
starts_item rparen h = cc
starts_item rbracket h = cc
starts_item (keyword k) h = cc
starts_item eof h = cc
starts_item _ h = refl

literal-starts : {p : Platform} (l : Literal p) → starts_term (literal_token l) ≡ true
unfolding starts_term literal_token
literal-starts (dec m s) = refl
literal-starts _ = refl

starts-not-eof : (k : TokenKind) → starts_term k ≡ true → is_eof k ≡ false
unfolding starts_term
starts-not-eof eof h = cc
starts-not-eof _ h = refl

-- the first token of a term, and that it has one
first-starts :
    (k : TokenKind) (ks : List TokenKind) (ts rest : List Token)
    → starts_term k ≡ true
    → Begins (k ∷ ks) ts rest
    → (starts_term (peek ts) ≡ true) × (length rest < length ts)
first-starts k ks ts rest s b = (
  ap starts_term (Begins-next k ks ts rest (starts-not-eof k s) b).0 ∙ s,
  omega (arith, Begins-length (k ∷ ks) ts rest b),
)

term-starts :
    {p : Platform} (t : Term p) (ts rest : List Token)
    → Begins (term_tokens t) ts rest
    → (starts_term (peek ts) ≡ true) × (length rest < length ts)
unfolding term_tokens starts_term
term-starts (Term.var s) ts rest b = first-starts (TokenKind.var s) [] ts rest refl b
term-starts (ent e) ts rest b = first-starts (entity e) [] ts rest refl b
term-starts (lit l) ts rest b = first-starts (literal_token l) [] ts rest (literal-starts l) b
term-starts (compound q) ts rest b =
    first-starts lparen (predicate_tokens q ++ (rparen ∷ [])) ts rest refl b
term-starts (list is) ts rest b =
    first-starts lbracket (terms_tokens is ++ (rbracket ∷ [])) ts rest refl b

-- A term of one token.
atom-reads :
    {p : Platform} (t : Term p) (k : TokenKind) (fuel depth : ℕ) (ts rest : List Token)
    → Begins (k ∷ []) ts rest
    → is_eof k ≡ false
    → nesting k ≡ atom
    → parse_atom k ts ≡ done t (advance ts)
    → parse_term (suc fuel) depth ts ≡ done t rest
unfolding parse_term
atom-reads t k fuel depth ts rest b n a e =
    let (first, r) = Begins-next k [] ts rest n b in
    rw (ap nesting first ∙ a, parse_term)
      (ap (λ (j : TokenKind). parse_atom j ts) first ∙ e ∙ ap (done t) r)

literal-reads :
    {p : Platform} (l : Literal p) (ts : List Token)
    → LiteralFits l
    → parse_atom (literal_token l) ts ≡ done (lit l) (advance ts)
unfolding parse_atom literal_token
literal-reads {p = p} (dec m s) ts v =
    rw (dec_from_str-dec_to_string p m s v.0 v.1, parse_atom) refl
literal-reads (Literal.str s) ts v = refl
literal-reads (Literal.date d) ts v = rw (v, parse_atom) refl
literal-reads (dur n) ts v = rw (parse_duration-to_string n v, parse_atom) refl
literal-reads (Literal.bool b) ts v = refl
literal-reads (Literal.uri u) ts v = refl

literal-atom :
    {p : Platform} (l : Literal p)
    → (is_eof (literal_token l) ≡ false) × (nesting (literal_token l) ≡ atom)
unfolding literal_token nesting
literal-atom (dec m s) = (refl, refl)
literal-atom _ = (refl, refl)

mutual
  unfolding term_tokens terms_tokens named_tokens predicate_tokens parse_term parse_items parse_args
      parse_body_inner TermFits TermsFit NamedFit PredicateFits term_depth terms_depth named_depth
      predicate_depth next head_of_token

  term-reads :
      {p : Platform} (t : Term p) (fuel depth : ℕ) (ts rest : List Token)
      → Begins (term_tokens t) ts rest
      → 2 * length ts + 1 ≤ fuel
      → term_depth t + depth ≤ max_parse_depth
      → TermFits t
      → parse_term fuel depth ts ≡ done t rest
  term-reads t zero depth ts rest b f d v = absurd (omega arith)
  term-reads (Term.var s) (suc fuel) depth ts rest b f d v =
      atom-reads (Term.var s) (TokenKind.var s) fuel depth ts rest b refl refl refl
  term-reads (ent e) (suc fuel) depth ts rest b f d v =
      atom-reads (ent e) (entity e) fuel depth ts rest b refl refl refl
  term-reads (lit l) (suc fuel) depth ts rest b f d v =
      atom-reads (lit l) (literal_token l) fuel depth ts rest b (literal-atom l).0
        (literal-atom l).1 (literal-reads l ts v)
  term-reads (compound q) (suc fuel) depth ts rest b f d v =
      let (first, b') = Begins-next lparen (predicate_tokens q ++ (rparen ∷ [])) ts rest refl b in
      let (mid, b1, b2) = Begins-append (predicate_tokens q) (rparen ∷ []) (advance ts) rest b' in
      let (close, r) = Begins-next rparen [] mid rest refl b2 in
      rw (ap nesting first, parse_term)
        (with_depth-reads depth (in_parens (parse_body_inner fuel)) ts (omega arith)
          ∙ (bind-reads _ (
                body-reads q fuel (depth + 1) (advance ts) mid b1 close
                  (omega (arith, advance_lt ts (ap is_eof first))) (omega arith) v)
              ∙ (bind-reads _ (expect-reads rparen mid close) ∙ ap (done (compound q)) r)))
  term-reads (list is) (suc fuel) depth ts rest b f d v =
      let (first, b') = Begins-next lbracket (terms_tokens is ++ (rbracket ∷ [])) ts rest refl b in
      let (mid, b1, b2) = Begins-append (terms_tokens is) (rbracket ∷ []) (advance ts) rest b' in
      let (close, r) = Begins-next rbracket [] mid rest refl b2 in
      rw (ap nesting first, parse_term)
        (with_depth-reads depth (in_brackets (parse_items fuel)) ts (omega arith)
          ∙ (bind-reads _ (
                items-reads is fuel (depth + 1) (advance ts) mid b1 close
                  (omega (arith, advance_lt ts (ap is_eof first))) (omega arith) v)
              ∙ (bind-reads _ (expect-reads rbracket mid close) ∙ ap (done (list is)) r)))

  items-reads :
      {p : Platform} (is : Terms p) (fuel depth : ℕ) (ts rest : List Token)
      → Begins (terms_tokens is) ts rest
      → peek rest ≡ rbracket
      → 2 * length ts + 2 ≤ fuel
      → terms_depth is + depth ≤ max_parse_depth
      → TermsFit is
      → parse_items fuel depth ts ≡ done is rest
  items-reads is zero depth ts rest b l f d v = absurd (omega arith)
  items-reads nil (suc fuel) depth ts rest b l f d v =
      rw (closes-reads rbracket ts (ap peek b ∙ l), parse_items) (ap (done nil) b)
  items-reads (cons t is) (suc fuel) depth ts rest b l f d v =
      let (mid, b1, b2) = Begins-append (term_tokens t) (terms_tokens is) ts rest b in
      let (s, less) = term-starts t ts mid b1 in
      rw (starts_item (peek ts) s, parse_items)
        (bind-reads _ (term-reads t fuel depth ts mid b1 (omega arith) (ground arith) v.0)
          ∙ bind-reads _ (items-reads is fuel depth mid rest b2 l (omega arith) (ground arith) v.1))

  -- the positional arguments, where the named ones are read
  args-reads :
      {p : Platform} (is : Terms p) (ns : NamedArgs p) (fuel depth : ℕ) (ts mid rest : List Token)
      → Begins (terms_tokens is) ts mid
      → ((g : ℕ) → 2 * length mid + 2 ≤ g → parse_args g depth false mid ≡ done (nil, ns) rest)
      → 2 * length ts + 2 ≤ fuel
      → terms_depth is + depth ≤ max_parse_depth
      → TermsFit is
      → parse_args fuel depth false ts ≡ done (is, ns) rest
  args-reads is ns zero depth ts mid rest b k f d v = absurd (omega arith)
  args-reads nil ns (suc fuel) depth ts mid rest b k f d v =
      rw b (k (suc fuel) (omega (arith, ap length b)))
  args-reads (cons t is) ns (suc fuel) depth ts mid rest b k f d v =
      let (m, b1, b2) = Begins-append (term_tokens t) (terms_tokens is) ts mid b in
      let (s, less) = term-starts t ts m b1 in
      rw (starts_arg (peek ts) s, parse_args)
        (bind-reads _ (term-reads t fuel depth ts m b1 (omega arith) (ground arith) v.0)
          ∙ bind-reads _
              (args-reads is ns fuel depth m mid rest b2 k (omega arith) (ground arith) v.1))

  named-reads :
      {p : Platform} (ns : NamedArgs p) (fuel depth : ℕ) (in_named : Bool) (ts rest : List Token)
      → Begins (named_tokens ns) ts rest
      → peek rest ≡ rparen
      → 2 * length ts + 2 ≤ fuel
      → named_depth ns + depth ≤ max_parse_depth
      → NamedFit ns
      → parse_args fuel depth in_named ts ≡ done (nil, ns) rest
  named-reads ns zero depth i ts rest b l f d v = absurd (omega arith)
  named-reads end (suc fuel) depth i ts rest b l f d v =
      rw (ap (arg_form_of i) (ap peek b ∙ l), parse_args) (ap (done (nil, end)) b)
  named-reads (arg k t ns) (suc fuel) depth i ts rest b l f d v =
      let (first, b') = Begins-next (keyword k) (term_tokens t ++ named_tokens ns) ts rest refl b in
      let (mid, b1, b2) = Begins-append (term_tokens t) (named_tokens ns) (advance ts) rest b' in
      rw (ap (arg_form_of i) first, parse_args)
        (bind-reads _ (
            term-reads t fuel depth (advance ts) mid b1
              (omega (arith, advance_lt ts (ap is_eof first))) (ground arith) v.0)
          ∙ bind-reads _ (
              named-reads ns fuel depth true mid rest b2 l
                (omega
                  (arith, advance_lt ts (ap is_eof first), (term-starts t (advance ts) mid b1).1))
                (ground arith) v.1))

  body-reads :
      {p : Platform} (q : Predicate p) (fuel depth : ℕ) (ts rest : List Token)
      → Begins (predicate_tokens q) ts rest
      → peek rest ≡ rparen
      → 2 * length ts + 1 ≤ fuel
      → predicate_depth q + depth ≤ max_parse_depth
      → PredicateFits q
      → parse_body_inner fuel depth ts ≡ done q rest
  body-reads q zero depth ts rest b l f d v = absurd (omega arith)
  body-reads (predicate (PredicateHead.id i) is ns) (suc fuel) depth ts rest b l f d v = absurd v.0
  body-reads (predicate (PredicateHead.name s) is ns) (suc fuel) depth ts rest b l f d v =
      let (first, b') =
        Begins-next (symbol s) (terms_tokens is ++ named_tokens ns) ts rest refl b in
      let (mid, b1, b2) = Begins-append (terms_tokens is) (named_tokens ns) (advance ts) rest b' in
      bind-reads _ (ap (λ (k : TokenKind). head_of_token k (advance ts)) first)
      ∙ bind-reads _ (
          args-reads is ns fuel depth (advance ts) mid rest b1
            (λ g h. named-reads ns g depth false mid rest b2 l h (ground arith) v.2)
            (omega (arith, advance_lt ts (ap is_eof first))) (ground arith) v.1)

-- `parse_predicate` behind the lexer returns a predicate from the tokens of its canonical form,
-- whatever tokens follow, if its arguments nest less deep than the limit, its heads are names, its
-- decimals, durations and dates lie in the ranges that the program can read.
pub single_predicate-reads :
    {p : Platform} (q : Predicate p) (ts rest : List Token)
    → Begins (term_tokens (compound q)) ts rest
    → predicate_depth q < max_parse_depth
    → PredicateFits q
    → single_predicate ts ≡ done q rest
unfolding single_predicate parse_body term_tokens
single_predicate-reads q ts rest b d v =
    let (first, b') = Begins-next lparen (predicate_tokens q ++ (rparen ∷ [])) ts rest refl b in
    let (mid, b1, b2) = Begins-append (predicate_tokens q) (rparen ∷ []) (advance ts) rest b' in
    let (close, r) = Begins-next rparen [] mid rest refl b2 in
    bind-reads _ (expect-reads lparen ts first)
    ∙ (bind-reads _ (
          with_depth-reads 0 (parse_body_inner (2 * length ts + 2)) (advance ts) (omega arith)
          ∙ body-reads q (2 * length ts + 2) 1 (advance ts) mid b1 close
              (omega (arith, advance_le ts)) (omega arith) v)
        ∙ (bind-reads _ (expect-reads rparen mid close) ∙ ap (done q) r))
