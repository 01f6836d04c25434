-- ===== src/Core/Parser/Depth.antt =====
-- How deep the values nest that crates/factum-core/src/parser.rs returns, and that its recursion
-- ends.
use factum.Prelude.{
  ℕ, zero, suc, ◌+◌, ◌*◌, ◌≤◌, ◌<◌, Bool, Bool-cases, true, false, ◌≡◌, refl, ap, ◌⊎◌, inl, inr,
  Option, List, Text, length, arith, max, max,
}
use factum.Core.Platform.{Platform}
use factum.Core.Types.{
  Literal, Term, Terms, NamedArgs, Predicate, ent, lit, compound, list, nil, cons, end, arg,
  predicate,
}
use factum.Core.Lexer.{
  Token, TokenKind, lparen, rparen, lbracket, rbracket, symbol, keyword, number, duration, entity,
  eof,
}
use factum.Core.Parser.Base.{
  ParseMessage, peek, is_eof, advance, next, max_parse_depth, unexpected_term,
}
use factum.Core.Parser.Terms.{
  nesting, predicate_form, list_form, atom, arg_form_of, last, misplaced, positional_arg, named_arg,
  literal, head_of_token, parse_atom, parse_term, parse_items, parse_args, parse_body_inner,
  in_parens, in_brackets, positional, named, closes,
}
use factum.Core.Parser.Ensures.{
  Ensures, returns, Ensures-bind, Ensures-error, Ensures-lift, Ensures-with_depth, advance_lt,
  expect-Ensures,
}

-- The number of forms around the innermost value.
unfoldable mutual
  pub term_depth : {p : Platform} → Term p → ℕ
  term_depth (Term.var s) = 0
  term_depth (ent e) = 0
  term_depth (lit l) = 0
  term_depth (compound q) = suc (predicate_depth q)
  term_depth (list ts) = suc (terms_depth ts)

  pub terms_depth : {p : Platform} → Terms p → ℕ
  terms_depth nil = 0
  terms_depth (cons t ts) = max (term_depth t) (terms_depth ts)

  pub named_depth : {p : Platform} → NamedArgs p → ℕ
  named_depth end = 0
  named_depth (arg k t ns) = max (term_depth t) (named_depth ns)

  pub predicate_depth : {p : Platform} → Predicate p → ℕ
  predicate_depth (predicate h ts ns) = max (terms_depth ts) (named_depth ns)

module _ {p : Platform} where
  -- A value of so much depth, with fewer tokens left.
  abbrev TermAt : ℕ → List Token → Term p → List Token → Type 0
  TermAt depth ts t rest = (length rest < length ts) × (term_depth t + depth ≤ max_parse_depth)

  abbrev TermsAt : ℕ → List Token → Terms p → List Token → Type 0
  TermsAt depth ts is rest = (length rest ≤ length ts) × (terms_depth is + depth ≤ max_parse_depth)

  abbrev ArgsAt : ℕ → List Token → Terms p × NamedArgs p → List Token → Type 0
  ArgsAt depth ts r rest =
      (length rest ≤ length ts)
      × (terms_depth r.0 + depth ≤ max_parse_depth)
      × (named_depth r.1 + depth ≤ max_parse_depth)

  abbrev pub PredicateAt : ℕ → List Token → Predicate p → List Token → Type 0
  PredicateAt depth ts q rest =
      (length rest < length ts) × (predicate_depth q + depth ≤ max_parse_depth)

  literal-TermAt :
      (depth : ℕ) (ts rest : List Token) (m : ParseMessage) (o : Option (Literal p))
      → depth ≤ max_parse_depth
      → length rest < length ts
      → Ensures (TermAt depth ts) (literal m o rest)
  unfolding term_depth
  literal-TermAt depth ts rest m o d h =
      Ensures-bind (Ensures-lift {P = λ l rest'. rest' ≡ rest} m o rest (λ a _. refl))
        (λ l rest' e. returns (omega (arith, ap length e), omega arith))

  atom-TermAt :
      (depth : ℕ) (ts rest : List Token) (k : TokenKind)
      → depth ≤ max_parse_depth
      → (is_eof k ≡ false → length (advance rest) < length ts)
      → Ensures (TermAt depth ts) (parse_atom k rest)
  unfolding parse_atom term_depth
  atom-TermAt depth ts rest (TokenKind.var s) d h = returns (h refl, omega arith)
  atom-TermAt depth ts rest (entity s) d h = returns (h refl, omega arith)
  atom-TermAt depth ts rest (number s) d h = literal-TermAt depth ts (advance rest) _ _ d (h refl)
  atom-TermAt depth ts rest (TokenKind.str s) d h = returns (h refl, omega arith)
  atom-TermAt depth ts rest (TokenKind.bool b) d h = returns (h refl, omega arith)
  atom-TermAt depth ts rest (TokenKind.date s) d h =
      literal-TermAt depth ts (advance rest) _ _ d (h refl)
  atom-TermAt depth ts rest (duration s) d h = literal-TermAt depth ts (advance rest) _ _ d (h refl)
  atom-TermAt depth ts rest (TokenKind.uri s) d h = returns (h refl, omega arith)
  atom-TermAt depth ts rest (symbol s) d h = returns (h refl, omega arith)
  atom-TermAt depth ts rest lparen d h = Ensures-error unexpected_term rest
  atom-TermAt depth ts rest rparen d h = Ensures-error unexpected_term rest
  atom-TermAt depth ts rest lbracket d h = Ensures-error unexpected_term rest
  atom-TermAt depth ts rest rbracket d h = Ensures-error unexpected_term rest
  atom-TermAt depth ts rest (keyword s) d h = Ensures-error unexpected_term rest
  atom-TermAt depth ts rest eof d h = Ensures-error unexpected_term rest

head-Ensures :
    (k : TokenKind) (ts : List Token)
    → Ensures (λ h rest. (rest ≡ ts) × (is_eof k ≡ false)) (head_of_token k ts)
unfolding head_of_token
head-Ensures (symbol s) ts = returns (refl, refl)
head-Ensures lparen ts = Ensures-error _ ts
head-Ensures rparen ts = Ensures-error _ ts
head-Ensures lbracket ts = Ensures-error _ ts
head-Ensures rbracket ts = Ensures-error _ ts
head-Ensures (TokenKind.var s) ts = Ensures-error _ ts
head-Ensures (keyword s) ts = Ensures-error _ ts
head-Ensures (TokenKind.str s) ts = Ensures-error _ ts
head-Ensures (number s) ts = Ensures-error _ ts
head-Ensures (TokenKind.date s) ts = Ensures-error _ ts
head-Ensures (duration s) ts = Ensures-error _ ts
head-Ensures (TokenKind.bool s) ts = Ensures-error _ ts
head-Ensures (TokenKind.uri s) ts = Ensures-error _ ts
head-Ensures (entity s) ts = Ensures-error _ ts
head-Ensures eof ts = Ensures-error _ ts

Nesting-cases :
    (k : TokenKind)
    → ((nesting k ≡ predicate_form) × (is_eof k ≡ false))
      ⊎ ((nesting k ≡ list_form) × (is_eof k ≡ false))
      ⊎ (nesting k ≡ atom)
unfolding nesting
Nesting-cases lparen = inl (refl, refl)
Nesting-cases lbracket = inr (inl (refl, refl))
Nesting-cases rparen = inr (inr refl)
Nesting-cases _ = inr (inr refl)

ArgForm-cases :
    (in_named : Bool) (k : TokenKind)
    → (arg_form_of in_named k ≡ last)
      ⊎ ((s : Text) × (arg_form_of in_named k ≡ named_arg s) × (is_eof k ≡ false))
      ⊎ (arg_form_of in_named k ≡ misplaced)
      ⊎ (arg_form_of in_named k ≡ positional_arg)
unfolding arg_form_of
ArgForm-cases b rparen = inl refl
ArgForm-cases b eof = inl refl
ArgForm-cases b (keyword s) = inr (inl (s, refl, refl))
ArgForm-cases true _ = inr (inr (inl refl))
ArgForm-cases false _ = inr (inr (inr refl))

mutual
  unfolding parse_term parse_items parse_args parse_body_inner next terms_depth named_depth
      term_depth predicate_depth

  parse_term-Ensures :
      {p : Platform} (fuel depth : ℕ) (ts : List Token)
      → 2 * length ts + 1 ≤ fuel
      → depth ≤ max_parse_depth
      → Ensures (TermAt {p = p} depth ts) (parse_term fuel depth ts)
  parse_term-Ensures zero depth ts h d = absurd (omega arith)
  parse_term-Ensures {p = p} (suc fuel) depth ts h d = elim (Nesting-cases (peek ts)) [
    | inl (e, k) ↦
        rw (e, parse_term)
          (Ensures-with_depth depth (in_parens (parse_body_inner fuel)) ts λ low.
            Ensures-bind
              (parse_body_inner-Ensures fuel (depth + 1) (advance ts)
                (omega (arith, advance_lt ts k)) (omega arith))
              λ q rest hq. Ensures-bind (expect-Ensures rparen rest) λ u rest' hr.
                returns {a = compound q} {ts = rest'} (omega (arith, advance_lt ts k), omega arith))
    | inr (inl (e, k)) ↦
        rw (e, parse_term)
          (Ensures-with_depth depth (in_brackets (parse_items fuel)) ts λ low.
            Ensures-bind
              (parse_items-Ensures fuel (depth + 1) (advance ts) (omega (arith, advance_lt ts k))
                (omega arith))
              λ q rest hq. Ensures-bind (expect-Ensures rbracket rest) λ u rest' hr.
                returns {a = list q} {ts = rest'} (omega (arith, advance_lt ts k), omega arith))
    | inr (inr e) ↦ rw (e, parse_term) (atom-TermAt depth ts ts (peek ts) d (advance_lt ts))
  ]

  parse_items-Ensures :
      {p : Platform} (fuel depth : ℕ) (ts : List Token)
      → 2 * length ts + 2 ≤ fuel
      → depth ≤ max_parse_depth
      → Ensures (TermsAt {p = p} depth ts) (parse_items fuel depth ts)
  parse_items-Ensures zero depth ts h d = absurd (omega arith)
  parse_items-Ensures (suc fuel) depth ts h d = elim (Bool-cases (closes rbracket ts)) [
    | inl e ↦ rw (e, parse_items) (returns (omega arith, omega arith))
    | inr e ↦
        rw (e, parse_items)
          (Ensures-bind (parse_term-Ensures fuel depth ts (omega arith) d) λ t rest ht.
            Ensures-bind (parse_items-Ensures fuel depth rest (omega arith) d)
              λ is rest' hi. returns {a = cons t is} {ts = rest'} (omega arith, ground arith))
  ]

  parse_args-Ensures :
      {p : Platform} (fuel depth : ℕ) (in_named : Bool) (ts : List Token)
      → 2 * length ts + 2 ≤ fuel
      → depth ≤ max_parse_depth
      → Ensures (ArgsAt {p = p} depth ts) (parse_args fuel depth in_named ts)
  parse_args-Ensures zero depth b ts h d = absurd (omega arith)
  parse_args-Ensures {p = p} (suc fuel) depth b ts h d = elim (ArgForm-cases b (peek ts)) [
    | inl e ↦ rw (e, parse_args) (returns (omega arith, omega arith, omega arith))
    | inr (inl (s, e, k)) ↦
        rw (e, parse_args)
          (Ensures-bind
            (parse_term-Ensures fuel depth (advance ts) (omega (arith, advance_lt ts k)) d)
            λ t rest ht.
              Ensures-bind
                (parse_args-Ensures fuel depth true rest (omega (arith, advance_lt ts k)) d)
                λ r rest' hr.
                  returns {a = named s t r} {ts = rest'}
                    (omega (arith, advance_lt ts k), hr.1, ground arith))
    | inr (inr (inl e)) ↦ rw (e, parse_args) (Ensures-error _ ts)
    | inr (inr (inr e)) ↦
        rw (e, parse_args)
          (Ensures-bind (parse_term-Ensures fuel depth ts (omega arith) d) λ t rest ht.
            Ensures-bind (parse_args-Ensures fuel depth false rest (omega arith) d) λ r rest' hr.
              returns {a = positional t r} {ts = rest'} (omega arith, ground arith, hr.2))
  ]

  pub parse_body_inner-Ensures :
      {p : Platform} (fuel depth : ℕ) (ts : List Token)
      → 2 * length ts + 1 ≤ fuel
      → depth ≤ max_parse_depth
      → Ensures (PredicateAt {p = p} depth ts) (parse_body_inner fuel depth ts)
  parse_body_inner-Ensures zero depth ts h d = absurd (omega arith)
  parse_body_inner-Ensures {p = p} (suc fuel) depth ts h d =
      Ensures-bind (head-Ensures (peek ts) (advance ts)) λ hd rest hh.
        Ensures-bind
          (parse_args-Ensures fuel depth false rest
            (omega (arith, ap length hh.0, advance_lt ts hh.1)) d)
          λ r rest' hr.
            returns {a = predicate hd r.0 r.1} {ts = rest'}
              (omega (arith, ap length hh.0, advance_lt ts hh.1), ground arith)
