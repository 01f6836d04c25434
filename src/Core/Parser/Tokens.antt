-- ===== src/Core/Parser/Tokens.antt =====
-- The tokens of the canonical form (crates/factum-core/src/serialize.rs), and token lists that
-- begin with given tokens.
use factum.Prelude.{
  ℕ, ◌+◌, ◌^◌, ◌≤◌, ◌<◌, true, false, ◌≡◌, refl, ap, some, List, [], ◌∷◌, ◌++◌, codes, length,
  arith,
}
use factum.Prelude.Digits.{to_string}
use factum.Core.Platform.{Platform}
use factum.Core.Decimal.{dec_to_string, i128_max}
use factum.Core.Decimal.RoundTrip.{magnitude}
use factum.Core.Types.{
  Literal, dec, dur, PredicateHead, Term, Terms, NamedArgs, Predicate, ent, lit, compound, list,
  nil, cons, end, arg, predicate,
}
use factum.Core.Lexer.{
  Token, TokenKind, lparen, rparen, lbracket, rbracket, symbol, keyword, number, duration, entity,
}
use factum.Core.Parser.Terms.{closes}
use factum.Core.Parser.Base.{
  Outcome, done, Parser, bind, peek, is_eof, advance, expect, same_kind, with_depth,
  max_parse_depth,
}

-- The values whose canonical form can be read: the ranges of the machine's integers, dates that
-- chrono reads as it wrote them, and heads given by name.
abbrev pub LiteralFits : {p : Platform} → Literal p → Type 0
LiteralFits (dec m s) = (magnitude m ≤ i128_max) × (s < 256)
LiteralFits (dur n) = n < 2 ^ 64
LiteralFits {p = p} (Literal.date d) = p.parse_date (p.format_date d) ≡ some d
LiteralFits _ = Unit

-- the token of a literal
unfoldable pub literal_token : {p : Platform} → Literal p → TokenKind
literal_token (dec m s) = number (dec_to_string m s)
literal_token (Literal.str s) = TokenKind.str s
literal_token {p = p} (Literal.date d) = TokenKind.date (p.format_date d)
literal_token (dur n) = duration (to_string n ++ codes "ns")
literal_token (Literal.bool b) = TokenKind.bool b
literal_token (Literal.uri u) = TokenKind.uri u

unfoldable pub head_token : PredicateHead → TokenKind
head_token (PredicateHead.name s) = symbol s
head_token (PredicateHead.id i) = symbol (codes "M" ++ to_string i)

unfoldable mutual
  unfolding literal_token head_token

  pub term_tokens : {p : Platform} → Term p → List TokenKind
  term_tokens (Term.var s) = TokenKind.var s ∷ []
  term_tokens (ent e) = entity e ∷ []
  term_tokens (lit l) = literal_token l ∷ []
  term_tokens (compound q) = lparen ∷ (predicate_tokens q ++ (rparen ∷ []))
  term_tokens (list ts) = lbracket ∷ (terms_tokens ts ++ (rbracket ∷ []))

  pub terms_tokens : {p : Platform} → Terms p → List TokenKind
  terms_tokens nil = []
  terms_tokens (cons t ts) = term_tokens t ++ terms_tokens ts

  pub named_tokens : {p : Platform} → NamedArgs p → List TokenKind
  named_tokens end = []
  named_tokens (arg k t ns) = keyword k ∷ (term_tokens t ++ named_tokens ns)

  -- between the parentheses
  pub predicate_tokens : {p : Platform} → Predicate p → List TokenKind
  predicate_tokens (predicate h ts ns) = head_token h ∷ (terms_tokens ts ++ named_tokens ns)

abbrev IsName : PredicateHead → Type 0
IsName (PredicateHead.name s) = Unit
IsName (PredicateHead.id i) = ⊥

unfoldable mutual
  pub TermFits : {p : Platform} → Term p → Type 0
  TermFits (Term.var s) = Unit
  TermFits (ent e) = Unit
  TermFits (lit l) = LiteralFits l
  TermFits (compound q) = PredicateFits q
  TermFits (list ts) = TermsFit ts

  pub TermsFit : {p : Platform} → Terms p → Type 0
  TermsFit nil = Unit
  TermsFit (cons t ts) = TermFits t × TermsFit ts

  pub NamedFit : {p : Platform} → NamedArgs p → Type 0
  NamedFit end = Unit
  NamedFit (arg k t ns) = TermFits t × NamedFit ns

  pub PredicateFits : {p : Platform} → Predicate p → Type 0
  PredicateFits (predicate h ts ns) = IsName h × TermsFit ts × NamedFit ns

-- The token list opens with tokens of these kinds, and the rest follows.
abbrev pub Begins : List TokenKind → List Token → List Token → Type 0
Begins [] ts rest = ts ≡ rest
Begins (k ∷ ks) [] rest = ⊥
Begins (k ∷ ks) (t ∷ ts) rest = (t.kind ≡ k) × Begins ks ts rest

pub Begins-append :
    (ks ls : List TokenKind) (ts rest : List Token)
    → Begins (ks ++ ls) ts rest
    → (mid : List Token) × Begins ks ts mid × Begins ls mid rest
Begins-append [] ls ts rest h = (ts, refl, h)
Begins-append (k ∷ ks) ls [] rest h = absurd h
Begins-append (k ∷ ks) ls (t ∷ ts) rest h =
    let (mid, a, b) = Begins-append ks ls ts rest h.1 in (mid, (h.0, a), b)

-- The first token, and the state behind it.
pub Begins-next :
    (k : TokenKind) (ks : List TokenKind) (ts rest : List Token)
    → is_eof k ≡ false
    → Begins (k ∷ ks) ts rest
    → (peek ts ≡ k) × Begins ks (advance ts) rest
unfolding peek advance
Begins-next k ks [] rest n h = absurd h
Begins-next k ks (t ∷ ts) rest n h = (h.0, rw (ap is_eof h.0, n) h.1)

pub same_kind_refl : (k : TokenKind) → same_kind k k ≡ true
unfolding same_kind
same_kind_refl k = ground arith

pub expect-reads :
    (k : TokenKind) (ts : List Token) → peek ts ≡ k → expect k ts ≡ done tt (advance ts)
unfolding expect
expect-reads k ts h = rw (h, expect) (rw (same_kind_refl k, expect) refl)

pub with_depth-reads :
    {A : Type 0} (depth : ℕ) (f : ℕ → Parser A) (ts : List Token)
    → depth < max_parse_depth
    → with_depth depth f ts ≡ f (depth + 1) ts
unfolding with_depth
with_depth-reads depth f ts h = ground arith

pub bind-reads :
    {A B : Type 0} {m : Outcome A} {a : A} {ts : List Token} (f : A → Parser B)
    → m ≡ done a ts
    → bind m f ≡ f a ts
bind-reads f e = ap (λ o. bind o f) e

pub Begins-length :
    (ks : List TokenKind) (ts rest : List Token)
    → Begins ks ts rest
    → length ts ≡ length ks + length rest
Begins-length [] ts rest h = omega (arith, ap length h)
Begins-length (k ∷ ks) [] rest h = absurd h
Begins-length (k ∷ ks) (t ∷ ts) rest h = omega (arith, Begins-length ks ts rest h.1)

pub closes-reads : (k : TokenKind) (ts : List Token) → peek ts ≡ k → closes k ts ≡ true
closes-reads k ts h = rw h (rw (same_kind_refl k) refl)
