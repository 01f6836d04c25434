-- ===== src/Core/Parser/Spells.antt =====
-- The canonical text of a predicate (crates/factum-core/src/serialize.rs) is the sequence of its
-- tokens.
use mathlib.Core.List.{append_assoc, append-nil}
use factum.Prelude.{
  ℕ, suc, ◌≤◌, true, false, ◌≡◌, refl, sym, ap, subst, ◌∙◌, inl, inr, List, [], ◌∷◌, ◌++◌, Text,
  codes, length, ℤ, pos, negsuc, All, All-append, arith,
}
use factum.Prelude.Digits.{is_digit, to_string, to_string_pos}
use factum.Core.Platform.{Platform}
use factum.Core.Decimal.{dec_to_string}
use factum.Core.Decimal.RoundTrip.{IsDigit, joined, to_string-All, point_digits-Splits}
use factum.Core.Canonical.{
  escape, canonical_head, canonical_literal, canonical_term, canonical_items, canonical_args,
  canonical_named, canonical_predicate,
}
use factum.Core.Types.{
  Literal, dec, dur, PredicateHead, Term, Terms, NamedArgs, Predicate, ent, lit, compound, list,
  nil, cons, end, arg, predicate,
}
use factum.Core.Lexer.{TokenKind, lparen, rparen, lbracket, rbracket, keyword, number, next_token}
use factum.Core.Lexer.Scan.{is_name_byte, is_entity_byte, is_symbol_byte}
use factum.Core.Lexer.Reads.{Passes, IsBody, IsAscii, is_uri_byte}
use factum.Core.Lexer.Yields.{
  IsDelimited, IsWord, var-Gives, keyword-Gives, entity-Gives, uri-Gives, str-Gives, date-Gives,
  dur-Gives, bool-Gives,
}
use factum.Core.Lexer.Numbers.{
  IsHead, joined-cons, digit-symbol, symbol-Gives, unsigned-Gives, signed-Gives,
}
use factum.Core.Lexer.Lexes.{Lexes, is_solid, finish, space, token}
use factum.Core.Parser.Tokens.{
  term_tokens, terms_tokens, named_tokens, predicate_tokens, head_token, literal_token,
}

-- Names and texts that the lexer reads as it finds them: ASCII, and without the marks that would
-- end them.
abbrev pub LiteralSpells : {p : Platform} → Literal p → Type 0
LiteralSpells (Literal.str s) = IsAscii s
LiteralSpells (Literal.uri u) = Passes is_uri_byte u
LiteralSpells {p = p} (Literal.date d) = All IsBody (p.format_date d)
LiteralSpells _ = Unit

abbrev pub HeadSpells : PredicateHead → Type 0
HeadSpells (PredicateHead.name s) = IsHead s
HeadSpells (PredicateHead.id i) = Unit

unfoldable mutual
  pub TermSpells : {p : Platform} → Term p → Type 0
  TermSpells (Term.var s) = IsWord is_name_byte s
  TermSpells (ent e) = IsWord is_entity_byte e
  TermSpells (lit l) = LiteralSpells l
  TermSpells (compound q) = PredicateSpells q
  TermSpells (list ts) = TermsSpell ts

  pub TermsSpell : {p : Platform} → Terms p → Type 0
  TermsSpell nil = Unit
  TermsSpell (cons t ts) = TermSpells t × TermsSpell ts

  pub NamedSpell : {p : Platform} → NamedArgs p → Type 0
  NamedSpell end = Unit
  NamedSpell (arg k t ns) = IsWord is_name_byte k × TermSpells t × NamedSpell ns

  pub PredicateSpells : {p : Platform} → Predicate p → Type 0
  PredicateSpells (predicate h ts ns) = HeadSpells h × TermsSpell ts × NamedSpell ns

-- A token's text before what follows.
Lexes-cast : {s t : Text} {ks ls : List TokenKind} → s ≡ t → ks ≡ ls → Lexes s ks → Lexes t ls
Lexes-cast {t = t} {ks = ks} e f l =
    subst (λ (k : List TokenKind). Lexes t k) f (subst (λ (u : Text). Lexes u ks) e l)

digits-IsBody : (s : Text) → All IsDigit s → All IsBody s
digits-IsBody [] h = tt
digits-IsBody (c ∷ cs) h = ((omega arith, ground arith), digits-IsBody cs h.1)

digit-solid : (x : ℕ) → IsDigit x → is_solid x ≡ true
digit-solid x h = ground arith

unsigned-Lexes :
    (s : ℕ) (int frac rest : Text) (ks : List TokenKind)
    → 1 ≤ length int
    → All IsDigit int
    → All IsDigit frac
    → IsDelimited rest
    → Lexes rest ks
    → Lexes (joined s int frac ++ rest) (number (joined s int frac) ∷ ks)
unsigned-Lexes s [] frac rest ks n h k d l = absurd (omega arith)
unsigned-Lexes s (x ∷ int) frac rest ks n h k d l =
    subst (λ (t : Text). Lexes (t ++ rest) (number t ∷ ks)) (sym (joined-cons s x int frac))
      (token (digit-solid x h.0) (λ pl. unsigned-Gives s x int frac rest pl h k d) l)

signed-Lexes :
    (s : ℕ) (int frac rest : Text) (ks : List TokenKind)
    → 1 ≤ length int
    → All IsDigit int
    → All IsDigit frac
    → IsDelimited rest
    → Lexes rest ks
    → Lexes ((b'-' ∷ joined s int frac) ++ rest) (number (b'-' ∷ joined s int frac) ∷ ks)
signed-Lexes s [] frac rest ks n h k d l = absurd (omega arith)
signed-Lexes s (x ∷ int) frac rest ks n h k d l =
    subst (λ (t : Text). Lexes ((b'-' ∷ t) ++ rest) (number (b'-' ∷ t) ∷ ks))
      (sym (joined-cons s x int frac))
      (token refl (λ pl. signed-Gives s x int frac rest pl h k d) l)

dec-Lexes :
    (m : ℤ) (s : ℕ) (rest : Text) (ks : List TokenKind)
    → IsDelimited rest
    → Lexes rest ks
    → Lexes (dec_to_string m s ++ rest) (number (dec_to_string m s) ∷ ks)
unfolding dec_to_string
dec-Lexes (pos m) s rest ks d l =
    let (int, frac, v) = point_digits-Splits (to_string m) s (to_string_pos m) (to_string-All m) in
    subst (λ (t : Text). Lexes (t ++ rest) (number t ∷ ks)) (sym v.shape)
      (unsigned-Lexes s int frac rest ks v.starts v.int_digits v.frac_digits d l)
dec-Lexes (negsuc m) s rest ks d l =
    let (int, frac, v) =
      point_digits-Splits (to_string (suc m)) s (to_string_pos (suc m)) (to_string-All (suc m)) in
    subst (λ (t : Text). Lexes ((b'-' ∷ t) ++ rest) (number (b'-' ∷ t) ∷ ks)) (sym v.shape)
      (signed-Lexes s int frac rest ks v.starts v.int_digits v.frac_digits d l)

literal-Lexes :
    {p : Platform} (l : Literal p) (rest : Text) (ks : List TokenKind)
    → LiteralSpells l
    → IsDelimited rest
    → Lexes rest ks
    → Lexes (canonical_literal l ++ rest) (literal_token l ∷ ks)
unfolding canonical_literal literal_token
literal-Lexes (dec m s) rest ks v d l = dec-Lexes m s rest ks d l
literal-Lexes (Literal.str s) rest ks v d l =
    Lexes-cast (ap (λ (t : Text). 34 ∷ t) (sym (append_assoc (escape s) (34 ∷ []) rest))) refl
      (token refl (λ pl. str-Gives s rest pl v) l)
literal-Lexes {p = p} (Literal.date t) rest ks v d l =
    Lexes-cast
      (ap (λ (u : Text). codes "#date(" ++ u)
        (sym (append_assoc (p.format_date t) (codes ")") rest)))
      refl (token refl (λ pl. date-Gives (p.format_date t) rest pl v) l)
literal-Lexes (dur n) rest ks v d l =
    Lexes-cast
      (ap (λ (u : Text). codes "#dur(" ++ u)
        (append_assoc (to_string n) (codes "ns") (b')' ∷ rest)
          ∙ sym (append_assoc (to_string n) (codes "ns)") rest)))
      refl
      (token refl
        (λ pl. dur-Gives (to_string n ++ codes "ns") rest pl (
          All-append IsBody (to_string n) (codes "ns")
            (digits-IsBody (to_string n) (to_string-All n))
            ((omega arith, refl), ((omega arith, refl), tt))))
        l)
literal-Lexes (Literal.bool true) rest ks v d l = token refl (λ pl. bool-Gives true rest pl) l
literal-Lexes (Literal.bool false) rest ks v d l = token refl (λ pl. bool-Gives false rest pl) l
literal-Lexes (Literal.uri u) rest ks v d l =
    Lexes-cast (ap (λ (t : Text). b'<' ∷ t) (sym (append_assoc u (codes ">") rest))) refl
      (token refl (λ pl. uri-Gives u rest pl v) l)

symbol-solid : (x : ℕ) → is_symbol_byte x ≡ true → is_solid x ≡ true
symbol-solid x h = ground arith

digits-Passes : (s : Text) → All IsDigit s → Passes is_symbol_byte s
digits-Passes [] h = tt
digits-Passes (c ∷ cs) h = ((omega arith, digit-symbol c h.0), digits-Passes cs h.1)

id-IsHead : (i : ℕ) → IsHead (b'M' ∷ to_string i)
unfolding is_digit
id-IsHead i = (((omega arith, refl), digits-Passes (to_string i) (to_string-All i)), refl, refl)

lparen-Lexes :
    (rest : Text) (ks : List TokenKind) → Lexes rest ks → Lexes (b'(' ∷ rest) (lparen ∷ ks)
unfolding next_token
lparen-Lexes rest ks l =
    token {x = b'('} {xs = rest} {rest = rest} {k = lparen} refl (λ pl. (refl, refl)) l

rparen-Lexes :
    (rest : Text) (ks : List TokenKind) → Lexes rest ks → Lexes (b')' ∷ rest) (rparen ∷ ks)
unfolding next_token
rparen-Lexes rest ks l =
    token {x = b')'} {xs = rest} {rest = rest} {k = rparen} refl (λ pl. (refl, refl)) l

lbracket-Lexes :
    (rest : Text) (ks : List TokenKind) → Lexes rest ks → Lexes (b'[' ∷ rest) (lbracket ∷ ks)
unfolding next_token
lbracket-Lexes rest ks l =
    token {x = b'['} {xs = rest} {rest = rest} {k = lbracket} refl (λ pl. (refl, refl)) l

rbracket-Lexes :
    (rest : Text) (ks : List TokenKind) → Lexes rest ks → Lexes (b']' ∷ rest) (rbracket ∷ ks)
unfolding next_token
rbracket-Lexes rest ks l =
    token {x = b']'} {xs = rest} {rest = rest} {k = rbracket} refl (λ pl. (refl, refl)) l

head-Lexes :
    (h : PredicateHead) (rest : Text) (ks : List TokenKind)
    → HeadSpells h
    → IsDelimited rest
    → Lexes rest ks
    → Lexes (canonical_head h ++ rest) (head_token h ∷ ks)
unfolding canonical_head head_token
head-Lexes (PredicateHead.name []) rest ks v d l = absurd v
head-Lexes (PredicateHead.name (x ∷ xs)) rest ks v d l =
    token (symbol-solid x v.0.0.1) (λ pl. symbol-Gives x xs rest pl v d) l
head-Lexes (PredicateHead.id i) rest ks v d l =
    token refl (λ pl. symbol-Gives b'M' (to_string i) rest pl (id-IsHead i) d) l

args-IsDelimited :
    {p : Platform} (ts : Terms p) (rest : Text)
    → IsDelimited rest
    → IsDelimited (canonical_args ts ++ rest)
unfolding canonical_args
args-IsDelimited nil rest d = d
args-IsDelimited (cons t ts) rest d = inl refl

named-IsDelimited :
    {p : Platform} (ns : NamedArgs p) (rest : Text)
    → IsDelimited rest
    → IsDelimited (canonical_named ns ++ rest)
unfolding canonical_named
named-IsDelimited end rest d = d
named-IsDelimited (arg k t ns) rest d = inl refl

named-text :
    (k t n rest : Text) → k ++ (b' ' ∷ (t ++ (n ++ rest))) ≡ (k ++ (codes " " ++ (t ++ n))) ++ rest
named-text k t n rest = simp append_assoc

predicate-text :
    (h a n rest : Text) → h ++ (a ++ (n ++ (b')' ∷ rest))) ≡ (h ++ (a ++ (n ++ codes ")"))) ++ rest
predicate-text h a n rest = simp append_assoc

predicate-kinds :
    (a n ks : List TokenKind) → a ++ (n ++ (rparen ∷ ks)) ≡ ((a ++ n) ++ (rparen ∷ [])) ++ ks
predicate-kinds a n ks = simp append_assoc

mutual
  unfolding canonical_term canonical_items canonical_args canonical_named canonical_predicate
      term_tokens terms_tokens named_tokens predicate_tokens TermSpells TermsSpell NamedSpell
      PredicateSpells

  term-Lexes :
      {p : Platform} (t : Term p) (rest : Text) (ks : List TokenKind)
      → TermSpells t
      → IsDelimited rest
      → Lexes rest ks
      → Lexes (canonical_term t ++ rest) (term_tokens t ++ ks)
  term-Lexes (Term.var s) rest ks v d l = token refl (λ pl. var-Gives s rest pl v d) l
  term-Lexes (ent e) rest ks v d l = token refl (λ pl. entity-Gives e rest pl v d) l
  term-Lexes (lit x) rest ks v d l = literal-Lexes x rest ks v d l
  term-Lexes (compound q) rest ks v d l = predicate-Lexes q rest ks v l
  term-Lexes (list ts) rest ks v d l =
      Lexes-cast
        (ap (λ (u : Text). b'[' ∷ u) (sym (append_assoc (canonical_items ts) (codes "]") rest)))
        (ap (λ (u : List TokenKind). lbracket ∷ u)
          (sym (append_assoc (terms_tokens ts) (rbracket ∷ []) ks)))
        (lbracket-Lexes _ _ (
          items-Lexes ts (b']' ∷ rest) (rbracket ∷ ks) v (inr (inr refl))
            (rbracket-Lexes rest ks l)))

  items-Lexes :
      {p : Platform} (ts : Terms p) (rest : Text) (ks : List TokenKind)
      → TermsSpell ts
      → IsDelimited rest
      → Lexes rest ks
      → Lexes (canonical_items ts ++ rest) (terms_tokens ts ++ ks)
  items-Lexes nil rest ks v d l = l
  items-Lexes (cons t ts) rest ks v d l =
      Lexes-cast (sym (append_assoc (canonical_term t) (canonical_args ts) rest))
        (sym (append_assoc (term_tokens t) (terms_tokens ts) ks))
        (term-Lexes t (canonical_args ts ++ rest) (terms_tokens ts ++ ks) v.0
          (args-IsDelimited ts rest d) (args-Lexes ts rest ks v.1 d l))

  args-Lexes :
      {p : Platform} (ts : Terms p) (rest : Text) (ks : List TokenKind)
      → TermsSpell ts
      → IsDelimited rest
      → Lexes rest ks
      → Lexes (canonical_args ts ++ rest) (terms_tokens ts ++ ks)
  args-Lexes nil rest ks v d l = l
  args-Lexes (cons t ts) rest ks v d l =
      Lexes-cast
        (ap (λ (u : Text). b' ' ∷ u)
          (sym (append_assoc (canonical_term t) (canonical_args ts) rest)))
        (sym (append_assoc (term_tokens t) (terms_tokens ts) ks))
        (space refl (
          term-Lexes t (canonical_args ts ++ rest) (terms_tokens ts ++ ks) v.0
            (args-IsDelimited ts rest d) (args-Lexes ts rest ks v.1 d l)))

  named-Lexes :
      {p : Platform} (ns : NamedArgs p) (rest : Text) (ks : List TokenKind)
      → NamedSpell ns
      → IsDelimited rest
      → Lexes rest ks
      → Lexes (canonical_named ns ++ rest) (named_tokens ns ++ ks)
  named-Lexes end rest ks v d l = l
  named-Lexes (arg k t ns) rest ks v d l =
      let after = canonical_term t ++ (canonical_named ns ++ rest) in
      Lexes-cast
        (ap (λ (u : Text). codes " :" ++ u)
          (named-text k (canonical_term t) (canonical_named ns) rest))
        (ap (λ (u : List TokenKind). keyword k ∷ u)
          (sym (append_assoc (term_tokens t) (named_tokens ns) ks)))
        (space refl (
          token refl (λ pl. keyword-Gives k (b' ' ∷ after) pl v.0 (inl refl))
            (space refl (
              term-Lexes t (canonical_named ns ++ rest) (named_tokens ns ++ ks) v.1
                (named-IsDelimited ns rest d) (named-Lexes ns rest ks v.2 d l)))))

  predicate-Lexes :
      {p : Platform} (q : Predicate p) (rest : Text) (ks : List TokenKind)
      → PredicateSpells q
      → Lexes rest ks
      → Lexes (canonical_predicate q ++ rest) (term_tokens (compound q) ++ ks)
  predicate-Lexes (predicate h ts ns) rest ks v l =
      let close = b')' ∷ rest in
      let named = canonical_named ns ++ close in
      Lexes-cast
        (ap (λ (u : Text). b'(' ∷ u)
          (predicate-text (canonical_head h) (canonical_args ts) (canonical_named ns) rest))
        (ap (λ (u : List TokenKind). lparen ∷ head_token h ∷ u)
          (predicate-kinds (terms_tokens ts) (named_tokens ns) ks))
        (lparen-Lexes _ _ (
          head-Lexes h (canonical_args ts ++ named)
            (terms_tokens ts ++ (named_tokens ns ++ (rparen ∷ ks))) v.0
            (args-IsDelimited ts named (named-IsDelimited ns close (inr (inl refl))))
            (args-Lexes ts named (named_tokens ns ++ (rparen ∷ ks)) v.1
              (named-IsDelimited ns close (inr (inl refl)))
              (named-Lexes ns close (rparen ∷ ks) v.2 (inr (inl refl)) (rparen-Lexes rest ks l)))))

-- The canonical text of a predicate is the sequence of its tokens.
pub canonical_predicate-Lexes :
    {p : Platform} (q : Predicate p)
    → PredicateSpells q
    → Lexes (canonical_predicate q) (term_tokens (compound q))
canonical_predicate-Lexes q v =
    Lexes-cast (append-nil (canonical_predicate q)) (append-nil (term_tokens (compound q)))
      (predicate-Lexes q [] [] v finish)
