-- ===== src/Core/Parser/Total.antt =====
-- `parse` and `parse_predicate` of crates/factum-core/src/parser.rs end on every text, and what the
-- nodes look like that they return.
use factum.Prelude.{
  ℕ, zero, suc, ◌+◌, ◌*◌, ◌≤◌, ◌<◌, All, true, ◌≡◌, refl, ap, Option, none, some, List, [], ◌∷◌,
  Text, codes, length, if_elim, if_intro, Result, ok, err, ltb, arith,
}
use factum.Core.Platform.{Platform}
use factum.Core.Types.{Node}
use factum.Core.Lexer.{Token, TokenKind, lparen, rparen, tokenize, max_tokens}
use factum.Core.Lexer.Scan.{LexError}
use factum.Core.Lexer.Total.{Tokenizes, tokenize_total}
use factum.Core.Parser.Base.{
  Outcome, Parser, peek, peek_second, is_eof, advance, next, same_kind, max_parse_depth,
  expected_node_id, missing_pred,
}
use factum.Core.Parser.Terms.{parse_body, parse_body_inner}
use factum.Core.Parser.Nodes.{parse_node, node_form, no_fields, symbol_of}
use factum.Core.Parser.{
  skip_balanced, skip_sexp, parse_nodes, with_tokens, single_predicate, deeper, parse,
  parse_predicate,
}
use factum.Core.Parser.Ensures.{
  Ensures, returns, fails, Ensures-bind, Ensures-lift, Ensures-with_depth, advance_le, advance_lt,
  expect-Ensures, expect_symbol-Ensures,
}
use factum.Core.Parser.Depth.{predicate_depth, parse_body_inner-Ensures}
use factum.Core.Parser.Sound.{
  IsParsed, parse_fields-Ensures, no_fields-IsSound, node_of-IsParsed, expect_lparen-Ensures,
  lparen_not_eof,
}

-- A node, with fewer tokens left.
abbrev NodeAt : {p : Platform} → List Token → Node p → List Token → Type 0
NodeAt ts n rest = (length rest < length ts) × IsParsed n

parse_node-Ensures :
    {p : Platform} (fuel : ℕ) (ts : List Token)
    → 2 * length ts + 1 ≤ fuel
    → Ensures (NodeAt {p = p} ts) (parse_node fuel 0 ts)
unfolding parse_node node_form next
parse_node-Ensures {p = p} fuel ts h = Ensures-with_depth 0 (node_form {p = p} fuel) ts λ low.
    Ensures-bind (expect_lparen-Ensures ts) λ _ r1 h1.
      Ensures-bind (expect_symbol-Ensures (codes "node") r1) λ _ r2 h2.
        Ensures-bind
          (Ensures-lift {P = λ n rest. rest ≡ advance r2} expected_node_id (symbol_of (peek r2))
            (advance r2) (λ n _. refl))
          λ n r3 h3.
            let less = advance_le r2 in
            Ensures-bind
              (parse_fields-Ensures fuel 1 no_fields r3 (omega (arith, ap length h3))
                (no_fields-IsSound p 1))
              λ f r4 h4. Ensures-bind (expect-Ensures rparen r4) λ _ r5 h5.
                Ensures-bind
                  (Ensures-lift {P = λ q rest. (rest ≡ r5) × (f.predicate ≡ some q)} missing_pred
                    f.predicate r5 (λ q e. (refl, e)))
                  λ q r6 h6.
                    returns (
                      omega (arith, ap length h3, ap length h6.0),
                      node_of-IsParsed n f q h4.1 h6.1,
                    )

skip_balanced_le :
    (close : TokenKind) (d : ℕ) (ts : List Token) → length (skip_balanced close d ts) ≤ length ts
unfolding skip_balanced
skip_balanced_le close zero ts = omega arith
skip_balanced_le close (suc d) [] = omega arith
skip_balanced_le close (suc d) (t ∷ ts) =
    if_elim (λ (r : List Token). length r ≤ suc (length ts)) (is_eof t.kind) {x = t ∷ ts}
      (omega arith) (omega (arith, skip_balanced_le close (deeper close d t.kind) ts))

-- A form that is no node is skipped whole, its parenthesis at least.
skip_sexp_lt :
    (ts : List Token) → same_kind (peek ts) lparen ≡ true → length (skip_sexp ts) < length ts
unfolding skip_sexp
skip_sexp_lt ts h =
    rw (h, skip_sexp)
      (omega
        (arith, skip_balanced_le rparen 1 (advance ts), advance_lt ts (lparen_not_eof (peek ts) h)))

parse_nodes-Ensures :
    {p : Platform} (fuel : ℕ) (ts : List Token)
    → length ts < fuel
    → Ensures (λ ns rest. All (IsParsed {p = p}) ns) (parse_nodes fuel ts)
unfolding parse_nodes
parse_nodes-Ensures zero ts h = absurd (omega arith)
parse_nodes-Ensures {p = p} (suc fuel) ts h =
    let E : Outcome (List (Node p)) → Type 0 = Ensures (λ ns rest. All IsParsed ns) in
    if_intro E (is_eof (peek ts)) (λ _. returns {a = []} {ts = ts} tt)
      λ more.
        if_intro E (same_kind (peek ts) lparen)
          (λ form.
            if_elim E (peek_second (codes "node") ts)
              (Ensures-bind (parse_node-Ensures (2 * length ts + 2) ts (omega arith)) λ n rest hn.
                Ensures-bind (parse_nodes-Ensures fuel rest (omega arith))
                  λ ns rest' hns. returns {a = n ∷ ns} {ts = rest'} (hn.1, hns))
              (parse_nodes-Ensures fuel (skip_sexp ts) (omega (arith, skip_sexp_lt ts form))))
          (λ _. parse_nodes-Ensures fuel (advance ts) (omega (arith, advance_lt ts more)))

-- The lexer's answer, and a parser that ends on every token list.
with_tokens-Ensures :
    {A : Type 0} {P : A → List Token → Type 0} (r : Option (Result LexError (List Token)))
    (k : Parser A)
    → Tokenizes (suc max_tokens) r
    → ((ts : List Token) → Ensures P (k ts))
    → Ensures P (with_tokens r k)
unfolding with_tokens
with_tokens-Ensures none k h f = absurd h
with_tokens-Ensures (some (err e)) k h f = fails
with_tokens-Ensures {P = P} (some (ok ts)) k h f =
    if_elim (Ensures P) (ltb max_tokens (length ts)) fails (f ts)

-- For every text `parse` comes to an end: it fails, or it returns nodes that are active, nest at
-- most 126 levels below their predicate, carry one of the four levels of permission, and whose
-- confidence and authority are the default or passed the test for the range from 0 to 1.
pub parse_total :
    (p : Platform) (src : Text) → Ensures (λ ns rest. All IsParsed ns) (parse {p = p} src)
unfolding parse
parse_total p src =
    with_tokens-Ensures (tokenize src) (λ ts. parse_nodes (suc (length ts)) ts) (tokenize_total src)
      λ ts. parse_nodes-Ensures (suc (length ts)) ts (omega arith)

-- For every text `parse_predicate` comes to an end: it fails, or it returns a predicate whose
-- arguments nest less deep than the limit.
pub parse_predicate_total :
    (p : Platform) (src : Text)
    → Ensures (λ q rest. predicate_depth q < max_parse_depth) (parse_predicate {p = p} src)
unfolding parse_predicate parse_body
parse_predicate_total p src =
    with_tokens-Ensures (tokenize src) single_predicate (tokenize_total src) λ ts.
      Ensures-bind (expect-Ensures lparen ts) λ _ r1 h1.
        Ensures-bind
          (Ensures-with_depth 0 (parse_body_inner (2 * length ts + 2)) r1
            λ low. parse_body_inner-Ensures (2 * length ts + 2) 1 r1 (omega arith) (omega arith))
          λ q r2 h2.
            Ensures-bind (expect-Ensures rparen r2)
              λ _ r3 h3. returns {a = q} {ts = r3} (omega arith)
