-- ===== src/Core/Parser/Ensures.antt =====
-- Postconditions of the parsers of crates/factum-core/src/parser.rs: a parser returns a value with
-- the property, or fails, and never runs out of fuel.
use factum.Prelude.{
  ℕ, suc, ◌+◌, ◌≤◌, ◌<◌, Bool-cases, false, ◌&&◌, ◌≡◌, ◌≢◌, refl, inl, inr, Option, none, some,
  List, [], ◌∷◌, Text, length, leb, leb_false→lt, if_elim, arith,
}
use factum.Core.Lexer.{Token, TokenKind, rparen}
use factum.Core.Parser.Base.{
  Outcome, done, failed, out_of_fuel, Parser, ParseMessage, ParseError, bind, peek, is_eof, advance,
  error, expect, same_kind, expect_symbol, is_symbol, with_depth, max_parse_depth, lift,
}

pub data Ensures {A : Type 0} (P : A → List Token → Type 0) : Outcome A → Type 0 where
  returns : {a : A} {ts : List Token} → P a ts → Ensures P (done a ts)
  fails : {e : ParseError} → Ensures P (failed e)

module _ {A : Type 0} {P : A → List Token → Type 0} where
  pub Ensures-bind :
      {B : Type 0} {Q : B → List Token → Type 0} {m : Outcome A} {f : A → Parser B}
      → Ensures P m
      → ((a : A) (ts : List Token) → P a ts → Ensures Q (f a ts))
      → Ensures Q (bind m f)
  Ensures-bind (returns h) k = k _ _ h
  Ensures-bind fails k = fails

  pub Ensures-weaken :
      {Q : A → List Token → Type 0} {m : Outcome A}
      → Ensures P m
      → ((a : A) (ts : List Token) → P a ts → Q a ts)
      → Ensures Q m
  Ensures-weaken (returns h) k = returns (k _ _ h)
  Ensures-weaken fails k = fails

  pub Ensures-total : {m : Outcome A} → Ensures P m → m ≢ out_of_fuel
  Ensures-total (returns h) e = cc
  Ensures-total fails e = cc

  pub Ensures-error : (m : ParseMessage) (ts : List Token) → Ensures P (error m ts)
  unfolding error
  Ensures-error m [] = fails
  Ensures-error m (t ∷ ts) = fails

  pub Ensures-lift :
      (m : ParseMessage) (o : Option A) (ts : List Token)
      → ((a : A) → o ≡ some a → P a ts)
      → Ensures P (lift m o ts)
  unfolding lift
  Ensures-lift m none ts h = Ensures-error m ts
  Ensures-lift m (some a) ts h = returns (h a refl)

  -- The nesting below the limit, and the parser one level deeper.
  pub Ensures-with_depth :
      (depth : ℕ) (f : ℕ → Parser A) (ts : List Token)
      → (depth < max_parse_depth → Ensures P (f (depth + 1) ts))
      → Ensures P (with_depth depth f ts)
  unfolding with_depth
  Ensures-with_depth depth f ts h = elim (Bool-cases (leb max_parse_depth depth)) [
    | inl deep ↦ rw deep (Ensures-error _ ts)
    | inr low ↦ rw low (h (leb_false→lt max_parse_depth depth low))
  ]

pub advance_le : (ts : List Token) → length (advance ts) ≤ length ts
unfolding advance
advance_le [] = omega arith
advance_le (t ∷ ts) =
    if_elim (λ (r : List Token). length r ≤ suc (length ts)) (is_eof t.kind) {x = t ∷ ts} {y = ts}
      (omega arith) (omega arith)

pub advance_lt : (ts : List Token) → is_eof (peek ts) ≡ false → length (advance ts) < length ts
unfolding advance peek
advance_lt [] h = absurd (cc)
advance_lt (t ∷ ts) h = rw h (omega arith)

-- What the elementary parsers leave.
abbrev pub Leaves : {A : Type 0} → List Token → A → List Token → Type 0
Leaves ts a rest = length rest ≤ length ts

pub expect-Ensures : (k : TokenKind) (ts : List Token) → Ensures (Leaves ts) (expect k ts)
unfolding expect
expect-Ensures k ts =
    if_elim (Ensures (Leaves ts)) (same_kind (peek ts) k) (returns (advance_le ts)) (
      if_elim (Ensures (Leaves ts)) (same_kind k rparen && is_eof (peek ts)) (Ensures-error _ ts)
        (Ensures-error _ ts))

pub expect_symbol-Ensures : (s : Text) (ts : List Token) → Ensures (Leaves ts) (expect_symbol s ts)
unfolding expect_symbol
expect_symbol-Ensures s ts =
    if_elim (Ensures (Leaves ts)) (is_symbol s (peek ts)) (returns (advance_le ts))
      (Ensures-error _ ts)
