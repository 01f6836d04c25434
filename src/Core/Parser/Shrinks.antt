-- ===== src/Core/Parser/Shrinks.antt =====
-- The parsers of the fields of a node in crates/factum-core/src/parser.rs never give tokens back.
use factum.Prelude.{Bool, Option, List, Text, if_elim, if◌then◌else◌, arith}
use factum.Core.Platform.{Platform}
use factum.Core.Lexer.{Token, TokenKind, str}
use factum.Core.Parser.Base.{
  Parser, ParseMessage, pure, ◌>>=◌, next, lift, error, expect, expect_symbol, advance,
}
use factum.Core.Parser.Ensures.{
  Ensures, returns, Ensures-bind, Ensures-error, Ensures-lift, Ensures-weaken, advance_le, Leaves,
  expect-Ensures, expect_symbol-Ensures,
}
use factum.Core.Parser.Nodes.{
  parse_smol_str, parse_doc_id, parse_u32, parse_span, parse_model_ref, parse_source,
  parse_provenance, parse_f32, datetime_of, parse_datetime, parse_until, parse_validity,
}

-- The parser leaves at most the tokens it got, or fails; it does not run out of fuel.
pub record Shrinks {A : Type 0} (m : Parser A) : Type 0 where
  pub apply : (ts : List Token) → Ensures (Leaves ts) (m ts)

Shrinks->>= :
    {A B : Type 0} {m : Parser A} {f : A → Parser B}
    → Shrinks m
    → ((a : A) → Shrinks (f a))
    → Shrinks (m >>= f)
Shrinks->>= s k = record {
  apply = λ ts.
      Ensures-bind (s.apply ts)
        λ a rest h. Ensures-weaken ((k a).apply rest) (λ b rest' h'. omega arith);
}

Shrinks-pure : {A : Type 0} {a : A} → Shrinks (pure a)
Shrinks-pure = record { apply = λ ts. returns (omega arith) }

Shrinks-next : Shrinks next
unfolding next
Shrinks-next = record { apply = λ ts. returns (advance_le ts) }

Shrinks-lift : {A : Type 0} (m : ParseMessage) (o : Option A) → Shrinks (lift m o)
Shrinks-lift m o = record { apply = λ ts. Ensures-lift m o ts (λ a _. omega arith) }

Shrinks-error : {A : Type 0} (m : ParseMessage) → Shrinks (error {A = A} m)
Shrinks-error m = record { apply = λ ts. Ensures-error m ts }

Shrinks-expect : (k : TokenKind) → Shrinks (expect k)
Shrinks-expect k = record { apply = λ ts. expect-Ensures k ts }

Shrinks-expect_symbol : (s : Text) → Shrinks (expect_symbol s)
Shrinks-expect_symbol s = record { apply = λ ts. expect_symbol-Ensures s ts }

Shrinks-advance : {A : Type 0} (a : A) → Shrinks (λ ts. pure a (advance ts))
Shrinks-advance a = record { apply = λ ts. returns (advance_le ts) }

Shrinks-if :
    {A : Type 0} (test : List Token → Bool) {m k : Parser A}
    → Shrinks m
    → Shrinks k
    → Shrinks (λ ts. if test ts then m ts else k ts)
Shrinks-if test hm hk = record {
  apply = λ ts. if_elim (Ensures (Leaves ts)) (test ts) (hm.apply ts) (hk.apply ts);
}

ruleset steps = (
  Shrinks-if, Shrinks-advance, Shrinks->>=, Shrinks-pure, Shrinks-next, Shrinks-lift, Shrinks-error,
  Shrinks-expect, Shrinks-expect_symbol,
)

pub parse_smol_str-Shrinks : Shrinks parse_smol_str
unfolding parse_smol_str
parse_smol_str-Shrinks = search steps depth 9

pub parse_doc_id-Shrinks : Shrinks parse_doc_id
unfolding parse_doc_id
parse_doc_id-Shrinks = search steps depth 9

pub parse_u32-Shrinks : Shrinks parse_u32
unfolding parse_u32
parse_u32-Shrinks = search steps depth 9

pub parse_f32-Shrinks : (p : Platform) → Shrinks (parse_f32 p)
unfolding parse_f32
parse_f32-Shrinks p = search steps depth 9

pub parse_span-Shrinks : Shrinks parse_span
unfolding parse_span
parse_span-Shrinks = search (steps, parse_u32-Shrinks) depth 12

pub parse_model_ref-Shrinks : Shrinks parse_model_ref
unfolding parse_model_ref
parse_model_ref-Shrinks = search (steps, parse_smol_str-Shrinks) depth 12

parse_source-Shrinks : (kind : Text) → Shrinks (parse_source kind)
unfolding parse_source
parse_source-Shrinks kind =
    search
      (
        steps, parse_doc_id-Shrinks, parse_span-Shrinks, parse_model_ref-Shrinks,
        parse_smol_str-Shrinks,
      )
      depth 20

pub parse_provenance-Shrinks : Shrinks parse_provenance
unfolding parse_provenance
parse_provenance-Shrinks = search (steps, parse_source-Shrinks) depth 12

datetime_of-Shrinks : (p : Platform) (k : TokenKind) → Shrinks (datetime_of p k)
unfolding datetime_of
datetime_of-Shrinks p (TokenKind.date s) = search steps depth 9
datetime_of-Shrinks p (str s) = search steps depth 9
datetime_of-Shrinks p _ = search steps depth 9

pub parse_datetime-Shrinks : (p : Platform) → Shrinks (parse_datetime p)
unfolding parse_datetime
parse_datetime-Shrinks p = search (steps, datetime_of-Shrinks) depth 12

parse_until-Shrinks : (p : Platform) → Shrinks (parse_until p)
unfolding parse_until
parse_until-Shrinks p = search (steps, parse_datetime-Shrinks) depth 12

pub parse_validity-Shrinks : (p : Platform) → Shrinks (parse_validity p)
unfolding parse_validity
parse_validity-Shrinks p = search (steps, parse_datetime-Shrinks, parse_until-Shrinks) depth 12
