-- ===== src/Core/Canonical.antt =====
-- The canonical form of predicates in crates/factum-core/src/serialize.rs, as UTF-8 bytes.
pub mod Nodes
use factum.Prelude.{true, false, [], ◌∷◌, ◌++◌, Text, codes, eqb, if◌then◌else◌}
use factum.Prelude.Digits.{to_string}
use factum.Core.Platform.{Platform}
use factum.Core.Decimal.{dec_to_string}
use factum.Core.Types.{
  Literal, dec, str, date, dur, bool, uri, PredicateHead, Term, var, ent, lit, compound, list,
  Terms, nil, cons, NamedArgs, end, arg, Predicate, predicate,
}

-- The escapes of the backslash, the quote, the newline, the tab and the carriage return.
unfoldable pub escape : Text → Text
escape [] = []
escape (c ∷ cs) =
    let rest = escape cs in
    if eqb c 92
    then 92 ∷ 92 ∷ rest
    else if eqb c 34
    then 92 ∷ 34 ∷ rest
    else if eqb c 10
    then codes "\\n" ++ rest
    else if eqb c 9
    then codes "\\t" ++ rest
    else if eqb c 13
    then codes "\\r" ++ rest
    else c ∷ rest

unfoldable pub canonical_head : PredicateHead → Text
unfolding to_string
canonical_head (PredicateHead.id i) = codes "M" ++ to_string i
canonical_head (PredicateHead.name n) = n

module _ {p : Platform} where
  -- `canonical_literal`
  unfoldable pub canonical_literal : Literal p → Text
  unfolding escape dec_to_string to_string
  canonical_literal (dec m s) = dec_to_string m s
  canonical_literal (str s) = 34 ∷ escape s ++ 34 ∷ []
  canonical_literal (date d) = codes "#date(" ++ p.format_date d ++ codes ")"
  canonical_literal (dur d) = codes "#dur(" ++ to_string d ++ codes "ns)"
  canonical_literal (bool true) = codes "#t"
  canonical_literal (bool false) = codes "#f"
  canonical_literal (uri u) = codes "<" ++ u ++ codes ">"

-- `canonical_term` and `canonical_predicate_inner`
unfoldable mutual
  pub canonical_term : {p : Platform} → Term p → Text
  canonical_term (var s) = codes "?" ++ s
  canonical_term (ent e) = codes "@" ++ e
  canonical_term (lit l) = canonical_literal l
  canonical_term (compound q) = canonical_predicate q
  canonical_term (list ts) = codes "[" ++ (canonical_items ts ++ codes "]")

  -- the items of a list, a space before each but the first
  pub canonical_items : {p : Platform} → Terms p → Text
  canonical_items nil = []
  canonical_items (cons t ts) = canonical_term t ++ canonical_args ts

  pub canonical_args : {p : Platform} → Terms p → Text
  canonical_args nil = []
  canonical_args (cons t ts) = codes " " ++ (canonical_term t ++ canonical_args ts)

  pub canonical_named : {p : Platform} → NamedArgs p → Text
  canonical_named end = []
  canonical_named (arg k t ns) =
      codes " :" ++ (k ++ (codes " " ++ (canonical_term t ++ canonical_named ns)))

  pub canonical_predicate : {p : Platform} → Predicate p → Text
  canonical_predicate (predicate h ts ns) =
      codes "(" ++ (canonical_head h ++ (canonical_args ts ++ (canonical_named ns ++ codes ")")))
