-- ===== src/Core/Types/Display.antt =====
-- Texts that crates/factum-core/src/types.rs and Rust's derived `Debug` give, and `PartialEq` of
-- the parts of a node besides the predicate.
use factum.Prelude.{
  Bool, true, false, ◌&&◌, ◌≡◌, ◌↔◌, Option, none, some, List, [], ◌∷◌, ◌++◌, Text, codes, text_eq,
  text_eq_iff, eqb, if◌then◌else◌, arith,
}
use factum.Prelude.Digits.{to_string}
use factum.Core.Platform.{Platform, time_eq}
use factum.Core.Decimal.{dec_to_string}
use factum.Core.Types.{
  NodeId, Literal, dec, str, date, dur, bool, uri, NodeStatus, active, retracted, pending, Validity,
  forever, window, Provenance, verbatim, summary, extracted, derived, asserted, Span, ModelRef,
}

-- `replace('\\', "\\\\").replace('"', "\\\"")`
unfoldable pub escape_quotes : Text → Text
escape_quotes [] = []
escape_quotes (c ∷ cs) =
    let rest = escape_quotes cs in
    if eqb c 92 then 92 ∷ 92 ∷ rest else if eqb c 34 then 92 ∷ 34 ∷ rest else c ∷ rest

-- `Literal::to_canonical_string`
unfoldable pub to_canonical_string : {p : Platform} → Literal p → Text
unfolding escape_quotes dec_to_string to_string
to_canonical_string (dec m s) = dec_to_string m s
to_canonical_string (str s) = 34 ∷ escape_quotes s ++ 34 ∷ []
to_canonical_string {p} (date d) = p.format_date d
to_canonical_string (dur d) = to_string d ++ codes "ns"
to_canonical_string (bool true) = codes "true"
to_canonical_string (bool false) = codes "false"
to_canonical_string (uri u) = codes "<" ++ u ++ codes ">"

-- `{:?}` of a status
unfoldable pub debug_status : NodeStatus → Text
debug_status active = codes "Active"
debug_status retracted = codes "Retracted"
debug_status pending = codes "Pending"

unfoldable pub status_eq : NodeStatus → NodeStatus → Bool
status_eq active active = true
status_eq retracted retracted = true
status_eq pending pending = true
status_eq _ _ = false

pub status_eq_iff : (a b : NodeStatus) → (status_eq a b ≡ true) ↔ (a ≡ b)
unfolding status_eq
status_eq_iff active active = ground arith
status_eq_iff retracted retracted = ground arith
status_eq_iff pending pending = ground arith
status_eq_iff _ _ = ground arith

abbrev span_eq : Span → Span → Bool
span_eq a b = eqb a.start b.start && eqb a.end b.end

span_eq_iff : (a b : Span) → (span_eq a b ≡ true) ↔ (a ≡ b)
span_eq_iff a b = ground arith

abbrev model_eq : ModelRef → ModelRef → Bool
model_eq a b = text_eq a.name b.name && text_eq a.version b.version

model_eq_iff : (a b : ModelRef) → (model_eq a b ≡ true) ↔ (a ≡ b)
model_eq_iff a b = ground (arith, text_eq_iff a.name b.name, text_eq_iff a.version b.version)

unfoldable pub provenance_eq : Provenance → Provenance → Bool
provenance_eq (verbatim a s) (verbatim b t) = text_eq a b && span_eq s t
provenance_eq (summary a s) (summary b t) = text_eq a b && span_eq s t
provenance_eq (extracted a s m) (extracted b t n) = text_eq a b && span_eq s t && model_eq m n
provenance_eq (derived a r) (derived b q) = text_eq a b && text_eq r q
provenance_eq (asserted a) (asserted b) = text_eq a b
provenance_eq _ _ = false

pub provenance_eq_iff : (a b : Provenance) → (provenance_eq a b ≡ true) ↔ (a ≡ b)
unfolding provenance_eq
provenance_eq_iff (verbatim a s) (verbatim b t) = ground (arith, text_eq_iff a b, span_eq_iff s t)
provenance_eq_iff (summary a s) (summary b t) = ground (arith, text_eq_iff a b, span_eq_iff s t)
provenance_eq_iff (extracted a s m) (extracted b t n) =
    ground (arith, text_eq_iff a b, span_eq_iff s t, model_eq_iff m n)
provenance_eq_iff (derived a r) (derived b q) = ground (arith, text_eq_iff a b, text_eq_iff r q)
provenance_eq_iff (asserted a) (asserted b) = ground (arith, text_eq_iff a b)
provenance_eq_iff _ _ = ground arith

-- `==` of vectors of identifiers
unfoldable pub ids_eq : List NodeId → List NodeId → Bool
ids_eq [] [] = true
ids_eq (x ∷ xs) (y ∷ ys) = text_eq x y && ids_eq xs ys
ids_eq _ _ = false

pub ids_eq_iff : (a b : List NodeId) → (ids_eq a b ≡ true) ↔ (a ≡ b)
unfolding ids_eq
ids_eq_iff [] [] = ground arith
ids_eq_iff [] (y ∷ ys) = ground arith
ids_eq_iff (x ∷ xs) [] = ground arith
ids_eq_iff (x ∷ xs) (y ∷ ys) = ground (arith, text_eq_iff x y, ids_eq_iff xs ys)

abbrev until_eq : (p : Platform) → Option p.Time → Option p.Time → Bool
until_eq p none none = true
until_eq p (some a) (some b) = time_eq p a b
until_eq p _ _ = false

unfoldable pub validity_eq : {p : Platform} → Validity p → Validity p → Bool
validity_eq forever forever = true
validity_eq {p} (window a u) (window b v) = time_eq p a b && until_eq p u v
validity_eq _ _ = false
