-- ===== src/Core/Canonical/Nodes.antt =====
-- The canonical form of whole nodes in crates/factum-core/src/serialize.rs, as UTF-8 bytes.
use factum.Prelude.{
  ℕ, Bool, false, ◌||◌, Option, none, some, List, [], ◌∷◌, ◌++◌, Text, codes, eqb, if◌then◌else◌,
}
use factum.Prelude.Digits.{to_string}
use factum.Core.Platform.{Platform}
use factum.Core.Types.{
  NodeId, Span, Validity, forever, window, Provenance, verbatim, summary, extracted, derived,
  asserted, Node,
}
use factum.Core.Canonical.{escape, canonical_predicate}

-- `s.contains('.')`
contains_point : Text → Bool
contains_point [] = false
contains_point (c ∷ cs) = eqb c 46 || contains_point cs

-- a string in quotes
abbrev quoted : Text → Text
quoted s = 34 ∷ s ++ 34 ∷ []

-- " [start end]", a byte span
span_text : Span → Text
span_text s = codes " [" ++ to_string s.start ++ codes " " ++ to_string s.end ++ codes "]"

unfoldable pub canonical_provenance : Provenance → Text
unfolding span_text
canonical_provenance (verbatim doc span) =
    codes "(verbatim " ++ quoted doc ++ span_text span ++ codes ")"
canonical_provenance (summary doc span) =
    codes "(summary " ++ quoted doc ++ span_text span ++ codes ")"
canonical_provenance (extracted doc span model) =
    codes "(extracted "
    ++ quoted doc
    ++ span_text span
    ++ codes " (model "
    ++ quoted model.name
    ++ codes " "
    ++ quoted model.version
    ++ codes "))"
canonical_provenance (derived from rule) =
    codes "(derived " ++ from ++ codes " " ++ quoted rule ++ codes ")"
canonical_provenance (asserted by) = codes "(asserted " ++ quoted by ++ codes ")"

-- the name of a permission tag
unfoldable pub perm_str : ℕ → Text
perm_str tag =
    if eqb tag 1
    then codes "public"
    else if eqb tag 2
    then codes "internal"
    else if eqb tag 4
    then codes "confidential"
    else if eqb tag 8
    then codes "restricted"
    else codes "custom"

-- the dependencies, a space between two
spaced : List NodeId → Text
spaced [] = []
spaced (d ∷ []) = d
spaced (d ∷ e ∷ ds) = d ++ codes " " ++ spaced (e ∷ ds)

unfoldable pub deps_text : List NodeId → Text
unfolding spaced
deps_text [] = []
deps_text (d ∷ ds) = codes " :deps [" ++ spaced (d ∷ ds) ++ codes "]"

unfoldable pub note_text : Option Text → Text
unfolding escape
note_text none = []
note_text (some note) = codes " :note " ++ quoted (escape note)

-- `format_f32_with_decimal`
unfoldable pub format_f32_with_decimal : (p : Platform) → p.F32 → Text
unfolding contains_point
format_f32_with_decimal p v =
    if contains_point (p.format_f32 v) then p.format_f32 v else p.format_f32 v ++ codes ".0"

module _ {p : Platform} where
  unfoldable pub canonical_validity : Validity p → Text
  canonical_validity forever = codes "forever"
  canonical_validity (window from none) =
      codes "(window " ++ quoted (p.to_rfc3339 from) ++ codes ")"
  canonical_validity (window from (some u)) =
      codes "(window "
      ++ quoted (p.to_rfc3339 from)
      ++ codes " "
      ++ quoted (p.to_rfc3339 u)
      ++ codes ")"

  -- `canonical`
  unfoldable pub canonical : Node p → Text
  unfolding canonical_predicate canonical_validity canonical_provenance format_f32_with_decimal
      perm_str deps_text note_text
  canonical n =
      codes "(node "
      ++ n.id
      ++ codes " :pred "
      ++ canonical_predicate n.predicate
      ++ codes " :valid "
      ++ canonical_validity n.validity
      ++ codes " :src "
      ++ canonical_provenance n.provenance
      ++ codes " :conf "
      ++ format_f32_with_decimal p n.confidence
      ++ codes " :auth "
      ++ format_f32_with_decimal p n.authority
      ++ codes " :perm "
      ++ perm_str n.permissions
      ++ deps_text n.deps
      ++ note_text n.note
      ++ codes ")"

  -- `canonical_all`: a newline behind each node
  unfoldable pub canonical_all : List (Node p) → Text
  unfolding canonical
  canonical_all [] = []
  canonical_all (n ∷ ns) = canonical n ++ 10 ∷ canonical_all ns
