-- ===== src/Core/Compact.antt =====
-- The compact form of crates/factum-core/src/serialize.rs. The JSON text that serde derives for it
-- is not part of the source, and a parameter where it is used.
use factum.Prelude.{ℕ, Option, none, some, List, Text}
use factum.Core.Platform.{Platform}
use factum.Core.Types.{
  PredicateHead, Term, Terms, NamedArgs, Predicate, predicate, Node, Validity, Provenance, head_of,
  args_of, named_of, Span,
}
use factum.Core.Types.Display.{to_canonical_string}
use factum.Core.Morphemes.{MorphemeRegistry, resolve}

pub data CompactHead : Type 0 where
  name : Text → CompactHead
  id : ℕ → CompactHead

-- The vectors of terms and of named terms stand in the block.
mutual
  pub data CompactTerm : Type 0 where
    var ent lit : Text → CompactTerm
    list : CompactTerms → CompactTerm
    compound : CompactHead → CompactTerms → CompactNamed → CompactTerm

  pub data CompactTerms : Type 0 where
    nil : CompactTerms
    cons : CompactTerm → CompactTerms → CompactTerms

  pub data CompactNamed : Type 0 where
    end : CompactNamed
    arg : Text → CompactTerm → CompactNamed → CompactNamed

pub data CompactValidity : Type 0 where
  forever : CompactValidity
  window : Text → Option Text → CompactValidity

pub data CompactProvenance : Type 0 where
  verbatim : Text → ℕ × ℕ → CompactProvenance
  summary : Text → ℕ × ℕ → CompactProvenance
  extracted : Text → ℕ × ℕ → Text × Text → CompactProvenance
  derived : Text → Text → CompactProvenance
  asserted : Text → CompactProvenance

pub record CompactNode (p : Platform) : Type 0 where
  pub id : Text
  pub head : CompactHead
  pub args : CompactTerms
  pub named : CompactNamed
  pub valid : CompactValidity
  pub src : CompactProvenance
  pub conf : p.F32
  pub auth : p.F32
  pub perm : ℕ
  pub deps : List Text
  pub note : Option Text

-- the head of a nested predicate, whose name is not resolved
abbrev plain_head : PredicateHead → CompactHead
plain_head (PredicateHead.name n) = CompactHead.name n
plain_head (PredicateHead.id i) = CompactHead.id i

-- the head of a node, as a registered identifier if there is one
unfoldable pub compact_head : MorphemeRegistry → PredicateHead → CompactHead
unfolding resolve
compact_head r (PredicateHead.id i) = CompactHead.id i
compact_head r (PredicateHead.name n) = elim (resolve r n) [
  | some i ↦ CompactHead.id i
  | none ↦ CompactHead.name n
]

-- `CompactTerm::from_term`
unfoldable mutual
  pub from_term : {p : Platform} → Term p → CompactTerm
  from_term (Term.var s) = CompactTerm.var s
  from_term (Term.ent e) = CompactTerm.ent e
  from_term (Term.lit l) = CompactTerm.lit (to_canonical_string l)
  from_term (Term.list ts) = CompactTerm.list (from_terms ts)
  from_term (Term.compound q) = from_predicate q

  pub from_terms : {p : Platform} → Terms p → CompactTerms
  from_terms Terms.nil = CompactTerms.nil
  from_terms (Terms.cons t ts) = CompactTerms.cons (from_term t) (from_terms ts)

  pub from_named : {p : Platform} → NamedArgs p → CompactNamed
  from_named NamedArgs.end = CompactNamed.end
  from_named (NamedArgs.arg k t ns) = CompactNamed.arg k (from_term t) (from_named ns)

  pub from_predicate : {p : Platform} → Predicate p → CompactTerm
  from_predicate (predicate h ts ns) =
      CompactTerm.compound (plain_head h) (from_terms ts) (from_named ns)

abbrev pair : Span → ℕ × ℕ
pair s = (s.start, s.end)

unfoldable pub compact_provenance : Provenance → CompactProvenance
compact_provenance (Provenance.verbatim doc span) = CompactProvenance.verbatim doc (pair span)
compact_provenance (Provenance.summary doc span) = CompactProvenance.summary doc (pair span)
compact_provenance (Provenance.extracted doc span model) =
    CompactProvenance.extracted doc (pair span) (model.name, model.version)
compact_provenance (Provenance.derived from rule) = CompactProvenance.derived from rule
compact_provenance (Provenance.asserted by) = CompactProvenance.asserted by

module _ {p : Platform} where
  -- `format_day` is `format("%Y-%m-%d")` of an instant.
  unfoldable pub compact_validity : (p.Time → Text) → Validity p → CompactValidity
  compact_validity format_day Validity.forever = CompactValidity.forever
  compact_validity format_day (Validity.window from none) =
      CompactValidity.window (format_day from) none
  compact_validity format_day (Validity.window from (some u)) =
      CompactValidity.window (format_day from) (some (format_day u))

  -- `CompactNode::from_node`
  unfoldable pub from_node : (p.Time → Text) → Node p → MorphemeRegistry → CompactNode p
  unfolding compact_head from_term compact_validity compact_provenance
  from_node format_day n r = record {
    id = n.id;
    head = compact_head r (head_of n.predicate);
    args = from_terms (args_of n.predicate);
    named = from_named (named_of n.predicate);
    valid = compact_validity format_day n.validity;
    src = compact_provenance n.provenance;
    conf = n.confidence;
    auth = n.authority;
    perm = n.permissions;
    deps = n.deps;
    note = n.note;
  }
