-- ===== src/Rt/Store/Entries.antt =====
-- `build_insert_ops` and `collect_entity_index_ops` of crates/factum-rt/src/store.rs: the writes
-- that insert a node and its index entries.
use factum.Prelude.{none, some, List, [], ◌∷◌, ◌++◌, Text, codes}
use factum.Prelude.Digits.{to_string}
use factum.Core.Platform.{Platform}
use factum.Core.Types.{
  NodeId, Node, Term, var, ent, lit, compound, list, Terms, nil, cons, NamedArgs, end, arg,
  predicate, Predicate, PredicateHead, head_of, args_of, named_of, Provenance, verbatim, summary,
  extracted, derived, asserted,
}
use factum.Core.Morphemes
use factum.Core.Morphemes.{MorphemeRegistry}
use factum.Rt.Storage.{
  WriteOp, put_node, put_index, by_entity, by_pred, by_src, by_perm, encode_index_key, to_be_bytes,
}

-- The entity index: a nested predicate gives the entities of its positional arguments.
unfoldable mutual
  pub term_ops : {p : Platform} → Term p → NodeId → List (WriteOp p)
  term_ops (var v) id = []
  term_ops (ent e) id = put_index by_entity (encode_index_key e id) id ∷ []
  term_ops (lit l) id = []
  term_ops (compound q) id = predicate_ops q id
  term_ops (list ts) id = terms_ops ts id

  pub terms_ops : {p : Platform} → Terms p → NodeId → List (WriteOp p)
  terms_ops nil id = []
  terms_ops (cons t ts) id = term_ops t id ++ terms_ops ts id

  pub predicate_ops : {p : Platform} → Predicate p → NodeId → List (WriteOp p)
  predicate_ops (predicate h ts ns) id = terms_ops ts id

unfoldable pub named_ops : {p : Platform} → NamedArgs p → NodeId → List (WriteOp p)
unfolding term_ops
named_ops end id = []
named_ops (arg k t ns) id = term_ops t id ++ named_ops ns id

-- The name under which a head is indexed: "M" and the number for an unknown identifier.
unfoldable pub head_key : MorphemeRegistry → PredicateHead → Text
unfolding Morphemes.lookup_id to_string
head_key r (PredicateHead.name n) = n
head_key r (PredicateHead.id i) = elim (Morphemes.lookup_id r i) [
  | none ↦ codes "M" ++ to_string i
  | some d ↦ d.name
]

-- The source under which a node is indexed.
unfoldable pub src_key : Provenance → Text
src_key (verbatim doc span) = doc
src_key (summary doc span) = doc
src_key (extracted doc span model) = doc
src_key (derived from rule) = from
src_key (asserted by) = by

module _ {p : Platform} where
  -- the index entries of a node
  unfoldable pub index_ops : MorphemeRegistry → Node p → List (WriteOp p)
  index_ops r n =
      terms_ops (args_of n.predicate) n.id
      ++ (named_ops (named_of n.predicate) n.id
          ++ (put_index by_pred (encode_index_key (head_key r (head_of n.predicate)) n.id) n.id
              ∷ put_index by_src (encode_index_key (src_key n.provenance) n.id) n.id
              ∷ put_index by_perm (encode_index_key (to_be_bytes n.permissions) n.id) n.id
              ∷ []))

  -- `build_insert_ops`
  unfoldable pub build_insert_ops : MorphemeRegistry → Node p → List (WriteOp p)
  unfolding index_ops
  build_insert_ops r n = put_node n ∷ index_ops r n
