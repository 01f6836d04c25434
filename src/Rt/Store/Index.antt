-- ===== src/Rt/Store/Index.antt =====
-- What an exact index is, the well-formed stores, and what the index entries of one node are.
use factum.Prelude.{
  Bool, true, ◌≡◌, sym, subst, ◌↔◌, ◌⊎◌, inl, inr, Option, none, some, List, Text, starts_with,
  Bool-cases, Elem,
}
use factum.HashMap
use factum.HashMap.{HashMap, ◌==◌, text_key, text_key as key_of}
use factum.HashMap.Laws.{get-insert}
use factum.Core.Platform.{Platform}
use factum.Core.Types.{
  NodeId, Node, Term, var, ent, lit, compound, list, Terms, nil, cons, NamedArgs, end, arg,
  Predicate, predicate, head_of, args_of, named_of,
}
use factum.Rt.Storage.{
  by_entity, by_pred, by_src, by_perm, encode_index_key, encode_index_prefix, scan, to_be_bytes,
}
use factum.Rt.Store.{FactumStore, ValidityKey, validity_key, validity_key_eq}
use factum.Rt.Store.Entries.{head_key, src_key}

-- The entry of a node under `e` is one that a scan for `key` selects.
abbrev pub Selects : Text → NodeId → Text → Type 0
Selects key id e = starts_with (encode_index_key e id) (encode_index_prefix key) ≡ true

-- An entity with `Q` stands in the term: a list's items and the positional arguments of a nested
-- predicate count, its named arguments do not.
abbrev mutual
  pub Mentions : {p : Platform} → (Text → Type 0) → Term p → Type 0
  Mentions Q (var v) = ⊥
  Mentions Q (ent e) = Q e
  Mentions Q (lit l) = ⊥
  Mentions Q (compound q) = MentionsPredicate Q q
  Mentions Q (list ts) = MentionsAny Q ts

  pub MentionsAny : {p : Platform} → (Text → Type 0) → Terms p → Type 0
  MentionsAny Q nil = ⊥
  MentionsAny Q (cons t ts) = Mentions Q t ⊎ MentionsAny Q ts

  pub MentionsPredicate : {p : Platform} → (Text → Type 0) → Predicate p → Type 0
  MentionsPredicate Q (predicate h ts ns) = MentionsAny Q ts

module _ {p : Platform} where
  abbrev pub MentionsNamed : (Text → Type 0) → NamedArgs p → Type 0
  MentionsNamed Q end = ⊥
  MentionsNamed Q (arg k t ns) = Mentions Q t ⊎ MentionsNamed Q ns

  -- An entity with `Q` stands in the node's own arguments, positional or named.
  abbrev pub NodeMentions : (Text → Type 0) → Node p → Type 0
  NodeMentions Q n = MentionsAny Q (args_of n.predicate) ⊎ MentionsNamed Q (named_of n.predicate)

  -- The node found, if there is one, has `P`.
  abbrev pub At : (Node p → Type 0) → Option (Node p) → Type 0
  At P none = ⊥
  At P (some n) = P n

  -- The identifiers are those of the nodes with `P`.
  abbrev pub IsExact : List NodeId → (Node p → Type 0) → HashMap NodeId (Node p) → Type 0
  IsExact ids P m = (x : NodeId) → Elem x ids ↔ At P (HashMap.get x m)

  -- Each node is stored under its identifier.
  abbrev pub IsKeyed : HashMap NodeId (Node p) → Type 0
  IsKeyed m = (x : NodeId) (n : Node p) → HashMap.get x m ≡ some n → n.id ≡ x

  -- Each index of the store is exact, and each node is stored under its identifier.
  pub record IsValid (s : FactumStore p) : Type 0 where
    pub keyed : IsKeyed s.backend.node_map
    pub entities :
        (key : Text)
        → IsExact
            (scan s.backend by_entity key)
            (λ n. NodeMentions (Selects key n.id) n)
            s.backend.node_map
    pub preds :
        (key : Text)
        → IsExact
            (scan s.backend by_pred key)
            (λ n. Selects key n.id (head_key s.registry (head_of n.predicate)))
            s.backend.node_map
    pub sources :
        (key : Text)
        → IsExact
            (scan s.backend by_src key)
            (λ n. Selects key n.id (src_key n.provenance))
            s.backend.node_map
    pub perms :
        (key : Text)
        → IsExact
            (scan s.backend by_perm key)
            (λ n. Selects key n.id (to_be_bytes n.permissions))
            s.backend.node_map
    pub dependents :
        (d : NodeId)
        → IsExact (HashMap.values_at d s.deps_rev) (λ n. Elem d n.deps) s.backend.node_map
    pub validities :
        (q : ValidityKey → Bool)
        → IsExact
            (HashMap.collect q s.by_validity)
            (λ n. q (validity_key n.validity) ≡ true)
            s.backend.node_map

  -- An exact index stays exact when a new node is written and its identifier is added if it has
  -- `P`.
  pub IsExact-insert :
      (P : Node p → Type 0) (n : Node p) (m : HashMap NodeId (Node p)) (ids ids' : List NodeId)
      → HashMap.get n.id m ≡ none
      → IsExact ids P m
      → ((x : NodeId) → Elem x ids' ↔ (Elem x ids ⊎ (P n × (x ≡ n.id))))
      → IsExact ids' P (HashMap.insert n.id n m)
  IsExact-insert P n m ids ids' fresh h step x =
      rw (get-insert n.id x n m) (elim (Bool-cases (n.id == x)) [
        | inl q ↦ rw q (
            let e = (key_of.beq_iff n.id x).0 q in
            (
              λ h'. elim ((step x).0 h') [
                | inl old ↦
                    absurd (
                      subst (At P) fresh
                        (subst (λ j. At P (HashMap.get j m)) (sym e) ((h x).0 old)))
                | inr new ↦ new.0
              ],
              λ new. (step x).1 (inr (new, sym e)),
            ))
        | inr q ↦ rw q (
          λ h'. elim ((step x).0 h') [
            | inl old ↦ (h x).0 old
            | inr new ↦ absurd (cc (q, (key_of.beq_iff n.id x).1 (sym new.1)))
          ],
          λ old. (step x).1 (inl ((h x).1 old)),
        )
      ])
