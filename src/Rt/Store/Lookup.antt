-- ===== src/Rt/Store/Lookup.antt =====
-- The lookups of crates/factum-rt/src/store.rs. An index key ends with a zero byte, so names with a
-- zero byte are set apart.
pub mod Names
use factum.Prelude.{
  ℕ, Bool, true, false, not, ◌&&◌, ◌≡◌, refl, sym, ap, subst, ◌∙◌, ◌↔◌, ◌⊎◌, inl, inr, Option, some,
  List, [], ◌∷◌, ◌++◌, Text, starts_with, eqb, if◌then◌else◌, Bool-cases, Option-cases, Elem,
  Elem-filter, filter,
}
use factum.HashMap
use factum.HashMap.{HashMap, ◌==◌, text_key}
use factum.Core.Platform.{Platform}
use factum.Core.Types.{
  NodeId, EntityId, Node, Term, var, ent, lit, compound, list, Terms, nil, cons, NamedArgs, end,
  arg, Predicate, predicate, head_of, args_of, named_of, is_active,
}
use factum.Rt.Storage.{
  InMemoryBackend, get_node, scan, by_entity, by_pred, by_src, encode_index_key,
  encode_index_prefix,
}
use factum.Rt.Store.{FactumStore, ValidityKey}
use factum.Rt.Store.Entries.{head_key, src_key}
use factum.Rt.Store.Read.{
  get, load_all, resolve_nodes, lookup_by_entity, lookup_by_pred, lookup_by_doc,
}
use factum.Rt.Store.Index.{
  Selects, Mentions, MentionsAny, MentionsPredicate, MentionsNamed, NodeMentions, At, IsExact,
  IsKeyed, IsValid,
}
use factum.Rt.Store.Lookup.Names.{nul_free, HasNul, Selects-iff, NodeMentions-map}

module _ {p : Platform} where
  -- the nodes behind identifiers, each of which is stored under its own
  Elem-load_all :
      (b : InMemoryBackend p) (ids : List NodeId) (n : Node p)
      → IsKeyed b.node_map
      → Elem n (load_all b ids) ↔ (Elem n.id ids × (get_node b n.id ≡ some n))
  unfolding load_all get_node
  Elem-load_all b [] n k = (λ h. absurd h, λ h. absurd h.0)
  Elem-load_all b (id ∷ ids) n k =
      let ih = Elem-load_all b ids n k in
      elim (Option-cases (HashMap.get id b.node_map)) [
        | inl e ↦
            rw (e, load_all, get_node)
              (
                λ h. (inr (ih.0 h).0, (ih.0 h).1),
                λ h. elim h.0 [
                  | inl q ↦
                      absurd
                        (let wrong = sym (ap (λ x. HashMap.get x b.node_map) q) ∙ h.1 in cc wrong)
                  | inr m ↦ ih.1 (m, h.1)
                ],
              )
        | inr (m, e) ↦
            rw (e, load_all, get_node)
              (
                λ h. elim h [
                  | inl q ↦ (
                    inl (ap (λ x. x.id) q ∙ k id m e),
                    ap (λ x. HashMap.get x b.node_map) (ap (λ x. x.id) q ∙ k id m e)
                        ∙ e
                        ∙ ap some (sym q),
                  )
                  | inr h' ↦ (inr (ih.0 h').0, (ih.0 h').1)
                ],
                λ h. elim h.0 [
                  | inl q ↦
                      (let same = sym (ap (λ x. HashMap.get x b.node_map) q ∙ e) ∙ h.1 in
                        let same_node : n ≡ m = cc in inl same_node)
                  | inr h' ↦ inr (ih.1 (h', h.1))
                ],
              )
      ]

  pub Elem-resolve_nodes :
      (s : FactumStore p) (ids : List NodeId) (P : Node p → Type 0)
      → IsKeyed s.backend.node_map
      → IsExact ids P s.backend.node_map
      → (n : Node p)
      → Elem n (resolve_nodes s ids) ↔ ((get s n.id ≡ some n) × (is_active n.status ≡ true) × P n)
  unfolding resolve_nodes get get_node
  Elem-resolve_nodes s ids P k exact n =
      let f = Elem-filter (λ (m : Node p). is_active m.status) n (load_all s.backend ids) in
      let l = Elem-load_all s.backend ids n k in
      (
        λ h.
            let found = (l.0 (f.0 h).0).1 in
            (found, (f.0 h).1, subst (At P) found ((exact n.id).0 (l.0 (f.0 h).0).0)),
        λ h. f.1 (l.1 ((exact n.id).1 (subst (At P) (sym h.0) h.2), h.0), h.1),
      )

  entity_iff :
      (key : EntityId) (n : Node p)
      → nul_free key ≡ true
      → (NodeMentions HasNul n → ⊥)
      → NodeMentions (Selects key n.id) n ↔ NodeMentions (λ e. e ≡ key) n
  entity_iff key n hk hn = (
    λ h.
        elim (NodeMentions-map (Selects key n.id) (λ e. e ≡ key) HasNul
          (λ e q. elim (Bool-cases (nul_free e)) [
            | inl free ↦ inl ((Selects-iff key e n.id hk free).0 q)
            | inr bad ↦ inr bad
          ])
          n h) [ inl a ↦ a | inr bad ↦ absurd (hn bad) ],
    λ h.
        elim (NodeMentions-map (λ e. e ≡ key) (Selects key n.id) HasNul
          (λ e q. inl ((Selects-iff key e n.id hk (ap nul_free q ∙ hk)).1 q)) n h) [
            | inl a ↦ a
            | inr bad ↦ absurd (hn bad)
          ],
  )

  -- In a well-formed store, `lookup_by_entity` for a name without a zero byte returns a node
  -- without such names exactly if the node is stored and active and the entity stands in its
  -- arguments. Lists and the positional arguments of nested predicates are searched, the named
  -- arguments of nested predicates are not.
  pub lookup_by_entity_exact :
      (s : FactumStore p) (key : EntityId) (n : Node p)
      → IsValid s
      → nul_free key ≡ true
      → (NodeMentions HasNul n → ⊥)
      → Elem n (lookup_by_entity s key)
        ↔ ((get s n.id ≡ some n) × (is_active n.status ≡ true) × NodeMentions (λ e. e ≡ key) n)
  unfolding lookup_by_entity
  lookup_by_entity_exact s key n h hk hn =
      let f =
        Elem-resolve_nodes s (scan s.backend by_entity key)
          (λ (m : Node p). NodeMentions (Selects key m.id) m) h.keyed (h.entities key) n in
      let e = entity_iff key n hk hn in
      (λ a. ((f.0 a).0, (f.0 a).1, e.0 (f.0 a).2), λ b. f.1 (b.0, b.1, e.1 b.2))

  -- In a well-formed store, `lookup_by_pred` for a name without a zero byte returns a node whose
  -- head is indexed under such a name exactly if the node is stored, active and indexed under that
  -- name.
  pub lookup_by_pred_exact :
      (s : FactumStore p) (key : Text) (n : Node p)
      → IsValid s
      → nul_free key ≡ true
      → nul_free (head_key s.registry (head_of n.predicate)) ≡ true
      → Elem n (lookup_by_pred s key) ↔ (
          (get s n.id ≡ some n)
          × (is_active n.status ≡ true)
          × (head_key s.registry (head_of n.predicate) ≡ key))
  unfolding lookup_by_pred
  lookup_by_pred_exact s key n h hk hn =
      let f =
        Elem-resolve_nodes s (scan s.backend by_pred key)
          (λ (m : Node p). Selects key m.id (head_key s.registry (head_of m.predicate))) h.keyed
          (h.preds key) n in
      let e = Selects-iff key (head_key s.registry (head_of n.predicate)) n.id hk hn in
      (λ a. ((f.0 a).0, (f.0 a).1, e.0 (f.0 a).2), λ b. f.1 (b.0, b.1, e.1 b.2))

  -- In a well-formed store, `lookup_by_doc` for a name without a zero byte returns a node whose
  -- source is such a name exactly if the node is stored, active and comes from that source.
  pub lookup_by_doc_exact :
      (s : FactumStore p) (key : Text) (n : Node p)
      → IsValid s
      → nul_free key ≡ true
      → nul_free (src_key n.provenance) ≡ true
      → Elem n (lookup_by_doc s key)
        ↔ ((get s n.id ≡ some n) × (is_active n.status ≡ true) × (src_key n.provenance ≡ key))
  unfolding lookup_by_doc
  lookup_by_doc_exact s key n h hk hn =
      let f =
        Elem-resolve_nodes s (scan s.backend by_src key)
          (λ (m : Node p). Selects key m.id (src_key m.provenance)) h.keyed (h.sources key) n in
      let e = Selects-iff key (src_key n.provenance) n.id hk hn in
      (λ a. ((f.0 a).0, (f.0 a).1, e.0 (f.0 a).2), λ b. f.1 (b.0, b.1, e.1 b.2))
