-- ===== src/Rt/Store/Insert.antt =====
-- What `insert` and `insert_batch` of crates/factum-rt/src/store.rs write.
use factum.Prelude.{
  true, ◌≡◌, sym, ◌∙◌, ◌↔◌, ◌⊎◌, inl, inr, none, List, [], ◌∷◌, Bool-cases, Elem, All, arith, ok,
  Text,
}
use factum.HashMap
use factum.HashMap.{HashMap, ◌==◌, text_key}
use factum.HashMap.Laws.{get-insert, Elem-values_at-push, Elem-collect-push}
use factum.Core.Platform.{Platform}
use factum.Core.Types.{NodeId, Node, head_of}
use factum.Core.Morphemes.{MorphemeRegistry}
use factum.Rt.Storage.{
  Cf, InMemoryBackend, batch_write, by_entity, by_pred, by_src, by_perm, scan, to_be_bytes,
}
use factum.Rt.Storage.Writes.{
  Adds, IsInsertion, IsEntry-IsInsertion, with_nodes-entries, batch_write_ok, node_map-batch_write,
  Elem-scan-batch_write,
}
use factum.Rt.Store.{
  FactumStore, insert, push_deps, update_deps_rev, update_by_validity, validity_key,
  validity_key_eq,
}
use factum.Rt.Store.Entries.{build_insert_ops, index_ops, head_key, src_key}
use factum.Rt.Store.Write.{index_node, notify_node, log, write_node}
use factum.Rt.Store.Index.{NodeMentions, Selects, IsKeyed, IsValid, IsExact-insert}
use factum.Rt.Store.Added.{IsEntry-index_ops, Adds-entity, Adds-pred, Adds-src, Adds-perm}

or_iff : {X Y Z W : Type 0} → X ↔ (Y ⊎ Z) → Z ↔ W → X ↔ (Y ⊎ W)
or_iff a b = (
  λ x. elim (a.0 x) [ inl y ↦ inl y | inr z ↦ inr (b.0 z) ],
  λ h. a.1 (elim h [ inl y ↦ inl y | inr w ↦ inr (b.1 w) ]),
)

-- `update_deps_rev` adds the node under each of its dependencies.
Elem-push_deps :
    (id : NodeId) (ds : List NodeId) (d x : NodeId) (m : HashMap NodeId (List NodeId))
    → Elem x (HashMap.values_at d (push_deps id ds m))
      ↔ (Elem x (HashMap.values_at d m) ⊎ (Elem d ds × (x ≡ id)))
unfolding push_deps
Elem-push_deps id [] d x m = (λ h. inl h, λ h. elim h [ inl l ↦ l | inr r ↦ absurd r.0 ])
Elem-push_deps id (e ∷ ds) d x m =
    let ih = Elem-push_deps id ds d x (HashMap.push e id m) in
    let one = Elem-values_at-push e d id x m in
    (
      λ h. elim (ih.0 h) [
        | inl l ↦ elim (one.0 l) [ inl old ↦ inl old | inr new ↦ inr (inl (sym new.0), new.1) ]
        | inr r ↦ inr (inr r.0, r.1)
      ],
      λ h. elim h [
        | inl old ↦ ih.1 (inl (one.1 (inl old)))
        | inr (inl e', new) ↦ ih.1 (inl (one.1 (inr (sym e', new))))
        | inr (inr later, new) ↦ ih.1 (inr (later, new))
      ],
    )

module _ {p : Platform} where
  pub IsInsertion-build_insert_ops :
      (r : MorphemeRegistry) (n : Node p) → All IsInsertion (build_insert_ops r n)
  unfolding build_insert_ops
  IsInsertion-build_insert_ops r n =
      (tt, IsEntry-IsInsertion (index_ops r n) (IsEntry-index_ops r n))

  -- the backend after the insertion of a node
  abbrev pub inserted_in : FactumStore p → Node p → InMemoryBackend p
  inserted_in s n = (batch_write s.backend (build_insert_ops s.registry n)).1

  -- the store after the insertion of a node
  abbrev pub inserted : FactumStore p → Node p → FactumStore p
  inserted s n =
      notify_node (index_node (record (log s (insert n)) { backend = inserted_in s n }) n) n

  pub write_node_eq : (s : FactumStore p) (n : Node p) → write_node s n ≡ (ok tt, inserted s n)
  unfolding write_node
  write_node_eq s n = rw (
    batch_write_ok (build_insert_ops s.registry n) s.backend
        (IsInsertion-build_insert_ops s.registry n),
    write_node,
  )

  pub node_map-inserted :
      (s : FactumStore p) (n : Node p)
      → (inserted_in s n).node_map ≡ HashMap.insert n.id n s.backend.node_map
  unfolding build_insert_ops
  node_map-inserted s n =
      node_map-batch_write (build_insert_ops s.registry n) s.backend
        (IsInsertion-build_insert_ops s.registry n)
      ∙ with_nodes-entries (index_ops s.registry n) (HashMap.insert n.id n s.backend.node_map)
          (IsEntry-index_ops s.registry n)

  pub IsKeyed-insert :
      (n : Node p) (m : HashMap NodeId (Node p)) → IsKeyed m → IsKeyed (HashMap.insert n.id n m)
  IsKeyed-insert n m h x k e = elim (Bool-cases (n.id == x)) [
    | inl q ↦
        (let g = get-insert n.id x n m in
          let same : n ≡ k = cc (e, g, q) in rw (← same) ((text_key.beq_iff n.id x).0 q))
    | inr q ↦ (let g = get-insert n.id x n m in h x k (ground (arith, g, q)))
  ]

  scan-inserted :
      (s : FactumStore p) (n : Node p) (cf : Cf) (key : Text) (x : NodeId)
      → Elem x (scan (inserted_in s n) cf key)
        ↔ (Elem x (scan s.backend cf key) ⊎ Adds (index_ops s.registry n) cf key x)
  unfolding build_insert_ops
  scan-inserted s n cf key x =
      Elem-scan-batch_write (build_insert_ops s.registry n) s.backend cf key x
        (IsInsertion-build_insert_ops s.registry n)

  -- Inserting a node with a fresh identifier keeps every index exact.
  pub inserted-IsValid :
      (s : FactumStore p) (n : Node p)
      → HashMap.get n.id s.backend.node_map ≡ none
      → IsValid s
      → IsValid (inserted s n)
  unfolding notify_node index_node update_deps_rev update_by_validity log
  inserted-IsValid s n fresh h = record {
    keyed = rw (node_map-inserted s n) (IsKeyed-insert n s.backend.node_map h.keyed);
    entities = λ key. rw (node_map-inserted s n) (
        IsExact-insert (λ k. NodeMentions (Selects key k.id) k) n s.backend.node_map
          (scan s.backend by_entity key) (scan (inserted_in s n) by_entity key) fresh
          (h.entities key)
          (λ x. or_iff (scan-inserted s n by_entity key x) (Adds-entity s.registry n key x)));
    preds = λ key. rw (node_map-inserted s n) (
        IsExact-insert (λ k. Selects key k.id (head_key s.registry (head_of k.predicate))) n
          s.backend.node_map (scan s.backend by_pred key) (scan (inserted_in s n) by_pred key) fresh
          (h.preds key)
          (λ x. or_iff (scan-inserted s n by_pred key x) (Adds-pred s.registry n key x)));
    sources = λ key. rw (node_map-inserted s n) (
        IsExact-insert (λ k. Selects key k.id (src_key k.provenance)) n s.backend.node_map
          (scan s.backend by_src key) (scan (inserted_in s n) by_src key) fresh (h.sources key)
          (λ x. or_iff (scan-inserted s n by_src key x) (Adds-src s.registry n key x)));
    perms = λ key. rw (node_map-inserted s n) (
        IsExact-insert (λ k. Selects key k.id (to_be_bytes k.permissions)) n s.backend.node_map
          (scan s.backend by_perm key) (scan (inserted_in s n) by_perm key) fresh (h.perms key)
          (λ x. or_iff (scan-inserted s n by_perm key x) (Adds-perm s.registry n key x)));
    dependents = λ d. rw (node_map-inserted s n) (
        IsExact-insert (λ k. Elem d k.deps) n s.backend.node_map (HashMap.values_at d s.deps_rev)
          (HashMap.values_at d (push_deps n.id n.deps s.deps_rev)) fresh (h.dependents d)
          (λ x. Elem-push_deps n.id n.deps d x s.deps_rev));
    validities = λ q. rw (node_map-inserted s n) (
        IsExact-insert (λ k. q (validity_key k.validity) ≡ true) n s.backend.node_map
          (HashMap.collect q s.by_validity)
          (HashMap.collect q (HashMap.push (validity_key n.validity) n.id s.by_validity)) fresh
          (h.validities q)
          (λ x. Elem-collect-push q (validity_key n.validity) n.id x s.by_validity));
  }
