-- ===== src/Rt/Store/Single.antt =====
-- `insert` of crates/factum-rt/src/store.rs as the clients see it.
use factum.Prelude.{◌≡◌, ap, ◌⊎◌, inl, inr, none, some, if◌then◌else◌, Option-cases, ok, err}
use factum.HashMap
use factum.HashMap.{HashMap, ◌==◌, text_key}
use factum.HashMap.Laws.{get-insert}
use factum.Core.Platform.{Platform}
use factum.Core.Types.{NodeId, Node}
use factum.Rt.Storage.{get_node}
use factum.Rt.Store.{
  FactumStore, StoreError, already_exists, invalid_node, update_deps_rev, update_by_validity,
}
use factum.Rt.Store.Write.{refusal, index_node, notify_node, log, insert_node}
use factum.Rt.Store.Read.{get}
use factum.Rt.Store.Index.{IsValid}
use factum.Rt.Store.Insert.{inserted, write_node_eq, node_map-inserted, inserted-IsValid}

module _ {p : Platform} where
  -- An insertion that the verifiers accept, at an identifier that is free.
  pub insert_node_accepted :
      (s : FactumStore p) (n : Node p)
      → refusal s.verifiers n ≡ none
      → HashMap.get n.id s.backend.node_map ≡ none
      → insert_node s n ≡ (ok tt, inserted s n)
  unfolding insert_node get_node
  insert_node_accepted s n accepted fresh =
      rw (accepted, fresh, insert_node, get_node) (write_node_eq s n)

  get-inserted :
      (s : FactumStore p) (n : Node p) (j : NodeId)
      → get (inserted s n) j ≡ (if n.id == j then some n else get s j)
  unfolding get get_node notify_node index_node update_deps_rev update_by_validity log
  get-inserted s n j = rw (node_map-inserted s n) (get-insert n.id j n s.backend.node_map)

  -- an insertion is accepted, or refused with the store unchanged
  pub insert_node_cases :
      (s : FactumStore p) (n : Node p)
      → ((refusal s.verifiers n ≡ none) × (HashMap.get n.id s.backend.node_map ≡ none))
        ⊎ ((e : StoreError) × (insert_node s n ≡ (err e, s)))
  unfolding insert_node get_node
  insert_node_cases s n = elim (Option-cases (refusal s.verifiers n)) [
    | inl accepted ↦ elim (Option-cases (HashMap.get n.id s.backend.node_map)) [
      | inl fresh ↦ inl (accepted, fresh)
      | inr (old, e) ↦ inr (already_exists n.id, rw (accepted, e, insert_node, get_node))
    ]
    | inr (why, e) ↦ inr (invalid_node why, rw (e, insert_node))
  ]

  -- `insert` either succeeds, at a free identifier and with no refusal, and then only the read of
  -- that identifier changes; or it returns an error and the store is what it was.
  pub insert_node_refines :
      (s : FactumStore p) (n : Node p)
      → (((insert_node s n).0 ≡ ok tt)
          × (refusal s.verifiers n ≡ none)
          × (get s n.id ≡ none)
          × ((j : NodeId) → get (insert_node s n).1 j ≡ (if n.id == j then some n else get s j)))
        ⊎ ((e : StoreError) × (insert_node s n ≡ (err e, s)))
  insert_node_refines s n = elim (insert_node_cases s n) [
    | inl (accepted, fresh) ↦
        (let e = insert_node_accepted s n accepted fresh in
          inl (ap (λ r. r.0) e, accepted, unfold get get_node in fresh, rw e (get-inserted s n)))
    | inr refused ↦ inr refused
  ]

  -- `insert` keeps the store well formed, whatever it returns.
  pub insert_node-IsValid :
      (s : FactumStore p) (n : Node p) → IsValid s → IsValid (insert_node s n).1
  insert_node-IsValid s n h = elim (insert_node_cases s n) [
    | inl (accepted, fresh) ↦
        rw (insert_node_accepted s n accepted fresh) (inserted-IsValid s n fresh h)
    | inr (e, refused) ↦ rw refused h
  ]
