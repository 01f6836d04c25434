-- ===== src/Rt/Store/Batch.antt =====
-- `insert_batch` of crates/factum-rt/src/store.rs as the clients see it.
use factum.Prelude.{
  false, ◌||◌, ◌≡◌, refl, sym, ap, ◌∙◌, ◌⊎◌, inl, inr, Option, none, List, [], ◌∷◌, Option-cases,
  All, All-append, arith, ok, err,
}
use factum.HashMap
use factum.HashMap.{HashMap, ◌==◌, text_key}
use factum.HashMap.Laws.{get-insert}
use factum.Core.Platform.{Platform}
use factum.Core.Types.{NodeId, Node}
use factum.Core.Morphemes.{MorphemeRegistry}
use factum.Rt.Storage.{InMemoryBackend, batch_write, get_node}
use factum.Rt.Storage.Writes.{IsInsertion, batch_write_ok, batch_write-append}
use factum.Rt.Store.{
  FactumStore, WalEntry, insert, checkpoint, StoreError, already_exists, invalid_node,
  update_deps_rev, update_by_validity,
}
use factum.Rt.Verifier.{VerifierRegistry}
use factum.Rt.Store.Entries.{build_insert_ops}
use factum.Rt.Store.Write.{
  refusal, index_node, notify_node, log, insert_node, batch_refusal, first_duplicate, is_stored,
  seen_before, batch_ops, index_all, write_batch, insert_batch,
}
use factum.Rt.Store.Index.{IsValid}
use factum.Rt.Store.Insert.{inserted, inserted_in, node_map-inserted, IsInsertion-build_insert_ops}
use factum.Rt.Store.Single.{insert_node_accepted, insert_node-IsValid}

module _ {p : Platform} where
  -- one `insert` for each node
  abbrev pub insert_each : FactumStore p → List (Node p) → FactumStore p
  insert_each s [] = s
  insert_each s (n ∷ ns) = insert_each (insert_node s n).1 ns

  -- the identifiers of the nodes are free when their turn comes
  abbrev Fresh : HashMap NodeId (Node p) → List (Node p) → Type 0
  Fresh m [] = Unit
  Fresh m (n ∷ ns) = (HashMap.get n.id m ≡ none) × Fresh (HashMap.insert n.id n m) ns

  first_duplicate-cons :
      (b : InMemoryBackend p) (seen : List NodeId) (n : Node p) (ns : List (Node p))
      → first_duplicate b seen (n ∷ ns) ≡ none
      → ((is_stored (get_node b n.id) || seen_before n.id seen) ≡ false)
        × (first_duplicate b (n.id ∷ seen) ns ≡ none)
  unfolding first_duplicate
  first_duplicate-cons b seen n ns h = ground arith

  first_duplicate-Fresh :
      (b : InMemoryBackend p) (seen : List NodeId) (ns : List (Node p))
      (m : HashMap NodeId (Node p))
      → ((j : NodeId)
          → (is_stored (get_node b j) || seen_before j seen) ≡ false
          → HashMap.get j m ≡ none)
      → first_duplicate b seen ns ≡ none
      → Fresh m ns
  first_duplicate-Fresh b seen [] m cover h = tt
  first_duplicate-Fresh b seen (n ∷ ns) m cover h =
      let test = first_duplicate-cons b seen n ns h in
      (
        cover n.id test.0,
        first_duplicate-Fresh b (n.id ∷ seen) ns (HashMap.insert n.id n m)
            (λ j e.
              rw (get-insert n.id j n m)
                (ground (arith, e, cover j, text_key.beq_iff n.id j, text_key.beq_iff j n.id)))
            test.1,
      )

  batch_refusal-cons :
      (vs : Option (VerifierRegistry p)) (n : Node p) (ns : List (Node p))
      → batch_refusal vs (n ∷ ns) ≡ none
      → (refusal vs n ≡ none) × (batch_refusal vs ns ≡ none)
  unfolding batch_refusal
  batch_refusal-cons vs n ns h = ground arith

  -- the loop behind the write neither reads nor writes the backend
  index_all-backend :
      (s : FactumStore p) (b : InMemoryBackend p) (ns : List (Node p))
      → index_all (record s { backend = b }) ns ≡ record (index_all s ns) { backend = b }
  unfolding index_all
  index_all-backend s b [] = refl
  index_all-backend s b (n ∷ ns) =
      index_all-backend (notify_node (log (index_node s n) (insert n)) n) b ns

  -- one round of that loop
  abbrev round : FactumStore p → Node p → FactumStore p
  round s n = notify_node (log (index_node s n) (insert n)) n

  index_all-inserted :
      (s : FactumStore p) (n : Node p) (ns : List (Node p))
      → index_all (inserted s n) ns ≡ record (index_all s (n ∷ ns)) { backend = inserted_in s n }
  unfolding index_all
  index_all-inserted s n ns = index_all-backend (round s n) (inserted_in s n) ns

  inserted-accepts :
      (s : FactumStore p) (n : Node p) (ns : List (Node p))
      → batch_refusal s.verifiers ns ≡ none
      → batch_refusal (inserted s n).verifiers ns ≡ none
  unfolding notify_node index_node update_deps_rev update_by_validity log
  inserted-accepts s n ns h = h

  -- the backend of a batch, its first node apart
  batch_write-cons :
      (s : FactumStore p) (n : Node p) (ns : List (Node p))
      → (batch_write s.backend (batch_ops s.registry (n ∷ ns))).1
        ≡ (batch_write (inserted_in s n) (batch_ops s.registry ns)).1
  unfolding batch_ops
  batch_write-cons s n ns =
      ap (λ r. r.1)
        (batch_write-append (build_insert_ops s.registry n) (batch_ops s.registry ns) s.backend
          (IsInsertion-build_insert_ops s.registry n))

  insert_each_step :
      (s : FactumStore p) (n : Node p) (ns : List (Node p))
      → refusal s.verifiers n ≡ none
      → HashMap.get n.id s.backend.node_map ≡ none
      → insert_each (inserted s n) ns ≡ record (index_all (inserted s n) ns) {
        backend = (batch_write (inserted s n).backend (batch_ops (inserted s n).registry ns)).1;
      }
      → insert_each s (n ∷ ns) ≡ record (index_all s (n ∷ ns)) {
        backend = (batch_write s.backend (batch_ops s.registry (n ∷ ns))).1;
      }
  unfolding notify_node index_node update_deps_rev update_by_validity log
  insert_each_step s n ns accepted fresh ih =
      rw (insert_node_accepted s n accepted fresh, batch_write-cons s n ns)
        (ih
          ∙ ap
              (λ (t : FactumStore p). record t {
                backend = (batch_write (inserted_in s n) (batch_ops s.registry ns)).1;
              })
              (index_all-inserted s n ns))

  -- The store after the nodes of an accepted batch: its backend and the rest.
  insert_each_eq :
      (s : FactumStore p) (ns : List (Node p))
      → batch_refusal s.verifiers ns ≡ none
      → Fresh s.backend.node_map ns
      → insert_each s ns
        ≡ record (index_all s ns) { backend = (batch_write s.backend (batch_ops s.registry ns)).1 }
  unfolding notify_node index_node
  insert_each_eq s [] a f = unfold index_all batch_ops batch_write in refl
  insert_each_eq s (n ∷ ns) a f =
      let accepted = batch_refusal-cons s.verifiers n ns a in
      insert_each_step s n ns accepted.0 f.0 (
        insert_each_eq (inserted s n) ns (inserted-accepts s n ns accepted.1)
          (rw (node_map-inserted s n) f.1))

  Fresh-start :
      (s : FactumStore p) (ns : List (Node p))
      → first_duplicate s.backend [] ns ≡ none
      → Fresh s.backend.node_map ns
  unfolding get_node
  Fresh-start s ns free =
      first_duplicate-Fresh s.backend [] ns s.backend.node_map (λ j e. ground arith) free

  IsInsertion-batch_ops :
      (r : MorphemeRegistry) (ns : List (Node p)) → All IsInsertion (batch_ops r ns)
  unfolding batch_ops
  IsInsertion-batch_ops r [] = tt
  IsInsertion-batch_ops r (n ∷ ns) =
      All-append IsInsertion (build_insert_ops r n) (batch_ops r ns)
        (IsInsertion-build_insert_ops r n) (IsInsertion-batch_ops r ns)

  write_batch_eq :
      (s : FactumStore p) (ns : List (Node p))
      → batch_refusal s.verifiers ns ≡ none
      → first_duplicate s.backend [] ns ≡ none
      → insert_batch s ns ≡ (
        ok tt,
        log
            (record (index_all s ns) {
              backend = (batch_write s.backend (batch_ops s.registry ns)).1;
            })
            checkpoint,
      )
  unfolding insert_batch write_batch
  write_batch_eq s ns accepted free =
      rw
        (
          accepted,
          free,
          batch_write_ok (batch_ops s.registry ns) s.backend (IsInsertion-batch_ops s.registry ns),
          insert_batch,
          write_batch,
        )
        (ap (λ t. (ok tt, log t checkpoint))
          (index_all-backend s (batch_write s.backend (batch_ops s.registry ns)).1 ns))

  insert_batch_cases :
      (s : FactumStore p) (ns : List (Node p))
      → ((batch_refusal s.verifiers ns ≡ none) × (first_duplicate s.backend [] ns ≡ none))
        ⊎ ((e : StoreError) × (insert_batch s ns ≡ (err e, s)))
  unfolding insert_batch
  insert_batch_cases s ns = elim (Option-cases (batch_refusal s.verifiers ns)) [
    | inl accepted ↦ elim (Option-cases (first_duplicate s.backend [] ns)) [
      | inl free ↦ inl (accepted, free)
      | inr (id, e) ↦ inr (already_exists id, rw (accepted, e, insert_batch))
    ]
    | inr (why, e) ↦ inr (invalid_node why, rw (e, insert_batch))
  ]

  -- A batch is either refused, and the store is what it was; or it succeeds, and the store is what
  -- the insertions of its nodes one after the other leave, with a checkpoint in the log.
  pub insert_batch_refines :
      (s : FactumStore p) (ns : List (Node p))
      → (insert_batch s ns ≡ (ok tt, log (insert_each s ns) checkpoint))
        ⊎ ((e : StoreError) × (insert_batch s ns ≡ (err e, s)))
  insert_batch_refines s ns = elim (insert_batch_cases s ns) [
    | inl (accepted, free) ↦ inl (
        write_batch_eq s ns accepted free
        ∙ ap (λ t. (ok tt, log t checkpoint))
            (sym (insert_each_eq s ns accepted (Fresh-start s ns free))))
    | inr refused ↦ inr refused
  ]

  insert_each-IsValid :
      (s : FactumStore p) (ns : List (Node p)) → IsValid s → IsValid (insert_each s ns)
  insert_each-IsValid s [] h = h
  insert_each-IsValid s (n ∷ ns) h =
      insert_each-IsValid (insert_node s n).1 ns (insert_node-IsValid s n h)

  log-IsValid : (s : FactumStore p) (e : WalEntry p) → IsValid s → IsValid (log s e)
  unfolding log
  log-IsValid s e h = record {
    keyed = h.keyed;
    entities = h.entities;
    preds = h.preds;
    sources = h.sources;
    dependents = h.dependents;
    perms = h.perms;
    validities = h.validities;
  }

  -- `insert_batch` keeps the store well formed, whatever it returns.
  pub insert_batch-IsValid :
      (s : FactumStore p) (ns : List (Node p)) → IsValid s → IsValid (insert_batch s ns).1
  insert_batch-IsValid s ns h = elim (insert_batch_refines s ns) [
    | inl e ↦ rw e (log-IsValid (insert_each s ns) checkpoint (insert_each-IsValid s ns h))
    | inr (e, refused) ↦ rw refused h
  ]
