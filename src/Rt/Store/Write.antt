-- ===== src/Rt/Store/Write.antt =====
-- `insert` and `insert_batch` of crates/factum-rt/src/store.rs.
use factum.Prelude.{
  Bool, true, false, ◌||◌, Option, none, some, List, [], ◌∷◌, ◌++◌, if◌then◌else◌, Result, ok, err,
}
use factum.HashMap.{◌==◌, text_key}
use factum.Core.Platform.{Platform}
use factum.Core.Types.{NodeId, Node}
use factum.Core.Morphemes.{MorphemeRegistry}
use factum.Rt.Storage.{InMemoryBackend, get_node, batch_write, WriteOp}
use factum.Rt.Subscription.{notify_insert}
use factum.Rt.Verifier.{fail, Reason, VerifierRegistry, verify_all}
use factum.Rt.Store.Entries.{build_insert_ops}
use factum.Rt.Store.{
  FactumStore, WalEntry, insert, checkpoint, StoreError, already_exists, invalid_node, storage,
  update_deps_rev, update_by_validity,
}

-- `seen` holds the identifier
abbrev pub seen_before : NodeId → List NodeId → Bool
seen_before id [] = false
seen_before id (j ∷ js) = id == j || seen_before id js

module _ {p : Platform} where
  -- the reason for which the enabled verifiers refuse a node
  unfoldable pub refusal : Option (VerifierRegistry p) → Node p → Option Reason
  unfolding verify_all
  refusal none n = none
  refusal (some vs) n = elim (verify_all vs n) [ fail why ↦ some why | _ ↦ none ]

  -- what `insert` does for each written node: the in-memory indices, and the subscribers
  unfoldable pub index_node : FactumStore p → Node p → FactumStore p
  unfolding update_deps_rev update_by_validity
  index_node s n = update_by_validity (update_deps_rev s n) n

  unfoldable pub notify_node : FactumStore p → Node p → FactumStore p
  unfolding notify_insert
  notify_node s n = record s { subscriptions = notify_insert s.subscriptions n }

  unfoldable pub log : FactumStore p → WalEntry p → FactumStore p
  log s e = record s { wal = s.wal ++ e ∷ [] }

  -- `insert` behind its checks. The log is written before the backend.
  unfoldable pub write_node : FactumStore p → Node p → Result StoreError Unit × FactumStore p
  unfolding log index_node notify_node build_insert_ops
  write_node s n =
      let logged = log s (insert n) in
      let (r, b) = batch_write s.backend (build_insert_ops s.registry n) in
      let written : FactumStore p = record logged { backend = b } in
      elim r [
        | err e ↦ (err (storage e), written)
        | ok u ↦ (ok tt, notify_node (index_node written n) n)
      ]

  -- `FactumStore::insert`
  unfoldable pub insert_node : FactumStore p → Node p → Result StoreError Unit × FactumStore p
  unfolding refusal write_node
  insert_node s n = elim (refusal s.verifiers n) [
    | some why ↦ (err (invalid_node why), s)
    | none ↦ elim (get_node s.backend n.id) [
      | some old ↦ (err (already_exists n.id), s)
      | none ↦ write_node s n
    ]
  ]

  -- the first refusal in a batch
  unfoldable pub batch_refusal : Option (VerifierRegistry p) → List (Node p) → Option Reason
  unfolding refusal
  batch_refusal vs [] = none
  batch_refusal vs (n ∷ ns) =
      let rest = batch_refusal vs ns in elim (refusal vs n) [ some why ↦ some why | none ↦ rest ]

  abbrev pub is_stored : Option (Node p) → Bool
  is_stored none = false
  is_stored (some n) = true

  -- the first identifier in a batch that is stored, or that came earlier in the batch
  unfoldable pub first_duplicate : InMemoryBackend p → List NodeId → List (Node p) → Option NodeId
  first_duplicate b seen [] = none
  first_duplicate b seen (n ∷ ns) =
      let rest = first_duplicate b (n.id ∷ seen) ns in
      if is_stored (get_node b n.id) || seen_before n.id seen then some n.id else rest

  unfoldable pub batch_ops : MorphemeRegistry → List (Node p) → List (WriteOp p)
  unfolding build_insert_ops
  batch_ops r [] = []
  batch_ops r (n ∷ ns) = build_insert_ops r n ++ batch_ops r ns

  -- the loop behind the write of a batch
  unfoldable pub index_all : FactumStore p → List (Node p) → FactumStore p
  unfolding index_node notify_node log
  index_all s [] = s
  index_all s (n ∷ ns) = index_all (notify_node (log (index_node s n) (insert n)) n) ns

  unfoldable pub write_batch :
      FactumStore p → List (Node p) → Result StoreError Unit × FactumStore p
  unfolding batch_ops index_all log
  write_batch s ns =
      let (r, b) = batch_write s.backend (batch_ops s.registry ns) in
      let written : FactumStore p = record s { backend = b } in
      elim r [
        | err e ↦ (err (storage e), written)
        | ok u ↦ (ok tt, log (index_all written ns) checkpoint)
      ]

  -- `FactumStore::insert_batch`
  unfoldable pub insert_batch :
      FactumStore p → List (Node p) → Result StoreError Unit × FactumStore p
  unfolding batch_refusal first_duplicate write_batch
  insert_batch s ns = elim (batch_refusal s.verifiers ns) [
    | some why ↦ (err (invalid_node why), s)
    | none ↦ elim (first_duplicate s.backend [] ns) [
      | some id ↦ (err (already_exists id), s)
      | none ↦ write_batch s ns
    ]
  ]
