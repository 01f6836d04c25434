-- ===== src/Tests/Store.antt =====
-- The store at work.
use factum.Prelude.{
  ◌≤◌, true, false, ◌≡◌, ◌↔◌, ◌⊎◌, inl, inr, refl, Option, none, some, [], ◌∷◌, ◌++◌, map, codes,
  Result, ok, err, arith, Elem, length, if◌then◌else◌,
}
use factum.HashMap
use factum.HashMap.{◌==◌, text_key}
use factum.Prelude.{text_eq}
use factum.Core.Types.{NodeId, Node, is_retracted, retracted, is_active, head_of}
use factum.Rt.Storage.{get_node, batch_write, apply_op, get_index_map}
use factum.Rt.Store
use factum.Rt.Store.{FactumStore, StoreError, WalEntry, checkpoint, retract, not_found}
use factum.Rt.Store.Entries.{terms_ops, named_ops, head_key, src_key}
use factum.Rt.Store.Write.{insert_batch, insert_node, log, refusal}
use factum.Rt.Store.Read.{get, lookup_by_entity, lookup_by_pred, lookup_by_doc}
use factum.Rt.Store.Index.{IsValid, NodeMentions}
use factum.Rt.Store.Cascade.{RetractResult, retract_with_limit, goes_on}
use factum.Rt.Store.Cascade.Effect.{contains, retire}
use factum.Rt.Store.Single.{insert_node_refines}
use factum.Rt.Store.Batch.{insert_each, insert_batch_refines}
use factum.Rt.Store.Retract.{
  retract_with_limit_total, retract_with_limit_reads, retract_with_limit_root,
  retract_with_limit_closed,
}
use factum.Rt.Store.Retract.Chosen.{DependsOn, retract_with_limit_chosen}
use factum.Rt.Store.Lookup.{lookup_by_entity_exact, lookup_by_pred_exact, lookup_by_doc_exact}
use factum.Rt.Store.Lookup.Names.{HasNul}
use factum.Rt.Store.Run.{Reachable-IsValid}
use factum.Core.Morphemes.{empty_registry}
use factum.Tests.Data.{small, source, derived_fact, empty, facts, loaded, reached, loaded-IsValid}

-- the store behind a retraction
abbrev store_of : Option (Result StoreError RetractResult × FactumStore small) → FactumStore small
store_of (some (r, s)) = s
store_of none = empty

abbrev outcome : RetractResult
outcome = record { retracted = codes "a" ∷ codes "b" ∷ []; truncated = false; depth_reached = 1 }

abbrev after : FactumStore small
after = store_of (retract_with_limit loaded (codes "a") 100)

ran : retract_with_limit loaded (codes "a") 100 ≡ some (ok outcome, after)
unfolding retract_with_limit insert_batch HashMap.get Store.new get_node text_eq batch_write
    apply_op terms_ops get_index_map named_ops HashMap.insert HashMap.values_at HashMap.push
ran = refl

found_after : get after (codes "b") ≡ some (record derived_fact { status = retracted })
unfolding get retract_with_limit insert_batch HashMap.get Store.new get_node text_eq batch_write
    apply_op terms_ops get_index_map named_ops HashMap.insert HashMap.values_at HashMap.push
found_after = refl

found_before : get loaded (codes "a") ≡ some source
unfolding get insert_batch HashMap.get Store.new text_eq batch_write apply_op terms_ops
    get_index_map named_ops HashMap.insert
found_before = refl

retract_with_limit_closed_example : goes_on (record derived_fact { status = retracted }) ≡ false
unfolding text_eq
retract_with_limit_closed_example =
    retract_with_limit_closed loaded (codes "a") 100 outcome after loaded-IsValid ran refl
      (codes "a") refl (codes "b") (record derived_fact { status = retracted }) found_after
      (inl refl)

retract_with_limit_total_example :
    ((r : RetractResult) × (s' : FactumStore small) × (retract_with_limit loaded (codes "a") 100
        ≡ some (ok r, s'))
      × (length r.retracted ≤ 100)
      × (s'.wal ≡ loaded.wal ++ map retract r.retracted))
    ⊎ ((retract_with_limit loaded (codes "a") 100 ≡ some (err (not_found (codes "a")), loaded))
        × (get loaded (codes "a") ≡ none))
retract_with_limit_total_example =
    retract_with_limit_total loaded (codes "a") 100 loaded-IsValid.keyed

retract_with_limit_reads_example : get after (codes "b") ≡ (
    if contains (codes "b") outcome.retracted
    then retire (get loaded (codes "b"))
    else get loaded (codes "b"))
retract_with_limit_reads_example =
    retract_with_limit_reads loaded (codes "a") 100 outcome after loaded-IsValid.keyed ran
      (codes "b")

retract_with_limit_chosen_example :
    (n : Node small) × (get loaded (codes "b") ≡ some n)
    × (is_retracted n.status ≡ false)
    × ((codes "b" ≡ codes "a") ⊎ (goes_on n ≡ true))
    × DependsOn loaded (codes "a") (codes "b")
unfolding text_eq
retract_with_limit_chosen_example =
    retract_with_limit_chosen loaded (codes "a") 100 outcome after loaded-IsValid ran (codes "b")
      refl

retract_with_limit_root_example : contains (codes "a") outcome.retracted ≡ true
retract_with_limit_root_example =
    retract_with_limit_root loaded (codes "a") 100 source outcome after loaded-IsValid.keyed
      found_before refl (omega arith) ran

insert_batch_refines_example :
    (insert_batch empty facts ≡ (ok tt, log (insert_each empty facts) checkpoint))
    ⊎ ((e : StoreError) × (insert_batch empty facts ≡ (err e, empty)))
insert_batch_refines_example = insert_batch_refines empty facts

insert_node_refines_example :
    (((insert_node loaded source).0 ≡ ok tt)
      × (refusal loaded.verifiers source ≡ none)
      × (get loaded source.id ≡ none)
      × ((j : NodeId)
          → get (insert_node loaded source).1 j
            ≡ (if source.id == j then some source else get loaded j)))
    ⊎ ((e : StoreError) × (insert_node loaded source ≡ (err e, loaded)))
insert_node_refines_example = insert_node_refines loaded source

Reachable-IsValid_example : IsValid loaded
Reachable-IsValid_example = Reachable-IsValid empty_registry loaded reached

no_nul : NodeMentions HasNul source → ⊥
no_nul (inl (inl h)) = cc h
no_nul (inl (inr (inl h))) = h
no_nul (inl (inr (inr h))) = h
no_nul (inr h) = h

lookup_by_entity_exact_example : Elem source (lookup_by_entity loaded (codes "ACME")) ↔ (
    (get loaded source.id ≡ some source)
    × (is_active source.status ≡ true)
    × NodeMentions (λ e. e ≡ codes "ACME") source)
lookup_by_entity_exact_example =
    lookup_by_entity_exact loaded (codes "ACME") source loaded-IsValid refl no_nul

lookup_by_pred_exact_example : Elem source (lookup_by_pred loaded (codes "status")) ↔ (
    (get loaded source.id ≡ some source)
    × (is_active source.status ≡ true)
    × (head_key loaded.registry (head_of source.predicate) ≡ codes "status"))
unfolding head_key
lookup_by_pred_exact_example =
    lookup_by_pred_exact loaded (codes "status") source loaded-IsValid refl refl

lookup_by_doc_exact_example : Elem source (lookup_by_doc loaded (codes "bob")) ↔ (
    (get loaded source.id ≡ some source)
    × (is_active source.status ≡ true)
    × (src_key source.provenance ≡ codes "bob"))
unfolding src_key
lookup_by_doc_exact_example =
    lookup_by_doc_exact loaded (codes "bob") source loaded-IsValid refl refl
