-- ===== src/Rt/Store/Run.antt =====
-- The stores that the operations of crates/factum-rt/src/store.rs reach from an empty one.
use factum.Prelude.{ℕ, ◌≡◌, some, List, Result}
use factum.HashMap
use factum.HashMap.{HashMap, text_key}
use factum.Core.Platform.{Platform}
use factum.Core.Types.{NodeId, Node}
use factum.Core.Morphemes.{MorphemeRegistry}
use factum.Rt.Storage
use factum.Rt.Storage.{scan}
use factum.Rt.Store.{FactumStore, StoreError, new}
use factum.Rt.Store.Write.{insert_node, insert_batch}
use factum.Rt.Store.Index.{IsValid}
use factum.Rt.Store.Single.{insert_node-IsValid}
use factum.Rt.Store.Batch.{insert_batch-IsValid}
use factum.Rt.Store.Cascade.{RetractResult, retract_with_limit}
use factum.Rt.Store.Retract.{retract_with_limit-IsValid}

-- One call of the store that writes, whatever it returns.
pub data Step {p : Platform} : FactumStore p → FactumStore p → Type 0 where
  insert : (s : FactumStore p) (n : Node p) → Step s (insert_node s n).1
  batch : (s : FactumStore p) (ns : List (Node p)) → Step s (insert_batch s ns).1
  retract :
      (s : FactumStore p) (id : NodeId) (max_nodes : ℕ) (r : Result StoreError RetractResult)
      (s' : FactumStore p)
      → retract_with_limit s id max_nodes ≡ some (r, s')
      → Step s s'

-- A store that calls lead to from an empty one.
pub data Reachable {p : Platform} (r : MorphemeRegistry) : FactumStore p → Type 0 where
  start : Reachable r (new r)
  step : {s t : FactumStore p} → Reachable r s → Step s t → Reachable r t

module _ {p : Platform} where
  new-IsValid : (r : MorphemeRegistry) → IsValid (new {p = p} r)
  unfolding new Storage.new scan HashMap.get HashMap.values_at HashMap.collect
  new-IsValid r = record {
    keyed = λ x n e. cc e;
    entities = λ key x. (λ h. h, λ h. h);
    preds = λ key x. (λ h. h, λ h. h);
    sources = λ key x. (λ h. h, λ h. h);
    perms = λ key x. (λ h. h, λ h. h);
    dependents = λ d x. (λ h. h, λ h. h);
    validities = λ q x. (λ h. h, λ h. h);
  }

  Step-IsValid : {s t : FactumStore p} → Step s t → IsValid s → IsValid t
  Step-IsValid (insert s n) h = insert_node-IsValid s n h
  Step-IsValid (batch s ns) h = insert_batch-IsValid s ns h
  Step-IsValid (retract s id max_nodes r s' e) h =
      retract_with_limit-IsValid s id max_nodes r s' h e

  -- Each store that insertions, batches and retractions lead to from an empty one is well formed:
  -- its nodes are stored under their identifiers, and the indices by entity, predicate, source,
  -- permission, dependency and validity hold exactly the entries that the stored nodes call for. An
  -- entity in the named arguments of a nested predicate calls for none.
  pub Reachable-IsValid : (r : MorphemeRegistry) (s : FactumStore p) → Reachable r s → IsValid s
  Reachable-IsValid r s start = new-IsValid r
  Reachable-IsValid r t (step {s = s} h x) = Step-IsValid x (Reachable-IsValid r s h)
