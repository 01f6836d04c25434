-- ===== src/Rt/Store/Cascade.antt =====
-- `retract`, `retract_with_limit` and `retract_recursive` of crates/factum-rt/src/store.rs.
pub mod Effect
pub mod Post
pub mod Closure
use factum.Prelude.{
  ℕ, zero, suc, ◌+◌, Bool, true, false, not, ◌&&◌, Option, none, some, List, [], ◌∷◌, ◌++◌, leb,
  ltb, if◌then◌else◌, length, Result, ok, err,
}
use factum.HashMap
use factum.HashMap.{HashMap, text_key}
use factum.Core.Platform.{Platform}
use factum.Core.Types.{NodeId, Node, retracted, is_derived, is_active, is_retracted}
use factum.Rt.Subscription.{notify_retract}
use factum.Rt.Store.{FactumStore, WalEntry, retract, StoreError, not_found}

abbrev pub default_max_cascade_nodes : ℕ
default_max_cascade_nodes = 100

-- The state of a cascade: the node map and the log of the store, and the three variables that the
-- recursion passes by `&mut`.
pub record Cascade (p : Platform) : Type 0 where
  pub node_map : HashMap NodeId (Node p)
  pub wal : List (WalEntry p)
  pub all_retracted : List NodeId
  pub depth_reached : ℕ
  pub truncated : Bool

-- An error leaves what was written before it. `out_of_fuel` is no result of the code.
pub data Outcome (p : Platform) : Type 0 where
  done : Cascade p → Outcome p
  failed : StoreError → Cascade p → Outcome p
  out_of_fuel : Outcome p

pub record RetractResult : Type 0 where
  pub retracted : List NodeId
  pub truncated : Bool
  pub depth_reached : ℕ

module _ {p : Platform} where
  -- the `?` of the recursive call
  abbrev pub and_then : Outcome p → (Cascade p → Outcome p) → Outcome p
  and_then (done c) k = k c
  and_then (failed e c) k = failed e c
  and_then out_of_fuel k = out_of_fuel

  -- the node is written as retracted, logged and listed
  unfoldable pub mark : NodeId → Node p → Cascade p → Cascade p
  mark id n c = record c {
    node_map = HashMap.insert n.id (record n { status = retracted }) c.node_map;
    wal = c.wal ++ retract id ∷ [];
    all_retracted = c.all_retracted ++ id ∷ [];
  }

  -- a dependent that the cascade goes on to: derived and active
  abbrev pub goes_on : Node p → Bool
  goes_on n = is_derived n.provenance && is_active n.status

  -- The loop over the dependents; `rec` is the recursive call.
  unfoldable pub visit : (NodeId → Cascade p → Outcome p) → ℕ → List NodeId → Cascade p → Outcome p
  visit rec max_nodes [] c = done c
  visit rec max_nodes (d ∷ ds) c =
      let rest = visit rec max_nodes ds c in
      let descend = and_then (rec d c) (visit rec max_nodes ds) in
      elim (HashMap.get d c.node_map) [
        | none ↦ rest
        | some n ↦
            if goes_on n
            then if leb max_nodes (length c.all_retracted)
              then done (record c { truncated = true })
              else descend
            else rest
      ]

  -- `depth_reached` is raised to the current depth
  abbrev pub deepen : ℕ → Cascade p → Cascade p
  deepen depth c = record c {
    depth_reached = if ltb c.depth_reached depth then depth else c.depth_reached;
  }

  -- `retract_recursive`, on fuel: Retract is about how much is enough. The
  -- reverse dependencies do not change during a cascade.
  unfoldable pub retract_recursive :
      HashMap NodeId (List NodeId) → ℕ → ℕ → ℕ → NodeId → Cascade p → Outcome p
  unfolding visit mark
  retract_recursive deps zero max_nodes depth id c = out_of_fuel
  retract_recursive deps (suc fuel) max_nodes depth id c =
      let cascade = λ (n : Node p).
        visit (retract_recursive deps fuel max_nodes (depth + 1)) max_nodes
          (HashMap.values_at id deps) (mark id n (deepen depth c)) in
      if leb max_nodes (length c.all_retracted)
      then done (record c { truncated = true })
      else elim (HashMap.get id c.node_map) [
        | none ↦ failed (not_found id) (deepen depth c)
        | some n ↦ if is_retracted n.status then done (deepen depth c) else cascade n
      ]

  -- the nodes that are not retracted
  unfoldable pub open_count : HashMap NodeId (Node p) → ℕ
  open_count [] = 0
  open_count ((id, n) ∷ m) = if is_retracted n.status then open_count m else suc (open_count m)

  abbrev pub start : FactumStore p → Cascade p
  start s = record {
    node_map = s.backend.node_map;
    wal = s.wal;
    all_retracted = [];
    depth_reached = 0;
    truncated = false;
  }

  -- the store with the node map and the log of a cascade
  abbrev pub with_cascade : FactumStore p → Cascade p → FactumStore p
  with_cascade s c = record s {
    backend = record (s.backend) { node_map = c.node_map };
    wal = c.wal;
  }

  -- what follows the recursion: the subscribers hear of the retraction
  unfoldable pub finish :
      FactumStore p → NodeId → Outcome p → Option (Result StoreError RetractResult × FactumStore p)
  unfolding notify_retract
  finish s id (done c) = some (
    ok (record {
      retracted = c.all_retracted;
      truncated = c.truncated;
      depth_reached = c.depth_reached;
    }),
    record (with_cascade s c) { subscriptions = notify_retract s.subscriptions id c.all_retracted },
  )
  finish s id (failed e c) = some (err e, with_cascade s c)
  finish s id out_of_fuel = none

  -- `retract_with_limit`, with one unit of fuel more than there are nodes to retract
  unfoldable pub retract_with_limit :
      FactumStore p → NodeId → ℕ → Option (Result StoreError RetractResult × FactumStore p)
  unfolding finish retract_recursive open_count
  retract_with_limit s id max_nodes =
      finish s id (
        retract_recursive s.deps_rev (suc (open_count s.backend.node_map)) max_nodes 0 id (start s))
