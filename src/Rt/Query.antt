-- ===== src/Rt/Query.antt =====
-- crates/factum-rt/src/query.rs: queries against the store.
pub mod Match
pub mod Arbitration
pub mod Laws
pub mod Answers
pub mod Refusal
use factum.Prelude.{Bool, true, false, not, Option, none, some, List, [], ◌∷◌, ◌&&◌, filter, Text}
use factum.Core.Platform.{Platform, f32_lt}
use factum.Core.Types.{EntityId, Node, PredicateHead, Predicate, head_of, is_active_valid_at}
use factum.Rt.Permission.{PermissionContext}
use factum.Rt.Store.{FactumStore}
use factum.Rt.Store.Entries.{head_key}
use factum.Rt.Store.Read.{check_permission, lookup_by_entity, lookup_by_pred}
use factum.Rt.Query.Match.{Bindings, match_pattern}
use factum.Rt.Query.Arbitration.{QueryResult, ConflictPolicy, arbitrate}

pub record Query (p : Platform) : Type 0 where
  pub pattern : Predicate p
  pub entity_filter : Option EntityId

pub record QueryOptions (p : Platform) : Type 0 where
  pub policy : ConflictPolicy p
  pub now : p.Time
  pub min_conf : p.F32
  pub perm : PermissionContext

pub record ResultSet (p : Platform) : Type 0 where
  pub results : List (QueryResult p)
  pub ambiguous : Bool

module _ {p : Platform} where
  -- `get_candidates`
  unfoldable pub get_candidates : FactumStore p → Query p → List (Node p)
  unfolding lookup_by_entity lookup_by_pred head_key
  get_candidates s q = elim (q.entity_filter) [
    | some e ↦ lookup_by_entity s e
    | none ↦ lookup_by_pred s (head_key s.registry (head_of q.pattern))
  ]

  -- the closure of step 2: permission, validity and confidence
  unfoldable pub passes : QueryOptions p → Node p → Bool
  unfolding check_permission is_active_valid_at
  passes o n =
      check_permission n o.perm
      && (is_active_valid_at n o.now && not (f32_lt p n.confidence o.min_conf))

  -- step 3: pattern matching
  unfoldable pub match_all : Predicate p → List (Node p) → List (QueryResult p)
  unfolding match_pattern
  match_all pattern [] = []
  match_all pattern (n ∷ ns) =
      let rest = match_all pattern ns in
      elim (match_pattern pattern n.predicate) [
        | none ↦ rest
        | some b ↦ record { node = n; bindings = b } ∷ rest
      ]

  abbrev pub to_result_set : Option (List (QueryResult p) × Bool) → Option (ResultSet p)
  to_result_set none = none
  to_result_set (some (rs, ambiguous)) = some (record { results = rs; ambiguous = ambiguous })

  -- `FactumStore::query`, which returns `Ok`, or panics with the arbitration (`none`)
  unfoldable pub query : FactumStore p → Query p → QueryOptions p → Option (ResultSet p)
  unfolding get_candidates passes match_all arbitrate
  query s q o =
      to_result_set
        (arbitrate (match_all q.pattern (filter (passes o) (get_candidates s q))) o.policy)
