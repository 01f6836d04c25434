-- ===== src/Rt/Store/Read.antt =====
-- The lookups of crates/factum-rt/src/store.rs, and `rebuild_indices`.
use factum.Prelude.{
  ℕ, eqb, Bool, ◌&&◌, ◌||◌, not, Option, none, some, List, [], ◌∷◌, Text, if◌then◌else◌, filter,
  Result, ok, err, ℤ, leb_ℤ, eqb_ℤ,
}
use factum.HashMap
use factum.HashMap.{HashMap, Eq, ◌==◌, text_key}
use factum.Core.Platform.{Platform}
use factum.Core.PermissionTag
use factum.Core.Types.{NodeId, EntityId, Node, is_active, is_active_valid_at}
use factum.Rt.Storage
use factum.Rt.Storage.{InMemoryBackend, by_entity, by_pred, by_src, get_node, scan, iter_nodes}
use factum.Rt.Permission.{PermissionContext}
use factum.Rt.Store.{FactumStore, StoreError, not_found, permission_denied, ValidityKey, i64_max}
use factum.Rt.Store.Write.{index_node}

-- `key <= (t_ts, i64::MAX)` in the order of pairs
unfoldable pub in_range : ℤ → ValidityKey → Bool
in_range t_ts k = (leb_ℤ k.0 t_ts && not (eqb_ℤ k.0 t_ts)) || (eqb_ℤ k.0 t_ts && leb_ℤ k.1 i64_max)

module _ {p : Platform} where
  -- `FactumStore::get`
  unfoldable pub get : FactumStore p → NodeId → Option (Node p)
  unfolding get_node
  get s id = get_node s.backend id

  -- `check_permission`
  unfoldable pub check_permission : Node p → PermissionContext → Bool
  unfolding PermissionTag.grants
  check_permission n ctx = PermissionTag.grants n.permissions ctx.role_mask

  -- `get_with_perm`
  unfoldable pub get_with_perm :
      FactumStore p → NodeId → PermissionContext → Result StoreError (Node p)
  unfolding get check_permission
  get_with_perm s id ctx = elim (get s id) [
    | none ↦ err (not_found id)
    | some n ↦ if check_permission n ctx then ok n else err permission_denied
  ]

  -- the nodes behind identifiers: `filter_map` over `get_node`
  unfoldable pub load_all : InMemoryBackend p → List NodeId → List (Node p)
  load_all b [] = []
  load_all b (id ∷ ids) = elim (get_node b id) [
    | none ↦ load_all b ids
    | some n ↦ n ∷ load_all b ids
  ]

  -- `resolve_nodes`
  unfoldable pub resolve_nodes : FactumStore p → List NodeId → List (Node p)
  unfolding load_all
  resolve_nodes s ids = filter (λ n. is_active n.status) (load_all s.backend ids)

  unfoldable pub lookup_by_entity : FactumStore p → EntityId → List (Node p)
  unfolding scan resolve_nodes
  lookup_by_entity s e = resolve_nodes s (scan s.backend by_entity e)

  unfoldable pub lookup_by_pred : FactumStore p → Text → List (Node p)
  unfolding scan resolve_nodes
  lookup_by_pred s head = resolve_nodes s (scan s.backend by_pred head)

  unfoldable pub lookup_by_doc : FactumStore p → Text → List (Node p)
  unfolding scan resolve_nodes
  lookup_by_doc s doc = resolve_nodes s (scan s.backend by_src doc)

  unfoldable pub lookup_valid_at : FactumStore p → p.Time → List (Node p)
  unfolding in_range load_all
  lookup_valid_at s t =
      let candidate_ids = HashMap.collect (in_range (p.timestamp t)) s.by_validity in
      filter (λ n. is_active_valid_at n t) (load_all s.backend candidate_ids)

  -- `all`
  pub all : FactumStore p → List (Node p)
  unfolding iter_nodes
  all s = iter_nodes s.backend

  -- `all_active`
  unfoldable pub all_active : FactumStore p → List (Node p)
  unfolding iter_nodes
  all_active s = filter (λ n. is_active n.status) (iter_nodes s.backend)

  -- the two loops of `rebuild_indices`
  unfoldable pub rebuild_from : FactumStore p → List (Node p) → FactumStore p
  unfolding index_node
  rebuild_from s [] = s
  rebuild_from s (n ∷ ns) = rebuild_from (index_node s n) ns

  -- `rebuild_indices`
  unfoldable pub rebuild_indices : FactumStore p → FactumStore p
  unfolding rebuild_from iter_nodes
  rebuild_indices s =
      rebuild_from (record s { deps_rev = []; by_validity = [] }) (iter_nodes s.backend)

  -- `lookup_valid_now`, at the time of the call
  unfoldable pub lookup_valid_now : FactumStore p → p.Time → List (Node p)
  unfolding lookup_valid_at
  lookup_valid_now s now = lookup_valid_at s now

  -- `len`
  unfoldable pub store_len : FactumStore p → ℕ
  store_len s = Storage.len s.backend

  -- `is_empty`
  unfoldable pub store_is_empty : FactumStore p → Bool
  unfolding store_len
  store_is_empty s = eqb (store_len s) 0
