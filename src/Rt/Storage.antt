-- ===== src/Rt/Storage.antt =====
-- crates/factum-rt/src/storage.rs: the in-memory backend, its node map and its index maps.
-- `get_node`, `put_node` and `delete_node` of this backend never fail, so they return no `Result`.
pub mod Writes
use Prim.Native.Nat.{◌/◌, ◌%◌, ◌^◌}
use factum.Prelude.{
  ℕ, zero, Bool, true, false, not, ◌≡◌, ◌↔◌, Option, none, some, List, [], ◌∷◌, ◌++◌, Text, text_eq,
  text_eq_iff, starts_with, arith, if◌then◌else◌, filter, length, Result, ok, err,
}
use factum.HashMap
use factum.HashMap.{HashMap, Eq, ◌==◌, text_key}
use factum.Core.Platform.{Platform}
use factum.Core.Types.{NodeId, Node}

-- `mod cf`: the names of the column families; `other` is any further string.
pub data Cf : Type 0 where
  nodes by_entity by_pred by_src by_perm : Cf
  other : Text → Cf

abbrev pub cf_eq : Cf → Cf → Bool
cf_eq nodes nodes = true
cf_eq by_entity by_entity = true
cf_eq by_pred by_pred = true
cf_eq by_src by_src = true
cf_eq by_perm by_perm = true
cf_eq (other a) (other b) = text_eq a b
cf_eq _ _ = false

pub cf_eq_iff : (a b : Cf) → (cf_eq a b ≡ true) ↔ (a ≡ b)
cf_eq_iff (other a) (other b) = ground (arith, text_eq_iff a b)
cf_eq_iff _ _ = ground arith

instance abbrev pub cf_key : Eq Cf
cf_key = record { beq = cf_eq; beq_iff = cf_eq_iff }

pub data WriteOp (p : Platform) : Type 0 where
  put_node : Node p → WriteOp p
  delete_node : NodeId → WriteOp p
  put_index : Cf → Text → NodeId → WriteOp p
  delete_index : Cf → Text → NodeId → WriteOp p

pub data StorageError : Type 0 where
  io : Text → StorageError
  serialization : Text → StorageError
  cf_not_found : Cf → StorageError

-- `encode_index_key`: the key, a zero byte, and the node's identifier.
unfoldable pub encode_index_key : Text → NodeId → Text
encode_index_key key id = key ++ (0 ∷ id)

-- `encode_index_prefix`
unfoldable pub encode_index_prefix : Text → Text
encode_index_prefix key = key ++ (0 ∷ [])

-- `u32::to_be_bytes`
pub to_be_bytes : ℕ → Text
to_be_bytes n = (n / 2 ^ 24) % 256 ∷ (n / 2 ^ 16) % 256 ∷ (n / 2 ^ 8) % 256 ∷ n % 256 ∷ []

pub record InMemoryBackend (p : Platform) : Type 0 where
  pub node_map : HashMap NodeId (Node p)
  pub indices : HashMap Cf (HashMap Text (List NodeId))

-- `get_index_map`
unfoldable pub get_index_map : Cf → Option Cf
get_index_map by_entity = some by_entity
get_index_map by_pred = some by_pred
get_index_map by_src = some by_src
get_index_map by_perm = some by_perm
get_index_map _ = none

abbrev or_empty : {V : Type 0} → Option (List V) → List V
or_empty none = []
or_empty (some vs) = vs

abbrev is_empty_list : {V : Type 0} → List V → Bool
is_empty_list [] = true
is_empty_list (x ∷ xs) = false

-- `ids.retain(|id| id != node_id)`, and the entry goes when nothing is left
unfoldable pub drop_id : Text → NodeId → HashMap Text (List NodeId) → HashMap Text (List NodeId)
drop_id key id m = elim (HashMap.get key m) [
  | none ↦ m
  | some ids ↦
      let kept = filter (λ x. not (text_eq x id)) ids in
      if is_empty_list kept then HashMap.remove key m else HashMap.insert key kept m
]

module _ {p : Platform} where
  -- `InMemoryBackend::new`
  unfoldable pub new : InMemoryBackend p
  new = record {
    node_map = [];
    indices = (by_entity, []) ∷ (by_pred, []) ∷ (by_src, []) ∷ (by_perm, []) ∷ [];
  }

  unfoldable pub get_node : InMemoryBackend p → NodeId → Option (Node p)
  get_node b id = HashMap.get id b.node_map

  unfoldable pub put_node_in : InMemoryBackend p → Node p → InMemoryBackend p
  put_node_in b n = record b { node_map = HashMap.insert n.id n b.node_map }

  unfoldable pub delete_node_in : InMemoryBackend p → NodeId → InMemoryBackend p
  delete_node_in b id = record b { node_map = HashMap.remove id b.node_map }

  -- The map of a column family, empty where there is none.
  unfoldable pub index_of : InMemoryBackend p → Cf → HashMap Text (List NodeId)
  index_of b cf = or_empty (HashMap.get cf b.indices)

  unfoldable pub scan_index : InMemoryBackend p → Cf → Text → Result StorageError (List NodeId)
  scan_index b cf key = elim (HashMap.get cf b.indices) [
    | none ↦ err (cf_not_found cf)
    | some m ↦ ok (HashMap.collect (λ k. starts_with k (encode_index_prefix key)) m)
  ]

  -- `scan_index(..).unwrap_or_default()`, as the store calls it
  unfoldable pub scan : InMemoryBackend p → Cf → Text → List NodeId
  unfolding scan_index
  scan b cf key = elim (scan_index b cf key) [ ok ids ↦ ids | err e ↦ [] ]

  unfoldable pub put_index_in :
      InMemoryBackend p → Cf → Text → NodeId → Result StorageError (InMemoryBackend p)
  unfolding index_of
  put_index_in b cf key id = elim (get_index_map cf) [
    | none ↦ err (cf_not_found cf)
    | some c ↦
        ok (record b { indices = HashMap.insert c (HashMap.push key id (index_of b c)) b.indices })
  ]

  unfoldable pub delete_index_in :
      InMemoryBackend p → Cf → Text → NodeId → Result StorageError (InMemoryBackend p)
  delete_index_in b cf key id = elim (get_index_map cf) [
    | none ↦ err (cf_not_found cf)
    | some c ↦ elim (HashMap.get c b.indices) [
      | none ↦ ok b
      | some m ↦ ok (record b { indices = HashMap.insert c (drop_id key id m) b.indices })
    ]
  ]

  -- One arm of the `match` in `batch_write`.
  unfoldable pub apply_op : InMemoryBackend p → WriteOp p → Result StorageError (InMemoryBackend p)
  unfolding put_node_in delete_node_in put_index_in delete_index_in
  apply_op b (put_node n) = ok (put_node_in b n)
  apply_op b (delete_node id) = ok (delete_node_in b id)
  apply_op b (put_index cf key id) = put_index_in b cf key id
  apply_op b (delete_index cf key id) = delete_index_in b cf key id

  -- What was written before an error stays written.
  unfoldable pub batch_write :
      InMemoryBackend p → List (WriteOp p) → Result StorageError Unit × InMemoryBackend p
  batch_write b [] = (ok tt, b)
  batch_write b (op ∷ ops) = elim (apply_op b op) [
    | err e ↦ (err e, b)
    | ok b' ↦ batch_write b' ops
  ]

  -- `len`
  pub len : InMemoryBackend p → ℕ
  len b = length b.node_map

  unfoldable pub values : HashMap NodeId (Node p) → List (Node p)
  values [] = []
  values ((id, n) ∷ m) = n ∷ values m

  -- `iter_nodes`
  unfoldable pub iter_nodes : InMemoryBackend p → List (Node p)
  unfolding values
  iter_nodes b = values b.node_map
