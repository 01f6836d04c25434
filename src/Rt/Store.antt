-- ===== src/Rt/Store.antt =====
-- crates/factum-rt/src/store.rs: the state of the store and its in-memory indices. The writes are
-- in Write, retraction in Cascade, the lookups in Read. A lock is held for one call at most, so the
-- state is passed from call to call.
pub mod Entries
pub mod Write
pub mod Read
pub mod Cascade
pub mod Index
pub mod Added
pub mod Insert
pub mod Single
pub mod Batch
pub mod Retract
pub mod Lookup
pub mod Run
use factum.Prelude.{
  ℕ, ◌+◌, ◌-◌, ◌^◌, Bool, true, false, ◌&&◌, ◌||◌, ◌≡◌, ◌↔◌, Option, none, some, List, [], ◌∷◌,
  ◌++◌, Text, ltb, arith, if◌then◌else◌, filter, length, Result, ok, err, ℤ, pos, negsuc, leb_ℤ,
  eqb_ℤ, eqb_ℤ_iff,
}
use factum.HashMap
use factum.HashMap.{HashMap, Eq, ◌==◌, text_key}
use factum.Core.Platform.{Platform}
use factum.Core.PermissionTag
use factum.Core.Types.{
  NodeId, EntityId, Node, Validity, forever, window, is_active, is_active_valid_at,
}
use factum.Core.Morphemes.{MorphemeRegistry}
use factum.Rt.Storage
use factum.Rt.Storage.{
  InMemoryBackend, StorageError, Cf, by_entity, by_pred, by_src, get_node, scan_index, batch_write,
  WriteOp, iter_nodes,
}
use factum.Rt.Permission.{PermissionContext}
use factum.Rt.Subscription.{SubscriptionManager, notify_insert}
use factum.Rt.Verifier.{Verdict, pass, fail, inconclusive, Reason, VerifierRegistry, verify_all}

pub data WalEntry (p : Platform) : Type 0 where
  insert : Node p → WalEntry p
  retract : NodeId → WalEntry p
  checkpoint : WalEntry p

pub data StoreError : Type 0 where
  not_found : Text → StoreError
  already_exists : Text → StoreError
  permission_denied : StoreError
  invalid_node : Reason → StoreError
  storage : StorageError → StoreError

-- The keys of `by_validity`: the first second and the last one.
abbrev pub ValidityKey : Type 0
ValidityKey = ℤ × ℤ

abbrev key_eq : ValidityKey → ValidityKey → Bool
key_eq a b = eqb_ℤ a.0 b.0 && eqb_ℤ a.1 b.1

pub key_eq_iff : (a b : ValidityKey) → (key_eq a b ≡ true) ↔ (a ≡ b)
key_eq_iff a b = ground (arith, eqb_ℤ_iff a.0 b.0, eqb_ℤ_iff a.1 b.1)

instance abbrev pub validity_key_eq : Eq ValidityKey
validity_key_eq = record { beq = key_eq; beq_iff = key_eq_iff }

pub record FactumStore (p : Platform) : Type 0 where
  pub backend : InMemoryBackend p
  pub deps_rev : HashMap NodeId (List NodeId)
  pub by_validity : HashMap ValidityKey (List NodeId)
  pub registry : MorphemeRegistry
  pub wal : List (WalEntry p)
  pub subscriptions : SubscriptionManager p
  pub verifiers : Option (VerifierRegistry p)

abbrev pub i64_min : ℤ
i64_min = negsuc (2 ^ 63 - 1)

abbrev pub i64_max : ℤ
i64_max = pos (2 ^ 63 - 1)

-- `update_deps_rev`, on the index: one push for each dependency
unfoldable pub push_deps :
    NodeId → List NodeId → HashMap NodeId (List NodeId) → HashMap NodeId (List NodeId)
push_deps id [] m = m
push_deps id (d ∷ ds) m = push_deps id ds (HashMap.push d id m)

module _ {p : Platform} where
  -- the key of a node in `by_validity`
  unfoldable pub validity_key : Validity p → ValidityKey
  validity_key forever = (i64_min, i64_max)
  validity_key (window from none) = (p.timestamp from, i64_max)
  validity_key (window from (some until)) = (p.timestamp from, p.timestamp until)

  unfoldable pub update_deps_rev : FactumStore p → Node p → FactumStore p
  unfolding push_deps
  update_deps_rev s n = record s { deps_rev = push_deps n.id n.deps s.deps_rev }

  unfoldable pub update_by_validity : FactumStore p → Node p → FactumStore p
  unfolding validity_key
  update_by_validity s n = record s {
    by_validity = HashMap.push (validity_key n.validity) n.id s.by_validity;
  }

  -- `FactumStore::new`: an empty store over the in-memory backend
  unfoldable pub new : MorphemeRegistry → FactumStore p
  unfolding Storage.new
  new r = record {
    backend = Storage.new;
    deps_rev = [];
    by_validity = [];
    registry = r;
    wal = [];
    subscriptions = record { subscriptions = []; next_id = 0 };
    verifiers = none;
  }
