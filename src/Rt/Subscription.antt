-- ===== src/Rt/Subscription.antt =====
-- crates/factum-rt/src/subscription.rs: the subscribers and the events buffered for each. The
-- manager's list holds the subscriptions that are registered; a handle that outlives its
-- registration is not followed.
use factum.Prelude.{
  ℕ, ◌+◌, Bool, true, false, not, ◌&&◌, ◌||◌, Option, none, some, List, [], ◌∷◌, ◌++◌, map, Text,
  codes, text_eq, eqb, if◌then◌else◌, filter, length,
}
use factum.Core.Platform.{Platform}
use factum.Core.Types.{NodeId, Node, PredicateHead, head_of, is_valid_at}

pub data SubscriptionEvent (p : Platform) : Type 0 where
  inserted : Node p → SubscriptionEvent p
  retracted : NodeId → List NodeId → SubscriptionEvent p

pub record Subscription (p : Platform) : Type 0 where
  pub pattern : Text
  pub validity_window : Option (p.Time × Option p.Time)
  pub events : List (SubscriptionEvent p)
  pub id : ℕ

pub record SubscriptionManager (p : Platform) : Type 0 where
  pub subscriptions : List (Subscription p)
  pub next_id : ℕ

-- the test on the head's name; a resolved head never matches
abbrev head_matches : Text → PredicateHead → Bool
head_matches pattern (PredicateHead.id i) = false
head_matches pattern (PredicateHead.name n) = text_eq pattern n || text_eq pattern (codes "*")

module _ {p : Platform} where
  -- the test on the validity window: only its start is looked at
  abbrev window_matches : Option (p.Time × Option p.Time) → Node p → Bool
  window_matches none n = true
  window_matches (some (from, until)) n = is_valid_at n.validity from

  -- `Subscription::matches`
  unfoldable pub matches : Subscription p → Node p → Bool
  matches s n = head_matches s.pattern (head_of n.predicate) && window_matches s.validity_window n

  -- `Subscription::push`
  unfoldable pub push : SubscriptionEvent p → Subscription p → Subscription p
  push e s = record s { events = s.events ++ e ∷ [] }

  -- `Subscription::poll`: the events since the last poll, and the emptied buffer
  pub poll : Subscription p → List (SubscriptionEvent p) × Subscription p
  poll s = (s.events, record s { events = [] })

  -- `SubscriptionManager::new`
  pub new : SubscriptionManager p
  new = record { subscriptions = []; next_id = 0 }

  -- `subscribe`
  pub subscribe : SubscriptionManager p → Text → SubscriptionManager p × Subscription p
  subscribe m pattern =
      let sub : Subscription p = record {
        pattern = pattern;
        validity_window = none;
        events = [];
        id = m.next_id;
      } in
      (record { subscriptions = m.subscriptions ++ sub ∷ []; next_id = m.next_id + 1 }, sub)

  abbrev deliver : Node p → Subscription p → Subscription p
  deliver n s = if matches s n then push (inserted n) s else s

  -- `notify_insert`
  unfoldable pub notify_insert : SubscriptionManager p → Node p → SubscriptionManager p
  notify_insert m n = record m { subscriptions = map (deliver n) m.subscriptions }

  -- `notify_retract`: every subscriber, whatever its pattern
  unfoldable pub notify_retract :
      SubscriptionManager p → NodeId → List NodeId → SubscriptionManager p
  notify_retract m i cascade = record m {
    subscriptions = map (push (retracted i cascade)) m.subscriptions;
  }

  -- `unsubscribe`
  pub unsubscribe : SubscriptionManager p → ℕ → SubscriptionManager p
  unsubscribe m i = record m { subscriptions = filter (λ s. not (eqb s.id i)) m.subscriptions }

  -- `count`
  pub count : SubscriptionManager p → ℕ
  count m = length m.subscriptions
