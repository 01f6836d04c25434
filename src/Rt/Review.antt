-- ===== src/Rt/Review.antt =====
-- crates/factum-rt/src/review.rs: the queue of what the system refuses to decide itself. The time
-- of an event is read from the clock, here an argument. Identifiers are u64.
pub mod Laws
pub mod Order
use factum.Prelude.{
  ℕ, suc, ◌+◌, ◌^◌, ◌%◌, Bool, true, false, not, ◌&&◌, ◌||◌, Option, none, some, List, [], ◌∷◌,
  ◌++◌, Text, codes, eqb, leb, if◌then◌else◌, filter, length, Result, ok, err, ℤ,
}
use factum.Prelude.Digits.{to_string}
use mathlib.Core.List.{reverse}

pub data ReviewPriority : Type 0 where
  normal high : ReviewPriority

pub data ReviewEventType : Type 0 where
  ambiguous_arbitration band_clipping_exceeded cascade_truncated : ReviewEventType

pub data ReviewStatus : Type 0 where
  pending approved rejected auto_resolved : ReviewStatus

pub record ReviewEvent : Type 0 where
  pub id : ℕ
  pub event_type : ReviewEventType
  pub priority : ReviewPriority
  pub node_ids : List Text
  pub reason : Text
  pub timestamp : ℤ
  pub status : ReviewStatus

pub record ReviewQueue : Type 0 where
  pub events : List ReviewEvent
  pub next_id : ℕ

abbrev pub is_pending_status : ReviewStatus → Bool
is_pending_status pending = true
is_pending_status _ = false

-- `is_pending`
abbrev pub is_pending : ReviewEvent → Bool
is_pending e = is_pending_status e.status

abbrev pub is_high : ReviewPriority → Bool
is_high high = true
is_high normal = false

-- `ReviewStatus::as_str`, which is the form of `{:?}` as well
unfoldable pub status_str : ReviewStatus → Text
status_str pending = codes "Pending"
status_str approved = codes "Approved"
status_str rejected = codes "Rejected"
status_str auto_resolved = codes "AutoResolved"

-- `ReviewQueue::new`
unfoldable pub new : ReviewQueue
new = record { events = []; next_id = 1 }

-- `events.insert(position(test).unwrap_or(len), event)`
unfoldable pub insert_before :
    (ReviewEvent → Bool) → ReviewEvent → List ReviewEvent → List ReviewEvent
insert_before test e [] = e ∷ []
insert_before test e (x ∷ xs) =
    let rest = insert_before test e xs in if test x then e ∷ x ∷ xs else x ∷ rest

-- the events before which a new one of the priority is put
unfoldable pub stops : ReviewPriority → ReviewEvent → Bool
stops high x = not (is_pending x) || not (is_high x.priority)
stops normal x = not (is_pending x)

unfoldable pub enqueue :
    ReviewEventType → ReviewPriority → List Text → Text → ℤ → ReviewQueue → ℕ × ReviewQueue
unfolding insert_before stops
enqueue event_type priority node_ids reason now q =
    let e : ReviewEvent = record {
      id = q.next_id;
      event_type = event_type;
      priority = priority;
      node_ids = node_ids;
      reason = reason;
      timestamp = now;
      status = pending;
    } in
    (
      q.next_id,
      record {
        events = insert_before (stops priority) e q.events;
        next_id = (q.next_id + 1) % 2 ^ 64;
      },
    )

-- `events.iter().find(|e| e.id == id)`
unfoldable pub find : ℕ → List ReviewEvent → Option ReviewEvent
find i [] = none
find i (x ∷ xs) = if eqb x.id i then some x else find i xs

-- `ReviewQueue::get`
unfoldable pub get : ReviewQueue → ℕ → Option ReviewEvent
unfolding find
get q i = find i q.events

-- the assignment to the status of the event that `find` gives
unfoldable pub set_status : ℕ → ReviewStatus → List ReviewEvent → List ReviewEvent
set_status i st [] = []
set_status i st (x ∷ xs) =
    let rest = set_status i st xs in if eqb x.id i then record x { status = st } ∷ xs else x ∷ rest

unfoldable pub not_found : ℕ → Text
unfolding to_string
not_found i = codes "review event " ++ to_string i ++ codes " not found"

unfoldable pub already : Text → ReviewEvent → ℕ → Text
unfolding to_string status_str
already word e i =
    codes "event "
    ++ to_string i
    ++ codes " is already "
    ++ status_str e.status
    ++ codes ", cannot "
    ++ word

-- `approve` and `reject`, with the word of their message
unfoldable pub decide : Text → ReviewStatus → ReviewQueue → ℕ → Result Text Unit × ReviewQueue
unfolding get set_status not_found already
decide word st q i = elim (get q i) [
  | none ↦ (err (not_found i), q)
  | some e ↦
      if is_pending e
      then (ok tt, record q { events = set_status i st q.events })
      else (err (already word e i), q)
]

unfoldable pub approve : ReviewQueue → ℕ → Result Text Unit × ReviewQueue
unfolding decide
approve = decide (codes "approve") approved

unfoldable pub reject : ReviewQueue → ℕ → Result Text Unit × ReviewQueue
unfolding decide
reject = decide (codes "reject") rejected

-- `auto_resolve`, which does not look at the status
unfoldable pub auto_resolve : ReviewQueue → ℕ → Result Text Unit × ReviewQueue
unfolding get set_status not_found
auto_resolve q i = elim (get q i) [
  | none ↦ (err (not_found i), q)
  | some e ↦ (ok tt, record q { events = set_status i auto_resolved q.events })
]

-- `b.priority.cmp(&a.priority).then(a.id.cmp(&b.id))` is not `Greater`
unfoldable pub comes_first : ReviewEvent → ReviewEvent → Bool
comes_first a b =
    if is_high a.priority
    then if is_high b.priority then leb a.id b.id else true
    else if is_high b.priority
    then false
    else leb a.id b.id

unfoldable pub insert_sorted : ReviewEvent → List ReviewEvent → List ReviewEvent
unfolding comes_first
insert_sorted e [] = e ∷ []
insert_sorted e (x ∷ xs) =
    let rest = insert_sorted e xs in if comes_first e x then e ∷ x ∷ xs else x ∷ rest

-- `sort_by`, which is stable
unfoldable pub sort : List ReviewEvent → List ReviewEvent
unfolding insert_sorted
sort [] = []
sort (x ∷ xs) = insert_sorted x (sort xs)

unfoldable pub list_pending : ReviewQueue → List ReviewEvent
unfolding sort
list_pending q = sort (filter is_pending q.events)

-- `Reverse(a.id)` is not `Greater`
abbrev newest_first : ReviewEvent → ReviewEvent → Bool
newest_first a b = leb b.id a.id

unfoldable pub insert_newest : ReviewEvent → List ReviewEvent → List ReviewEvent
insert_newest e [] = e ∷ []
insert_newest e (x ∷ xs) =
    let rest = insert_newest e xs in if newest_first e x then e ∷ x ∷ xs else x ∷ rest

-- `sort_by_key` on the reversed identifier, which is stable
unfoldable pub sort_newest : List ReviewEvent → List ReviewEvent
unfolding insert_newest
sort_newest [] = []
sort_newest (x ∷ xs) = insert_newest x (sort_newest xs)

unfoldable pub list_all : ReviewQueue → List ReviewEvent
unfolding sort_newest
list_all q = sort_newest (reverse q.events)

-- `ReviewEventType::as_str` and `ReviewPriority::as_str`
unfoldable pub type_str : ReviewEventType → Text
type_str ambiguous_arbitration = codes "AmbiguousArbitration"
type_str band_clipping_exceeded = codes "BandClippingExceeded"
type_str cascade_truncated = codes "CascadeTruncated"

unfoldable pub priority_str : ReviewPriority → Text
priority_str normal = codes "Normal"
priority_str high = codes "High"

unfoldable pub pending_count : ReviewQueue → ℕ
pending_count q = length (filter is_pending q.events)

pub total_count : ReviewQueue → ℕ
total_count q = length q.events
