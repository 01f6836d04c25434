-- ===== src/Tests/Review.antt =====
-- The review queue at work.
use mathlib.Core.List.{Perm}
use factum.Prelude.{
  filter, ℕ, none, ◌⊎◌, true, ◌≡◌, some, [], codes, eqb, if◌then◌else◌, pos, arith, Elem, ◌↔◌,
}
use factum.Rt.Review.{
  ReviewEvent, ReviewQueue, new, enqueue, get, approve, reject, normal, high, approved, rejected,
  ambiguous_arbitration, cascade_truncated, list_pending, is_pending,
}
use factum.Rt.Review.Laws.{
  IsValid, Decides, enqueue-IsValid, event_of, get-enqueue, approve-Decides, reject-Decides,
}
use factum.Rt.Review.Order.{Ordered, list_pending-Ordered}

abbrev waiting : ReviewQueue
waiting = (enqueue ambiguous_arbitration normal [] (codes "tie") (pos 5) new).1

-- the queue is well formed after one call
waiting-IsValid : IsValid waiting
unfolding new
waiting-IsValid =
    (enqueue-IsValid ambiguous_arbitration normal [] (codes "tie") (pos 5) new (tt, tt)
      (omega arith)).2

enqueue-IsValid_example :
    (get new (enqueue ambiguous_arbitration normal [] (codes "tie") (pos 5) new).0 ≡ none)
    × ((x : ReviewEvent)
        → Elem x waiting.events ↔ (
            (x
              ≡ event_of ambiguous_arbitration normal []
                  (codes "tie")
                  (pos 5)
                  (enqueue ambiguous_arbitration normal [] (codes "tie") (pos 5) new).0)
            ⊎ Elem x new.events))
    × IsValid waiting
unfolding new
enqueue-IsValid_example =
    enqueue-IsValid ambiguous_arbitration normal [] (codes "tie") (pos 5) new (tt, tt) (omega arith)

abbrev after : ℕ × ReviewQueue
after = enqueue cascade_truncated high [] (codes "cut") (pos 6) waiting

get-enqueue_example :
    (after.0 ≡ waiting.next_id)
    × ((i : ℕ)
        → get after.1 i ≡ (
            if eqb after.0 i
            then some (event_of cascade_truncated high [] (codes "cut") (pos 6) after.0)
            else get waiting i))
get-enqueue_example =
    get-enqueue cascade_truncated high [] (codes "cut") (pos 6) waiting waiting-IsValid

approve-Decides_example : Decides approved waiting 1 (approve waiting 1)
approve-Decides_example = approve-Decides waiting 1

reject-Decides_example : Decides rejected waiting 1 (reject waiting 1)
reject-Decides_example = reject-Decides waiting 1

list_pending-Ordered_example :
    Ordered (list_pending waiting)
    × Perm (list_pending waiting) (filter is_pending waiting.events)
    × ((x : ReviewEvent)
        → Elem x (list_pending waiting) ↔ (Elem x waiting.events × (is_pending x ≡ true)))
list_pending-Ordered_example = list_pending-Ordered waiting
