-- ===== src/Rt/Review/Laws.antt =====
-- Identifiers and decisions in the review queue of crates/factum-rt/src/review.rs.
use factum.Prelude.{
  ℕ, ◌+◌, ◌^◌, ◌%◌, ◌≤◌, ◌<◌, Bool, true, false, ◌≡◌, refl, sym, ap, subst, ◌∙◌, ◌⊎◌, inl, inr,
  Option, none, some, List, [], ◌∷◌, Text, codes, eqb, if◌then◌else◌, Bool-cases, Option-cases,
  Result, ok, err, ℤ, arith, Elem, ◌↔◌,
}
use factum.Rt.Review.{
  ReviewPriority, ReviewEventType, ReviewStatus, pending, approved, rejected, ReviewEvent,
  ReviewQueue, is_pending, insert_before, stops, enqueue, find, get, set_status, decide, approve,
  reject, not_found, already,
}

-- Each identifier of the list is below the bound.
abbrev pub Below : ℕ → List ReviewEvent → Type 0
Below b [] = Unit
Below b (x ∷ xs) = (x.id < b) × Below b xs

-- No identifier stands twice in the list.
abbrev pub Distinct : List ReviewEvent → Type 0
Distinct [] = Unit
Distinct (x ∷ xs) = (find x.id xs ≡ none) × Distinct xs

-- Identifiers are unique, and the next one is new.
abbrev pub IsValid : ReviewQueue → Type 0
IsValid q = Below q.next_id q.events × Distinct q.events

find-Below : (b i : ℕ) (xs : List ReviewEvent) → Below b xs → b ≤ i → find i xs ≡ none
unfolding find
find-Below b i [] h k = refl
find-Below b i (x ∷ xs) h k = ground (arith, find-Below b i xs h.1 k, h.0)

find-insert_before :
    (test : ReviewEvent → Bool) (e : ReviewEvent) (xs : List ReviewEvent) (i : ℕ)
    → find e.id xs ≡ none
    → find i (insert_before test e xs) ≡ (if eqb e.id i then some e else find i xs)
unfolding find insert_before
find-insert_before test e [] i h = refl
find-insert_before test e (x ∷ xs) i h = ground (arith, find-insert_before test e xs i)

Below-insert_before :
    (b : ℕ) (test : ReviewEvent → Bool) (e : ReviewEvent) (xs : List ReviewEvent)
    → e.id < b
    → Below b xs
    → Below b (insert_before test e xs)
unfolding insert_before
Below-insert_before b test e [] k h = (k, tt)
Below-insert_before b test e (x ∷ xs) k h = elim (Bool-cases (test x)) [
  | inl q ↦ rw (q, insert_before) (k, h)
  | inr q ↦ rw (q, insert_before) (h.0, Below-insert_before b test e xs k h.1)
]

Distinct-insert_before :
    (test : ReviewEvent → Bool) (e : ReviewEvent) (xs : List ReviewEvent)
    → find e.id xs ≡ none
    → Distinct xs
    → Distinct (insert_before test e xs)
unfolding find insert_before
Distinct-insert_before test e [] f h = (refl, tt)
Distinct-insert_before test e (x ∷ xs) f h =
    let apart : (eqb x.id e.id ≡ false) × (find e.id xs ≡ none) = ground (arith, f) in
    elim (Bool-cases (test x)) [
      | inl q ↦ rw (q, insert_before) (f, h)
      | inr q ↦
          rw (q, insert_before)
            (
              ground (arith, find-insert_before test e xs x.id apart.1, apart.0, h.0),
              Distinct-insert_before test e xs apart.1 h.1,
            )
    ]

Below-suc : (b : ℕ) (xs : List ReviewEvent) → Below b xs → Below (b + 1) xs
Below-suc b [] h = tt
Below-suc b (x ∷ xs) h = (omega (arith, h.0), Below-suc b xs h.1)

next_lem : (n : ℕ) → n + 1 < 2 ^ 64 → (n + 1) % 2 ^ 64 ≡ n + 1
next_lem n h = omega (arith, h)

-- the event that a call of `enqueue` makes, under an identifier
abbrev pub event_of : ReviewEventType → ReviewPriority → List Text → Text → ℤ → ℕ → ReviewEvent
event_of t priority ids why now i = record {
  id = i;
  event_type = t;
  priority = priority;
  node_ids = ids;
  reason = why;
  timestamp = now;
  status = pending;
}

pub Elem-insert_before :
    (test : ReviewEvent → Bool) (e x : ReviewEvent) (xs : List ReviewEvent)
    → Elem x (insert_before test e xs) ↔ ((x ≡ e) ⊎ Elem x xs)
unfolding insert_before
Elem-insert_before test e x [] = (λ h. h, λ h. h)
Elem-insert_before test e x (y ∷ ys) = elim (Bool-cases (test y)) [
  | inl q ↦ rw (q, insert_before, Elem) (λ h. h, λ h. h)
  | inr q ↦
      rw (q, insert_before, Elem)
        (let ih = Elem-insert_before test e x ys in
          (
            λ h. elim h [
              | inl a ↦ inr (inl a)
              | inr b ↦ elim (ih.0 b) [ inl c ↦ inl c | inr d ↦ inr (inr d) ]
            ],
            λ h. elim h [
              | inl a ↦ inr (ih.1 (inl a))
              | inr (inl b) ↦ inl b
              | inr (inr c) ↦ inr (ih.1 (inr c))
            ],
          ))
]

-- In a queue whose identifiers are unique and below the counter, and whose counter does not wrap
-- around, `enqueue` returns an identifier that no event had, adds one event, pending and with the
-- arguments of the call, under that identifier to those that were there, and leaves a queue whose
-- identifiers are unique and below the counter.
pub enqueue-IsValid :
    (t : ReviewEventType) (priority : ReviewPriority) (ids : List Text) (why : Text) (now : ℤ)
    (q : ReviewQueue)
    → IsValid q
    → q.next_id + 1 < 2 ^ 64
    → (get q (enqueue t priority ids why now q).0 ≡ none)
      × ((x : ReviewEvent)
          → Elem x (enqueue t priority ids why now q).1.events ↔ (
              (x ≡ event_of t priority ids why now (enqueue t priority ids why now q).0)
              ⊎ Elem x q.events))
      × IsValid (enqueue t priority ids why now q).1
unfolding enqueue get
enqueue-IsValid t priority ids why now q h room =
    let e = event_of t priority ids why now q.next_id in
    let fresh = find-Below q.next_id q.next_id q.events h.0 (omega arith) in
    (
      fresh,
      λ x. Elem-insert_before (stops priority) e x q.events,
      (
        subst (λ b. Below b (insert_before (stops priority) e q.events))
            (sym (next_lem q.next_id room))
            (Below-insert_before (q.next_id + 1) (stops priority) e q.events (omega arith)
              (Below-suc q.next_id q.events h.0)),
        Distinct-insert_before (stops priority) e q.events fresh h.1,
      ),
    )

-- In a queue whose identifiers are unique and below the counter, `enqueue` returns the counter;
-- after it, that identifier is read as a pending event with the arguments of the call, and each
-- other read is what it was.
pub get-enqueue :
    (t : ReviewEventType) (priority : ReviewPriority) (ids : List Text) (why : Text) (now : ℤ)
    (q : ReviewQueue)
    → IsValid q
    → ((enqueue t priority ids why now q).0 ≡ q.next_id)
      × ((i : ℕ)
          → get (enqueue t priority ids why now q).1 i ≡ (
              if eqb (enqueue t priority ids why now q).0 i
              then some (event_of t priority ids why now (enqueue t priority ids why now q).0)
              else get q i))
unfolding enqueue get
get-enqueue t priority ids why now q h = (
  refl,
  λ i.
      find-insert_before (stops priority) (event_of t priority ids why now q.next_id) q.events i
        (find-Below q.next_id q.next_id q.events h.0 (omega arith)),
)

abbrev with_status : ReviewStatus → Option ReviewEvent → Option ReviewEvent
with_status st none = none
with_status st (some e) = some (record e { status = st })

find-set_status :
    (i : ℕ) (st : ReviewStatus) (xs : List ReviewEvent) (j : ℕ)
    → find j (set_status i st xs) ≡ (if eqb i j then with_status st (find j xs) else find j xs)
unfolding find set_status
find-set_status i st [] j = ground arith
find-set_status i st (x ∷ xs) j = ground (arith, find-set_status i st xs j)

-- What a decision does: an event that is there and pending takes the new status, and no other event
-- changes; or an error leaves the queue as it is, and there was no pending event of that
-- identifier.
abbrev pub Decides : ReviewStatus → ReviewQueue → ℕ → Result Text Unit × ReviewQueue → Type 0
Decides st q i r =
    ((e : ReviewEvent) × (get q i ≡ some e)
      × (is_pending e ≡ true)
      × (r.0 ≡ ok tt)
      × ((j : ℕ) → get r.1 j ≡ (if eqb i j then some (record e { status = st }) else get q j)))
    ⊎ ((why : Text) × (r ≡ (err why, q))
        × ((e : ReviewEvent) → get q i ≡ some e → is_pending e ≡ false))

decide-Decides :
    (word : Text) (st : ReviewStatus) (q : ReviewQueue) (i : ℕ)
    → Decides st q i (decide word st q i)
unfolding decide get
decide-Decides word st q i = elim (Option-cases (find i q.events)) [
  | inl e ↦ inr (
    not_found i,
    rw (e, decide, get) refl,
    λ x f. absurd (let no_event = sym e ∙ f in cc no_event),
  )
  | inr (x, e) ↦ elim (Bool-cases (is_pending x)) [
    | inl p ↦ inl (
      x,
      e,
      p,
      rw (e, p, decide, get) refl,
      λ j. rw (e, p, decide, get) (ground (arith, find-set_status i st q.events j, e)),
    )
    | inr p ↦ inr (
      already word x i,
      rw (e, p, decide, get) refl,
      λ y f. (let same : x ≡ y = ground (arith, sym e ∙ f) in ap is_pending (sym same) ∙ p),
    )
  ]
]

-- `approve` turns a pending event into an approved one and touches no other; for an identifier
-- without a pending event it returns an error and leaves the queue as it is.
pub approve-Decides : (q : ReviewQueue) (i : ℕ) → Decides approved q i (approve q i)
unfolding approve
approve-Decides = decide-Decides (codes "approve") approved

-- `reject` turns a pending event into a rejected one and touches no other; for an identifier
-- without a pending event it returns an error and leaves the queue as it is.
pub reject-Decides : (q : ReviewQueue) (i : ℕ) → Decides rejected q i (reject q i)
unfolding reject
reject-Decides = decide-Decides (codes "reject") rejected
