-- ===== src/Rt/Review/Order.antt =====
-- The order of `list_pending` of crates/factum-rt/src/review.rs.
use mathlib.Core.List.{Perm}
use mathlib.Core.List.Perm
use factum.Prelude.{
  Bool, ◌≤◌, true, false, ◌≡◌, refl, sym, ap, if◌then◌else◌, ◌∙◌, subst, ◌↔◌, ◌⊎◌, inl, inr, List,
  [], ◌∷◌, Bool-cases, filter, Elem, Elem-filter, arith,
}
use factum.Rt.Review.Laws.{Elem-insert_before}
use factum.Rt.Review.{
  ReviewEvent, ReviewQueue, ReviewPriority, high, normal, is_pending, comes_first, insert_before,
  insert_sorted, sort, list_pending,
}

-- `a` stands before `b`: it is of high priority and `b` is not, or they have the same priority and
-- `a` has the smaller identifier, which is that of an older event.
abbrev pub Precedes : ReviewEvent → ReviewEvent → Type 0
Precedes a b =
    ((a.priority ≡ high) × (b.priority ≡ normal)) ⊎ ((a.priority ≡ b.priority) × (a.id ≤ b.id))

-- Each event of the list precedes the next one.
abbrev pub Ordered : List ReviewEvent → Type 0
Ordered [] = Unit
Ordered (x ∷ []) = Unit
Ordered (x ∷ y ∷ ys) = Precedes x y × Ordered (y ∷ ys)

priority-Precedes :
    (a b : ReviewEvent) (u v : ReviewPriority)
    → a.priority ≡ u
    → b.priority ≡ v
    → comes_first a b ≡ true
    → Precedes a b
unfolding comes_first
priority-Precedes a b high normal e f h = inl (e, f)
priority-Precedes a b high high e f h = inr (e ∙ sym f, ground (arith, e, f, h))
priority-Precedes a b normal normal e f h = inr (e ∙ sym f, ground (arith, e, f, h))
priority-Precedes a b normal high e f h = absurd (ground (arith, e, f, h))

comes_first-Precedes : (a b : ReviewEvent) → comes_first a b ≡ true → Precedes a b
comes_first-Precedes a b = priority-Precedes a b a.priority b.priority refl refl

comes_first_total : (a b : ReviewEvent) → comes_first a b ≡ false → comes_first b a ≡ true
unfolding comes_first
comes_first_total a b h = ground arith

later-Precedes : (e x : ReviewEvent) → comes_first e x ≡ false → Precedes x e
later-Precedes e x q = comes_first-Precedes x e (comes_first_total e x q)

insert_sorted_later :
    (e y : ReviewEvent) (ys : List ReviewEvent)
    → comes_first e y ≡ false
    → insert_sorted e (y ∷ ys) ≡ y ∷ insert_sorted e ys
unfolding insert_sorted
insert_sorted_later e y ys q = rw (q, insert_sorted) refl

insert_sorted-Ordered :
    (e : ReviewEvent) (xs : List ReviewEvent) → Ordered xs → Ordered (insert_sorted e xs)
unfolding insert_sorted
insert_sorted-Ordered e [] h = tt
insert_sorted-Ordered e (x ∷ []) h = elim (Bool-cases (comes_first e x)) [
  | inl q ↦ rw (q, insert_sorted, Ordered) (comes_first-Precedes e x q, tt)
  | inr q ↦ rw (q, insert_sorted, Ordered) (later-Precedes e x q, tt)
]
insert_sorted-Ordered e (x ∷ y ∷ ys) h = elim (Bool-cases (comes_first e x)) [
  | inl q ↦ rw (q, insert_sorted, Ordered) (comes_first-Precedes e x q, h)
  | inr q ↦
      (let ih = insert_sorted-Ordered e (y ∷ ys) h.1 in
        elim (Bool-cases (comes_first e y)) [
          | inl q' ↦
              rw (q, q', insert_sorted, Ordered)
                (later-Precedes e x q, (comes_first-Precedes e y q', h.1))
          | inr q' ↦
              rw (q, q', insert_sorted, Ordered)
                (h.0, subst Ordered (insert_sorted_later e y ys q') ih)
        ])
]

sort-Ordered : (xs : List ReviewEvent) → Ordered (sort xs)
unfolding sort
sort-Ordered [] = tt
sort-Ordered (x ∷ xs) = insert_sorted-Ordered x (sort xs) (sort-Ordered xs)

insert_sorted_lem :
    (e : ReviewEvent) (xs : List ReviewEvent)
    → insert_sorted e xs ≡ insert_before (comes_first e) e xs
unfolding insert_sorted insert_before
insert_sorted_lem e [] = refl
insert_sorted_lem e (y ∷ ys) =
    ap (λ (r : List ReviewEvent). if comes_first e y then e ∷ y ∷ ys else y ∷ r)
      (insert_sorted_lem e ys)

Elem-insert_sorted :
    (e x : ReviewEvent) (xs : List ReviewEvent)
    → Elem x (insert_sorted e xs) ↔ ((x ≡ e) ⊎ Elem x xs)
Elem-insert_sorted e x xs = rw (insert_sorted_lem e xs) (Elem-insert_before (comes_first e) e x xs)

Elem-sort : (x : ReviewEvent) (xs : List ReviewEvent) → Elem x (sort xs) ↔ Elem x xs
unfolding sort
Elem-sort x [] = (λ h. h, λ h. h)
Elem-sort x (y ∷ ys) =
    let one = Elem-insert_sorted y x (sort ys) in
    let ih = Elem-sort x ys in
    (
      λ h. elim (one.0 h) [ inl a ↦ inl a | inr b ↦ inr (ih.0 b) ],
      λ h. elim h [ inl a ↦ one.1 (inl a) | inr b ↦ one.1 (inr (ih.1 b)) ],
    )

insert_before-Perm :
    (test : ReviewEvent → Bool) (e : ReviewEvent) (xs : List ReviewEvent)
    → Perm (insert_before test e xs) (e ∷ xs)
unfolding insert_before
insert_before-Perm test e [] = Perm.refl (e ∷ [])
insert_before-Perm test e (y ∷ ys) = elim (Bool-cases (test y)) [
  | inl q ↦ rw (q, insert_before) (Perm.refl (e ∷ y ∷ ys))
  | inr q ↦
      rw (q, insert_before)
        (Perm.trans (Perm.cons y (insert_before-Perm test e ys)) (Perm.swap e y ys))
]

sort-Perm : (xs : List ReviewEvent) → Perm (sort xs) xs
unfolding sort
sort-Perm [] = Perm.refl []
sort-Perm (x ∷ xs) =
    rw (insert_sorted_lem x (sort xs))
      (Perm.trans (insert_before-Perm (comes_first x) x (sort xs)) (Perm.cons x (sort-Perm xs)))

-- `list_pending` lists exactly the pending events, each as often as the queue holds it, those of
-- high priority before the others and, within a priority, by identifier, so that older events come
-- before younger ones.
pub list_pending-Ordered :
    (q : ReviewQueue)
    → Ordered (list_pending q)
      × Perm (list_pending q) (filter is_pending q.events)
      × ((x : ReviewEvent) → Elem x (list_pending q) ↔ (Elem x q.events × (is_pending x ≡ true)))
unfolding list_pending
list_pending-Ordered q = (
  sort-Ordered (filter is_pending q.events),
  sort-Perm (filter is_pending q.events),
  λ x.
      let s = Elem-sort x (filter is_pending q.events) in
      let f = Elem-filter is_pending x q.events in (λ h. f.0 (s.0 h), λ h. s.1 (f.1 h)),
)
