-- ===== src/Rt/Query/Arbitration.antt =====
-- crates/factum-rt/src/arbitration.rs. With a query pattern, as `query` calls it,
-- `group_by_pattern` puts all matches under one key, which is not looked at again: there is one
-- group. A map of sub-groups has no order of its own in Rust; the model lists it in the order of
-- the first insertions.
use Prim.Native.Nat.{Ordering}
use Prim.Native.Nat.Ordering.{lt, eq, gt}
use factum.Prelude.{
  Bool, true, false, not, ◌&&◌, Option, none, some, List, [], ◌∷◌, ◌++◌, Text, codes, eqb, leb,
  if◌then◌else◌, filter, length,
}
use factum.HashMap
use factum.HashMap.{HashMap, text_key}
use factum.Core.Platform.{Platform, f32_lt}
use factum.Core.Types.{
  Node, Validity, forever, window, Provenance, verbatim, summary, extracted, derived, asserted,
}
use factum.Core.Types.Equality.{predicate_eq}
use factum.Core.Canonical.{canonical_predicate}
use factum.Rt.Query.Match.{Bindings}

pub record QueryResult (p : Platform) : Type 0 where
  pub node : Node p
  pub bindings : Bindings p

pub data ConflictPolicy (p : Platform) : Type 0 where
  latest_wins highest_authority unanimous : ConflictPolicy p
  weighted_vote : HashMap Text p.F32 → ConflictPolicy p
  custom : ConflictPolicy p

-- The results so far and the flag, or a panic.
abbrev pub Answer : Platform → Type 0
Answer p = Option (List (QueryResult p) × Bool)

-- `principal_str`
unfoldable pub principal_str : Provenance → Text
principal_str (asserted by) = by
principal_str (extracted doc span model) = model.name
principal_str (verbatim doc span) = codes "document"
principal_str (summary doc span) = codes "document"
principal_str (derived from rule) = codes "derived"

-- `Ordering::then`
abbrev pub then_cmp : Ordering → Ordering → Ordering
then_cmp eq b = b
then_cmp a b = a

abbrev pub is_gt : Ordering → Bool
is_gt gt = true
is_gt _ = false

abbrev is_eq : Ordering → Bool
is_eq eq = true
is_eq _ = false

-- `partial_cmp(..).unwrap_or(Equal)`
abbrev float_cmp : (p : Platform) → p.F32 → p.F32 → Ordering
float_cmp p a b = elim (p.partial_cmp a b) [ none ↦ eq | some o ↦ o ]

-- `(a - b).abs() < 0.001`
abbrev pub close : (p : Platform) → p.F32 → p.F32 → Bool
close p a b = f32_lt p (p.abs (p.sub a b)) (p.float 1 3)

module _ {A : Type 0} where
  -- `max_by`: the last of the greatest elements
  unfoldable pub max_by : (A → A → Ordering) → A → List A → A
  max_by cmp best [] = best
  max_by cmp best (x ∷ xs) = max_by cmp (if is_gt (cmp best x) then best else x) xs

module _ {p : Platform} where
  -- `validity_recency_cmp`
  unfoldable pub validity_recency_cmp : Validity p → Validity p → Ordering
  validity_recency_cmp forever forever = eq
  validity_recency_cmp forever (window from until) = lt
  validity_recency_cmp (window from until) forever = gt
  validity_recency_cmp (window a_from until) (window b_from until') = p.time_cmp a_from b_from

  -- the order of `LatestWins`: authority, then recency
  unfoldable pub latest_cmp : QueryResult p → QueryResult p → Ordering
  unfolding validity_recency_cmp
  latest_cmp a b =
      then_cmp (float_cmp p a.node.authority b.node.authority)
        (validity_recency_cmp a.node.validity b.node.validity)

  -- the results that tie with the winner, itself among them
  unfoldable pub tied : QueryResult p → List (QueryResult p) → List (QueryResult p)
  unfolding validity_recency_cmp
  tied w rs =
      filter
        (λ r.
          close p r.node.authority w.node.authority
          && is_eq (validity_recency_cmp r.node.validity w.node.validity))
        rs

  -- `sub_group_by_predicate`
  unfoldable pub sub_group_by_predicate :
      List (QueryResult p)
      → HashMap Text (List (QueryResult p))
      → HashMap Text (List (QueryResult p))
  unfolding canonical_predicate
  sub_group_by_predicate [] m = m
  sub_group_by_predicate (r ∷ rs) m =
      sub_group_by_predicate rs (HashMap.push (canonical_predicate r.node.predicate) r m)

  -- One sub-group under `LatestWins`. A sub-group is never empty.
  unfoldable pub latest : List (QueryResult p) → Answer p
  unfolding tied max_by latest_cmp
  latest [] = some ([], false)
  latest (r ∷ []) = some (r ∷ [], false)
  latest (r ∷ r' ∷ rs) =
      let w = max_by latest_cmp r (r' ∷ rs) in
      some (w ∷ [], not (leb (length (tied w (r ∷ r' ∷ rs))) 1))

  -- `fold(0.0f32, f32::max)` over the authorities
  unfoldable pub max_authority : p.F32 → List (QueryResult p) → p.F32
  max_authority m [] = m
  max_authority m (r ∷ rs) = max_authority (p.max m r.node.authority) rs

  -- `winners[0]`, which panics when there is no winner
  abbrev pub first_winner : List (QueryResult p) → Answer p
  first_winner [] = none
  first_winner (w ∷ ws) = some (w ∷ [], not (eqb (length (w ∷ ws)) 1))

  -- One sub-group under `HighestAuthority`.
  unfoldable pub highest : List (QueryResult p) → Answer p
  unfolding max_authority
  highest [] = none
  highest (r ∷ []) = some (r ∷ [], false)
  highest (r ∷ r' ∷ rs) =
      let m = max_authority (p.float 0 0) (r ∷ r' ∷ rs) in
      first_winner (filter (λ x. close p x.node.authority m) (r ∷ r' ∷ rs))

  abbrev pub combine : Answer p → Answer p → Answer p
  combine none b = none
  combine (some a) none = none
  combine (some (rs, x)) (some (ss, y)) = some (rs ++ ss, if x then true else y)

  -- the loop over the sub-groups
  unfoldable pub each_sub_group :
      (List (QueryResult p) → Answer p) → HashMap Text (List (QueryResult p)) → Answer p
  each_sub_group f [] = some ([], false)
  each_sub_group f ((k, rs) ∷ m) = combine (f rs) (each_sub_group f m)

  -- every predicate is the first one
  unfoldable pub all_same : QueryResult p → List (QueryResult p) → Bool
  unfolding predicate_eq
  all_same r [] = true
  all_same r (x ∷ xs) = predicate_eq x.node.predicate r.node.predicate && all_same r xs

  -- the weight of a result
  unfoldable pub weight : HashMap Text p.F32 → QueryResult p → p.F32
  unfolding principal_str
  weight ws r = elim (HashMap.get (principal_str r.node.provenance) ws) [
    | none ↦ p.float 5 1
    | some w ↦ w
  ]

  -- `entry(sig).and_modify(..).or_insert(..)`
  unfoldable pub add_vote :
      Text
      → p.F32
      → QueryResult p
      → HashMap Text (p.F32 × QueryResult p)
      → HashMap Text (p.F32 × QueryResult p)
  add_vote sig w r m = elim (HashMap.get sig m) [
    | none ↦ HashMap.insert sig (w, r) m
    | some (tw, first) ↦ HashMap.insert sig (p.add tw w, first) m
  ]

  -- the loop over the group: the votes by signature and the total
  unfoldable pub count_votes :
      HashMap Text p.F32
      → List (QueryResult p)
      → HashMap Text (p.F32 × QueryResult p)
      → p.F32
      → HashMap Text (p.F32 × QueryResult p) × p.F32
  unfolding canonical_predicate weight add_vote
  count_votes ws [] m total = (m, total)
  count_votes ws (r ∷ rs) m total =
      count_votes ws rs (add_vote (canonical_predicate r.node.predicate) (weight ws r) r m)
        (p.add total (weight ws r))

  abbrev pub vote_cmp : Text × (p.F32 × QueryResult p) → Text × (p.F32 × QueryResult p) → Ordering
  vote_cmp a b = float_cmp p (a.1).0 (b.1).0

  unfoldable pub elect : HashMap Text (p.F32 × QueryResult p) → p.F32 → Answer p
  unfolding max_by
  elect [] total = some ([], true)
  elect (v ∷ vs) total =
      let best = max_by vote_cmp v vs in
      if f32_lt p (p.mul total (p.float 5 1)) (best.1).0
      then some ((best.1).1 ∷ [], false)
      else some ([], true)

  -- a group of at least two results
  unfoldable pub resolve : ConflictPolicy p → QueryResult p → List (QueryResult p) → Answer p
  unfolding each_sub_group latest highest sub_group_by_predicate all_same count_votes elect
  resolve latest_wins r rs = each_sub_group latest (sub_group_by_predicate (r ∷ rs) [])
  resolve highest_authority r rs = each_sub_group highest (sub_group_by_predicate (r ∷ rs) [])
  resolve unanimous r rs = if all_same r (r ∷ rs) then some (r ∷ [], false) else some ([], true)
  resolve (weighted_vote ws) r rs =
      let (m, total) = count_votes ws (r ∷ rs) [] (p.float 0 0) in elect m total
  resolve custom r rs = some ([], true)

  -- `arbitrate`, with a query pattern
  unfoldable pub arbitrate : List (QueryResult p) → ConflictPolicy p → Answer p
  unfolding resolve
  arbitrate [] policy = some ([], false)
  arbitrate (r ∷ []) policy = some (r ∷ [], false)
  arbitrate (r ∷ r' ∷ rs) policy = resolve policy r (r' ∷ rs)
