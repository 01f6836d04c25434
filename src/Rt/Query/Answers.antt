-- ===== src/Rt/Query/Answers.antt =====
-- What arbitration (crates/factum-rt/src/arbitration.rs) answers.
use Prim.Native.Nat.{Ordering}
use factum.Prelude.{
  Bool, true, ◌≡◌, refl, sym, ap, subst, ◌∙◌, ◌⊎◌, inl, inr, none, some, List, [], ◌∷◌, Text,
  if◌then◌else◌, Bool-cases, Option-cases, Elem, Elem-append, Elem-filter, arith,
}
use factum.HashMap
use factum.HashMap.{HashMap, ◌==◌, text_key}
use factum.HashMap.Laws.{Elem-collect, Elem-collect-push}
use factum.Core.Platform.{Platform, f32_lt}
use factum.Core.Canonical.{canonical_predicate}
use factum.Rt.Query.Arbitration.{
  QueryResult, ConflictPolicy, latest_wins, highest_authority, unanimous, weighted_vote, custom,
  Answer, max_by, is_gt, close, latest, highest, first_winner, combine, each_sub_group,
  sub_group_by_predicate, all_same, count_votes, add_vote, weight, elect, resolve, arbitrate,
  vote_cmp, latest_cmp, max_authority,
}

module _ {A : Type 0} where
  max_by-Elem :
      (cmp : A → A → Ordering) (best : A) (xs : List A) → Elem (max_by cmp best xs) (best ∷ xs)
  unfolding max_by
  max_by-Elem cmp best [] = inl refl
  max_by-Elem cmp best (x ∷ xs) =
      let pick = λ (b : Bool). if b then best else x in
      elim (max_by-Elem cmp (pick (is_gt (cmp best x))) xs) [
        | inl e ↦ elim (Bool-cases (is_gt (cmp best x))) [
          | inl q ↦ inl (e ∙ ap pick q)
          | inr q ↦ inr (inl (e ∙ ap pick q))
        ]
        | inr m ↦ inr (inr m)
      ]

module _ {p : Platform} where
  -- the answer holds elements of the list only
  abbrev Within : List (QueryResult p) → Answer p → Type 0
  Within rs none = Unit
  Within rs (some (out, flag)) = (x : QueryResult p) → Elem x out → Elem x rs

  Within-mono :
      (xs ys : List (QueryResult p)) (a : Answer p)
      → ((x : QueryResult p) → Elem x xs → Elem x ys)
      → Within xs a
      → Within ys a
  Within-mono xs ys none f h = tt
  Within-mono xs ys (some (out, flag)) f h = λ x e. f x (h x e)

  latest-Within : (rs : List (QueryResult p)) → Within rs (latest rs)
  unfolding latest
  latest-Within [] = λ x h. h
  latest-Within (r ∷ []) = λ x h. h
  latest-Within (r ∷ r' ∷ rs) = λ x e. elim e [
    | inl h ↦ subst (λ y. Elem y (r ∷ r' ∷ rs)) (sym h) (max_by-Elem latest_cmp r (r' ∷ rs))
    | inr h ↦ absurd h
  ]

  first_winner-Within :
      (ws rs : List (QueryResult p))
      → ((x : QueryResult p) → Elem x ws → Elem x rs)
      → Within rs (first_winner ws)
  first_winner-Within [] rs f = tt
  first_winner-Within (w ∷ ws) rs f = λ x e. elim e [ inl h ↦ f x (inl h) | inr h ↦ absurd h ]

  highest-Within : (rs : List (QueryResult p)) → Within rs (highest rs)
  unfolding highest
  highest-Within [] = tt
  highest-Within (r ∷ []) = λ x h. h
  highest-Within (r ∷ r' ∷ rs) = first_winner-Within _ (r ∷ r' ∷ rs) (λ x h.
      ((Elem-filter (λ y. close p y.node.authority (max_authority (p.float 0 0) (r ∷ r' ∷ rs))) x
          (r ∷ r' ∷ rs)).0
        h).0)

  -- all values of a map of vectors
  abbrev everything : HashMap Text (List (QueryResult p)) → List (QueryResult p)
  everything m = HashMap.collect (λ k. true) m

  combine-Within :
      (a b : Answer p) (xs ys zs : List (QueryResult p))
      → Within xs a
      → Within ys b
      → ((x : QueryResult p) → Elem x xs ⊎ Elem x ys → Elem x zs)
      → Within zs (combine a b)
  combine-Within none b xs ys zs ha hb f = tt
  combine-Within (some a) none xs ys zs ha hb f = tt
  combine-Within (some (out, u)) (some (more, v)) xs ys zs ha hb f = λ x h.
      elim (Elem-append x out more h) [ inl l ↦ f x (inl (ha x l)) | inr r ↦ f x (inr (hb x r)) ]

  each_sub_group-Within :
      (f : List (QueryResult p) → Answer p)
      → ((rs : List (QueryResult p)) → Within rs (f rs))
      → (m : HashMap Text (List (QueryResult p))) → Within (everything m) (each_sub_group f m)
  unfolding each_sub_group HashMap.collect
  each_sub_group-Within f h [] = λ x e. e
  each_sub_group-Within f h ((k, rs) ∷ m) =
      combine-Within (f rs) (each_sub_group f m) rs (everything m) (everything ((k, rs) ∷ m)) (h rs)
        (each_sub_group-Within f h m)
        (λ x e. elim e [
          | inl l ↦ (Elem-collect (λ j. true) k x rs m).1 (inl (refl, l))
          | inr r ↦ (Elem-collect (λ j. true) k x rs m).1 (inr r)
        ])

  everything-sub_group :
      (rs : List (QueryResult p)) (m : HashMap Text (List (QueryResult p))) (x : QueryResult p)
      → Elem x (everything (sub_group_by_predicate rs m))
      → Elem x rs ⊎ Elem x (everything m)
  unfolding sub_group_by_predicate
  everything-sub_group [] m x h = inr h
  everything-sub_group (r ∷ rs) m x h =
      elim (everything-sub_group rs (HashMap.push (canonical_predicate r.node.predicate) r m) x h) [
        | inl l ↦ inl (inr l)
        | inr e ↦
            elim ((Elem-collect-push (λ j. true) (canonical_predicate r.node.predicate) r x m).0
              e) [ inl old ↦ inr old | inr new ↦ inl (inl new.1) ]
      ]

  sub_groups-Within :
      (f : List (QueryResult p) → Answer p)
      → ((rs : List (QueryResult p)) → Within rs (f rs))
      → (rs : List (QueryResult p)) → Within rs (each_sub_group f (sub_group_by_predicate rs []))
  unfolding HashMap.collect
  sub_groups-Within f h rs =
      Within-mono (everything (sub_group_by_predicate rs [])) rs
        (each_sub_group f (sub_group_by_predicate rs []))
        (λ x e. elim (everything-sub_group rs [] x e) [ inl l ↦ l | inr r ↦ absurd r ])
        (each_sub_group-Within f h (sub_group_by_predicate rs []))

  -- the results that the votes name are elements of the list
  abbrev VotesWithin : List (QueryResult p) → HashMap Text (p.F32 × QueryResult p) → Type 0
  VotesWithin rs m = (v : Text × (p.F32 × QueryResult p)) → Elem v m → Elem (v.1).1 rs

  VotesWithin-insert :
      (rs : List (QueryResult p)) (k : Text) (w : p.F32) (r : QueryResult p)
      (m : HashMap Text (p.F32 × QueryResult p))
      → VotesWithin rs m
      → Elem r rs
      → VotesWithin rs (HashMap.insert k (w, r) m)
  unfolding HashMap.insert
  VotesWithin-insert rs k w r [] h e v (inl q) = rw q e
  VotesWithin-insert rs k w r [] h e v (inr q) = absurd q
  VotesWithin-insert rs k w r ((j, u) ∷ m) h e v n = elim (Bool-cases (j == k)) [
    | inl q ↦
        elim (subst
          (λ (b : Bool). Elem v (if b then (k, (w, r)) ∷ m else (j, u) ∷ HashMap.insert k (w, r) m))
          q n) [ inl new ↦ rw new e | inr old ↦ h v (inr old) ]
    | inr q ↦
        elim (subst
          (λ (b : Bool). Elem v (if b then (k, (w, r)) ∷ m else (j, u) ∷ HashMap.insert k (w, r) m))
          q n) [
            | inl first ↦ h v (inl first)
            | inr later ↦ VotesWithin-insert rs k w r m (λ x y. h x (inr y)) e v later
          ]
  ]

  Elem-get :
      (k : Text) (v : p.F32 × QueryResult p) (m : HashMap Text (p.F32 × QueryResult p))
      → HashMap.get k m ≡ some v
      → (j : Text) × Elem (j, v) m
  unfolding HashMap.get
  Elem-get k v [] e = cc
  Elem-get k v ((j, u) ∷ m) e = elim (Bool-cases (j == k)) [
    | inl q ↦ (let same : u ≡ v = ground (arith, e, q) in (j, inl (ap (λ y. (j, y)) (sym same))))
    | inr q ↦ (let (i, h) = Elem-get k v m (ground (arith, e, q)) in (i, inr h))
  ]

  VotesWithin-add_vote :
      (rs : List (QueryResult p)) (k : Text) (w : p.F32) (r : QueryResult p)
      (m : HashMap Text (p.F32 × QueryResult p))
      → VotesWithin rs m
      → Elem r rs
      → VotesWithin rs (add_vote k w r m)
  unfolding add_vote
  VotesWithin-add_vote rs k w r m h e = elim (Option-cases (HashMap.get k m)) [
    | inl q ↦ rw (q, add_vote) (VotesWithin-insert rs k w r m h e)
    | inr (v, q) ↦
        rw (q, add_vote)
          (let (j, n) = Elem-get k v m q in
            VotesWithin-insert rs k (p.add v.0 w) v.1 m h (h (j, v) n))
  ]

  VotesWithin-count_votes :
      (all : List (QueryResult p)) (ws : HashMap Text p.F32) (rs : List (QueryResult p))
      (m : HashMap Text (p.F32 × QueryResult p)) (total : p.F32)
      → VotesWithin all m
      → ((x : QueryResult p) → Elem x rs → Elem x all)
      → VotesWithin all (count_votes ws rs m total).0
  unfolding count_votes
  VotesWithin-count_votes all ws [] m total h f = h
  VotesWithin-count_votes all ws (r ∷ rs) m total h f =
      VotesWithin-count_votes all ws rs
        (add_vote (canonical_predicate r.node.predicate) (weight ws r) r m)
        (p.add total (weight ws r))
        (VotesWithin-add_vote all (canonical_predicate r.node.predicate) (weight ws r) r m h
          (f r (inl refl)))
        (λ x e. f x (inr e))

  elect-Within :
      (rs : List (QueryResult p)) (m : HashMap Text (p.F32 × QueryResult p)) (total : p.F32)
      → VotesWithin rs m
      → Within rs (elect m total)
  unfolding elect
  elect-Within rs [] total h = λ x e. absurd e
  elect-Within rs (v ∷ vs) total h =
      let best = max_by vote_cmp v vs in
      elim (Bool-cases (f32_lt p (p.mul total (p.float 5 1)) (best.1).0)) [
        | inl q ↦
            rw (q, elect, Within)
              (λ x e. elim e [
                | inl same ↦ rw same (h best (max_by-Elem vote_cmp v vs))
                | inr nowhere ↦ absurd nowhere
              ])
        | inr q ↦ rw (q, elect, Within) (λ x e. absurd e)
      ]

  resolve-Within :
      (policy : ConflictPolicy p) (r : QueryResult p) (rs : List (QueryResult p))
      → Within (r ∷ rs) (resolve policy r rs)
  unfolding resolve
  resolve-Within latest_wins r rs = sub_groups-Within latest latest-Within (r ∷ rs)
  resolve-Within highest_authority r rs = sub_groups-Within highest highest-Within (r ∷ rs)
  resolve-Within unanimous r rs = elim (Bool-cases (all_same r (r ∷ rs))) [
    | inl q ↦
        rw (q, resolve, Within) (λ x e. elim e [ inl h ↦ inl h | inr nowhere ↦ absurd nowhere ])
    | inr q ↦ rw (q, resolve, Within) (λ x e. absurd e)
  ]
  resolve-Within (weighted_vote ws) r rs =
      let votes = count_votes ws (r ∷ rs) [] (p.float 0 0) in
      elect-Within (r ∷ rs) votes.0 votes.1
        (VotesWithin-count_votes (r ∷ rs) ws (r ∷ rs) [] (p.float 0 0) (λ v e. absurd e) (λ x e. e))
  resolve-Within custom r rs = λ x e. absurd e

  arbitrate-Within :
      (rs : List (QueryResult p)) (policy : ConflictPolicy p) → Within rs (arbitrate rs policy)
  unfolding arbitrate
  arbitrate-Within [] policy = λ x e. e
  arbitrate-Within (r ∷ []) policy = λ x e. e
  arbitrate-Within (r ∷ r' ∷ rs) policy = resolve-Within policy r (r' ∷ rs)

  -- Under every policy, arbitration answers with matches only.
  pub arbitrate-Elem :
      (rs : List (QueryResult p)) (policy : ConflictPolicy p) (out : List (QueryResult p))
      (flag : Bool)
      → arbitrate rs policy ≡ some (out, flag)
      → (x : QueryResult p) → Elem x out
      → Elem x rs
  arbitrate-Elem rs policy out flag e x h = (subst (Within rs) e (arbitrate-Within rs policy)) x h
