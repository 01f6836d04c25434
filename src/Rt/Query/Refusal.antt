-- ===== src/Rt/Query/Refusal.antt =====
-- When arbitration (crates/factum-rt/src/arbitration.rs) refuses to answer.
use factum.Prelude.{
  Bool, true, false, ◌≡◌, refl, sym, ap, subst, ◌∙◌, inl, inr, none, some, List, [], ◌∷◌, ◌++◌,
  Text, if◌then◌else◌, Bool-cases, Elem, arith,
}
use factum.HashMap.{HashMap, text_key}
use factum.Core.Platform.{Platform, f32_lt}
use factum.Core.Types.Equality.{predicate_eq_iff}
use factum.Rt.Query.Arbitration.{
  QueryResult, ConflictPolicy, latest_wins, highest_authority, unanimous, weighted_vote, custom,
  Answer, latest, combine, each_sub_group, sub_group_by_predicate, all_same, count_votes, elect,
  resolve, arbitrate, max_by, vote_cmp,
}

module _ {p : Platform} where
  -- The policy asks for agreement.
  abbrev pub needs_agreement : ConflictPolicy p → Bool
  needs_agreement latest_wins = false
  needs_agreement highest_authority = false
  needs_agreement unanimous = true
  needs_agreement (weighted_vote ws) = true
  needs_agreement custom = true

  abbrev pub is_highest_authority : ConflictPolicy p → Bool
  is_highest_authority highest_authority = true
  is_highest_authority _ = false

  -- an ambiguous answer is empty
  abbrev Refuses : Answer p → Type 0
  Refuses none = Unit
  Refuses (some (out, true)) = out ≡ []
  Refuses (some (out, false)) = Unit

  elect-Refuses :
      (m : HashMap Text (p.F32 × QueryResult p)) (total : p.F32) → Refuses (elect m total)
  unfolding elect
  elect-Refuses [] total = refl
  elect-Refuses (v ∷ vs) total =
      elim (Bool-cases (f32_lt p (p.mul total (p.float 5 1)) ((max_by vote_cmp v vs).1).0)) [
        | inl q ↦ rw (q, elect, Refuses) tt
        | inr q ↦ rw (q, elect, Refuses) refl
      ]

  resolve-Refuses :
      (policy : ConflictPolicy p) (r : QueryResult p) (rs : List (QueryResult p))
      → needs_agreement policy ≡ true
      → Refuses (resolve policy r rs)
  unfolding resolve
  resolve-Refuses latest_wins r rs h = cc
  resolve-Refuses highest_authority r rs h = cc
  resolve-Refuses unanimous r rs h = elim (Bool-cases (all_same r (r ∷ rs))) [
    | inl q ↦ rw (q, resolve, Refuses) tt
    | inr q ↦ rw (q, resolve, Refuses) refl
  ]
  resolve-Refuses (weighted_vote ws) r rs h =
      let votes = count_votes ws (r ∷ rs) [] (p.float 0 0) in elect-Refuses votes.0 votes.1
  resolve-Refuses custom r rs h = refl

  arbitrate-Refuses :
      (rs : List (QueryResult p)) (policy : ConflictPolicy p)
      → needs_agreement policy ≡ true
      → Refuses (arbitrate rs policy)
  unfolding arbitrate
  arbitrate-Refuses [] policy h = tt
  arbitrate-Refuses (r ∷ []) policy h = tt
  arbitrate-Refuses (r ∷ r' ∷ rs) policy h = resolve-Refuses policy r (r' ∷ rs) h

  -- Under a policy that asks for agreement (unanimity, the weighted vote, a custom function), an
  -- ambiguous arbitration gives no result at all.
  pub arbitrate_refuses :
      (rs : List (QueryResult p)) (policy : ConflictPolicy p) (out : List (QueryResult p))
      → needs_agreement policy ≡ true
      → arbitrate rs policy ≡ some (out, true)
      → out ≡ []
  arbitrate_refuses rs policy out h e = subst Refuses e (arbitrate-Refuses rs policy h)

  -- the answer is no panic
  abbrev Answers : Answer p → Type 0
  Answers a = (out : List (QueryResult p)) × (flag : Bool) × (a ≡ some (out, flag))

  combine-Answers : (a b : Answer p) → Answers a → Answers b → Answers (combine a b)
  combine-Answers none b (x, f, e) hb = cc
  combine-Answers (some a) none ha (y, g, e) = cc
  combine-Answers (some (a, u)) (some (b, v)) ha hb = (a ++ b, if u then true else v, refl)

  latest-Answers : (rs : List (QueryResult p)) → Answers (latest rs)
  unfolding latest
  latest-Answers [] = ([], false, refl)
  latest-Answers (r ∷ []) = (r ∷ [], false, refl)
  latest-Answers (r ∷ r' ∷ rs) = (_, _, refl)

  each_sub_group-Answers :
      (m : HashMap Text (List (QueryResult p))) → Answers (each_sub_group latest m)
  unfolding each_sub_group
  each_sub_group-Answers [] = ([], false, refl)
  each_sub_group-Answers ((k, rs) ∷ m) =
      combine-Answers (latest rs) (each_sub_group latest m) (latest-Answers rs)
        (each_sub_group-Answers m)

  elect-Answers :
      (m : HashMap Text (p.F32 × QueryResult p)) (total : p.F32) → Answers (elect m total)
  unfolding elect
  elect-Answers [] total = ([], true, refl)
  elect-Answers (v ∷ vs) total =
      elim (Bool-cases (f32_lt p (p.mul total (p.float 5 1)) ((max_by vote_cmp v vs).1).0)) [
        | inl q ↦ ((((max_by vote_cmp v vs).1).1) ∷ [], false, rw (q, elect) refl)
        | inr q ↦ ([], true, rw (q, elect) refl)
      ]

  resolve-Answers :
      (policy : ConflictPolicy p) (r : QueryResult p) (rs : List (QueryResult p))
      → is_highest_authority policy ≡ false
      → Answers (resolve policy r rs)
  unfolding resolve
  resolve-Answers latest_wins r rs h = each_sub_group-Answers (sub_group_by_predicate (r ∷ rs) [])
  resolve-Answers highest_authority r rs h = cc
  resolve-Answers unanimous r rs h = elim (Bool-cases (all_same r (r ∷ rs))) [
    | inl q ↦ (r ∷ [], false, rw (q, resolve) refl)
    | inr q ↦ ([], true, rw (q, resolve) refl)
  ]
  resolve-Answers (weighted_vote ws) r rs h =
      let votes = count_votes ws (r ∷ rs) [] (p.float 0 0) in elect-Answers votes.0 votes.1
  resolve-Answers custom r rs h = ([], true, refl)

  -- Under every policy but `HighestAuthority`, arbitration returns an answer for every list of
  -- matches.
  pub arbitrate_total :
      (rs : List (QueryResult p)) (policy : ConflictPolicy p)
      → is_highest_authority policy ≡ false
      → (out : List (QueryResult p)) × (flag : Bool) × (arbitrate rs policy ≡ some (out, flag))
  unfolding arbitrate
  arbitrate_total [] policy h = ([], false, refl)
  arbitrate_total (r ∷ []) policy h = (r ∷ [], false, refl)
  arbitrate_total (r ∷ r' ∷ rs) policy h = resolve-Answers policy r (r' ∷ rs) h

  all_same-Elem :
      (r : QueryResult p) (rs : List (QueryResult p)) (x : QueryResult p)
      → all_same r rs ≡ true
      → Elem x rs
      → x.node.predicate ≡ r.node.predicate
  unfolding all_same
  all_same-Elem r [] x h e = absurd e
  all_same-Elem r (y ∷ ys) x h (inl e) =
      ap (λ z. z.node.predicate) e
      ∙ (predicate_eq_iff y.node.predicate r.node.predicate).0 (ground arith)
  all_same-Elem r (y ∷ ys) x h (inr e) = all_same-Elem r ys x (ground arith) e

  -- the answer holds predicates that every match has
  abbrev Agrees : List (QueryResult p) → Answer p → Type 0
  Agrees rs none = Unit
  Agrees rs (some (out, flag)) =
      (x y : QueryResult p) → Elem x rs → Elem y out → x.node.predicate ≡ y.node.predicate

  arbitrate-Agrees : (rs : List (QueryResult p)) → Agrees rs (arbitrate rs unanimous)
  unfolding arbitrate resolve
  arbitrate-Agrees [] = λ x y hx hy. absurd hx
  arbitrate-Agrees (r ∷ []) = λ x y hx hy. elim hx [
    | inl e ↦ elim hy [
      | inl e' ↦ ap (λ z. z.node.predicate) (e ∙ sym e')
      | inr nowhere ↦ absurd nowhere
    ]
    | inr nowhere ↦ absurd nowhere
  ]
  arbitrate-Agrees (r ∷ r' ∷ rs) = elim (Bool-cases (all_same r (r ∷ r' ∷ rs))) [
    | inl q ↦
        rw (q, arbitrate, resolve, Agrees)
          (λ x y hx hy. elim hy [
            | inl e ↦ all_same-Elem r (r ∷ r' ∷ rs) x q hx ∙ ap (λ z. z.node.predicate) (sym e)
            | inr nowhere ↦ absurd nowhere
          ])
    | inr q ↦ rw (q, arbitrate, resolve, Agrees) (λ x y hx hy. absurd hy)
  ]

  -- Unanimity answers only with predicates that every match has.
  pub arbitrate_unanimous :
      (rs : List (QueryResult p)) (out : List (QueryResult p)) (flag : Bool)
      → arbitrate rs unanimous ≡ some (out, flag)
      → (x y : QueryResult p) → Elem x rs
      → Elem y out
      → x.node.predicate ≡ y.node.predicate
  arbitrate_unanimous rs out flag e = subst (Agrees rs) e (arbitrate-Agrees rs)
