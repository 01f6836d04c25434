-- ===== src/Rt/Store/Retract.antt =====
-- `retract` and `retract_with_limit` of crates/factum-rt/src/store.rs as the clients see them.
pub mod Chosen
use factum.Prelude.{
  ℕ, suc, ◌≤◌, ◌<◌, true, false, ◌≡◌, refl, sym, ap, subst, ◌∙◌, ◌↔◌, ◌⊎◌, inl, inr, Option, none,
  some, List, [], ◌∷◌, ◌++◌, map, leb, if◌then◌else◌, Bool-cases, Option-cases, arith, length, Elem,
  Result, ok, err,
}
use factum.HashMap
use factum.HashMap.{HashMap, ◌==◌, text_key}
use factum.Core.Platform.{Platform}
use factum.Core.Types.{NodeId, Node, retracted, is_retracted}
use factum.Rt.Storage.{get_node, scan}
use factum.Rt.Subscription.{notify_retract}
use factum.Rt.Store.{FactumStore, retract as retract_entry, StoreError, not_found}
use factum.Rt.Store.Read.{get}
use factum.Rt.Store.Index.{IsKeyed, IsExact, IsValid, At}
use factum.Rt.Store.Cascade.{
  Cascade, Outcome, done, failed, out_of_fuel, goes_on, deepen, retract_recursive, open_count,
  start, with_cascade, finish, RetractResult, retract_with_limit, default_max_cascade_nodes,
}
use factum.Rt.Store.Cascade.Effect.{contains, Reaches, here, next, retire, MayRetract, Extends}
use factum.Rt.Store.Cascade.Post.{Holds, Post, Post-cut, live}
use factum.Rt.Store.Cascade.Closure.{retract_recursive_lem, retract_recursive_lists}

module _ {p : Platform} where
  -- `FactumStore::retract`
  unfoldable pub retract :
      FactumStore p → NodeId → Option (Result StoreError RetractResult × FactumStore p)
  unfolding retract_with_limit
  retract s id = retract_with_limit s id default_max_cascade_nodes

  -- the recursion as `retract_with_limit` starts it
  abbrev run : FactumStore p → NodeId → ℕ → Outcome p
  unfolding retract_recursive open_count
  run s id max_nodes =
      retract_recursive s.deps_rev (suc (open_count s.backend.node_map)) max_nodes 0 id (start s)

  result : Cascade p → RetractResult
  result c = record {
    retracted = c.all_retracted;
    truncated = c.truncated;
    depth_reached = c.depth_reached;
  }

  Holds-done :
      (o : Outcome p) (P : Cascade p → Type 0) → Holds o P → (c : Cascade p) × (o ≡ done c) × P c
  Holds-done (done c) P h = (c, refl, h)
  Holds-done (failed e c) P h = absurd h
  Holds-done out_of_fuel P h = absurd h

  retract_outcomes :
      (s : FactumStore p) (id : NodeId) (max_nodes : ℕ)
      → IsKeyed s.backend.node_map
      → ((c : Cascade p) × (run s id max_nodes ≡ done c)
          × Post s.deps_rev id max_nodes (id ∷ []) (start s) c)
        ⊎ ((run s id max_nodes ≡ failed (not_found id) (deepen 0 (start s)))
            × (HashMap.get id s.backend.node_map ≡ none))
  unfolding run
  retract_outcomes s id max_nodes k = elim (Option-cases (HashMap.get id s.backend.node_map)) [
    | inr (n, e) ↦ inl (
        Holds-done (run s id max_nodes) (Post s.deps_rev id max_nodes (id ∷ []) (start s)) (
          retract_recursive_lem s.deps_rev id max_nodes (suc (open_count s.backend.node_map)) 0 id n
            (start s) k e (omega arith) (inl refl) here))
    | inl e ↦ elim (Bool-cases (leb max_nodes 0)) [
      | inl full ↦ inl (
        record (start s) { truncated = true },
        rw (full, retract_recursive) refl,
        Post-cut s.deps_rev id max_nodes (id ∷ []) (start s),
      )
      | inr room ↦ inr (rw (room, e, retract_recursive) refl, e)
    ]
  ]

  -- what a result says of the cascade behind it
  retract_ok :
      (s : FactumStore p) (id : NodeId) (max_nodes : ℕ) (r : RetractResult) (s' : FactumStore p)
      → IsKeyed s.backend.node_map
      → retract_with_limit s id max_nodes ≡ some (ok r, s')
      → (c : Cascade p) × (run s id max_nodes ≡ done c)
        × Post s.deps_rev id max_nodes (id ∷ []) (start s) c
        × (result c ≡ r)
        × (record (with_cascade s c) {
          subscriptions = notify_retract s.subscriptions id c.all_retracted;
        }
            ≡ s')
  unfolding retract_with_limit finish result
  retract_ok s id max_nodes r s' k e = elim (retract_outcomes s id max_nodes k) [
    | inl (c, ran, post) ↦ (let same = sym (ap (finish s id) ran) ∙ e in (c, ran, post, cc, cc))
    | inr (ran, absent) ↦ (let same = sym (ap (finish s id) ran) ∙ e in absurd (cc same))
  ]

  -- In a store whose nodes are stored under their identifiers, `retract_with_limit` always comes to
  -- an end. It returns a list of at most `max_nodes` identifiers, with one log entry for each of
  -- them in the same order; or it fails because the identifier has no node, and the store is what
  -- it was.
  pub retract_with_limit_total :
      (s : FactumStore p) (id : NodeId) (max_nodes : ℕ)
      → IsKeyed s.backend.node_map
      → ((r : RetractResult) × (s' : FactumStore p) × (retract_with_limit s id max_nodes
            ≡ some (ok r, s'))
          × (length r.retracted ≤ max_nodes)
          × (s'.wal ≡ s.wal ++ map retract_entry r.retracted))
        ⊎ ((retract_with_limit s id max_nodes ≡ some (err (not_found id), s)) × (get s id ≡ none))
  unfolding retract_with_limit finish result get get_node
  retract_with_limit_total s id max_nodes k = elim (retract_outcomes s id max_nodes k) [
    | inl (c, ran, post) ↦ inl (
      result c,
      record (with_cascade s c) {
        subscriptions = notify_retract s.subscriptions id c.all_retracted;
      },
      ap (finish s id) ran,
      post.extends.bounded (omega arith),
      rw post.extends.listed post.extends.logged,
    )
    | inr (ran, absent) ↦ inr (ap (finish s id) ran, absent)
  ]

  -- In a store whose nodes are stored under their identifiers, retraction is soft: after it, the
  -- nodes it lists are read as retracted and otherwise unchanged, and every other read is what it
  -- was.
  pub retract_with_limit_reads :
      (s : FactumStore p) (id : NodeId) (max_nodes : ℕ) (r : RetractResult) (s' : FactumStore p)
      → IsKeyed s.backend.node_map
      → retract_with_limit s id max_nodes ≡ some (ok r, s')
      → (j : NodeId) → get s' j ≡ (if contains j r.retracted then retire (get s j) else get s j)
  unfolding get get_node result
  retract_with_limit_reads s id max_nodes r s' k e j =
      let (c, ran, post, er, es) = retract_ok s id max_nodes r s' k e in
      rw (sym es)
        (rw (sym (ap (λ q. contains j q.retracted) er), post.extends.listed) (post.extends.reads j))

  -- In a store whose nodes are stored under their identifiers, when there is room for one node and
  -- the root is stored and not retracted yet, the root is among the nodes that retraction lists.
  pub retract_with_limit_root :
      (s : FactumStore p) (id : NodeId) (max_nodes : ℕ) (n : Node p) (r : RetractResult)
      (s' : FactumStore p)
      → IsKeyed s.backend.node_map
      → get s id ≡ some n
      → is_retracted n.status ≡ false
      → 0 < max_nodes
      → retract_with_limit s id max_nodes ≡ some (ok r, s')
      → contains id r.retracted ≡ true
  unfolding get get_node result run retract_recursive
  retract_with_limit_root s id max_nodes n r s' k found fresh room e =
      let (c, ran, post, er, es) = retract_ok s id max_nodes r s' k e in
      rw (sym er) (
        subst (λ o. Holds o (λ c'. contains id c'.all_retracted ≡ true)) ran
          (retract_recursive_lists s.deps_rev id max_nodes (suc (open_count s.backend.node_map)) 0
            id n (start s) k found (omega arith) fresh (ground (arith, room)) here))

  -- An index stays exact when nodes change their status only.
  IsExact-retire :
      (P : Node p → Type 0) (m m' : HashMap NodeId (Node p)) (ids news : List NodeId)
      → ((n : Node p) → P n ↔ P (record n { status = retracted }))
      → ((j : NodeId)
          → HashMap.get j m'
            ≡ (if contains j news then retire (HashMap.get j m) else HashMap.get j m))
      → IsExact ids P m
      → IsExact ids P m'
  IsExact-retire P m m' ids news same reads h x =
      subst (λ o. Elem x ids ↔ At P o) (sym (reads x))
        (elim (Bool-cases (contains x news)) [
          | inr q ↦ rw q (h x)
          | inl q ↦ rw q (elim (Option-cases (HashMap.get x m)) [
            | inl e ↦ rw e (subst (λ o. Elem x ids ↔ At P o) e (h x))
            | inr (n, e) ↦ rw e (
                let f = subst (λ o. Elem x ids ↔ At P o) e (h x) in
                (λ a. (same n).0 (f.0 a), λ b. f.1 ((same n).1 b)))
          ])
        ])

  with_cascade-IsValid :
      (s : FactumStore p) (c : Cascade p) (root : NodeId) (max_nodes : ℕ)
      → Extends s.deps_rev root max_nodes (start s) c
      → IsValid s
      → IsValid (with_cascade s c)
  unfolding scan
  with_cascade-IsValid s c root max_nodes x h =
      let exact =
        λ (P : Node p → Type 0) (ids : List NodeId)
            (same : (n : Node p) → P n ↔ P (record n { status = retracted }))
            (e : IsExact ids P s.backend.node_map).
          IsExact-retire P s.backend.node_map c.node_map ids x.news same x.reads e in
      record {
        keyed = x.keyed h.keyed;
        entities = λ key. exact _ _ (λ n. (λ a. a, λ a. a)) (h.entities key);
        preds = λ key. exact _ _ (λ n. (λ a. a, λ a. a)) (h.preds key);
        sources = λ key. exact _ _ (λ n. (λ a. a, λ a. a)) (h.sources key);
        perms = λ key. exact _ _ (λ n. (λ a. a, λ a. a)) (h.perms key);
        dependents = λ d. exact _ _ (λ n. (λ a. a, λ a. a)) (h.dependents d);
        validities = λ q. exact _ _ (λ n. (λ a. a, λ a. a)) (h.validities q);
      }

  -- `retract_with_limit` keeps the store well formed, whatever it returns.
  pub retract_with_limit-IsValid :
      (s : FactumStore p) (id : NodeId) (max_nodes : ℕ) (r : Result StoreError RetractResult)
      (s' : FactumStore p)
      → IsValid s
      → retract_with_limit s id max_nodes ≡ some (r, s')
      → IsValid s'
  unfolding retract_with_limit finish
  retract_with_limit-IsValid s id max_nodes r s' h e =
      elim (retract_outcomes s id max_nodes h.keyed) [
        | inl (c, ran, post) ↦
            (let same = sym (ap (finish s id) ran) ∙ e in
              let v = with_cascade-IsValid s c id max_nodes post.extends h in
              let same_store : record (with_cascade s c) {
                subscriptions = notify_retract s.subscriptions id c.all_retracted;
              }
                  ≡ s' =
                cc in
              subst IsValid same_store (record {
                keyed = v.keyed;
                entities = v.entities;
                preds = v.preds;
                sources = v.sources;
                perms = v.perms;
                dependents = v.dependents;
                validities = v.validities;
              }))
        | inr (ran, absent) ↦
            (let same = sym (ap (finish s id) ran) ∙ e in
              let same_store : s ≡ s' = cc in subst IsValid same_store h)
      ]

  -- After a retraction that was not cut short, in a well-formed store, no derived and active node
  -- depends on a node that was retracted.
  pub retract_with_limit_closed :
      (s : FactumStore p) (id : NodeId) (max_nodes : ℕ) (r : RetractResult) (s' : FactumStore p)
      → IsValid s
      → retract_with_limit s id max_nodes ≡ some (ok r, s')
      → r.truncated ≡ false
      → (k : NodeId) → contains k r.retracted ≡ true
      → (j : NodeId) (n : Node p) → get s' j ≡ some n
      → Elem k n.deps
      → goes_on n ≡ false
  unfolding get get_node result
  retract_with_limit_closed s id max_nodes r s' h e whole k listed j n found dep =
      let (c, ran, post, er, es) = retract_ok s id max_nodes r s' h.keyed e in
      let v = with_cascade-IsValid s c id max_nodes post.extends h in
      let found' : HashMap.get j c.node_map ≡ some n =
        ap (λ t. HashMap.get j t.backend.node_map) es ∙ found in
      let dep' : Elem j (HashMap.values_at k s.deps_rev) =
        (v.dependents k j).1 (subst (At (λ m. Elem k m.deps)) (sym found') dep) in
      elim (post.closed (ap (λ q. q.truncated) er ∙ whole) k
        (ap (λ q. contains k q.retracted) er ∙ listed)) [
          | inl old ↦ absurd (cc old)
          | inr f ↦ subst (λ o. live o ≡ false) found' (f j dep')
        ]
