-- ===== src/Rt/Store/Cascade/Closure.antt =====
-- What a whole cascade of `retract_recursive` (crates/factum-rt/src/store.rs) leaves.
use factum.Prelude.{
  ℕ, zero, suc, ◌+◌, ◌<◌, true, false, ◌≡◌, refl, sym, subst, ◌⊎◌, inl, inr, some, List, [], ◌∷◌,
  ◌++◌, leb, Bool-cases, Option-cases, arith, length, Elem,
}
use factum.HashMap
use factum.HashMap.{HashMap, ◌==◌, text_key}
use factum.Core.Platform.{Platform}
use factum.Core.Types.{NodeId, Node, retracted, is_retracted}
use factum.Rt.Store.Index.{IsKeyed}
use factum.Rt.Store.Insert.{IsKeyed-insert}
use factum.Rt.Store.Cascade.{
  Cascade, Outcome, mark, goes_on, visit, deepen, retract_recursive, open_count,
}
use factum.Rt.Store.Cascade.Effect.{
  contains, contains-append, contains-one, Reaches, next, MayRetract, Extends, Extends-still,
  Extends-mark, Extends-trans, open_count-mark,
}
use factum.Rt.Store.Cascade.Post.{
  is_retracted-is_active, live, live-mark, live-Extends, Holds, Holds-map, Holds-and_then, Post,
  Post-cut, Post-cons, Post-skip,
}

module _ {p : Platform} where
  module _ (deps : HashMap NodeId (List NodeId)) (root : NodeId) (max_nodes : ℕ) where
    -- What the recursive call owes: it deals with a live node that it is given.
    Visits : (NodeId → Cascade p → Outcome p) → ℕ → Type 0
    Visits rec fuel =
        (d : NodeId) (n : Node p) (c : Cascade p)
        → IsKeyed c.node_map
        → HashMap.get d c.node_map ≡ some n
        → goes_on n ≡ true
        → open_count c.node_map < fuel
        → Reaches deps root d
        → Holds (rec d c) (Post deps root max_nodes (d ∷ []) c)

    visit_lem :
        (rec : NodeId → Cascade p → Outcome p) (fuel : ℕ) (ds : List NodeId) (c : Cascade p)
        → Visits rec fuel
        → IsKeyed c.node_map
        → open_count c.node_map < fuel
        → ((j : NodeId) → Elem j ds → Reaches deps root j)
        → Holds (visit rec max_nodes ds c) (Post deps root max_nodes ds c)
    unfolding visit Visits
    visit_lem rec fuel [] c v k f r = record {
      extends = Extends-still deps root max_nodes c c refl refl refl (λ h. h);
      visited = λ h j e. absurd e;
      closed = λ h j e. inl e;
    }
    visit_lem rec fuel (d ∷ ds) c v k f r =
        let skip = λ (e : live (HashMap.get d c.node_map) ≡ false).
          Holds-map (visit rec max_nodes ds c) (Post deps root max_nodes ds c)
            (Post deps root max_nodes (d ∷ ds) c) (λ c'. Post-skip deps root max_nodes d ds c c' e)
            (visit_lem rec fuel ds c v k f (λ j e'. r j (inr e'))) in
        let after = λ (c1 : Cascade p) (a : Post deps root max_nodes (d ∷ []) c c1).
          Holds-map (visit rec max_nodes ds c1) (Post deps root max_nodes ds c1)
            (Post deps root max_nodes (d ∷ ds) c)
            (λ c2. Post-cons deps root max_nodes d ds c c1 c2 a)
            (visit_lem rec fuel ds c1 v (a.extends.keyed k) (omega (arith, a.extends.fewer, f))
              (λ j e'. r j (inr e'))) in
        elim (Option-cases (HashMap.get d c.node_map)) [
          | inl e ↦ rw (e, visit, Holds) (skip (rw e refl))
          | inr (n, e) ↦ elim (Bool-cases (goes_on n)) [
            | inr q ↦ rw (e, q, visit, Holds) (skip (rw (e, q) refl))
            | inl q ↦ elim (Bool-cases (leb max_nodes (length c.all_retracted))) [
              | inl full ↦ rw (e, q, full, visit, Holds) (Post-cut deps root max_nodes (d ∷ ds) c)
              | inr room ↦
                  rw (e, q, room, visit, Holds)
                    (Holds-and_then (rec d c) (visit rec max_nodes ds)
                      (Post deps root max_nodes (d ∷ []) c) (Post deps root max_nodes (d ∷ ds) c)
                      (v d n c k e q f (r d (inl refl))) after)
            ]
          ]
        ]

    -- a node that is retracted already
    Post-retracted :
        (id : NodeId) (n : Node p) (depth : ℕ) (c : Cascade p)
        → HashMap.get id c.node_map ≡ some n
        → is_retracted n.status ≡ true
        → Post deps root max_nodes (id ∷ []) c (deepen depth c)
    Post-retracted id n depth c e old = record {
      extends = Extends-still deps root max_nodes c (deepen depth c) refl refl refl (λ h. h);
      visited = λ h j m. elim m [
        | inl q ↦ rw (q, e) (ground (arith, is_retracted-is_active n.status, old))
        | inr m' ↦ absurd m'
      ];
      closed = λ h k m. inl m;
    }

    IsKeyed-mark :
        (id : NodeId) (n : Node p) (c : Cascade p)
        → IsKeyed c.node_map
        → IsKeyed (mark id n c).node_map
    unfolding mark
    IsKeyed-mark id n c = IsKeyed-insert (record n { status = retracted }) c.node_map

    fuel-mark :
        (id : NodeId) (n : Node p) (depth : ℕ) (c : Cascade p) (fuel : ℕ)
        → n.id ≡ id
        → HashMap.get id c.node_map ≡ some n
        → is_retracted n.status ≡ false
        → open_count c.node_map < suc fuel
        → open_count (mark id n (deepen depth c)).node_map < fuel
    unfolding mark
    fuel-mark id n depth c fuel k e h f = omega (arith, open_count-mark id n c.node_map k e h, f)

    lists_lem :
        (id : NodeId) (n : Node p) (depth : ℕ) (c c' : Cascade p)
        → Extends deps root max_nodes (mark id n (deepen depth c)) c'
        → contains id c'.all_retracted ≡ true
    unfolding mark
    lists_lem id n depth c c' x =
        rw
          (
            x.listed,
            contains-append id (c.all_retracted ++ id ∷ []) x.news,
            contains-append id c.all_retracted (id ∷ []),
            (text_key.beq_iff id id).1 refl,
          )
          (ground arith)

    -- the state behind the mark, when the dependents of the node have been dealt with
    Post-mark :
        (id : NodeId) (n : Node p) (depth : ℕ) (c c' : Cascade p)
        → IsKeyed c.node_map
        → HashMap.get id c.node_map ≡ some n
        → leb max_nodes (length c.all_retracted) ≡ false
        → MayRetract deps root id (some n)
        → Post deps root max_nodes (HashMap.values_at id deps) (mark id n (deepen depth c)) c'
        → Post deps root max_nodes (id ∷ []) c c'
    unfolding mark
    Post-mark id n depth c c' k e room may b =
        let a = Extends-mark deps root max_nodes id n c k e room may depth in
        record {
          extends = Extends-trans deps root max_nodes c (mark id n (deepen depth c)) c' a b.extends;
          visited = λ h j m. elim m [
            | inl q ↦ live-Extends deps root max_nodes (mark id n (deepen depth c)) c' b.extends j (
                subst (λ x. live (HashMap.get x (mark id n (deepen depth c)).node_map) ≡ false)
                  (sym q) (live-mark id n (deepen depth c) (k id n e)))
            | inr m' ↦ absurd m'
          ];
          closed = λ h j m. elim (b.closed h j m) [
            | inl old ↦ elim (Bool-cases (contains j c.all_retracted)) [
              | inl older ↦ inl older
              | inr new ↦ inr (λ i m'. b.visited h i (
                  subst (λ x. Elem i (HashMap.values_at x deps))
                    (contains-one j id
                      (ground (arith, contains-append j c.all_retracted (id ∷ []))))
                    m'))
            ]
            | inr f ↦ inr f
          ];
        }

    -- The recursion deals with the node it is given: it neither fails nor runs out of fuel.
    pub retract_recursive_lem :
        (fuel depth : ℕ) (id : NodeId) (n : Node p) (c : Cascade p)
        → IsKeyed c.node_map
        → HashMap.get id c.node_map ≡ some n
        → open_count c.node_map < fuel
        → (id ≡ root) ⊎ (goes_on n ≡ true)
        → Reaches deps root id
        → Holds
            (retract_recursive deps fuel max_nodes depth id c)
            (Post deps root max_nodes (id ∷ []) c)
    unfolding retract_recursive Visits
    retract_recursive_lem zero depth id n c k e f g r = omega (arith, f)
    retract_recursive_lem (suc fuel) depth id n c k e f g r =
        let rec = retract_recursive deps fuel max_nodes (depth + 1) in
        let marked = mark id n (deepen depth c) in
        let own =
          λ (d : NodeId) (m : Node p) (x : Cascade p) (kx : IsKeyed x.node_map)
              (ex : HashMap.get d x.node_map ≡ some m) (gx : goes_on m ≡ true)
              (fx : open_count x.node_map < fuel) (rx : Reaches deps root d).
            retract_recursive_lem fuel (depth + 1) d m x kx ex fx (inr gx) rx in
        elim (Bool-cases (leb max_nodes (length c.all_retracted))) [
          | inl full ↦
              rw (full, retract_recursive, Holds) (Post-cut deps root max_nodes (id ∷ []) c)
          | inr room ↦ elim (Bool-cases (is_retracted n.status)) [
            | inl old ↦
                rw (room, e, old, retract_recursive, Holds) (Post-retracted id n depth c e old)
            | inr fresh ↦
                rw (room, e, fresh, retract_recursive, Holds)
                  (Holds-map (visit rec max_nodes (HashMap.values_at id deps) marked)
                    (Post deps root max_nodes (HashMap.values_at id deps) marked)
                    (Post deps root max_nodes (id ∷ []) c)
                    (λ c'. Post-mark id n depth c c' k e room (fresh, g, r))
                    (visit_lem rec fuel (HashMap.values_at id deps) marked own
                      (IsKeyed-mark id n (deepen depth c) k)
                      (fuel-mark id n depth c fuel (k id n e) e fresh f) (λ j m. next r m)))
          ]
        ]

    -- A node that is not retracted yet is listed first, when there is room.
    pub retract_recursive_lists :
        (fuel depth : ℕ) (id : NodeId) (n : Node p) (c : Cascade p)
        → IsKeyed c.node_map
        → HashMap.get id c.node_map ≡ some n
        → open_count c.node_map < fuel
        → is_retracted n.status ≡ false
        → leb max_nodes (length c.all_retracted) ≡ false
        → Reaches deps root id
        → Holds
            (retract_recursive deps fuel max_nodes depth id c)
            (λ c'. contains id c'.all_retracted ≡ true)
    unfolding retract_recursive Visits
    retract_recursive_lists zero depth id n c k e f fresh room r = omega (arith, f)
    retract_recursive_lists (suc fuel) depth id n c k e f fresh room r =
        let rec = retract_recursive deps fuel max_nodes (depth + 1) in
        let marked = mark id n (deepen depth c) in
        let own =
          λ (d : NodeId) (m : Node p) (x : Cascade p) (kx : IsKeyed x.node_map)
              (ex : HashMap.get d x.node_map ≡ some m) (gx : goes_on m ≡ true)
              (fx : open_count x.node_map < fuel) (rx : Reaches deps root d).
            retract_recursive_lem fuel (depth + 1) d m x kx ex fx (inr gx) rx in
        rw (room, e, fresh, retract_recursive, Holds)
          (Holds-map (visit rec max_nodes (HashMap.values_at id deps) marked)
            (Post deps root max_nodes (HashMap.values_at id deps) marked)
            (λ c'. contains id c'.all_retracted ≡ true)
            (λ c' b. lists_lem id n depth c c' b.extends)
            (visit_lem rec fuel (HashMap.values_at id deps) marked own
              (IsKeyed-mark id n (deepen depth c) k)
              (fuel-mark id n depth c fuel (k id n e) e fresh f) (λ j m. next r m)))
