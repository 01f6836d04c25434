-- ===== src/Rt/Store/Cascade/Post.antt =====
-- The state behind a step of a cascade (crates/factum-rt/src/store.rs): what has been dealt with.
use factum.Prelude.{
  ℕ, Bool, true, false, ◌≡◌, refl, sym, subst, ◌⊎◌, inl, inr, Option, none, some, List, [], ◌∷◌,
  Bool-cases, arith, Elem,
}
use factum.HashMap
use factum.HashMap.{HashMap, ◌==◌, text_key}
use factum.HashMap.Laws.{get-insert}
use factum.Core.Platform.{Platform}
use factum.Core.Types.{
  NodeId, Node, NodeStatus, active, retracted, pending, is_active, is_retracted,
}
use factum.Rt.Store.Cascade.{Cascade, Outcome, done, failed, out_of_fuel, and_then, mark, goes_on}
use factum.Rt.Store.Cascade.Effect.{contains, retire, Extends, Extends-still, Extends-trans}

pub is_retracted-is_active : (s : NodeStatus) → is_retracted s ≡ true → is_active s ≡ false
is_retracted-is_active active h = cc
is_retracted-is_active retracted h = refl
is_retracted-is_active pending h = cc

module _ {p : Platform} where
  -- There is a node, and a cascade that meets it goes on to it.
  abbrev pub live : Option (Node p) → Bool
  live none = false
  live (some n) = goes_on n

  -- The outcome is a state with `P`.
  abbrev pub Holds : Outcome p → (Cascade p → Type 0) → Type 0
  Holds (done c) P = P c
  Holds (failed e c) P = ⊥
  Holds out_of_fuel P = ⊥

  pub Holds-map :
      (o : Outcome p) (P Q : Cascade p → Type 0)
      → ((c : Cascade p) → P c → Q c)
      → Holds o P
      → Holds o Q
  Holds-map (done c) P Q f h = f c h
  Holds-map (failed e c) P Q f h = h
  Holds-map out_of_fuel P Q f h = h

  pub Holds-and_then :
      (o : Outcome p) (k : Cascade p → Outcome p) (P Q : Cascade p → Type 0)
      → Holds o P
      → ((c : Cascade p) → P c → Holds (k c) Q)
      → Holds (and_then o k) Q
  Holds-and_then (done c) k P Q h f = f c h
  Holds-and_then (failed e c) k P Q h f = absurd h
  Holds-and_then out_of_fuel k P Q h f = absurd h

  live-retire : (o : Option (Node p)) → live (retire o) ≡ false
  live-retire none = refl
  live-retire (some n) = ground arith

  pub live-mark :
      (id : NodeId) (n : Node p) (c : Cascade p)
      → n.id ≡ id
      → live (HashMap.get id (mark id n c).node_map) ≡ false
  unfolding mark
  live-mark id n c e =
      rw
        (
          get-insert n.id id (record n { status = retracted }) c.node_map,
          (text_key.beq_iff n.id id).1 e,
        )
        (ground arith)

  module _ (deps : HashMap NodeId (List NodeId)) (root : NodeId) (max_nodes : ℕ) where
    pub live-Extends :
        (c c' : Cascade p)
        → Extends deps root max_nodes c c'
        → (j : NodeId) → live (HashMap.get j c.node_map) ≡ false
        → live (HashMap.get j c'.node_map) ≡ false
    live-Extends c c' x j h = elim (Bool-cases (contains j x.news)) [
      | inl q ↦
          subst (λ o. live o ≡ false) (sym (ground (arith, x.reads j, q)))
            (live-retire (HashMap.get j c.node_map))
      | inr q ↦ subst (λ o. live o ≡ false) (sym (ground (arith, x.reads j, q))) h
    ]

    -- From `c` to `c'` the cascade has dealt with the nodes of `ds`, unless it was cut short.
    pub record Post (ds : List NodeId) (c c' : Cascade p) : Type 0 where
      pub extends : Extends deps root max_nodes c c'
      pub visited :
          c'.truncated ≡ false → (j : NodeId) → Elem j ds → live (HashMap.get j c'.node_map) ≡ false
      pub closed :
          c'.truncated ≡ false
          → (k : NodeId) → contains k c'.all_retracted ≡ true
          → (contains k c.all_retracted ≡ true)
            ⊎ ((j : NodeId)
                → Elem j (HashMap.values_at k deps)
                → live (HashMap.get j c'.node_map) ≡ false)

    -- a step that only sets `truncated`
    pub Post-cut : (ds : List NodeId) (c : Cascade p) → Post ds c (record c { truncated = true })
    Post-cut ds c = record {
      extends =
          Extends-still deps root max_nodes c (record c { truncated = true }) refl refl refl
            (λ h. cc h);
      visited = λ h j e. cc h;
      closed = λ h k e. cc h;
    }

    pub Post-cons :
        (d : NodeId) (ds : List NodeId) (c c1 c2 : Cascade p)
        → Post (d ∷ []) c c1
        → Post ds c1 c2
        → Post (d ∷ ds) c c2
    Post-cons d ds c c1 c2 a b = record {
      extends = Extends-trans deps root max_nodes c c1 c2 a.extends b.extends;
      visited = λ h j e. elim e [
        | inl q ↦ live-Extends c1 c2 b.extends j (a.visited (b.extends.truncates h) j (inl q))
        | inr m ↦ b.visited h j m
      ];
      closed = λ h k e. elim (b.closed h k e) [
        | inl old ↦ elim (a.closed (b.extends.truncates h) k old) [
          | inl older ↦ inl older
          | inr f ↦ inr (λ j m. live-Extends c1 c2 b.extends j (f j m))
        ]
        | inr f ↦ inr f
      ];
    }

    -- the head of the list needs no visit
    pub Post-skip :
        (d : NodeId) (ds : List NodeId) (c c' : Cascade p)
        → live (HashMap.get d c.node_map) ≡ false
        → Post ds c c'
        → Post (d ∷ ds) c c'
    Post-skip d ds c c' e b = record {
      extends = b.extends;
      visited = λ h j m. elim m [
        | inl q ↦
            live-Extends c c' b.extends j
              (subst (λ x. live (HashMap.get x c.node_map) ≡ false) (sym q) e)
        | inr m' ↦ b.visited h j m'
      ];
      closed = b.closed;
    }
