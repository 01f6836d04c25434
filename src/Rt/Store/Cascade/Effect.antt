-- ===== src/Rt/Store/Cascade/Effect.antt =====
-- What a step of a cascade does to its state: the identifiers that it adds to the list of retracted
-- nodes, the marks on exactly those, and the log.
use mathlib.Core.List.{append-nil, append_assoc, map-append}
use factum.Prelude.{
  ℕ, suc, ◌≤◌, Bool, true, false, ◌||◌, ◌≡◌, refl, sym, ap, subst, ◌∙◌, ◌⊎◌, inl, inr, Option, none,
  some, List, [], ◌∷◌, ◌++◌, map, leb, if◌then◌else◌, Bool-cases, arith, length, length-append,
  Elem, text_eq_iff,
}
use factum.HashMap
use factum.HashMap.{HashMap, ◌==◌, text_key}
use factum.HashMap.Laws.{get-insert}
use factum.Core.Platform.{Platform}
use factum.Core.Types.{NodeId, Node, retracted, is_retracted}
use factum.Rt.Store.{retract}
use factum.Rt.Store.Index.{IsKeyed}
use factum.Rt.Store.Insert.{IsKeyed-insert}
use factum.Rt.Store.Cascade.{Cascade, mark, goes_on, deepen, open_count}

-- `id` stands in the list.
abbrev pub contains : NodeId → List NodeId → Bool
contains id [] = false
contains id (j ∷ js) = (id == j) || contains id js

pub contains-append :
    (id : NodeId) (xs ys : List NodeId)
    → contains id (xs ++ ys) ≡ (contains id xs || contains id ys)
contains-append id [] ys = refl
contains-append id (x ∷ xs) ys = ground (arith, contains-append id xs ys)

pub contains-one : (j id : NodeId) → contains j (id ∷ []) ≡ true → j ≡ id
contains-one j id h = ground (arith, text_eq_iff j id)

-- A node that the relation of dependence leads to from the root.
pub data Reaches (deps : HashMap NodeId (List NodeId)) (root : NodeId) : NodeId → Type 0 where
  here : Reaches deps root root
  next :
      {k j : NodeId} → Reaches deps root k → Elem j (HashMap.values_at k deps) → Reaches deps root j

module _ {p : Platform} where
  -- the node, if there is one, with the status that retraction writes
  abbrev pub retire : Option (Node p) → Option (Node p)
  retire none = none
  retire (some n) = some (record n { status = retracted })

  -- Why the cascade from `root` may retract `j`: it is not retracted yet, it is the root or derived
  -- and active, and the root is among what it depends on.
  abbrev pub MayRetract : HashMap NodeId (List NodeId) → NodeId → NodeId → Option (Node p) → Type 0
  MayRetract deps root j none = ⊥
  MayRetract deps root j (some n) =
      (is_retracted n.status ≡ false) × ((j ≡ root) ⊎ (goes_on n ≡ true)) × Reaches deps root j

  -- From `c` to `c'` the cascade has retracted the nodes of `news`, and done nothing else.
  pub record Extends (deps : HashMap NodeId (List NodeId)) (root : NodeId) (max_nodes : ℕ)
      (c c' : Cascade p) : Type 0 where
    pub news : List NodeId
    pub listed : c'.all_retracted ≡ c.all_retracted ++ news
    pub logged : c'.wal ≡ c.wal ++ map retract news
    pub reads :
        (j : NodeId)
        → HashMap.get j c'.node_map ≡ (
            if contains j news then retire (HashMap.get j c.node_map) else HashMap.get j c.node_map)
    pub chosen :
        (j : NodeId) → contains j news ≡ true → MayRetract deps root j (HashMap.get j c.node_map)
    pub keyed : IsKeyed c.node_map → IsKeyed c'.node_map
    pub fewer : open_count c'.node_map ≤ open_count c.node_map
    pub bounded : length c.all_retracted ≤ max_nodes → length c'.all_retracted ≤ max_nodes
    pub truncates : c'.truncated ≡ false → c.truncated ≡ false

  retire-retire : (o : Option (Node p)) → retire (retire o) ≡ retire o
  retire-retire none = refl
  retire-retire (some n) = refl

  open_count-insert :
      (id : NodeId) (n : Node p) (m : HashMap NodeId (Node p))
      → HashMap.get id m ≡ some n
      → is_retracted n.status ≡ false
      → suc (open_count (HashMap.insert id (record n { status = retracted }) m)) ≡ open_count m
  unfolding open_count HashMap.get HashMap.insert
  open_count-insert id n [] e h = cc
  open_count-insert id n ((j, k) ∷ m) e h = ground (arith, open_count-insert id n m)

  -- a mark leaves one node less to retract
  pub open_count-mark :
      (id : NodeId) (n : Node p) (m : HashMap NodeId (Node p))
      → n.id ≡ id
      → HashMap.get id m ≡ some n
      → is_retracted n.status ≡ false
      → suc (open_count (HashMap.insert n.id (record n { status = retracted }) m)) ≡ open_count m
  open_count-mark id n m k e h =
      subst
        (λ (x : NodeId).
          suc (open_count (HashMap.insert x (record n { status = retracted }) m)) ≡ open_count m)
        (sym k) (open_count-insert id n m e h)

  mark_reads :
      (id : NodeId) (n : Node p) (m : HashMap NodeId (Node p))
      → n.id ≡ id
      → HashMap.get id m ≡ some n
      → (j : NodeId)
      → HashMap.get j (HashMap.insert n.id (record n { status = retracted }) m)
        ≡ (if contains j (id ∷ []) then retire (HashMap.get j m) else HashMap.get j m)
  mark_reads id n m k e j =
      rw (get-insert n.id j (record n { status = retracted }) m)
        (ground (arith, text_eq_iff n.id j, text_eq_iff j id))

  module _ (deps : HashMap NodeId (List NodeId)) (root : NodeId) (max_nodes : ℕ) where
    -- a step that changes neither the nodes nor the list
    pub Extends-still :
        (c c' : Cascade p)
        → c'.node_map ≡ c.node_map
        → c'.wal ≡ c.wal
        → c'.all_retracted ≡ c.all_retracted
        → (c'.truncated ≡ false → c.truncated ≡ false)
        → Extends deps root max_nodes c c'
    Extends-still c c' em ew ea et = record {
      news = [];
      listed = ea ∙ sym (append-nil c.all_retracted);
      logged = ew ∙ sym (append-nil c.wal);
      reads = λ j. ap (HashMap.get j) em;
      chosen = λ j h. absurd (cc h);
      keyed = λ h. rw em h;
      fewer = rw em (omega arith);
      bounded = λ h. rw ea h;
      truncates = et;
    }

    -- the mark on a node that may be retracted
    pub Extends-mark :
        (id : NodeId) (n : Node p) (c : Cascade p)
        → IsKeyed c.node_map
        → HashMap.get id c.node_map ≡ some n
        → leb max_nodes (length c.all_retracted) ≡ false
        → MayRetract deps root id (some n)
        → (depth : ℕ) → Extends deps root max_nodes c (mark id n (deepen depth c))
    unfolding mark
    Extends-mark id n c k e room may depth = record {
      news = id ∷ [];
      listed = refl;
      logged = refl;
      reads = λ j. mark_reads id n c.node_map (k id n e) e j;
      chosen = λ j h.
          subst (λ x. MayRetract deps root x (HashMap.get x c.node_map)) (sym (contains-one j id h))
            (rw e may);
      keyed = IsKeyed-insert (record n { status = retracted }) c.node_map;
      fewer = omega (arith, open_count-mark id n c.node_map (k id n e) e may.0);
      bounded = λ h. rw (length-append c.all_retracted (id ∷ [])) (ground (arith, room));
      truncates = λ h. h;
    }

    pub Extends-trans :
        (c d e : Cascade p)
        → Extends deps root max_nodes c d
        → Extends deps root max_nodes d e
        → Extends deps root max_nodes c e
    Extends-trans c d e a b = record {
      news = a.news ++ b.news;
      listed =
          b.listed ∙ ap (λ l. l ++ b.news) a.listed ∙ append_assoc c.all_retracted a.news b.news;
      logged =
          b.logged
          ∙ ap (λ l. l ++ map retract b.news) a.logged
          ∙ append_assoc c.wal (map retract a.news) (map retract b.news)
          ∙ ap (λ l. c.wal ++ l) (sym (map-append retract a.news b.news));
      reads = λ j.
          rw (contains-append j a.news b.news)
            (ground (arith, a.reads j, b.reads j, retire-retire (HashMap.get j c.node_map)));
      chosen = λ j h. elim (Bool-cases (contains j a.news)) [
        | inl old ↦ a.chosen j old
        | inr new ↦
            subst (MayRetract deps root j) (ground (arith, a.reads j, new))
              (b.chosen j (ground (arith, contains-append j a.news b.news, h, new)))
      ];
      keyed = λ h. b.keyed (a.keyed h);
      fewer = omega (arith, a.fewer, b.fewer);
      bounded = λ h. b.bounded (a.bounded h);
      truncates = λ h. a.truncates (b.truncates h);
    }
