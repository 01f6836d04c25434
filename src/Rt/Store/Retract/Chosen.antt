-- ===== src/Rt/Store/Retract/Chosen.antt =====
-- What a retraction of crates/factum-rt/src/store.rs may list.
use factum.Prelude.{ℕ, true, false, ◌≡◌, refl, sym, ap, ◌∙◌, ◌⊎◌, Option, none, some, Elem, ok}
use factum.HashMap
use factum.HashMap.{HashMap, ◌==◌, text_key}
use factum.Core.Platform.{Platform}
use factum.Core.Types.{NodeId, Node, is_retracted}
use factum.Rt.Storage.{get_node}
use factum.Rt.Store.{FactumStore}
use factum.Rt.Store.Read.{get}
use factum.Rt.Store.Index.{IsValid, At}
use factum.Rt.Store.Cascade.{goes_on, RetractResult, retract_with_limit}
use factum.Rt.Store.Cascade.Effect.{contains, Reaches, here, next, MayRetract}
use factum.Rt.Store.Retract.{retract_ok, result}

-- A node that depends on the root: it is the root, or a stored node that names one which does.
pub data DependsOn {p : Platform} (s : FactumStore p) (root : NodeId) : NodeId → Type 0 where
  itself : DependsOn s root root
  through :
      {j k : NodeId} {n : Node p}
      → get s j ≡ some n
      → Elem k n.deps
      → DependsOn s root k
      → DependsOn s root j

module _ {p : Platform} where
  -- What a stored identifier reads as, taken out of `At`.
  At-some : (P : Node p → Type 0) (o : Option (Node p)) → At P o → (n : Node p) × (o ≡ some n) × P n
  At-some P none h = absurd h
  At-some P (some n) h = (n, refl, h)

  -- In a well-formed store, the index leads along the dependencies that the nodes name.
  Reaches-DependsOn :
      (s : FactumStore p) (root j : NodeId)
      → IsValid s
      → Reaches s.deps_rev root j
      → DependsOn s root j
  unfolding get get_node
  Reaches-DependsOn s root _ v here = itself
  Reaches-DependsOn s root j v (next {k = k} r e) =
      let (n, found, dep) =
        At-some (λ (m : Node p). Elem k m.deps) (HashMap.get j s.backend.node_map)
          ((v.dependents k j).0 e) in
      through found dep (Reaches-DependsOn s root k v r)

  MayRetract-stored :
      (s : FactumStore p) (root j : NodeId) (o : Option (Node p))
      → IsValid s
      → MayRetract s.deps_rev root j o
      → (n : Node p) × (o ≡ some n)
        × (is_retracted n.status ≡ false)
        × ((j ≡ root) ⊎ (goes_on n ≡ true))
        × DependsOn s root j
  MayRetract-stored s root j none v h = absurd h
  MayRetract-stored s root j (some n) v h = (n, refl, h.0, h.1, Reaches-DependsOn s root j v h.2)

  -- In a well-formed store, retraction lists only stored nodes that were not retracted, that are
  -- the root or derived and active, and that depend on the root: they are the root, or name a node
  -- among their dependencies that depends on the root.
  pub retract_with_limit_chosen :
      (s : FactumStore p) (id : NodeId) (max_nodes : ℕ) (r : RetractResult) (s' : FactumStore p)
      → IsValid s
      → retract_with_limit s id max_nodes ≡ some (ok r, s')
      → (j : NodeId) → contains j r.retracted ≡ true
      → (n : Node p) × (get s j ≡ some n)
        × (is_retracted n.status ≡ false)
        × ((j ≡ id) ⊎ (goes_on n ≡ true))
        × DependsOn s id j
  unfolding get get_node result
  retract_with_limit_chosen s id max_nodes r s' v e j h =
      let (c, ran, post, er, es) = retract_ok s id max_nodes r s' v.keyed e in
      MayRetract-stored s id j (HashMap.get j s.backend.node_map) v (
        post.extends.chosen j
          (sym (ap (contains j) (ap (λ q. q.retracted) (sym er) ∙ post.extends.listed)) ∙ h))
