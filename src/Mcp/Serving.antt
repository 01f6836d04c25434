-- ===== src/Mcp/Serving.antt =====
-- What the tools of crates/factum-mcp/src/handler.rs that write do to the store.
use factum.Prelude.{
  ℕ, ◌+◌, ◌≡◌, ◌≢◌, refl, inl, inr, none, some, List, [], ◌∷◌, ◌++◌, Text, codes, if_elim, Result,
  ok, err,
}
use factum.Prelude.Digits.{to_string}
use factum.Core.Platform.{Platform}
use factum.Core.Types.{Node, NodeId}
use factum.Core.Parser.{parse, parse_predicate}
use factum.Core.Parser.Base.{Outcome, done, failed, out_of_fuel}
use factum.Core.Parser.Ensures.{Ensures-total}
use factum.Core.Canonical.{canonical_predicate}
use factum.Core.Parser.Total.{parse_total, parse_predicate_total}
use factum.Rt.Store.{
  FactumStore, StoreError, not_found, already_exists, permission_denied, invalid_node, storage,
}
use factum.Rt.Store.Write.{insert_node, insert_batch}
use factum.Rt.Store.Cascade.{RetractResult, retract_with_limit, default_max_cascade_nodes}
use factum.Rt.Store.Index.{IsValid}
use factum.Rt.Store.Single.{insert_node-IsValid}
use factum.Rt.Store.Batch.{insert_batch-IsValid}
use factum.Rt.Store.Retract.{retract_with_limit-IsValid, retract_with_limit_total}
use factum.Rt.Store.Run.{Step, insert, batch, retract}
use factum.Mcp.Json.{Json}
use factum.Mcp.Params.{Outside}
use factum.Mcp.Handler.{
  McpHandler, Call, with_store, with_params, with_parsed, with_result, as_tool_result,
  enqueue_event,
}
use factum.Mcp.Write.{
  or_else, auto_id, with_first, ended, parse_batch, insert_all, report_truncated, matching,
  upsert_over, tool_insert, tool_insert_batch, tool_retract, tool_upsert,
}
use factum.Mcp.Assert.{principal, asserted_node, report_band, assert_result, tool_assert}

-- The store after some writing calls.
pub data Steps {p : Platform} (s : FactumStore p) : FactumStore p → Type 0 where
  here : Steps s s
  next : {t u : FactumStore p} → Steps s t → Step t u → Steps s u

module _ {p : Platform} where
  -- A well-formed store that writing calls lead to.
  abbrev pub Reaches : FactumStore p → FactumStore p → Type 0
  Reaches s t = Steps s t × IsValid t

  -- There is an answer, and the store behind it is one that writing calls lead to; `Q` holds
  -- otherwise.
  abbrev pub Serves : Type 0 → FactumStore p → Call p → Type 0
  Serves Q s none = Q
  Serves Q s (some (r, h)) = Reaches s h.store

  pub insert_Reaches :
      (s t : FactumStore p) (n : Node p) → Reaches s t → Reaches s (insert_node t n).1
  insert_Reaches s t n h = (next h.0 (insert t n), insert_node-IsValid t n h.1)

  pub batch_Reaches :
      (s t : FactumStore p) (ns : List (Node p)) → Reaches s t → Reaches s (insert_batch t ns).1
  batch_Reaches s t ns h = (next h.0 (batch t ns), insert_batch-IsValid t ns h.1)

  -- A retraction of a well-formed store comes to an end in one.
  pub retract_Reaches :
      (s t : FactumStore p) (id : NodeId) (max_nodes : ℕ)
      → Reaches s t
      → (r : Result StoreError RetractResult) × (u : FactumStore p) × (retract_with_limit t id
            max_nodes
          ≡ some (r, u))
        × Reaches s u
  retract_Reaches s t id max_nodes h =
      let reached =
        λ (r : Result StoreError RetractResult) (u : FactumStore p)
            (e : retract_with_limit t id max_nodes ≡ some (r, u)).
          let v : Reaches s u = (
            next h.0 (retract t id max_nodes r u e),
            retract_with_limit-IsValid t id max_nodes r u h.1 e,
          ) in
          v in
      elim (retract_with_limit_total t id max_nodes h.1.keyed) [
        | inl (r, u, e, _, _) ↦ (ok r, u, e, reached (ok r) u e)
        | inr (e, _) ↦ (err _, t, e, reached (err _) t e)
      ]

  module _ (Q : Type 0) (o : Outside p) (s : FactumStore p) where
    pub ended-Serves :
        (t : FactumStore p) (id : NodeId) (max_nodes : ℕ)
        (k : Result StoreError RetractResult × FactumStore p → Call p)
        → Reaches s t
        → ((r : Result StoreError RetractResult) (u : FactumStore p)
            → Reaches s u
            → Serves Q s (k (r, u)))
        → Serves Q s (ended o (retract_with_limit t id max_nodes) k)
    ended-Serves t id max_nodes k h l =
        let (r, u, e, v) = retract_Reaches s t id max_nodes h in rw e (l r u v)

    pub with_params-Serves :
        {A : Type 0} (h : McpHandler p) (r : Result Text A) (k : A → Call p)
        → Reaches s h.store
        → ((a : A) → r ≡ ok a → Serves Q s (k a))
        → Serves Q s (with_params o h r k)
    with_params-Serves h (ok a) k v l = l a refl
    with_params-Serves h (err e) k v l = v

    pub with_parsed-Serves :
        {A : Type 0} (h : McpHandler p) (word suffix : Text) (out : Outcome A) (k : A → Call p)
        → out ≢ out_of_fuel
        → Reaches s h.store
        → ((a : A) → Serves Q s (k a))
        → Serves Q s (with_parsed o h word suffix out k)
    with_parsed-Serves h word suffix (done a ts) k e v l = l a
    with_parsed-Serves h word suffix (failed e) k _ v l = v
    with_parsed-Serves h word suffix out_of_fuel k e v l = absurd (e refl)

    pub with_result-Serves :
        {A : Type 0} (h : McpHandler p) (r : Result StoreError A × FactumStore p)
        (k : A → McpHandler p → Call p)
        → Reaches s r.1
        → ((a : A) → Serves Q s (k a (with_store h r.1)))
        → Serves Q s (with_result o h r k)
    with_result-Serves h (ok a, t) k v l = l a
    with_result-Serves h (err e, t) k v l = v

    pub with_first-Serves :
        (h : McpHandler p) (ns : List (Node p)) (k : Node p → Call p)
        → Reaches s h.store
        → ((n : Node p) → Serves Q s (k n))
        → Serves Q s (with_first o h ns k)
    with_first-Serves h [] k v l = v
    with_first-Serves h (n ∷ ns) k v l = l n

    pub as_tool_result-Serves : (c : Call p) → Serves Q s c → Serves Q s (as_tool_result o c)
    as_tool_result-Serves none v = v
    as_tool_result-Serves (some (ok j, h)) v = v
    as_tool_result-Serves (some (err e, h)) v = v

    pub tool_insert-Serves :
        (h : McpHandler p) (j : Json p) → Reaches s h.store → Serves Q s (tool_insert o h j)
    unfolding tool_insert
    tool_insert-Serves h j v = with_params-Serves h (o.insert_params j) _ v λ text e.
        with_parsed-Serves h (codes "Node") [] (parse text) _ (Ensures-total (parse_total p text)) v
          λ ns. with_first-Serves h ns _ v λ n.
            with_result-Serves h (insert_node h.store (auto_id o n).0) _
              (insert_Reaches s h.store (auto_id o n).0 v)
              λ a. insert_Reaches s h.store (auto_id o n).0 v

    parse_batch-Serves :
        (h : McpHandler p) (i : ℕ) (ts : List Text) (k : List (Node p) → Call p)
        → Reaches s h.store
        → ((ns : List (Node p)) → Serves Q s (k ns))
        → Serves Q s (parse_batch o h i ts k)
    unfolding parse_batch
    parse_batch-Serves h i [] k v l = l []
    parse_batch-Serves h i (t ∷ ts) k v l =
        with_parsed-Serves h (codes "Node " ++ to_string i) (codes " (batch rejected)") (parse t) _
          (Ensures-total (parse_total p t)) v
          λ ns. parse_batch-Serves h (i + 1) ts (λ ms. k (ns ++ ms)) v (λ ms. l (ns ++ ms))

    insert_all-Serves :
        (h : McpHandler p) (texts : List Text) (ns : List (Node p))
        → Reaches s h.store
        → Serves Q s (insert_all o h texts ns)
    unfolding insert_all
    insert_all-Serves h texts [] v = v
    insert_all-Serves h texts (n ∷ ns) v =
        with_result-Serves h (insert_batch h.store (n ∷ ns)) _ (batch_Reaches s h.store (n ∷ ns) v)
          λ a. batch_Reaches s h.store (n ∷ ns) v

    pub tool_insert_batch-Serves :
        (h : McpHandler p) (j : Json p) → Reaches s h.store → Serves Q s (tool_insert_batch o h j)
    unfolding tool_insert_batch
    tool_insert_batch-Serves h j v = with_params-Serves h (o.batch_params j) _ v λ texts e.
        parse_batch-Serves h 0 texts (insert_all o h texts) v λ ns. insert_all-Serves h texts ns v

    report_truncated-store :
        (id : Text) (r : RetractResult) (now : p.Time) (h : McpHandler p)
        → Reaches s h.store
        → Reaches s (report_truncated o id r now h).store
    unfolding report_truncated enqueue_event
    report_truncated-store id r now h v =
        if_elim (λ (g : McpHandler p). Reaches s g.store) r.truncated v v

    pub tool_retract-Serves :
        (h : McpHandler p) (now : p.Time) (j : Json p)
        → Reaches s h.store
        → Serves Q s (tool_retract o h now j)
    unfolding tool_retract
    tool_retract-Serves h now j v = with_params-Serves h (o.retract_params j) _ v λ q e.
        ended-Serves h.store q.node_id (or_else q.max_cascade_nodes 100) _ v λ r u reached.
          with_result-Serves h (r, u) _ reached
            λ a. report_truncated-store q.node_id a now (with_store h u) reached

    upsert_over-Serves :
        (h : McpHandler p) (now : p.Time) (n : Node p) (ms : List (Node p))
        → Reaches s h.store
        → Serves Q s (upsert_over o h now n ms)
    unfolding upsert_over
    upsert_over-Serves h now n [] v =
        with_result-Serves h (insert_node h.store n) _ (insert_Reaches s h.store n v)
          λ a. insert_Reaches s h.store n v
    upsert_over-Serves h now n (old ∷ []) v =
        with_result-Serves h (insert_node h.store n) _ (insert_Reaches s h.store n v) λ a.
          ended-Serves (insert_node h.store n).1 old.id default_max_cascade_nodes _
            (insert_Reaches s h.store n v) λ r u reached. reached
    upsert_over-Serves h now n (m ∷ m' ∷ ms) v = v

    pub tool_upsert-Serves :
        (h : McpHandler p) (now : p.Time) (j : Json p)
        → Reaches s h.store
        → Serves Q s (tool_upsert o h now j)
    unfolding tool_upsert
    tool_upsert-Serves h now j v = with_params-Serves h (o.upsert_params j) _ v λ q e.
        with_parsed-Serves h (codes "Node") [] (parse q.node) _
          (Ensures-total (parse_total p q.node)) v
          λ ns. with_first-Serves h ns _ v λ n. upsert_over-Serves h now n (matching o h q) v

    assert_result-Serves :
        (h : McpHandler p) (canon : Text) (n : Node p) (by : Text)
        (r : Result StoreError Unit × FactumStore p)
        → Reaches s r.1
        → Serves Q s (assert_result o h canon n by r)
    unfolding assert_result
    assert_result-Serves h canon n by (ok u, t) v = v
    assert_result-Serves h canon n by (err (already_exists id), t) v = v
    assert_result-Serves h canon n by (err (not_found id), t) v = v
    assert_result-Serves h canon n by (err permission_denied, t) v = v
    assert_result-Serves h canon n by (err (invalid_node why), t) v = v
    assert_result-Serves h canon n by (err (storage e), t) v = v

    pub tool_assert-Serves :
        (h : McpHandler p) (now : p.Time) (j : Json p)
        → Reaches s h.store
        → Serves Q s (tool_assert o h now j)
    unfolding tool_assert
    tool_assert-Serves h now j v = with_params-Serves h (o.assert_params j) _ v λ q e.
        with_parsed-Serves h (codes "Predicate") [] (parse_predicate q.predicate) _
          (Ensures-total (parse_predicate_total p q.predicate)) v
          λ pred.
            assert_result-Serves (report_band o (asserted_node o q pred) now h)
              (canonical_predicate pred) (asserted_node o q pred) (principal o q)
              (insert_node h.store (asserted_node o q pred))
              (insert_Reaches s h.store (asserted_node o q pred) v)
