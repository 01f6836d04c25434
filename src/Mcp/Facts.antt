-- ===== src/Mcp/Facts.antt =====
-- What crates/factum-mcp/src/handler.rs shows of nodes, and what an assertion leaves alone.
use factum.Prelude.{
  true, ◌≡◌, refl, sym, ap, ◌∙◌, inl, inr, Option, none, some, List, [], Text, codes, Result, ok,
  err, Bool-cases, arith,
}
use factum.Core.Platform.{Platform}
use factum.Core.Types.{NodeId, Node, Predicate, is_active}
use factum.Core.Calibration.{
  KeepsOrder, check_confidence_band, check_confidence_band-default,
  default_confidence_for_provenance,
}
use factum.Core.Canonical.{canonical_predicate}
use factum.Core.Parser.{parse_predicate}
use factum.Core.Parser.Base.{done}
use factum.Core.Lexer.{Token}
use factum.Rt.Permission
use factum.Rt.Permission.{PermissionContext}
use factum.Rt.Store.{
  FactumStore, StoreError, not_found, already_exists, permission_denied, invalid_node, storage,
}
use factum.Rt.Store.Write.{insert_node}
use factum.Rt.Store.Single.{insert_node_cases}
use factum.Rt.Store.Read.{get, get_with_perm, check_permission}
use factum.Mcp.Json.{Json, get_str}
use factum.Mcp.Protocol.{JsonRpcError}
use factum.Mcp.Params.{Outside, FactumAssertParams, parse_node_resource_uri}
use factum.Mcp.Handler.{McpHandler, with_store, generate_content_id}
use factum.Mcp.Write.{or_else}
use factum.Mcp.Assert.{principal, asserted_node, report_band, assert_result, tool_assert}
use factum.Mcp.Read.{contents, node_contents, resource_at, read_resource}

module _ {p : Platform} where
  get_with_perm_ok :
      (s : FactumStore p) (id : NodeId) (n : Node p) (ctx : PermissionContext)
      → get_with_perm s id ctx ≡ ok n
      → (get s id ≡ some n) × (check_permission n ctx ≡ true)
  unfolding get_with_perm
  get_with_perm_ok s id n ctx e = ground arith

  node_contents_ok :
      (h h' : McpHandler p) (uri : Text) (r : Result StoreError (Node p)) (j : Json p)
      → node_contents h uri r ≡ some (ok j, h')
      → (n : Node p) × (r ≡ ok n) × (is_active n.status ≡ true) × (j ≡ contents uri n)
  node_contents_ok h h' uri (err e) j q = absurd (cc q)
  node_contents_ok h h' uri (ok n) j q = elim (Bool-cases (is_active n.status)) [
    | inl a ↦ (n, refl, a, ground (arith, q))
    | inr a ↦ absurd (let g = rw a at q in cc g)
  ]

  -- the identifier behind the URI of a request
  abbrev pub requested : Json p → Option NodeId
  requested params = parse_node_resource_uri (or_else (get_str (codes "uri") params) [])

  resource_at_ok :
      (h h' : McpHandler p) (uri : Text) (id : Option NodeId) (j : Json p)
      → resource_at h uri id ≡ some (ok j, h')
      → (i : NodeId) × (n : Node p) × (id ≡ some i)
        × (get h.store i ≡ some n)
        × (is_active n.status ≡ true)
        × (check_permission n Permission.public ≡ true)
        × (j ≡ contents uri n)
  resource_at_ok h h' uri none j q = absurd (cc q)
  resource_at_ok h h' uri (some i) j q =
      let (n, e, a, c) =
        node_contents_ok h h' uri (get_with_perm h.store i Permission.public) j q in
      let g = get_with_perm_ok h.store i n Permission.public e in (i, n, refl, g.0, a, g.1, c)

  -- Where the read of a resource shows a text, it is that of the stored node whose identifier the
  -- URI holds, and the node is active and open to the public.
  pub read_resource-accessible :
      (h h' : McpHandler p) (params j : Json p)
      → read_resource h (some params) ≡ some (ok j, h')
      → (i : NodeId) × (n : Node p) × (requested params ≡ some i)
        × (get h.store i ≡ some n)
        × (is_active n.status ≡ true)
        × (check_permission n Permission.public ≡ true)
        × (j ≡ contents (or_else (get_str (codes "uri") params) []) n)
  unfolding read_resource
  read_resource-accessible h h' params j q =
      resource_at_ok h h' (or_else (get_str (codes "uri") params) []) (requested params) j q

  insert_node_stored :
      (s : FactumStore p) (n old : Node p) → get s n.id ≡ some old → (insert_node s n).1 ≡ s
  unfolding get
  insert_node_stored s n old e = elim (insert_node_cases s n) [
    | inl (_, fresh) ↦ absurd (let g = sym e ∙ fresh in cc g)
    | inr (_, refused) ↦ ap (λ (r : Result StoreError Unit × FactumStore p). r.1) refused
  ]

  -- Every assertion has an answer, and the server behind it has the store of the insertion.
  assert_result_total :
      (o : Outside p) (h : McpHandler p) (canon : Text) (n : Node p) (by : Text)
      (r : Result StoreError Unit × FactumStore p)
      → (x : Result JsonRpcError (Json p)) × (assert_result o h canon n by r
          ≡ some (x, with_store h r.1))
  unfolding assert_result
  assert_result_total o h canon n by (ok u, s) = (_, refl)
  assert_result_total o h canon n by (err (already_exists id), s) = (_, refl)
  assert_result_total o h canon n by (err (not_found id), s) = (_, refl)
  assert_result_total o h canon n by (err permission_denied, s) = (_, refl)
  assert_result_total o h canon n by (err (invalid_node why), s) = (_, refl)
  assert_result_total o h canon n by (err (storage w), s) = (_, refl)

  report_band_within :
      (o : Outside p) (n : Node p) (now : p.Time) (h : McpHandler p)
      → check_confidence_band p n.provenance n.confidence ≡ ok tt
      → report_band o n now h ≡ h
  unfolding report_band
  report_band_within o n now h e = ground arith

  -- what `tool_assert` comes to on parameters and a predicate that can be read
  tool_assert_lem :
      (o : Outside p) (h : McpHandler p) (now : p.Time) (j : Json p) (q : FactumAssertParams p)
      (pred : Predicate p) (ts : List Token)
      → o.assert_params j ≡ ok q
      → parse_predicate q.predicate ≡ done pred ts
      → tool_assert o h now j
        ≡ assert_result o
            (report_band o (asserted_node o q pred) now h)
            (canonical_predicate pred)
            (asserted_node o q pred)
            (principal o q)
            (insert_node h.store (asserted_node o q pred))
  unfolding tool_assert
  tool_assert_lem o h now j q pred ts e d = rw (e, tool_assert) (rw d refl)

  -- The assertion of a fact whose identifier, which its content gives, is in the store already, is
  -- answered, and the store stays as it is.
  pub tool_assert_stored :
      (o : Outside p) (h : McpHandler p) (now : p.Time) (j : Json p) (q : FactumAssertParams p)
      (pred : Predicate p) (ts : List Token) (old : Node p)
      → o.assert_params j ≡ ok q
      → parse_predicate q.predicate ≡ done pred ts
      → get h.store (generate_content_id o (canonical_predicate pred)) ≡ some old
      → (x : Result JsonRpcError (Json p)) × (h' : McpHandler p) × (tool_assert o h now j
          ≡ some (x, h'))
        × (h'.store ≡ h.store)
  unfolding asserted_node
  tool_assert_stored o h now j q pred ts old e d found =
      let n = asserted_node o q pred in
      let r = insert_node h.store n in
      let (x, a) =
        assert_result_total o (report_band o n now h) (canonical_predicate pred) n (principal o q)
          r in
      (
        x,
        with_store (report_band o n now h) r.1,
        tool_assert_lem o h now j q pred ts e d ∙ a,
        insert_node_stored h.store n old found,
      )

  -- The assertion of a fact without a confidence is answered and raises no event for review, where
  -- decimals of two digits keep their order.
  pub tool_assert_default :
      (o : Outside p) (h : McpHandler p) (now : p.Time) (j : Json p) (q : FactumAssertParams p)
      (pred : Predicate p) (ts : List Token)
      → KeepsOrder p
      → o.assert_params j ≡ ok q
      → q.confidence ≡ none
      → parse_predicate q.predicate ≡ done pred ts
      → (x : Result JsonRpcError (Json p)) × (h' : McpHandler p) × (tool_assert o h now j
          ≡ some (x, h'))
        × (h'.review_queue ≡ h.review_queue)
  unfolding asserted_node
  tool_assert_default o h now j q pred ts keeps e c d =
      let n = asserted_node o q pred in
      let r = insert_node h.store n in
      let (x, a) =
        assert_result_total o (report_band o n now h) (canonical_predicate pred) n (principal o q)
          r in
      let within : check_confidence_band p n.provenance n.confidence ≡ ok tt =
        ap
          (λ (v : Option p.F32).
            check_confidence_band p n.provenance
              (or_else v (default_confidence_for_provenance p n.provenance)))
          c
        ∙ check_confidence_band-default p n.provenance keeps in
      (
        x,
        with_store (report_band o n now h) r.1,
        tool_assert_lem o h now j q pred ts e d ∙ a,
        ap (λ (g : McpHandler p). g.review_queue) (report_band_within o n now h within),
      )
