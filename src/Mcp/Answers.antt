-- ===== src/Mcp/Answers.antt =====
-- What the tools of crates/factum-mcp/src/handler.rs that read or decide do to the store.
use factum.Prelude.{
  ℕ, true, false, ◌≡◌, refl, sym, ap, subst, filter, Option, none, some, List, [], ◌∷◌, Text, codes,
  text_eq, if_elim, Bool-cases, inl, inr, Result, ok, err,
}
use factum.Core.Platform.{Platform}
use factum.Core.Types.{Node, NodeId, is_active}
use factum.Core.Parser.{parse_predicate}
use factum.Core.Parser.Ensures.{Ensures-total}
use factum.Core.Parser.Total.{parse_predicate_total}
use factum.Rt.Review
use factum.Rt.Review.{ReviewQueue, ReviewEvent, approve, reject}
use factum.Rt.Permission
use factum.Rt.Store.{FactumStore, StoreError}
use factum.Rt.Store.Read.{get_with_perm}
use factum.Rt.Store.Cascade.{RetractResult, default_max_cascade_nodes}
use factum.Rt.Query.{
  Query, QueryOptions, ResultSet, to_result_set, match_all, passes, get_candidates, query,
}
use factum.Rt.Query.Refusal.{is_highest_authority, arbitrate_total}
use factum.Mcp.Json.{Json, get_str, get_u64}
use factum.Mcp.Params.{Outside, FactumQueryParams, parse_node_resource_uri}
use factum.Mcp.Handler.{McpHandler, Call}
use factum.Mcp.Write.{or_else}
use factum.Mcp.Read.{
  options_of, query_answer, tool_query, tool_lookup, node_contents, resource_at, read_resource,
}
use factum.Mcp.Search.{search_keyword, tool_search}
use factum.Mcp.Review.{
  Sweep, with_event_id, approve_event, swept, decided, retract_each, reject_nodes, reject_event,
  event_detail, tool_review,
}
use factum.Mcp.Serving.{Reaches, Serves, retract_Reaches, with_params-Serves, with_parsed-Serves}

-- Under every other policy a query has an answer.
query_total :
    {p : Platform} (s : FactumStore p) (q : Query p) (options : QueryOptions p)
    → is_highest_authority options.policy ≡ false
    → (rs : ResultSet p) × (query s q options ≡ some rs)
unfolding query
query_total s q options e =
    let (out, flag, a) =
      arbitrate_total (match_all q.pattern (filter (passes options) (get_candidates s q)))
        options.policy e in
    (record { results = out; ambiguous = flag }, ap to_result_set a)

module _ {p : Platform} (Q : Type 0) (o : Outside p) (s : FactumStore p) where
  answer-Serves :
      (h : McpHandler p) (r : Option (ResultSet p))
      → Reaches s h.store
      → Q
      → Serves Q s (query_answer o h r)
  unfolding query_answer
  answer-Serves h none v q = q
  answer-Serves h (some rs) v q = v

  found-Serves :
      (h : McpHandler p) (rs : ResultSet p)
      → Reaches s h.store
      → Serves Q s (query_answer o h (some rs))
  unfolding query_answer
  found-Serves h rs v = v

  -- A query is answered, or it asks for the policy of the highest authority.
  pub tool_query-Serves :
      (h : McpHandler p) (now : p.Time) (j : Json p)
      → Reaches s h.store
      → ((q : FactumQueryParams p)
          → o.query_params j ≡ ok q
          → is_highest_authority (options_of o q now).policy ≡ true
          → Q)
      → Serves Q s (tool_query o h now j)
  unfolding tool_query
  tool_query-Serves h now j v l = with_params-Serves Q o s h (o.query_params j) _ v λ q e.
      with_parsed-Serves Q o s h (codes "Query") [] (parse_predicate q.query) _
        (Ensures-total (parse_predicate_total p q.query)) v
        λ pattern.
          let asked : Query p = record { pattern = pattern; entity_filter = none } in
          elim (Bool-cases (is_highest_authority (options_of o q now).policy)) [
            | inl highest ↦
                answer-Serves h (query h.store asked (options_of o q now)) v (l q e highest)
            | inr other ↦
                let (rs, found) = query_total h.store asked (options_of o q now) other in
                subst (λ (r : Option (ResultSet p)). Serves Q s (query_answer o h r)) (sym found)
                  (found-Serves h rs v)
          ]

  pub tool_lookup-Serves :
      (h : McpHandler p) (j : Json p) → Reaches s h.store → Serves Q s (tool_lookup o h j)
  unfolding tool_lookup
  tool_lookup-Serves h j v = with_params-Serves Q o s h (o.lookup_params j) _ v λ q e. v

  search_keyword-Serves :
      (h : McpHandler p) (k : Option Text) (limit : Option ℕ) (ns : List (Node p))
      → Reaches s h.store
      → Serves Q s (search_keyword o h k limit ns)
  search_keyword-Serves h none limit ns v = v
  search_keyword-Serves h (some []) limit ns v = v
  search_keyword-Serves h (some (c ∷ cs)) limit ns v = v

  pub tool_search-Serves :
      (h : McpHandler p) (j : Json p) → Reaches s h.store → Serves Q s (tool_search o h j)
  unfolding tool_search
  tool_search-Serves h j v = with_params-Serves Q o s h (o.search_params j) _ v λ q e.
      if_elim (Serves Q s) (text_eq q.mode (codes "keyword"))
        (search_keyword-Serves h q.keyword q.limit _ v)
        (if_elim (Serves Q s) (text_eq q.mode (codes "predicates")) v
          (if_elim (Serves Q s) (text_eq q.mode (codes "stats")) v v))

  swept_Reaches :
      (id : Text) (w : Sweep p) (r : Result StoreError RetractResult) (u : FactumStore p)
      → Reaches s u
      → Reaches s (swept o id w.retracted_nodes w.errors (r, u)).store
  swept_Reaches id w (ok r) u v = v
  swept_Reaches id w (err e) u v = v

  retract_each_Reaches :
      (ids : List Text) (w : Sweep p)
      → Reaches s w.store
      → (w' : Sweep p) × (retract_each o ids w ≡ some w') × Reaches s w'.store
  unfolding retract_each
  retract_each_Reaches [] w v = (w, refl, v)
  retract_each_Reaches (id ∷ ids) w v =
      let (r, u, e, v') = retract_Reaches s w.store id default_max_cascade_nodes v in
      let (w', e', v'') =
        retract_each_Reaches ids (swept o id w.retracted_nodes w.errors (r, u))
          (swept_Reaches id w r u v') in
      (w', rw (e, retract_each) e', v'')

  reject_nodes-Serves :
      (h : McpHandler p) (i : ℕ) (e : Option ReviewEvent)
      → Reaches s h.store
      → Serves Q s (reject_nodes o h i e)
  unfolding reject_nodes
  reject_nodes-Serves h i none v = v
  reject_nodes-Serves h i (some e) v =
      let (w, q, v') =
        retract_each_Reaches e.node_ids
          (record { store = h.store; retracted_nodes = []; errors = [] }) v in
      rw (q, reject_nodes) v'

  decided-Serves :
      (h : McpHandler p) (r : Result Text Unit × ReviewQueue) (k : McpHandler p → Call p)
      → Reaches s h.store
      → ((h' : McpHandler p) → Reaches s h'.store → Serves Q s (k h'))
      → Serves Q s (decided h r k)
  decided-Serves h (err e, q) k v l = v
  decided-Serves h (ok u, q) k v l = l (record h { review_queue = q }) v

  event_detail-Serves :
      (h : McpHandler p) (i : ℕ) (e : Option ReviewEvent)
      → Reaches s h.store
      → Serves Q s (event_detail o h i e)
  unfolding event_detail
  event_detail-Serves h i none v = v
  event_detail-Serves h i (some e) v = v

  with_event_id-Serves :
      (h : McpHandler p) (mode : Text) (event_id : Option ℕ) (k : ℕ → Call p)
      → Reaches s h.store
      → ((i : ℕ) → Serves Q s (k i))
      → Serves Q s (with_event_id h mode event_id k)
  with_event_id-Serves h mode none k v l = v
  with_event_id-Serves h mode (some i) k v l = l i

  pub tool_review-Serves :
      (h : McpHandler p) (j : Json p) → Reaches s h.store → Serves Q s (tool_review o h j)
  unfolding tool_review
  tool_review-Serves h j v =
      let mode = or_else (get_str (codes "mode") j) (codes "list_pending") in
      let event_id = get_u64 (codes "event_id") j in
      if_elim (Serves Q s) (text_eq mode (codes "list_pending")) v (
        if_elim (Serves Q s) (text_eq mode (codes "list_all")) v (
          if_elim (Serves Q s) (text_eq mode (codes "approve"))
            (with_event_id-Serves h mode event_id (approve_event h) v
              (λ i. decided-Serves h (approve h.review_queue i) _ v (λ h' v'. v')))
            (if_elim (Serves Q s) (text_eq mode (codes "reject"))
              (with_event_id-Serves h mode event_id (reject_event o h) v (λ i.
                decided-Serves h (reject h.review_queue i) _ v
                  (λ h' v'. reject_nodes-Serves h' i (Review.get h'.review_queue i) v')))
              (if_elim (Serves Q s) (text_eq mode (codes "get_detail"))
                (with_event_id-Serves h mode event_id _ v
                  (λ i. event_detail-Serves h i (Review.get h.review_queue i) v))
                v))))

  node_contents-Serves :
      (h : McpHandler p) (uri : Text) (r : Result StoreError (Node p))
      → Reaches s h.store
      → Serves Q s (node_contents h uri r)
  node_contents-Serves h uri (err e) v = v
  node_contents-Serves h uri (ok n) v = if_elim (Serves Q s) (is_active n.status) v v

  resource_at-Serves :
      (h : McpHandler p) (uri : Text) (id : Option NodeId)
      → Reaches s h.store
      → Serves Q s (resource_at h uri id)
  resource_at-Serves h uri none v = v
  resource_at-Serves h uri (some id) v =
      node_contents-Serves h uri (get_with_perm h.store id Permission.public) v

  pub read_resource-Serves :
      (h : McpHandler p) (params : Option (Json p))
      → Reaches s h.store
      → Serves Q s (read_resource h params)
  unfolding read_resource
  read_resource-Serves h none v = v
  read_resource-Serves h (some params) v =
      let uri = or_else (get_str (codes "uri") params) [] in
      resource_at-Serves h uri (parse_node_resource_uri uri) v
