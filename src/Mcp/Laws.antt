-- ===== src/Mcp/Laws.antt =====
-- What crates/factum-mcp/src/handler.rs does to the store, whatever is asked of it.
use factum.Prelude.{
  Bool, true, false, ◌≡◌, refl, Option, none, some, [], Text, codes, text_eq, text_eq_iff, if_elim,
  if_intro, Result, ok, err,
}
use factum.Core.Platform.{Platform}
use factum.Rt.Store.{FactumStore}
use factum.Rt.Store.Index.{IsValid}
use factum.Rt.Query.Refusal.{is_highest_authority}
use factum.Mcp.Json.{Json, null, get, get_str}
use factum.Mcp.Protocol.{JsonRpcRequest, JsonRpcResponse}
use factum.Mcp.Params.{Outside, FactumQueryParams}
use factum.Mcp.Handler.{McpHandler, Call}
use factum.Mcp.Write.{or_else}
use factum.Mcp.Read.{options_of, tool_query}
use factum.Mcp.Server.{initialize, call_named, call_tool, dispatch, responded, handle}
use factum.Mcp.Serving.{
  Steps, here, Reaches, Serves, as_tool_result-Serves, tool_insert-Serves, tool_insert_batch-Serves,
  tool_retract-Serves, tool_upsert-Serves, tool_assert-Serves,
}
use factum.Mcp.Answers.{
  tool_query-Serves, tool_lookup-Serves, tool_search-Serves, tool_review-Serves,
  read_resource-Serves,
}

module _ {p : Platform} (Q : Type 0) (o : Outside p) (s : FactumStore p) where
  -- Each tool but the query answers.
  call_named-Serves :
      (h : McpHandler p) (now : p.Time) (name : Text) (j : Json p)
      → Reaches s h.store
      → (text_eq name (codes "factum_query") ≡ true → Serves Q s (tool_query o h now j))
      → Serves Q s (call_named o h now name j)
  unfolding call_named
  call_named-Serves h now name j v l =
      if_intro (Serves Q s) (text_eq name (codes "factum_query")) l λ _.
        if_elim (Serves Q s) (text_eq name (codes "factum_lookup")) (tool_lookup-Serves Q o s h j v)
          (if_elim (Serves Q s) (text_eq name (codes "factum_insert"))
            (tool_insert-Serves Q o s h j v)
            (if_elim (Serves Q s) (text_eq name (codes "factum_insert_batch"))
              (tool_insert_batch-Serves Q o s h j v)
              (if_elim (Serves Q s) (text_eq name (codes "factum_upsert"))
                (tool_upsert-Serves Q o s h now j v)
                (if_elim (Serves Q s) (text_eq name (codes "factum_assert"))
                  (tool_assert-Serves Q o s h now j v)
                  (if_elim (Serves Q s) (text_eq name (codes "factum_search"))
                    (tool_search-Serves Q o s h j v)
                    (if_elim (Serves Q s) (text_eq name (codes "factum_retract"))
                      (tool_retract-Serves Q o s h now j v)
                      (if_elim (Serves Q s) (text_eq name (codes "factum_review"))
                        (tool_review-Serves Q o s h j v) v)))))))

  -- Each method but a call of a tool answers.
  dispatch-Serves :
      (h : McpHandler p) (now : p.Time) (method : Text) (params : Option (Json p))
      → Reaches s h.store
      → (text_eq method (codes "tools/call") ≡ true → Serves Q s (call_tool o h now params))
      → Serves Q s (dispatch o h now method params)
  unfolding dispatch initialize
  dispatch-Serves h now method params v l =
      if_elim (Serves Q s) (text_eq method (codes "initialize")) v (
        if_elim (Serves Q s) (text_eq method (codes "ping")) v (
          if_elim (Serves Q s) (text_eq method (codes "tools/list")) v (
            if_elim (Serves Q s) (text_eq method (codes "resources/list")) v (
              if_elim (Serves Q s) (text_eq method (codes "resources/templates/list")) v (
                if_intro (Serves Q s) (text_eq method (codes "tools/call")) l λ _.
                  if_elim (Serves Q s) (text_eq method (codes "resources/read"))
                    (read_resource-Serves Q o s h params v) v)))))

module _ {p : Platform} where
  -- the arguments of a call that ask for the policy of the highest authority
  abbrev wants_highest : Outside p → p.Time → Result Text (FactumQueryParams p) → Bool
  wants_highest o now (ok q) = is_highest_authority (options_of o q now).policy
  wants_highest o now (err e) = false

  -- A request for a query under the policy of the highest authority.
  abbrev pub AsksAuthority : Outside p → p.Time → JsonRpcRequest p → Type 0
  AsksAuthority o now req =
      (req.method ≡ codes "tools/call")
      × (params : Json p) × (req.params ≡ some params)
      × (or_else (get_str (codes "name") params) [] ≡ codes "factum_query")
      × (wants_highest o now (o.query_params (or_else (get (codes "arguments") params) null))
          ≡ true)

  -- The response and the server after it, where the store is well formed and reached by writing
  -- calls; no response only under `Q`.
  abbrev pub Responds : Type 0 → FactumStore p → Option (JsonRpcResponse p × McpHandler p) → Type 0
  Responds Q s none = Q
  Responds Q s (some (r, h)) = Steps s h.store × IsValid h.store

  responded-Serves :
      (Q : Type 0) (o : Outside p) (s : FactumStore p) (id : Json p) (c : Call p)
      → Serves Q s c
      → Responds Q s (responded o id c)
  responded-Serves Q o s id none v = v
  responded-Serves Q o s id (some (r, h)) v = v

  call_tool-Serves :
      (o : Outside p) (h : McpHandler p) (now : p.Time) (req : JsonRpcRequest p)
      (params : Option (Json p))
      → req.params ≡ params
      → Reaches h.store h.store
      → text_eq req.method (codes "tools/call") ≡ true
      → Serves (AsksAuthority o now req) h.store (call_tool o h now params)
  unfolding call_tool
  call_tool-Serves o h now req none e v m = v
  call_tool-Serves o h now req (some ps) e v m =
      let Q = AsksAuthority o now req in
      let name = or_else (get_str (codes "name") ps) [] in
      let j = or_else (get (codes "arguments") ps) null in
      as_tool_result-Serves Q o h.store (call_named o h now name j) (
        call_named-Serves Q o h.store h now name j v λ n.
          tool_query-Serves Q o h.store h now j v λ q d highest. (
            (text_eq_iff req.method (codes "tools/call")).0 m,
            ps,
            e,
            (text_eq_iff name (codes "factum_query")).0 n,
            rw (d, wants_highest) highest,
          ))

  -- In a server with a well-formed store, each request but a query under the policy of the highest
  -- authority gets a response. Whatever the request, the store behind the response is well formed,
  -- and insertions, batches and retractions lead to it.
  pub handle-Responds :
      (o : Outside p) (h : McpHandler p) (now : p.Time) (req : JsonRpcRequest p)
      → IsValid h.store
      → Responds (AsksAuthority o now req) h.store (handle o h now req)
  unfolding handle
  handle-Responds o h now req v =
      responded-Serves (AsksAuthority o now req) o h.store req.id
        (dispatch o h now req.method req.params)
        (dispatch-Serves (AsksAuthority o now req) o h.store h now req.method req.params (here, v)
          (call_tool-Serves o h now req req.params refl (here, v)))
