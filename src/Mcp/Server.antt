-- ===== src/Mcp/Server.antt =====
-- `McpHandler::handle` of crates/factum-mcp/src/handler.rs: the routing of requests.
use factum.Prelude.{
  true, Option, none, some, List, [], ◌∷◌, ◌++◌, Text, codes, text_eq, if◌then◌else◌, map,
}
use factum.Core.Platform.{Platform}
use factum.Core.Morphemes.{MorphemeDef, debug_kind}
use factum.Mcp.Json.{Json, null, bool, number, arr, obj, get, get_str}
use factum.Mcp.Protocol.{JsonRpcRequest, JsonRpcResponse, method_not_found, invalid_params}
use factum.Mcp.Params.{Outside}
use factum.Mcp.Handler.{
  McpHandler, PreferredForm, compact, canonical_form, Call, fails, answers, respond, as_tool_result,
}
use factum.Mcp.Write.{
  or_else, text_field, tool_insert, tool_insert_batch, tool_retract, tool_upsert,
}
use factum.Mcp.Assert.{tool_assert}
use factum.Mcp.Read.{tool_query, tool_lookup, list_resources, read_resource}
use factum.Mcp.Search.{tool_search}
use factum.Mcp.Review.{tool_review}

module _ {p : Platform} where
  -- what the client declares under `capabilities.factum`
  unfoldable pub factum_caps : Option (Json p) → Option (Json p)
  unfolding get
  factum_caps none = none
  factum_caps (some params) = elim (get (codes "capabilities") params) [
    | none ↦ none
    | some c ↦ get (codes "factum") c
  ]

  -- the form that is negotiated
  unfoldable pub negotiate : Option (Json p) → PreferredForm
  unfolding get_str
  negotiate none = canonical_form
  negotiate (some fc) = elim (get_str (codes "preferred_form") fc) [
    | none ↦ compact
    | some pf ↦ if text_eq pf (codes "canonical") then canonical_form else compact
  ]

  abbrev morpheme_entry : MorphemeDef → Json p
  morpheme_entry m = obj (
      (codes "id", number m.id)
      ∷ text_field (codes "name") m.name
      ∷ text_field (codes "kind") (debug_kind m.kind)
      ∷ [])

  abbrev morpheme_table : Option (Json p) → List MorphemeDef → List (Text × Json p)
  morpheme_table none ms = []
  morpheme_table (some fc) ms = (codes "factum_morphemes", arr (map morpheme_entry ms)) ∷ []

module _ {p : Platform} (o : Outside p) where
  -- `handle_initialize`; an absent optional field is not written
  unfoldable pub initialize : McpHandler p → Option (Json p) → Call p
  unfolding factum_caps negotiate debug_kind
  initialize h params =
      let caps = factum_caps params in
      answers (record h { preferred_form = negotiate caps })
        (obj (
          text_field (codes "protocolVersion") (codes "2025-06-18")
          ∷ (
            codes "capabilities",
            obj (
                (codes "tools", obj ((codes "listChanged", bool true) ∷ []))
                ∷ (codes "resources", obj [])
                ∷ []),
          )
          ∷ (
            codes "serverInfo",
            obj (
                text_field (codes "name") (codes "factum-mcp")
                ∷ text_field (codes "version") o.version
                ∷ []),
          )
          ∷ morpheme_table caps h.store.registry.by_id))

  -- the `match` on the tool's name
  unfoldable pub call_named : McpHandler p → p.Time → Text → Json p → Call p
  call_named h now name j =
      if text_eq name (codes "factum_query")
      then tool_query o h now j
      else if text_eq name (codes "factum_lookup")
      then tool_lookup o h j
      else if text_eq name (codes "factum_insert")
      then tool_insert o h j
      else if text_eq name (codes "factum_insert_batch")
      then tool_insert_batch o h j
      else if text_eq name (codes "factum_upsert")
      then tool_upsert o h now j
      else if text_eq name (codes "factum_assert")
      then tool_assert o h now j
      else if text_eq name (codes "factum_search")
      then tool_search o h j
      else if text_eq name (codes "factum_retract")
      then tool_retract o h now j
      else if text_eq name (codes "factum_review")
      then tool_review o h j
      else fails h (invalid_params (codes "unknown tool: " ++ name))

  -- `handle_call_tool`
  unfoldable pub call_tool : McpHandler p → p.Time → Option (Json p) → Call p
  unfolding call_named get get_str
  call_tool h now none = fails h (invalid_params (codes "missing params"))
  call_tool h now (some params) = as_tool_result o (
      call_named h now (or_else (get_str (codes "name") params) [])
        (or_else (get (codes "arguments") params) null))

  node_template : Json p
  node_template = obj (
      (
        codes "resourceTemplates",
        arr (
            obj (
              text_field (codes "uriTemplate") (codes "factum://nodes/{id}")
              ∷ text_field (codes "name") (codes "Factum node")
              ∷ text_field (codes "description")
                  (codes "Read an active public knowledge node as canonical Factum text")
              ∷ text_field (codes "mimeType") (codes "text/plain")
              ∷ [])
            ∷ []),
      )
      ∷ [])

  -- the `match` on the method
  unfoldable pub dispatch : McpHandler p → p.Time → Text → Option (Json p) → Call p
  unfolding initialize call_tool node_template
  dispatch h now method params =
      if text_eq method (codes "initialize")
      then initialize h params
      else if text_eq method (codes "ping")
      then answers h (obj [])
      else if text_eq method (codes "tools/list")
      then answers h (obj ((codes "tools", o.tool_definitions) ∷ []))
      else if text_eq method (codes "resources/list")
      then answers h (list_resources h)
      else if text_eq method (codes "resources/templates/list")
      then answers h node_template
      else if text_eq method (codes "tools/call")
      then call_tool h now params
      else if text_eq method (codes "resources/read")
      then read_resource h params
      else fails h method_not_found

  abbrev pub responded : Json p → Call p → Option (JsonRpcResponse p × McpHandler p)
  responded id none = none
  responded id (some (r, h)) = some (respond o id r, h)

  -- `handle`: the response, and the server after it
  unfoldable pub handle :
      McpHandler p → p.Time → JsonRpcRequest p → Option (JsonRpcResponse p × McpHandler p)
  unfolding dispatch
  handle h now req = responded req.id (dispatch h now req.method req.params)
