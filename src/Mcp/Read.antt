-- ===== src/Mcp/Read.antt =====
-- The other tools of crates/factum-mcp/src/handler.rs that only read, query and lookup, and
-- resources.
use factum.Prelude.{
  ℕ, Bool, true, Option, none, some, List, [], ◌∷◌, ◌++◌, Text, codes, text_eq, if◌then◌else◌,
  filter, length, map, Result, ok, err,
}
use factum.HashMap
use factum.HashMap.{HashMap, ◌==◌, text_key}
use factum.Core.Platform.{Platform, f32_le}
use factum.Core.Types.{NodeId, Node, is_active}
use factum.Core.Canonical.Nodes.{canonical}
use factum.Core.Parser.{parse_predicate}
use factum.Rt.Permission
use factum.Rt.Store.{StoreError}
use factum.Rt.Store.Read.{lookup_by_entity, all_active, get_with_perm}
use factum.Rt.Query.{QueryOptions, ResultSet, query}
use factum.Rt.Query.Arbitration.{
  ConflictPolicy, latest_wins, highest_authority, unanimous, weighted_vote,
}
use factum.Mcp.Json.{Json, Fields, end, field, number, object, bool, arr, obj, get_str}
use factum.Mcp.Protocol.{invalid_params}
use factum.Mcp.Params.{Outside, FactumQueryParams, node_resource_uri, parse_node_resource_uri}
use factum.Mcp.Handler.{
  McpHandler, Call, strip_at, fails, answers, visible, with_params, with_parsed, node_text,
  form_field,
}
use factum.Mcp.Write.{or_else, text_field}
use factum.Mcp.Search.{sort_by_text}

module _ {p : Platform} where
  -- `nodes`, `form` if it is the canonical one, and `count`
  abbrev listing : List (Json p) → List (Text × Json p) → ℕ → List (Text × Json p) → Json p
  listing ns form count more =
      obj ((codes "nodes", arr ns) ∷ form ++ (codes "count", number count) ∷ more)

module _ {p : Platform} (o : Outside p) where
  -- `parse_agent_weights`
  unfoldable pub weights_from : Fields p → HashMap Text p.F32 → HashMap Text p.F32
  weights_from end m = m
  weights_from (field k v fs) m = elim (o.as_f32 v) [
    | some w ↦ weights_from fs (HashMap.insert k w m)
    | none ↦ weights_from fs m
  ]

  unfoldable pub parse_agent_weights : Option (Json p) → HashMap Text p.F32
  unfolding weights_from
  parse_agent_weights (some (object fs)) = weights_from fs []
  parse_agent_weights _ = []

  -- the `match` on the policy's name
  unfoldable pub policy_of : Text → Option (Json p) → ConflictPolicy p
  unfolding parse_agent_weights
  policy_of name weights =
      if text_eq name (codes "latest")
      then latest_wins
      else if text_eq name (codes "authority")
      then highest_authority
      else if text_eq name (codes "unanimous")
      then unanimous
      else if text_eq name (codes "weighted")
      then weighted_vote (parse_agent_weights weights)
      else latest_wins

  -- the options of a query: the defaults, with what the parameters say
  unfoldable pub options_of : FactumQueryParams p → p.Time → QueryOptions p
  unfolding policy_of Permission.public
  options_of q now = record {
    policy = elim (q.policy) [ none ↦ latest_wins | some name ↦ policy_of name q.agent_weights ];
    now = elim (q.as_of) [ none ↦ now | some text ↦ or_else (p.parse_time text) now ];
    min_conf = or_else q.min_confidence (p.float 0 1);
    perm = Permission.public;
  }

  -- what is answered to a query, unless it panicked
  unfoldable pub query_answer : McpHandler p → Option (ResultSet p) → Call p
  unfolding node_text
  query_answer h none = none
  query_answer h (some rs) = answers h (
      listing (map (λ r. node_text o h r.node) rs.results) (form_field o h) (length rs.results)
        ((codes "ambiguous", bool rs.ambiguous) ∷ []))

  -- `tool_query`
  unfoldable pub tool_query : McpHandler p → p.Time → Json p → Call p
  unfolding options_of query_answer query
  tool_query h now j = with_params o h (o.query_params j) λ q.
      with_parsed o h (codes "Query") [] (parse_predicate q.query) λ pattern.
        query_answer h
          (query h.store (record { pattern = pattern; entity_filter = none }) (options_of q now))

  abbrev confident : Option p.F32 → Node p → Bool
  confident none n = true
  confident (some min_conf) n = f32_le p min_conf n.confidence

  -- `tool_lookup`
  unfoldable pub tool_lookup : McpHandler p → Json p → Call p
  unfolding strip_at visible node_text
  tool_lookup h j = with_params o h (o.lookup_params j) λ q.
      let nodes =
        visible
          (filter (confident q.min_confidence) (lookup_by_entity h.store (strip_at q.entity))) in
      answers h (listing (map (node_text o h) nodes) (form_field o h) (length nodes) [])

module _ {p : Platform} where
  resource : Node p → Json p
  resource n = obj (
      text_field (codes "uri") (node_resource_uri n.id)
      ∷ text_field (codes "name") n.id
      ∷ text_field (codes "mimeType") (codes "text/plain")
      ∷ [])

  -- `handle_list_resources`
  unfoldable pub list_resources : McpHandler p → Json p
  unfolding visible all_active sort_by_text resource node_resource_uri
  list_resources h = obj (
      (
        codes "resources",
        arr (map resource (sort_by_text (λ (n : Node p). n.id) (visible (all_active h.store)))),
      )
      ∷ [])

  unfoldable pub contents : Text → Node p → Json p
  unfolding canonical
  contents uri n = obj (
      (
        codes "contents",
        arr (
            obj (
              text_field (codes "uri") uri
              ∷ text_field (codes "mimeType") (codes "text/plain")
              ∷ text_field (codes "text") (canonical n)
              ∷ [])
            ∷ []),
      )
      ∷ [])

  abbrev not_accessible : McpHandler p → Call p
  not_accessible h = fails h (invalid_params (codes "resource not found or not accessible"))

  -- the response for what the store reads
  abbrev pub node_contents : McpHandler p → Text → Result StoreError (Node p) → Call p
  node_contents h uri (err e) = not_accessible h
  node_contents h uri (ok n) =
      if is_active n.status then answers h (contents uri n) else not_accessible h

  abbrev pub resource_at : McpHandler p → Text → Option NodeId → Call p
  resource_at h uri none = fails h (invalid_params (codes "invalid resource URI: " ++ uri))
  resource_at h uri (some id) = node_contents h uri (get_with_perm h.store id Permission.public)

  -- `handle_read_resource`
  unfoldable pub read_resource : McpHandler p → Option (Json p) → Call p
  unfolding get_with_perm Permission.public get_str parse_node_resource_uri
  read_resource h none = fails h (invalid_params (codes "missing params"))
  read_resource h (some params) =
      let uri = or_else (get_str (codes "uri") params) [] in
      resource_at h uri (parse_node_resource_uri uri)
