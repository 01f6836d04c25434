-- ===== src/Mcp/Write.antt =====
-- The tools of crates/factum-mcp/src/handler.rs that write: insert, insert_batch, retract, upsert,
-- assert.
use factum.Prelude.{
  ℕ, ◌+◌, true, Option, none, some, List, [], ◌∷◌, ◌++◌, Text, codes, text_eq, if◌then◌else◌,
  filter, length, map, Result, ok, err,
}
use factum.Prelude.Digits.{to_string}
use factum.Core.Platform.{Platform}
use factum.Core.Types.{NodeId, Node, head_of}
use factum.Core.Canonical.{canonical_predicate}
use factum.Core.Parser.{parse}
use factum.Rt.Store.{FactumStore, StoreError}
use factum.Rt.Store.Write.{insert_node, insert_batch}
use factum.Rt.Store.Read.{lookup_by_entity}
use factum.Rt.Store.Cascade.{RetractResult, retract_with_limit, default_max_cascade_nodes}
use factum.Rt.Review.{normal, high, ambiguous_arbitration, cascade_truncated}
use factum.Mcp.Json.{Json, string, number, bool, arr, strings, obj}
use factum.Mcp.Protocol.{invalid_params}
use factum.Mcp.Params.{Outside, FactumUpsertParams}
use factum.Mcp.Handler.{
  McpHandler, Call, predicate_head_str, strip_at, with_store, fails, answers, enqueue_event,
  visible, generate_content_id, store_error_to_jsonrpc, with_params, with_parsed, with_result,
}

abbrev pub or_else {ℓ} : {A : Type ℓ} → Option A → A → A
or_else none d = d
or_else (some a) d = a

-- the UTF-8 bytes of a dash
abbrev pub em_dash : Text
em_dash = 0xE2 ∷ 0x80 ∷ 0x94 ∷ []

-- a text field of an answer
abbrev pub text_field : {p : Platform} → Text → Text → Text × Json p
text_field k v = (k, string v)

module _ {p : Platform} (o : Outside p) where
  -- the first of the parsed nodes, or the early return
  abbrev pub with_first : McpHandler p → List (Node p) → (Node p → Call p) → Call p
  with_first h [] k = fails h (invalid_params (codes "no nodes parsed"))
  with_first h (n ∷ ns) k = k n

  -- the node with an identifier of its own, in place of "auto"
  unfoldable pub auto_id : Node p → Node p × Option Text
  unfolding generate_content_id canonical_predicate
  auto_id n =
      let generated = generate_content_id o (canonical_predicate n.predicate) in
      if text_eq n.id (codes "auto")
      then (record n { id = generated }, some generated)
      else (n, none)

  inserted : Option Text → Json p
  inserted none = obj (text_field (codes "status") (codes "Node inserted successfully") ∷ [])
  inserted (some id) = obj (
      text_field (codes "status") (codes "Node inserted successfully")
      ∷ text_field (codes "node_id") id
      ∷ (codes "auto_generated", bool true)
      ∷ [])

  -- `tool_insert`
  unfoldable pub tool_insert : McpHandler p → Json p → Call p
  unfolding auto_id inserted store_error_to_jsonrpc
  tool_insert h j = with_params o h (o.insert_params j) λ text.
      with_parsed o h (codes "Node") [] (parse text) λ ns. with_first h ns λ n.
        with_result o h (insert_node h.store (auto_id n).0)
          λ _ h'. answers h' (inserted (auto_id n).1)

  -- the loop over the texts of a batch: all their nodes, or the first refusal
  unfoldable pub parse_batch : McpHandler p → ℕ → List Text → (List (Node p) → Call p) → Call p
  unfolding to_string
  parse_batch h i [] k = k []
  parse_batch h i (t ∷ ts) k =
      with_parsed o h (codes "Node " ++ to_string i) (codes " (batch rejected)") (parse t)
        λ ns. parse_batch h (i + 1) ts (λ ms. k (ns ++ ms))

  -- what follows that loop
  unfoldable pub insert_all : McpHandler p → List Text → List (Node p) → Call p
  unfolding store_error_to_jsonrpc
  insert_all h texts [] = fails h (invalid_params (codes "no nodes parsed from batch"))
  insert_all h texts (n ∷ ns) = with_result o h (insert_batch h.store (n ∷ ns)) λ _ h'. answers h' (
      obj (
        (codes "inserted", number (length texts))
        ∷ text_field (codes "status") (codes "all nodes inserted successfully")
        ∷ []))

  -- `tool_insert_batch`
  unfoldable pub tool_insert_batch : McpHandler p → Json p → Call p
  unfolding parse_batch insert_all
  tool_insert_batch h j =
      with_params o h (o.batch_params j) λ texts. parse_batch h 0 texts (insert_all h texts)

  -- the event for a cascade that was cut short
  unfoldable pub report_truncated : Text → RetractResult → p.Time → McpHandler p → McpHandler p
  unfolding enqueue_event to_string
  report_truncated id r now h =
      if r.truncated
      then enqueue_event h cascade_truncated high (id ∷ [])
          (codes "Cascade retraction truncated at "
            ++ to_string (length r.retracted)
            ++ codes " nodes (depth "
            ++ to_string r.depth_reached
            ++ codes
                "). Knowledge base may be in a partially-retracted state. Review and decide whether to continue retraction or restore.")
          now
      else h

  retracted_answer : RetractResult → Json p
  retracted_answer r = obj (
      (codes "retracted", strings r.retracted)
      ∷ (codes "count", number (length r.retracted))
      ∷ (codes "truncated", bool r.truncated)
      ∷ (codes "depth_reached", number r.depth_reached)
      ∷ [])

  -- a retraction that came to an end
  abbrev pub ended :
      {A : Type 0}
      → Option (Result StoreError A × FactumStore p)
      → (Result StoreError A × FactumStore p → Call p)
      → Call p
  ended none k = none
  ended (some r) k = k r

  -- `tool_retract`
  unfoldable pub tool_retract : McpHandler p → p.Time → Json p → Call p
  unfolding report_truncated retracted_answer store_error_to_jsonrpc
  tool_retract h now j = with_params o h (o.retract_params j) λ q.
      ended (retract_with_limit h.store q.node_id (or_else q.max_cascade_nodes 100)) λ res.
        with_result o h res
          λ r h'. answers (report_truncated q.node_id r now h') (retracted_answer r)

  -- the nodes that `tool_upsert` may replace
  unfoldable pub matching : McpHandler p → FactumUpsertParams → List (Node p)
  unfolding visible strip_at predicate_head_str lookup_by_entity
  matching h q =
      filter (λ n. text_eq (predicate_head_str (head_of n.predicate)) q.predicate)
        (visible (lookup_by_entity h.store (strip_at q.entity)))

  abbrev ids_of : List (Node p) → List NodeId
  ids_of ns = map (λ n. n.id) ns

  -- the answer behind the retraction of the old node
  updated : NodeId → Result StoreError RetractResult → Json p
  updated old (ok r) = obj (
      text_field (codes "action") (codes "updated")
      ∷ (codes "retracted", strings r.retracted)
      ∷ (codes "retracted_count", number (length r.retracted))
      ∷ text_field (codes "status") (codes "old node retracted, new node inserted")
      ∷ [])
  updated old (err e) = obj (
      text_field (codes "action") (codes "partial")
      ∷ text_field (codes "warning") (codes "new node inserted but old node retraction failed")
      ∷ text_field (codes "error") (o.store_error_text e)
      ∷ text_field (codes "old_node_id") old
      ∷ [])

  ambiguous : List (Node p) → Json p
  ambiguous ns = obj (
      text_field (codes "action") (codes "ambiguous")
      ∷ (codes "matching_nodes", strings (ids_of ns))
      ∷ (codes "count", number (length ns))
      ∷ text_field (codes "status") (
          codes "multiple matching nodes found "
          ++ em_dash
          ++ codes " refusing to guess. Retract specific nodes manually or narrow the predicate.")
      ∷ [])

  ambiguous_reason : List (Node p) → Text
  ambiguous_reason ns =
      codes "Upsert found "
      ++ to_string (length ns)
      ++ codes
          " matching nodes with conflicting values. System refused to guess. Retract specific nodes manually or narrow the predicate."

  -- the `match` on the matching nodes
  unfoldable pub upsert_over : McpHandler p → p.Time → Node p → List (Node p) → Call p
  unfolding updated ambiguous ambiguous_reason enqueue_event store_error_to_jsonrpc
  upsert_over h now n [] = with_result o h (insert_node h.store n) λ _ h'. answers h' (
      obj (
        text_field (codes "action") (codes "inserted")
        ∷ (codes "retracted", arr [])
        ∷ text_field (codes "status") (codes "no existing node found, inserted as new")
        ∷ []))
  upsert_over h now n (old ∷ []) = with_result o h (insert_node h.store n) λ _ h'.
      ended (retract_with_limit h'.store old.id default_max_cascade_nodes)
        λ res. answers (with_store h' res.1) (updated old.id res.0)
  upsert_over h now n (m ∷ m' ∷ ms) =
      answers
        (enqueue_event h ambiguous_arbitration normal (ids_of (m ∷ m' ∷ ms))
          (ambiguous_reason (m ∷ m' ∷ ms)) now)
        (ambiguous (m ∷ m' ∷ ms))

  -- `tool_upsert`
  unfoldable pub tool_upsert : McpHandler p → p.Time → Json p → Call p
  unfolding matching upsert_over
  tool_upsert h now j = with_params o h (o.upsert_params j) λ q.
      with_parsed o h (codes "Node") [] (parse q.node)
        λ ns. with_first h ns λ n. upsert_over h now n (matching h q)
