-- ===== src/Mcp/Handler.antt =====
-- crates/factum-mcp/src/handler.rs: the state of the server, and what its tools share.
use factum.Prelude.{
  ℕ, zero, suc, ◌+◌, ◌-◌, ◌/◌, ◌%◌, ◌^◌, ◌&&◌, Option, none, some, List, [], ◌∷◌, ◌++◌, Text, codes,
  eqb, ltb, if◌then◌else◌, filter, Result, ok, err,
}
use factum.Core.Platform.{Platform}
use factum.Core.Types.{Node, PredicateHead, is_active}
use factum.Core.Compact.{from_node}
use factum.Core.Canonical.Nodes.{canonical}
use factum.Core.Parser.Base.{Outcome, done, failed, out_of_fuel}
use factum.Rt.Permission
use factum.Rt.Store.{FactumStore, StoreError, storage}
use factum.Rt.Store.Read.{check_permission}
use factum.Rt.Review.{ReviewQueue, ReviewEventType, ReviewPriority, enqueue}
use factum.Mcp.Json.{Json, string}
use factum.Mcp.Protocol.{
  JsonRpcResponse, JsonRpcError, invalid_params, internal, success, failure, structured,
}
use factum.Mcp.Params.{Outside}

pub data PreferredForm : Type 0 where
  compact canonical_form : PreferredForm

pub record McpHandler (p : Platform) : Type 0 where
  pub store : FactumStore p
  pub preferred_form : PreferredForm
  pub review_queue : ReviewQueue

-- What a tool answers, and the server behind it; none is a panic, or fuel that ran out.
abbrev pub Call : Platform → Type 0
Call p = Option (Result JsonRpcError (Json p) × McpHandler p)

-- `McpHandler::new`; the queue is given.
abbrev pub new_handler : {p : Platform} → FactumStore p → ReviewQueue → McpHandler p
new_handler s q = record { store = s; preferred_form = compact; review_queue = q }

unfoldable pub predicate_head_str : PredicateHead → Text
predicate_head_str (PredicateHead.name n) = n
predicate_head_str (PredicateHead.id i) = codes "<morpheme-id>"

abbrev hex_digit : ℕ → ℕ
hex_digit d = if ltb d 10 then b'0' + d else b'a' + (d - 10)

-- `{:0kx}` of a number below 16^k
unfoldable pub hex : ℕ → ℕ → Text
hex zero n = []
hex (suc k) n = hex k (n / 16) ++ hex_digit (n % 16) ∷ []

-- `strip_prefix('@').unwrap_or`
unfoldable pub strip_at : Text → Text
strip_at [] = []
strip_at (c ∷ cs) = if eqb c b'@' then cs else c ∷ cs

module _ {p : Platform} where
  abbrev pub with_store : McpHandler p → FactumStore p → McpHandler p
  with_store h s = record h { store = s }

  abbrev pub fails : McpHandler p → JsonRpcError → Call p
  fails h e = some (err e, h)

  -- `ok` with a store, and the same server around it
  abbrev pub answers : McpHandler p → Json p → Call p
  answers h j = some (ok j, h)

  -- `review_queue.enqueue`
  unfoldable pub enqueue_event :
      McpHandler p → ReviewEventType → ReviewPriority → List Text → Text → p.Time → McpHandler p
  unfolding enqueue
  enqueue_event h kind priority ids reason now = record h {
    review_queue = (enqueue kind priority ids reason (p.timestamp now) h.review_queue).1;
  }

  -- the nodes that the public may read
  unfoldable pub visible : List (Node p) → List (Node p)
  unfolding check_permission Permission.public
  visible ns = filter (λ n. is_active n.status && check_permission n Permission.public) ns

module _ {p : Platform} (o : Outside p) where
  -- `generate_content_id`
  unfoldable pub generate_content_id : Text → Text
  unfolding hex
  generate_content_id canonical_text =
      codes "auto-" ++ hex 12 (o.default_hash canonical_text % 2 ^ 48)

  -- `store_error_to_jsonrpc`
  unfoldable pub store_error_to_jsonrpc : StoreError → JsonRpcError
  store_error_to_jsonrpc (storage e) = internal (o.store_error_text (storage e))
  store_error_to_jsonrpc e = invalid_params (o.store_error_text e)

  -- the early return on parameters that serde refuses
  abbrev pub with_params : {A : Type 0} → McpHandler p → Result Text A → (A → Call p) → Call p
  with_params h (ok a) k = k a
  with_params h (err e) k = fails h (invalid_params e)

  -- the early return on a text that the parser refuses; a batch has a suffix
  abbrev pub with_parsed :
      {A : Type 0} → McpHandler p → Text → Text → Outcome A → (A → Call p) → Call p
  with_parsed h word suffix (done a ts) k = k a
  with_parsed h word suffix (failed e) k =
      fails h (invalid_params (word ++ codes " parse error: " ++ o.parse_error_text e ++ suffix))
  with_parsed h word suffix out_of_fuel k = none

  -- a call of the store that writes: its answer, or its error, and the store that it leaves
  abbrev pub with_result :
      {A : Type 0}
      → McpHandler p
      → Result StoreError A × FactumStore p
      → (A → McpHandler p → Call p)
      → Call p
  with_result h (ok a, s) k = k a (with_store h s)
  with_result h (err e, s) k = fails (with_store h s) (store_error_to_jsonrpc e)

  -- one node in the form that the client prefers
  unfoldable pub node_text : McpHandler p → Node p → Json p
  unfolding canonical from_node
  node_text h n = elim (h.preferred_form) [
    | canonical_form ↦ string (canonical n)
    | compact ↦ string (o.compact_text (from_node o.format_day n h.store.registry))
  ]

  abbrev pub form_field : McpHandler p → List (Text × Json p)
  form_field h = elim (h.preferred_form) [
    | canonical_form ↦ (codes "form", string (codes "canonical")) ∷ []
    | compact ↦ []
  ]

  -- the response for what a tool answers
  abbrev pub respond : Json p → Result JsonRpcError (Json p) → JsonRpcResponse p
  respond id (ok j) = success id j
  respond id (err e) = failure id e

  -- the answer of a tool as a tool result
  abbrev pub as_tool_result : Call p → Call p
  as_tool_result none = none
  as_tool_result (some (ok j, h)) = some (ok (structured o.json_text j), h)
  as_tool_result (some (err e, h)) = some (err e, h)
