-- ===== src/Mcp/Review.antt =====
-- `tool_review` of crates/factum-mcp/src/handler.rs: a human's decisions on the queue.
use factum.Prelude.{
  ℕ, Option, none, some, List, [], ◌∷◌, ◌++◌, Text, codes, text_eq, if◌then◌else◌, length, map,
  Result, ok, err,
}
use factum.Prelude.Digits.{to_string}
use factum.Core.Platform.{Platform}
use factum.Core.Types.Display.{debug_status}
use factum.Core.Canonical.Nodes.{canonical}
use factum.Rt.Review
use factum.Rt.Review.{
  ReviewEvent, ReviewQueue, approve, reject, list_pending, list_all, pending_count, status_str,
  type_str, priority_str,
}
use factum.Rt.Store.{FactumStore, StoreError}
use factum.Rt.Store.Read.{get}
use factum.Rt.Store.Cascade.{RetractResult, retract_with_limit, default_max_cascade_nodes}
use factum.Mcp.Json.{Json, number, signed, float, strings, arr, obj, get_str, get_u64}
use factum.Mcp.Protocol.{invalid_params}
use factum.Mcp.Params.{Outside}
use factum.Mcp.Handler.{McpHandler, Call, with_store, fails, answers}
use factum.Mcp.Write.{or_else, text_field, em_dash}

-- What the loop of `reject` carries: the store, `retracted_nodes` and `errors`.
pub record Sweep (p : Platform) : Type 0 where
  pub store : FactumStore p
  pub retracted_nodes : List Text
  pub errors : List Text

abbrev not_found_event : ℕ → Text
not_found_event i = codes "event " ++ to_string i ++ codes " not found"

module _ {p : Platform} where
  abbrev event_fields : ReviewEvent → List (Text × Json p) → Json p
  event_fields e more = obj (
      (codes "id", number e.id)
      ∷ text_field (codes "event_type") (type_str e.event_type)
      ∷ text_field (codes "priority") (priority_str e.priority)
      ∷ (codes "node_ids", strings e.node_ids)
      ∷ text_field (codes "reason") e.reason
      ∷ (codes "timestamp", signed e.timestamp)
      ∷ more)

  pending_event : ReviewEvent → Json p
  pending_event e = event_fields e []

  full_event : ReviewEvent → Json p
  full_event e = event_fields e (text_field (codes "status") (status_str e.status) ∷ [])

  -- the early return on a missing `event_id`
  abbrev pub with_event_id : McpHandler p → Text → Option ℕ → (ℕ → Call p) → Call p
  with_event_id h mode none k =
      fails h (invalid_params (codes "event_id is required for " ++ mode ++ codes " mode"))
  with_event_id h mode (some i) k = k i

  -- a decision of the queue: its error, or what follows
  abbrev pub decided :
      McpHandler p → Result Text Unit × ReviewQueue → (McpHandler p → Call p) → Call p
  decided h (err e, q) k = fails (record h { review_queue = q }) (invalid_params e)
  decided h (ok u, q) k = k (record h { review_queue = q })

  -- mode "approve"
  unfoldable pub approve_event : McpHandler p → ℕ → Call p
  unfolding approve
  approve_event h i = decided h (approve h.review_queue i) λ h'. answers h' (
      obj (
        text_field (codes "action") (codes "approved")
        ∷ (codes "event_id", number i)
        ∷ text_field (codes "status")
            (codes "event approved " ++ em_dash ++ codes " fact is allowed to stand")
        ∷ []))

module _ {p : Platform} (o : Outside p) where
  -- one round of the loop, on what `retract` returned
  abbrev pub swept :
      Text → List Text → List Text → Result StoreError RetractResult × FactumStore p → Sweep p
  swept id done errs (ok r, s) = record {
    store = s;
    retracted_nodes = done ++ r.retracted;
    errors = errs;
  }
  swept id done errs (err e, s) = record {
    store = s;
    retracted_nodes = done;
    errors = errs ++ (id ++ codes ": " ++ o.store_error_text e) ∷ [];
  }

  abbrev pub then_retract :
      Option (Result StoreError RetractResult × FactumStore p)
      → (Result StoreError RetractResult × FactumStore p → Option (Sweep p))
      → Option (Sweep p)
  then_retract none k = none
  then_retract (some r) k = k r

  -- the loop over the nodes of a rejected event
  unfoldable pub retract_each : List Text → Sweep p → Option (Sweep p)
  retract_each [] w = some w
  retract_each (id ∷ ids) w =
      then_retract (retract_with_limit w.store id default_max_cascade_nodes)
        (λ r. retract_each ids (swept id w.retracted_nodes w.errors r))

  unfoldable pub rejected_answer : ℕ → Sweep p → Json p
  rejected_answer i w = obj (
      text_field (codes "action") (codes "rejected")
      ∷ (codes "event_id", number i)
      ∷ (codes "retracted_nodes", strings w.retracted_nodes)
      ∷ (codes "retracted_count", number (length w.retracted_nodes))
      ∷ (codes "errors", strings w.errors)
      ∷ text_field (codes "status")
          (codes "event rejected " ++ em_dash ++ codes " associated nodes retracted")
      ∷ [])

  abbrev pub swept_answer : McpHandler p → ℕ → Option (Sweep p) → Call p
  swept_answer h i none = none
  swept_answer h i (some w) = answers (with_store h w.store) (rejected_answer i w)

  -- the retractions behind a decision
  unfoldable pub reject_nodes : McpHandler p → ℕ → Option ReviewEvent → Call p
  unfolding retract_each to_string
  reject_nodes h i none = fails h (invalid_params (not_found_event i))
  reject_nodes h i (some e) =
      swept_answer h i
        (retract_each e.node_ids (record { store = h.store; retracted_nodes = []; errors = [] }))

  -- mode "reject"
  unfoldable pub reject_event : McpHandler p → ℕ → Call p
  unfolding reject Review.get reject_nodes
  reject_event h i =
      decided h (reject h.review_queue i) λ h'. reject_nodes h' i (Review.get h'.review_queue i)

  -- what is shown of the nodes of an event that are there
  unfoldable pub node_details : FactumStore p → List Text → List (Json p)
  unfolding get canonical debug_status
  node_details s [] = []
  node_details s (id ∷ ids) = elim (get s id) [
    | none ↦ node_details s ids
    | some n ↦
        obj (
          text_field (codes "node_id") id
          ∷ text_field (codes "canonical") (canonical n)
          ∷ text_field (codes "status") (debug_status n.status)
          ∷ (codes "confidence", float n.confidence)
          ∷ text_field (codes "provenance") (o.debug_provenance n.provenance)
          ∷ [])
        ∷ node_details s ids
  ]

  -- mode "get_detail", on the event
  unfoldable pub event_detail : McpHandler p → ℕ → Option ReviewEvent → Call p
  unfolding node_details full_event to_string
  event_detail h i none = fails h (invalid_params (not_found_event i))
  event_detail h i (some e) = answers h (
      obj (
        (codes "event", full_event e)
        ∷ (codes "node_details", arr (node_details h.store e.node_ids))
        ∷ []))

  -- modes "list_pending" and "list_all"
  pending_answer : McpHandler p → Json p
  unfolding list_pending pending_event
  pending_answer h =
      let pending = list_pending h.review_queue in
      obj (
        (codes "pending", arr (map pending_event pending))
        ∷ (codes "count", number (length pending))
        ∷ [])

  all_answer : McpHandler p → Json p
  unfolding list_all full_event pending_count
  all_answer h =
      let all = list_all h.review_queue in
      obj (
        (codes "events", arr (map full_event all))
        ∷ (codes "count", number (length all))
        ∷ (codes "pending_count", number (pending_count h.review_queue))
        ∷ [])

  -- `tool_review`
  unfoldable pub tool_review : McpHandler p → Json p → Call p
  unfolding approve_event reject_event event_detail Review.get get_u64 pending_answer all_answer
      get_str
  tool_review h j =
      let event_id = get_u64 (codes "event_id") j in
      let mode = or_else (get_str (codes "mode") j) (codes "list_pending") in
      if text_eq mode (codes "list_pending")
      then answers h (pending_answer h)
      else if text_eq mode (codes "list_all")
      then answers h (all_answer h)
      else if text_eq mode (codes "approve")
      then with_event_id h mode event_id (approve_event h)
      else if text_eq mode (codes "reject")
      then with_event_id h mode event_id (reject_event h)
      else if text_eq mode (codes "get_detail")
      then with_event_id h mode event_id (λ i. event_detail h i (Review.get h.review_queue i))
      else fails h (
          invalid_params (
            codes "unknown mode '"
            ++ mode
            ++ codes "'. Valid modes: list_pending, list_all, approve, reject, get_detail"))
