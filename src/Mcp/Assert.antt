-- ===== src/Mcp/Assert.antt =====
-- `tool_assert` of crates/factum-mcp/src/handler.rs: a fact under an identifier that its content
-- gives.
use factum.Prelude.{
  Option, none, some, List, [], ◌∷◌, ◌++◌, Text, codes, text_eq, if◌then◌else◌, Result, ok, err,
}
use factum.Core.Platform.{Platform}
use factum.Core.Types.{NodeId, Node, asserted, extracted, Predicate, new_node}
use factum.Core.Calibration.{default_confidence_for_provenance, check_confidence_band}
use factum.Core.Canonical.{canonical_predicate}
use factum.Core.Parser.{parse_predicate}
use factum.Rt.Store.{FactumStore, StoreError, already_exists}
use factum.Rt.Store.Write.{insert_node}
use factum.Rt.Store.Read.{get}
use factum.Rt.Review.{normal, band_clipping_exceeded}
use factum.Mcp.Json.{Json, obj}
use factum.Mcp.Params.{Outside, FactumAssertParams}
use factum.Mcp.Handler.{
  McpHandler, Call, with_store, fails, answers, enqueue_event, generate_content_id,
  store_error_to_jsonrpc, with_params, with_parsed,
}
use factum.Mcp.Write.{or_else, text_field, em_dash}

-- the principal that stands behind a stored node
unfoldable pub existing_principal : {p : Platform} → Option (Node p) → Text
existing_principal none = codes "unknown"
existing_principal (some n) = elim (n.provenance) [
  | asserted by ↦ by
  | extracted doc span model ↦ model.name
  | _ ↦ codes "unknown"
]

module _ {p : Platform} (o : Outside p) where
  abbrev pub principal : FactumAssertParams p → Text
  principal q = or_else q.by (codes "system")

  -- the node that is inserted
  unfoldable pub asserted_node : FactumAssertParams p → Predicate p → Node p
  unfolding generate_content_id canonical_predicate new_node default_confidence_for_provenance
  asserted_node q pred = record (new_node (generate_content_id o (canonical_predicate pred)) pred) {
    provenance = asserted (principal q);
    confidence =
        or_else q.confidence (default_confidence_for_provenance p (asserted (principal q)));
    note = q.note;
  }

  -- the event for a confidence outside of its band
  unfoldable pub report_band : Node p → p.Time → McpHandler p → McpHandler p
  unfolding enqueue_event check_confidence_band
  report_band n now h = elim (check_confidence_band p n.provenance n.confidence) [
    | ok u ↦ h
    | err band_warning ↦
        enqueue_event h band_clipping_exceeded normal (n.id ∷ [])
          (codes "Confidence "
            ++ p.format_f32 n.confidence
            ++ codes " for provenance "
            ++ o.debug_provenance n.provenance
            ++ codes " exceeds band. "
            ++ band_warning)
          now
  ]

  abbrev about : NodeId → Text → Text → Text → List (Text × Json p) → Json p
  about id canon action status more = obj (
      text_field (codes "action") action
      ∷ text_field (codes "node_id") id
      ∷ text_field (codes "predicate") canon
      ∷ text_field (codes "status") status
      ∷ more)

  -- what is answered when the fact is there already
  unfoldable pub already_there : NodeId → Text → Text → Text → Json p
  already_there id canon by old =
      if text_eq old by
      then about id canon (codes "duplicate")
          (codes "fact already asserted by the same principal (no-op)") []
      else about id canon (codes "corroborated")
          (codes "fact already exists "
            ++ em_dash
            ++ codes " your assertion is recorded as corroboration")
          (text_field (codes "corroborated_by") old
            ∷ text_field (codes "your_principal") by
            ∷ text_field (codes "hint") (
                codes
                  "use factum_insert with a custom node ID to add your own provenance, or use WeightedVote policy in queries to leverage multiple principals")
            ∷ [])

  -- what follows the insertion
  unfoldable pub assert_result :
      McpHandler p → Text → Node p → Text → Result StoreError Unit × FactumStore p → Call p
  unfolding existing_principal already_there get store_error_to_jsonrpc
  assert_result h canon n by (ok u, s) =
      answers (with_store h s)
        (about n.id canon (codes "asserted") (codes "fact asserted with auto-generated ID") [])
  assert_result h canon n by (err e, s) = elim e [
    | already_exists id ↦
        answers (with_store h s) (already_there n.id canon by (existing_principal (get s n.id)))
    | other ↦ fails (with_store h s) (store_error_to_jsonrpc o other)
  ]

  -- `tool_assert`
  unfoldable pub tool_assert : McpHandler p → p.Time → Json p → Call p
  unfolding asserted_node report_band assert_result
  tool_assert h now j = with_params o h (o.assert_params j) λ q.
      with_parsed o h (codes "Predicate") [] (parse_predicate q.predicate) λ pred.
        let n = asserted_node q pred in
        assert_result (report_band n now h) (canonical_predicate pred) n (principal q)
          (insert_node h.store n)
