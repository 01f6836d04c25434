-- ===== src/Mcp/Params.antt =====
-- crates/factum-mcp/src/tools.rs: the parameters of the tools, and what the server takes from
-- outside.
use factum.Prelude.{
  ℕ, Option, none, some, List, [], ◌∷◌, ◌++◌, Text, codes, Result, eqb, if◌then◌else◌,
}
use factum.Core.Platform.{Platform}
use factum.Core.Types.{Provenance}
use factum.Core.Parser.Base.{ParseError}
use factum.Core.Compact.{CompactNode}
use factum.Rt.Store.{StoreError}
use factum.Mcp.Json.{Json}

pub record FactumQueryParams (p : Platform) : Type 0 where
  pub query : Text
  pub policy : Option Text
  pub as_of : Option Text
  pub min_confidence : Option p.F32
  pub agent_weights : Option (Json p)

pub record FactumLookupParams (p : Platform) : Type 0 where
  pub entity : Text
  pub min_confidence : Option p.F32

pub record FactumUpsertParams : Type 0 where
  pub node : Text
  pub entity : Text
  pub predicate : Text

pub record FactumSearchParams : Type 0 where
  pub mode : Text
  pub keyword : Option Text
  pub limit : Option ℕ

pub record FactumRetractParams : Type 0 where
  pub node_id : Text
  pub max_cascade_nodes : Option ℕ

pub record FactumAssertParams (p : Platform) : Type 0 where
  pub predicate : Text
  pub by : Option Text
  pub confidence : Option p.F32
  pub note : Option Text

-- What is not in the source: the readers and writers that serde and thiserror derive, Unicode's
-- lower case, the standard library's default hash of a text (a u64) and the day of an instant.
pub record Outside (p : Platform) : Type 0 where
  pub query_params : Json p → Result Text (FactumQueryParams p)
  pub lookup_params : Json p → Result Text (FactumLookupParams p)
  pub insert_params : Json p → Result Text Text
  pub batch_params : Json p → Result Text (List Text)
  pub upsert_params : Json p → Result Text FactumUpsertParams
  pub search_params : Json p → Result Text FactumSearchParams
  pub retract_params : Json p → Result Text FactumRetractParams
  pub assert_params : Json p → Result Text (FactumAssertParams p)
  pub json_text : Json p → Text
  -- `as_f64` and `as f32` of a number
  pub as_f32 : Json p → Option p.F32
  pub compact_text : CompactNode p → Text
  pub store_error_text : StoreError → Text
  pub parse_error_text : ParseError → Text
  pub debug_provenance : Provenance → Text
  pub to_lowercase : Text → Text
  pub default_hash : Text → ℕ
  pub format_day : p.Time → Text
  -- the table of tools, and the version of the package
  pub tool_definitions : Json p
  pub version : Text

abbrev pub uri_prefix : Text
uri_prefix = codes "factum://nodes/"

-- `node_resource_uri`
unfoldable pub node_resource_uri : Text → Text
node_resource_uri id = uri_prefix ++ id

-- `strip_prefix`
unfoldable pub strip_prefix : Text → Text → Option Text
strip_prefix [] s = some s
strip_prefix (c ∷ cs) [] = none
strip_prefix (c ∷ cs) (x ∷ xs) = if eqb x c then strip_prefix cs xs else none

-- `parse_node_resource_uri`
unfoldable pub parse_node_resource_uri : Text → Option Text
unfolding strip_prefix
parse_node_resource_uri uri = strip_prefix uri_prefix uri
