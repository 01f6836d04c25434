-- ===== src/Mcp/Protocol.antt =====
-- crates/factum-mcp/src/protocol.rs: requests and responses of JSON-RPC 2.0.
use factum.Prelude.{Option, none, some, [], ◌∷◌, Text, codes, false, ℤ, negsuc}
use factum.Core.Platform.{Platform}
use factum.Mcp.Json.{Json, bool, string, obj, arr}

pub record JsonRpcRequest (p : Platform) : Type 0 where
  pub id : Json p
  pub method : Text
  pub params : Option (Json p)

pub record JsonRpcError : Type 0 where
  pub code : ℤ
  pub message : Text

-- `jsonrpc` is "2.0" and `data` of an error is absent in every response.
pub record JsonRpcResponse (p : Platform) : Type 0 where
  pub id : Json p
  pub result : Option (Json p)
  pub error : Option JsonRpcError

-- -32601, -32602 and -32603
abbrev pub method_not_found : JsonRpcError
method_not_found = record { code = negsuc 32600; message = codes "Method not found" }

abbrev pub invalid_params : Text → JsonRpcError
invalid_params msg = record { code = negsuc 32601; message = msg }

abbrev pub internal : Text → JsonRpcError
internal msg = record { code = negsuc 32602; message = msg }

module _ {p : Platform} where
  -- `JsonRpcResponse::success`
  abbrev pub success : Json p → Json p → JsonRpcResponse p
  success id result = record { id = id; result = some result; error = none }

  -- `JsonRpcResponse::error`
  abbrev pub failure : Json p → JsonRpcError → JsonRpcResponse p
  failure id e = record { id = id; result = none; error = some e }

  -- `ToolResult::structured`, as a value; `to_text` is the text of a value.
  unfoldable pub structured : (Json p → Text) → Json p → Json p
  structured to_text v = obj (
      (
        codes "content",
        arr (
            obj ((codes "type", string (codes "text")) ∷ (codes "text", string (to_text v)) ∷ [])
            ∷ []),
      )
      ∷ (codes "structuredContent", v)
      ∷ (codes "isError", bool false)
      ∷ [])
