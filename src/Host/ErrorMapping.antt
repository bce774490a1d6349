-- ===== src/Host/ErrorMapping.antt =====
-- host/error_mapping.py: what an error becomes for the MCP library, whose two exceptions are here the
-- data that they are made from. `dumps` is `json.dumps(…, ensure_ascii=False)`.
pub mod Layers
use zygisk_frida_packet_tcp.Base.{
  String, Bool, true, false, List, [], ◌∷◌, map, keep, sorted, str_eq,
}
use zygisk_frida_packet_tcp.Json.{Fields, end, ◌⇒◌⨾◌, texts, str}
use zygisk_frida_packet_tcp.Protocol.Errors.{
  ErrorLayer, protocol, execution, ErrorCode, ErrorMeta, code_value, all_codes, error_meta,
  ProtocolError, to_dict, PyError, Outcome, returns, raises, crashes,
}

-- `MCPError(INVALID_REQUEST, message, payload)`, a JSON-RPC error, or `ToolError(text)`, a result that
-- is marked as an error.
pub data McpException : Type 0 where
  mcp_error : String → Fields → McpException
  tool_error : String → McpException

abbrev pub layer_of : ProtocolError → ErrorLayer
layer_of e = (error_meta e.code).layer

module _ (dumps : Fields → String) where
  in_layer : ProtocolError → ErrorLayer → McpException
  in_layer e protocol = mcp_error e.message (to_dict e)
  in_layer e execution = tool_error (dumps (to_dict e))

  unfoldable pub to_mcp_exception : ProtocolError → McpException
  unfolding in_layer
  to_mcp_exception e = in_layer e (layer_of e)

-- What a wrapped tool ends in.
pub data Wrapped : Type 0 where
  result : Fields → Wrapped
  mapped : McpException → Wrapped
  passed : PyError → Wrapped

-- `wrap_tool`, on what the tool ended in.
unfoldable pub wrap_tool : (Fields → String) → Outcome Fields → Wrapped
wrap_tool dumps (returns body) = result body
wrap_tool dumps (raises e) = mapped (to_mcp_exception dumps e)
wrap_tool dumps (crashes x) = passed x

abbrev pub is_protocol : ErrorLayer → Bool
is_protocol protocol = true
is_protocol execution = false

abbrev pub is_execution : ErrorLayer → Bool
is_execution protocol = false
is_execution execution = true

-- The codes of a layer, as `describe_error_contract` lists them.
unfoldable pub protocol_layer_codes : List String
protocol_layer_codes =
    sorted (map code_value (keep (λ c. is_protocol (error_meta c).layer) all_codes))

unfoldable pub execution_layer_codes : List String
execution_layer_codes =
    sorted (map code_value (keep (λ c. is_execution (error_meta c).layer) all_codes))

abbrev pub describe_error_contract : Fields
unfolding protocol_layer_codes execution_layer_codes
describe_error_contract =
    "protocol_layer_codes"
    ⇒ texts protocol_layer_codes ⨾ "protocol_layer_returns"
    ⇒ str "JSON-RPC error (MCPError)" ⨾ "execution_layer_codes"
    ⇒ texts execution_layer_codes ⨾ "execution_layer_returns"
    ⇒ str "isError=true tool result (ToolError)" ⨾ "error_fields"
    ⇒ texts ("code" ∷ "layer" ∷ "message" ∷ "context" ∷ "retryable" ∷ "next_step" ∷ []) ⨾ end
