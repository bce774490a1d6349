-- ===== src/Host/ErrorMapping/Layers.antt =====
-- The mapping and the lists of codes agree.
use zygisk_frida_packet_tcp.Base.{
  String, ◌≡◌, refl, ◌⊎◌, inl, inr, true, false, keep, sorted, mem_text,
}
use zygisk_frida_packet_tcp.Json.{Fields}
use zygisk_frida_packet_tcp.Protocol.Errors.{
  ErrorLayer, protocol, execution, error_meta, ErrorCode, error_protocol_version, code_value,
  ProtocolError, to_dict,
}
use zygisk_frida_packet_tcp.Host.ErrorMapping.{
  mcp_error, tool_error, to_mcp_exception, in_layer, layer_of, McpException, protocol_layer_codes,
  execution_layer_codes,
}

-- The layer of a code, and the list that it is in.
abbrev Listed : ErrorCode → ErrorLayer → Type 0
Listed c protocol =
    (mem_text (code_value c) protocol_layer_codes ≡ true)
    × (mem_text (code_value c) execution_layer_codes ≡ false)
Listed c execution =
    (mem_text (code_value c) protocol_layer_codes ≡ false)
    × (mem_text (code_value c) execution_layer_codes ≡ true)

Listed-layer : (c : ErrorCode) → Listed c (error_meta c).layer
unfolding protocol_layer_codes execution_layer_codes sorted keep mem_text
Listed-layer error_protocol_version = (refl, refl)
Listed-layer _ = (refl, refl)

-- How an error of a layer is mapped.
abbrev pub MappedBy : (Fields → String) → ProtocolError → McpException → Type 0
MappedBy dumps e x =
    ((mem_text (code_value e.code) protocol_layer_codes ≡ true)
      × (mem_text (code_value e.code) execution_layer_codes ≡ false)
      × (x ≡ mcp_error e.message (to_dict e)))
    ⊎ ((mem_text (code_value e.code) protocol_layer_codes ≡ false)
        × (mem_text (code_value e.code) execution_layer_codes ≡ true)
        × (x ≡ tool_error (dumps (to_dict e))))

in_layer-MappedBy :
    (dumps : Fields → String) (e : ProtocolError) (l : ErrorLayer)
    → Listed e.code l
    → MappedBy dumps e (in_layer dumps e l)
unfolding in_layer
in_layer-MappedBy dumps e protocol listed = inl (listed.0, listed.1, refl)
in_layer-MappedBy dumps e execution listed = inr (listed.0, listed.1, refl)

-- An error becomes a JSON-RPC error with all its fields if its code is listed for the protocol layer
-- and not for the other, and a marked result with all its fields written out if it is listed
-- for the execution layer only; every code is in exactly one of the lists.
pub to_mcp_exception-MappedBy :
    (dumps : Fields → String) (e : ProtocolError) → MappedBy dumps e (to_mcp_exception dumps e)
unfolding to_mcp_exception
to_mcp_exception-MappedBy dumps e = in_layer-MappedBy dumps e (layer_of e) (Listed-layer e.code)
