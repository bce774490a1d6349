-- ===== src/Tools/Handlers.antt =====
-- tools/handlers.py: the names of the methods of `ToolHandlers`, one for each tool, and the name that
-- a tool's method must have.
pub mod Calls
use Prim.Native.Char.{code}
use Prim.Native.String.{String, ◌++◌ as append_text}
use zygisk_frida_packet_tcp.Base.{List, [], ◌∷◌, ◌==◌, if◌then◌else◌}

-- `tool_name.replace(".", "_")`.
unfoldable pub method_name_for : String → String
method_name_for String.[] = ""
method_name_for (String.◌∷◌ c s) =
    if code c == b'.' then append_text "_" (method_name_for s) else String.◌∷◌ c (method_name_for s)

abbrev pub handler_methods : List String
handler_methods =
    "device_list" ∷ "device_info" ∷ "apk_list" ∷ "apk_launch" ∷ "apk_stop" ∷ "session_list"
    ∷ "session_info" ∷ "session_capabilities" ∷ "process_list" ∷ "process_info" ∷ "process_modules"
    ∷ "process_threads" ∷ "runtime_status" ∷ "runtime_hook" ∷ "runtime_unhook" ∷ "runtime_trace"
    ∷ "memory_read" ∷ "memory_write" ∷ "memory_search" ∷ "memory_maps" ∷ "memory_dump"
    ∷ "network_capture_start" ∷ "network_capture_stop" ∷ "network_connections" ∷ "network_dns"
    ∷ "packet_list" ∷ "packet_get" ∷ "packet_hex" ∷ "packet_modify" ∷ "packet_export"
    ∷ "artifact_get" ∷ "artifact_list" ∷ "job_status" ∷ "job_result" ∷ "job_cancel" ∷ []
