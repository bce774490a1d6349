-- ===== src/Tools/Handlers/Calls.antt =====
-- tools/handlers.py: the calls that the methods of `ToolHandlers` make. A call of a tool is its
-- name with its arguments.
pub mod Specified
use zygisk_frida_packet_tcp.Base.{String, Bool, Option, none, some, ℤ}
use zygisk_frida_packet_tcp.Json.{Json, bool, int, str, obj, null, Fields, end, ◌⇒◌⨾◌}

pub data Invocation : Type 0 where
  device_list device_info session_list session_info session_capabilities process_info
        process_threads runtime_status memory_maps network_capture_stop network_dns artifact_list :
      Invocation
  apk_list process_list network_capture_start network_connections : Bool → Invocation
  apk_launch apk_stop runtime_unhook artifact_get job_status job_result job_cancel :
      String → Invocation
  process_modules : Option String → Invocation
  runtime_hook : String → String → Invocation
  runtime_trace : String → String → ℤ → Invocation
  memory_read memory_dump : String → ℤ → Invocation
  memory_write : String → String → Bool → Invocation
  memory_search : String → Bool → ℤ → Invocation
  packet_list : Option String → ℤ → Invocation
  packet_get : String → Bool → Invocation
  packet_hex : String → ℤ → ℤ → Invocation
  packet_modify : String → ℤ → String → Bool → Invocation
  packet_export : Option String → String → Invocation

-- The tool that is called.
unfoldable pub tool_of : Invocation → String
tool_of device_list = "device.list"
tool_of device_info = "device.info"
tool_of (apk_list _) = "apk.list"
tool_of (apk_launch _) = "apk.launch"
tool_of (apk_stop _) = "apk.stop"
tool_of session_list = "session.list"
tool_of session_info = "session.info"
tool_of session_capabilities = "session.capabilities"
tool_of (process_list _) = "process.list"
tool_of process_info = "process.info"
tool_of (process_modules _) = "process.modules"
tool_of process_threads = "process.threads"
tool_of runtime_status = "runtime.status"
tool_of (runtime_hook _ _) = "runtime.hook"
tool_of (runtime_unhook _) = "runtime.unhook"
tool_of (runtime_trace _ _ _) = "runtime.trace"
tool_of (memory_read _ _) = "memory.read"
tool_of (memory_write _ _ _) = "memory.write"
tool_of (memory_search _ _ _) = "memory.search"
tool_of memory_maps = "memory.maps"
tool_of (memory_dump _ _) = "memory.dump"
tool_of (network_capture_start _) = "network.capture_start"
tool_of network_capture_stop = "network.capture_stop"
tool_of (network_connections _) = "network.connections"
tool_of network_dns = "network.dns"
tool_of (packet_list _ _) = "packet.list"
tool_of (packet_get _ _) = "packet.get"
tool_of (packet_hex _ _ _) = "packet.hex"
tool_of (packet_modify _ _ _ _) = "packet.modify"
tool_of (packet_export _ _) = "packet.export"
tool_of (artifact_get _) = "artifact.get"
tool_of artifact_list = "artifact.list"
tool_of (job_status _) = "job.status"
tool_of (job_result _) = "job.result"
tool_of (job_cancel _) = "job.cancel"

abbrev or_none : Option String → Json
or_none none = null
or_none (some s) = str s

-- The command and the payload that the method passes to `RuntimeBridge.call`.
unfoldable pub request : Invocation → String × Option Fields
request device_list = ("device.list", none)
request device_info = ("device.info", none)
request (apk_list brief) = ("apk.list", some ("brief" ⇒ bool brief ⨾ end))
request (apk_launch package_name) = ("apk.launch", some ("package" ⇒ str package_name ⨾ end))
request (apk_stop package_name) = ("apk.stop", some ("package" ⇒ str package_name ⨾ end))
request session_list = ("session.list", none)
request session_info = ("session.info", none)
request session_capabilities = ("session.capabilities", none)
request (process_list brief) = ("process.list", some ("brief" ⇒ bool brief ⨾ end))
request process_info = ("process.info", none)
request (process_modules _) = ("process.modules", none)
request process_threads = ("process.threads", none)
request runtime_status = ("runtime.status", none)
request (runtime_hook name address) =
    ("runtime.hook", some ("module" ⇒ str name ⨾ "address" ⇒ str address ⨾ end))
request (runtime_unhook hook_id) = ("runtime.unhook", some ("hook_id" ⇒ str hook_id ⨾ end))
request (runtime_trace name address duration_ms) = (
  "runtime.trace",
  some ("module" ⇒ str name ⨾ "address" ⇒ str address ⨾ "duration_ms" ⇒ int duration_ms ⨾ end),
)
request (memory_read address length) =
    ("memory.read", some ("address" ⇒ str address ⨾ "length" ⇒ int length ⨾ end))
request (memory_write address hex_text confirm) = (
  "memory.write",
  some ("address" ⇒ str address ⨾ "hex" ⇒ str hex_text ⨾ "confirm" ⇒ bool confirm ⨾ end),
)
request (memory_search searched as_text max_results) = (
  "memory.search",
  some
      ("pattern" ⇒ str searched ⨾ "as_text" ⇒ bool as_text ⨾ "max_results" ⇒ int max_results ⨾ end),
)
request memory_maps = ("memory.maps", none)
request (memory_dump address length) =
    ("memory.dump", some ("address" ⇒ str address ⨾ "length" ⇒ int length ⨾ end))
request (network_capture_start pcap) = ("network.capture_start", some ("pcap" ⇒ bool pcap ⨾ end))
request network_capture_stop = ("network.capture_stop", none)
request (network_connections brief) = ("network.connections", some ("brief" ⇒ bool brief ⨾ end))
request network_dns = ("network.dns", none)
request (packet_list connection_id _) =
    ("packet.list", some ("connection_id" ⇒ or_none connection_id ⨾ end))
request (packet_get packet_id include_hex) =
    ("packet.get", some ("packet_id" ⇒ str packet_id ⨾ "include_hex" ⇒ bool include_hex ⨾ end))
request (packet_hex packet_id _ _) = ("packet.get", some ("packet_id" ⇒ str packet_id ⨾ end))
request (packet_modify packet_id offset hex_text confirm) = (
  "packet.modify",
  some (
      "packet_id"
      ⇒ str packet_id ⨾ "offset"
      ⇒ int offset ⨾ "hex"
      ⇒ str hex_text ⨾ "confirm"
      ⇒ bool confirm ⨾ end),
)
request (packet_export connection_id kind) =
    ("packet.export", some ("connection_id" ⇒ or_none connection_id ⨾ "format" ⇒ str kind ⨾ end))
request (artifact_get artifact_id) = ("artifact.get", some ("artifact_id" ⇒ str artifact_id ⨾ end))
request artifact_list = ("artifact.list", none)
request (job_status job_id) = ("job.status", some ("job_id" ⇒ str job_id ⨾ end))
request (job_result job_id) = ("job.result", some ("job_id" ⇒ str job_id ⨾ end))
request (job_cancel job_id) = ("job.cancel", some ("job_id" ⇒ str job_id ⨾ end))
