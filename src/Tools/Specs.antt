-- ===== src/Tools/Specs.antt =====
-- tools/specs.py: the tools of the two surfaces, in their order.
pub mod Fragments
pub mod Device
pub mod Session
pub mod Process
pub mod Runtime
pub mod Memory
pub mod Network
pub mod Packet
pub mod Artifact
pub mod Table
use zygisk_frida_packet_tcp.Base.{
  String, List, [], ◌∷◌, ◌++◌, Option, none, some, str_eq, mem_text, if◌then◌else◌, true, false,
  ◌||◌,
}
use zygisk_frida_packet_tcp.Tools.Spec.{ToolSpec}
use Device.{device_list_tool, device_info_tool, apk_list_tool, apk_launch_tool, apk_stop_tool}
use Session.{session_list_tool, session_info_tool, session_capabilities_tool}
use Process.{process_list_tool, process_info_tool, process_modules_tool, process_threads_tool}
use Runtime.{runtime_status_tool, runtime_hook_tool, runtime_unhook_tool, runtime_trace_tool}
use Memory.{
  memory_read_tool, memory_write_tool, memory_search_tool, memory_maps_tool, memory_dump_tool,
}
use Network.{
  network_capture_start_tool, network_capture_stop_tool, network_connections_tool, network_dns_tool,
}
use Packet.{
  packet_get_tool, packet_modify_tool, packet_list_tool, packet_hex_tool, packet_export_tool,
}
use Artifact.{
  artifact_get_tool, artifact_list_tool, job_status_tool, job_result_tool, job_cancel_tool,
}

unfoldable pub core_specs : List ToolSpec
core_specs =
    device_list_tool ∷ device_info_tool ∷ apk_list_tool ∷ apk_launch_tool ∷ apk_stop_tool
    ∷ session_list_tool ∷ session_info_tool ∷ session_capabilities_tool ∷ process_list_tool
    ∷ process_info_tool ∷ process_modules_tool ∷ process_threads_tool ∷ runtime_status_tool
    ∷ runtime_hook_tool ∷ runtime_unhook_tool ∷ runtime_trace_tool ∷ memory_read_tool
    ∷ memory_write_tool ∷ memory_search_tool ∷ network_capture_start_tool
    ∷ network_capture_stop_tool ∷ network_connections_tool ∷ packet_get_tool ∷ packet_modify_tool
    ∷ artifact_get_tool ∷ []

unfoldable pub expert_specs : List ToolSpec
expert_specs =
    memory_maps_tool ∷ memory_dump_tool ∷ network_dns_tool ∷ packet_list_tool ∷ packet_hex_tool
    ∷ packet_export_tool ∷ artifact_list_tool ∷ job_status_tool ∷ job_result_tool ∷ job_cancel_tool
    ∷ []

unfoldable pub all_tools : List ToolSpec
unfolding core_specs expert_specs
all_tools = core_specs ++ expert_specs

unfoldable pub find_tool : List ToolSpec → String → Option ToolSpec
find_tool [] name = none
find_tool (t ∷ ts) name = if str_eq t.name name then some t else find_tool ts name

-- `SPECS_BY_NAME.get(name)`; the names are distinct.
unfoldable pub spec_by_name : String → Option ToolSpec
unfolding find_tool all_tools
spec_by_name name = find_tool all_tools name

-- `dict.fromkeys(s.group for s in specs if s.group)`: each group once, at its first place.
distinct_groups : List ToolSpec → List String → List String
distinct_groups [] seen = []
distinct_groups (t ∷ ts) seen =
    let rest = distinct_groups ts seen in
    let rest' = distinct_groups ts (t.group ∷ seen) in
    if str_eq t.group "" || mem_text t.group seen then rest else t.group ∷ rest'

unfoldable pub expert_groups : List String
unfolding distinct_groups expert_specs mem_text
expert_groups = distinct_groups expert_specs []
