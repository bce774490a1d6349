-- ===== src/Tests/Tables.antt =====
-- The tables of commands and of tools, and the server made of them.
use zygisk_frida_packet_tcp.Base.{
  ◌+◌, ◌≡◌, refl, true, false, not, ◌&&◌, ◌||◌, none, some, [], ◌∷◌, ◌++◌, mem_text, All, length,
}
use mathlib.Core.List.{Perm}
use zygisk_frida_packet_tcp.Protocol.Commands.{CommandSpec, all_specs, find_spec, find_command}
use zygisk_frida_packet_tcp.Protocol.Constants.{fast}
use zygisk_frida_packet_tcp.Protocol.Commands.Table.{Consistent, find_command-Consistent}
use zygisk_frida_packet_tcp.Tools.Spec.{ToolSpec, post_init, is_core, Capabilities}
use zygisk_frida_packet_tcp.Tools.Specs.{
  core_specs, all_tools, find_tool, spec_by_name, expert_groups,
}
use zygisk_frida_packet_tcp.Tools.Specs.Table.{spec_by_name-consistent, writes_of, is_strict}
use zygisk_frida_packet_tcp.Tools.Specs.Memory.{memory_read_tool}
use zygisk_frida_packet_tcp.Host.Surfaces.{
  RemovalNotice, manager, candidates, gaps, report, visible, visible_names, is_nil,
}
use zygisk_frida_packet_tcp.Host.Surfaces.Report.{
  tool_names, removed_names, report_partition, report_unfiltered,
}
use zygisk_frida_packet_tcp.Host.Registry.{build_server, built}
use zygisk_frida_packet_tcp.Host.Registry.Exposed.{build_server_exposes, build_server_core_only}

abbrev guarded_write : CommandSpec
guarded_write = record {
  name = "memory.write";
  cls = fast;
  category = "memory";
  writes = true;
  destructive = false;
  spec_source = false;
}

found : find_command "memory.write" ≡ some guarded_write
unfolding find_command find_spec all_specs mem_text
found = refl

find_command-Consistent_example :
    (guarded_write.name ≡ "memory.write") × Consistent guarded_write "memory.write"
find_command-Consistent_example = find_command-Consistent "memory.write" guarded_write found

tool_found : spec_by_name "memory.read" ≡ some memory_read_tool
unfolding spec_by_name find_tool all_tools
tool_found = refl

spec_by_name-consistent_example :
    (memory_read_tool.name ≡ "memory.read")
    × (post_init memory_read_tool ≡ true)
    × (is_strict memory_read_tool.input_schema ≡ true)
    × (memory_read_tool.read_only ≡ not (writes_of (find_command memory_read_tool.command)))
    × (memory_read_tool.destructive && memory_read_tool.read_only ≡ false)
    × (is_core memory_read_tool.surface || mem_text memory_read_tool.group expert_groups ≡ true)
spec_by_name-consistent_example = spec_by_name-consistent "memory.read" memory_read_tool tool_found

abbrev no_write : Capabilities
no_write = ("runtime", ("memory_read", true) ∷ ("memory_write", false) ∷ []) ∷ []

report_partition_example :
    let r = report (manager ("memory" ∷ [])) (some no_write) in
    Perm
      (tool_names r.visible ++ removed_names r.removed)
      (tool_names (candidates (manager ("memory" ∷ []))))
    × All (λ (s : ToolSpec). gaps (some no_write) s ≡ []) r.visible
    × All (λ (n : RemovalNotice). is_nil n.missing_capabilities ≡ false) r.removed
    × (r.core_count + r.expert_count ≡ length r.visible)
report_partition_example = report_partition (manager ("memory" ∷ [])) (some no_write)

report_unfiltered_example :
    (report (manager []) none ≡ report (manager []) (some []))
    × (visible (manager []) none ≡ candidates (manager []))
    × ((report (manager []) none).removed ≡ [])
report_unfiltered_example = report_unfiltered (manager [])

build_server_exposes_example :
    build_server [] (manager ("memory" ∷ [])) (some no_write) true
    ≡ built (manager ("memory" ∷ [])) (visible_names (manager ("memory" ∷ [])) (some no_write))
build_server_exposes_example = build_server_exposes ("memory" ∷ []) (some no_write) true

build_server_core_only_example :
    build_server [] (manager []) none true ≡ built (manager []) (tool_names core_specs)
build_server_core_only_example = build_server_core_only true
