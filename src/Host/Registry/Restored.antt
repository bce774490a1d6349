-- ===== src/Host/Registry/Restored.antt =====
-- The self-check leaves the mounted groups as they were.
use zygisk_frida_packet_tcp.Base.{
  String, ◌≡◌, refl, Option, List, append-nil, mem_text, keep, sorted,
}
use zygisk_frida_packet_tcp.Tools.Spec.{Capabilities}
use zygisk_frida_packet_tcp.Tools.Specs.{core_specs, expert_specs, all_tools, expert_groups}
use zygisk_frida_packet_tcp.Host.Surfaces.{
  SurfaceManager, manager, mount_all, restore_mounted, visible, report, split, gaps,
  expert_candidates, text_set,
}
use zygisk_frida_packet_tcp.Host.Registry.{
  verify_three_point_registration, missing_names, missing_problem, core_problems,
}

-- The check mounts every group for its own purpose and puts the mounted groups back: it leaves the
-- manager as it was, and what is visible afterwards is what was visible before.
pub verify_restores :
    (load_problems : List String) (sm : SurfaceManager) (capabilities : Option Capabilities)
    → ((verify_three_point_registration load_problems sm).1 ≡ sm)
      × (visible (verify_three_point_registration load_problems sm).1 capabilities
          ≡ visible sm capabilities)
unfolding verify_three_point_registration mount_all restore_mounted
verify_restores load_problems sm capabilities = (refl, refl)

-- On the program's own tables the surfaces have no problem of their own, whatever is mounted: the
-- check reports exactly the problems of loading the modules.
pub verify_tables :
    (load_problems mounted : List String)
    → (verify_three_point_registration load_problems (manager mounted)).0 ≡ load_problems
unfolding verify_three_point_registration missing_names missing_problem core_problems mount_all
    report split gaps expert_candidates text_set core_specs expert_specs all_tools expert_groups
    keep mem_text sorted
verify_tables load_problems mounted = append-nil load_problems
