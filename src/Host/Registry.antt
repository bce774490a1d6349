-- ===== src/Host/Registry.antt =====
-- host/registry.py and host/server.py: the self-check of the registration, and the tools that a server
-- gets. Importing the tool modules and resolving the lazy table are Python's import machinery: what
-- they report is an argument, `load_problems`.
pub mod Restored
pub mod Exposed
use zygisk_frida_packet_tcp.Base.{
  String, Bool, true, false, not, ◌&&◌, Option, none, some, List, [], ◌∷◌, ◌++◌, map, str_eq,
  mem_text, keep, sorted, if◌then◌else◌, fstring, join_comma,
}
use zygisk_frida_packet_tcp.Tools.Spec.{ToolSpec, is_core, Capabilities}
use zygisk_frida_packet_tcp.Tools.Specs.{all_tools, spec_by_name}
use zygisk_frida_packet_tcp.Tools.Handlers.{method_name_for, handler_methods}
use zygisk_frida_packet_tcp.Host.Surfaces.{
  SurfaceManager, mount_all, restore_mounted, mounted_snapshot, visible, visible_names, is_nil,
  within_budget,
}

-- The names that a visible set lacks, with all groups mounted.
missing_names : List String → List String
missing_names shown = sorted (keep (λ n. not (mem_text n shown)) (map (λ s. s.name) all_tools))

missing_problem : List String → List String
missing_problem [] = []
missing_problem (n ∷ ns) = fstring ("[分面可见] 未挂载全部 Expert 组时缺失：" ∷ join_comma (n ∷ ns) ∷ []) ∷ []

core_problems : List String → List ToolSpec → List String
core_problems shown [] = []
core_problems shown (s ∷ ss) =
    if is_core s.surface && not (mem_text s.name shown)
    then fstring ("[分面可见] Core 工具不可见：" ∷ s.name ∷ []) ∷ core_problems shown ss
    else core_problems shown ss

-- The problems, and the manager as the check leaves it.
unfoldable pub verify_three_point_registration :
    List String → SurfaceManager → List String × SurfaceManager
unfolding missing_names missing_problem core_problems
verify_three_point_registration load_problems sm =
    let saved = mounted_snapshot sm in
    let all = mount_all sm in
    let shown = visible_names all none in
    let problems =
      load_problems ++ (missing_problem (missing_names shown) ++ core_problems shown all_tools) in
    (problems, restore_mounted all saved)

-- The names that are registered; `none` is the AttributeError of a tool without a method.
unfoldable pub bind_names : List String → List String → Option (List String)
bind_names methods [] = some []
bind_names methods (n ∷ ns) =
    if mem_text (method_name_for n) methods
    then elim (bind_names methods ns) [ none ↦ none | some names ↦ some (n ∷ names) ]
    else none

unfoldable pub bind_tools : SurfaceManager → Option Capabilities → Option (List String)
unfolding bind_names
bind_tools sm capabilities = bind_names handler_methods (visible_names sm capabilities)

-- What `build_server` ends in.
pub data Built : Type 0 where
  over_budget : Built
  inconsistent : List String → Built
  no_method : Built
  built : SurfaceManager → List String → Built

bound : SurfaceManager → Option (List String) → Built
bound sm none = no_method
bound sm (some names) = built sm names

unfoldable pub build_server : List String → SurfaceManager → Option Capabilities → Bool → Built
unfolding bound
build_server load_problems sm capabilities strict_registration =
    let (problems, checked) = verify_three_point_registration load_problems sm in
    if not (within_budget sm)
    then over_budget
    else if strict_registration
    then if is_nil problems
      then bound checked (bind_tools checked capabilities)
      else inconsistent problems
    else bound sm (bind_tools sm capabilities)

-- `spec_for`: `none` is the KeyError.
abbrev pub spec_for : String → Option ToolSpec
spec_for name = spec_by_name name
