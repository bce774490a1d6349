-- ===== src/Host/Registry/Exposed.antt =====
-- Which tools a server exposes.
use zygisk_frida_packet_tcp.Base.{
  String, ◌≡◌, refl, ap, ◌∙◌, Bool, true, false, Option, none, some, List, [], ◌∷◌, ◌++◌, mem_text,
  keep, check_all, All, All-check_all, Bool-cases, inl, inr,
}
use zygisk_frida_packet_tcp.Tools.Spec.{ToolSpec, Capabilities}
use zygisk_frida_packet_tcp.Tools.Specs.{core_specs, expert_specs, all_tools}
use zygisk_frida_packet_tcp.Tools.Handlers.{method_name_for, handler_methods}
use zygisk_frida_packet_tcp.Host.Surfaces.{
  manager, visible, visible_names, report, split, gaps, is_nil, candidates, expert_candidates,
  within_budget, text_set,
}
use zygisk_frida_packet_tcp.Host.Surfaces.Report.{report_unfiltered, tool_names}
use zygisk_frida_packet_tcp.Host.Registry.{bind_tools, bind_names, build_server, bound, built}
use zygisk_frida_packet_tcp.Host.Registry.Restored.{verify_restores, verify_tables}

-- The tool has a method of the name that the registration looks up.
has_method : ToolSpec → Bool
has_method s = mem_text (method_name_for s.name) handler_methods

core_methods : check_all has_method core_specs ≡ true
unfolding check_all has_method core_specs method_name_for mem_text
core_methods = refl

expert_methods : check_all has_method expert_specs ≡ true
unfolding check_all has_method expert_specs method_name_for mem_text
expert_methods = refl

abbrev HasMethods : List ToolSpec → Type 0
HasMethods = All (λ s. has_method s ≡ true)

HasMethods-append : (xs ys : List ToolSpec) → HasMethods xs → HasMethods ys → HasMethods (xs ++ ys)
HasMethods-append [] ys hx hy = hy
HasMethods-append (x ∷ xs) ys hx hy = (hx.0, HasMethods-append xs ys hx.1 hy)

HasMethods-keep :
    (test : ToolSpec → Bool) (xs : List ToolSpec) → HasMethods xs → HasMethods (keep test xs)
unfolding keep
HasMethods-keep test [] h = tt
HasMethods-keep test (x ∷ xs) h = elim (Bool-cases (test x)) [
  | inl kept ↦ rw kept (h.0, HasMethods-keep test xs h.1)
  | inr dropped ↦ rw dropped (HasMethods-keep test xs h.1)
]

HasMethods-split :
    (capabilities : Option Capabilities) (ss : List ToolSpec)
    → HasMethods ss
    → HasMethods (split capabilities ss).0
unfolding split
HasMethods-split capabilities [] h = tt
HasMethods-split capabilities (s ∷ ss) h = elim (Bool-cases (is_nil (gaps capabilities s))) [
  | inl shown ↦ rw shown (h.0, HasMethods-split capabilities ss h.1)
  | inr gone ↦ rw gone (HasMethods-split capabilities ss h.1)
]

bind_all :
    (ss : List ToolSpec)
    → HasMethods ss
    → bind_names handler_methods (tool_names ss) ≡ some (tool_names ss)
unfolding bind_names has_method
bind_all [] h = refl
bind_all (s ∷ ss) h = rw (h.0, bind_all ss h.1) refl

visible_methods :
    (mounted : List String) (capabilities : Option Capabilities)
    → HasMethods (visible (manager mounted) capabilities)
unfolding report expert_candidates
visible_methods mounted capabilities =
    HasMethods-split capabilities (candidates (manager mounted)) (
      HasMethods-append core_specs (expert_candidates (manager mounted))
        (All-check_all has_method core_specs core_methods)
        (HasMethods-keep _ expert_specs (All-check_all has_method expert_specs expert_methods)))

bind_visible :
    (mounted : List String) (capabilities : Option Capabilities)
    → bind_tools (manager mounted) capabilities
      ≡ some (visible_names (manager mounted) capabilities)
unfolding bind_tools
bind_visible mounted capabilities =
    bind_all (visible (manager mounted) capabilities) (visible_methods mounted capabilities)

tables_within_budget : (mounted : List String) → within_budget (manager mounted) ≡ true
unfolding within_budget core_specs expert_specs all_tools
tables_within_budget mounted = refl

-- If the tool modules load without a problem, then the server on the program's own tables is always
-- built, whether the registration is checked or not; it registers exactly the visible tools, in
-- their order, and leaves the mounted groups as they were.
pub build_server_exposes :
    (mounted : List String) (capabilities : Option Capabilities) (strict_registration : Bool)
    → build_server [] (manager mounted) capabilities strict_registration
      ≡ built (manager mounted) (visible_names (manager mounted) capabilities)
unfolding build_server bound
build_server_exposes mounted capabilities true =
    rw
      (
        tables_within_budget mounted,
        verify_tables [] mounted,
        (verify_restores [] (manager mounted) capabilities).0,
        bind_visible mounted capabilities,
      )
      refl
build_server_exposes mounted capabilities false =
    rw (tables_within_budget mounted, bind_visible mounted capabilities) refl

core_candidates : candidates (manager []) ≡ core_specs
unfolding expert_candidates text_set keep mem_text core_specs expert_specs
core_candidates = refl

-- A server that is built without capabilities and with no group mounted has the Core tools and no
-- others: no Expert tool is registered.
pub build_server_core_only :
    (strict_registration : Bool)
    → build_server [] (manager []) none strict_registration
      ≡ built (manager []) (tool_names core_specs)
build_server_core_only strict_registration =
    build_server_exposes [] none strict_registration
    ∙ ap (λ (ss : List ToolSpec). built (manager []) (tool_names ss))
        ((report_unfiltered (manager [])).1 ∙ core_candidates)
