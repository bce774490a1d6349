-- ===== src/Host/Surfaces.antt =====
-- host/surfaces.py: which tools are visible. The set of mounted groups is a list without repeats.
pub mod Report
use zygisk_frida_packet_tcp.Base.{
  ℕ, ◌-◌, String, Bool, true, false, not, ◌&&◌, ◌||◌, Option, none, some, List, [], ◌∷◌, ◌++◌, map,
  str_eq, mem_text, keep, leb, ltb, if◌then◌else◌, fstring, join_comma, length,
}
use zygisk_frida_packet_tcp.Protocol.Constants.{max_resident_tools, max_tools_hard_limit}
use zygisk_frida_packet_tcp.Tools.Spec.{ToolSpec, is_core, Capabilities, capability_gaps}
use zygisk_frida_packet_tcp.Tools.Specs.{core_specs, expert_specs, all_tools, expert_groups}

pub record RemovalNotice : Type 0 where
  pub tool : String
  pub reason : String
  pub missing_capabilities : List String

pub record SurfaceReport : Type 0 where
  pub visible : List ToolSpec
  pub removed : List RemovalNotice
  pub mounted_groups : List String
  pub core_count : ℕ
  pub expert_count : ℕ
  pub over_budget : Bool

pub record SurfaceManager : Type 0 where
  pub core : List ToolSpec
  pub expert : List ToolSpec
  pub mounted : List String
  pub max_resident : ℕ
  pub hard_limit : ℕ

-- `set(groups)`.
unfoldable pub text_set : List String → List String
text_set [] = []
text_set (g ∷ gs) = if mem_text g gs then text_set gs else g ∷ text_set gs

unfoldable pub has_repeat : List String → Bool
has_repeat [] = false
has_repeat (n ∷ ns) = mem_text n ns || has_repeat ns

-- `SurfaceManager(core=…, expert=…, …)`: `none` is the ValueError of repeated names.
unfoldable pub new_manager :
    List ToolSpec → List ToolSpec → List String → ℕ → ℕ → Option SurfaceManager
unfolding has_repeat text_set
new_manager core expert mounted max_resident hard_limit =
    if has_repeat (map (λ s. s.name) (core ++ expert))
    then none
    else some (record {
      core = core;
      expert = expert;
      mounted = text_set mounted;
      max_resident = max_resident;
      hard_limit = hard_limit;
    })

-- The manager of the program's own tables.
abbrev pub manager : List String → SurfaceManager
manager mounted = record {
  core = core_specs;
  expert = expert_specs;
  mounted = text_set mounted;
  max_resident = max_resident_tools;
  hard_limit = max_tools_hard_limit;
}

unfoldable pub mounted_groups : SurfaceManager → List String
mounted_groups sm = keep (λ g. mem_text g sm.mounted) expert_groups

-- `none` is the KeyError of an unknown group; the set is then as before.
unfoldable pub mount : SurfaceManager → String → Option SurfaceManager
mount sm group =
    if mem_text group expert_groups
    then some (record sm {
      mounted = if mem_text group sm.mounted then sm.mounted else group ∷ sm.mounted;
    })
    else none

unfoldable pub unmount : SurfaceManager → String → SurfaceManager
unmount sm group = record sm { mounted = keep (λ g. not (str_eq g group)) sm.mounted }

all_known : List String → Bool
all_known [] = true
all_known (g ∷ gs) = mem_text g expert_groups && all_known gs

unfoldable pub set_mounted : SurfaceManager → List String → Option SurfaceManager
unfolding all_known
set_mounted sm groups =
    if all_known groups then some (record sm { mounted = text_set groups }) else none

unfoldable pub mount_all : SurfaceManager → SurfaceManager
mount_all sm = record sm { mounted = text_set expert_groups }

unfoldable pub unmount_all : SurfaceManager → SurfaceManager
unmount_all sm = record sm { mounted = [] }

abbrev pub mounted_snapshot : SurfaceManager → List String
mounted_snapshot sm = sm.mounted

-- The snapshot is a set already.
unfoldable pub restore_mounted : SurfaceManager → List String → SurfaceManager
restore_mounted sm groups = record sm { mounted = groups }

unfoldable pub expert_candidates : SurfaceManager → List ToolSpec
expert_candidates sm = keep (λ s. mem_text s.group sm.mounted) sm.expert

abbrev pub candidates : SurfaceManager → List ToolSpec
candidates sm = sm.core ++ expert_candidates sm

-- `capabilities is not None and bool(caps)`, with the capabilities to filter by.
abbrev pub filter_caps : Option Capabilities → Bool
filter_caps none = false
filter_caps (some []) = false
filter_caps (some (c ∷ cs)) = true

abbrev pub caps_or_none : Option Capabilities → Capabilities
caps_or_none none = []
caps_or_none (some caps) = caps

-- The gaps that count: none unless the capabilities filter.
unfoldable pub gaps : Option Capabilities → ToolSpec → List String
gaps capabilities s =
    if filter_caps capabilities then capability_gaps s (caps_or_none capabilities) else []

abbrev pub is_nil {ℓ} : {A : Type ℓ} → List A → Bool
is_nil [] = true
is_nil (a ∷ as') = false

-- The loop of `report`, with the two lists that it fills.
unfoldable pub split : Option Capabilities → List ToolSpec → List ToolSpec × List RemovalNotice
split capabilities [] = ([], [])
split capabilities (s ∷ ss) =
    let (visible, removed) = split capabilities ss in
    let missing = gaps capabilities s in
    if is_nil missing then (s ∷ visible, removed) else (
      visible,
      record {
        tool = s.name;
        reason = fstring ("能力不可用：" ∷ join_comma missing ∷ []);
        missing_capabilities = missing;
      }
          ∷ removed,
    )

unfoldable pub core_number : List ToolSpec → ℕ
core_number ss = length (keep (λ s. is_core s.surface) ss)

unfoldable pub report : SurfaceManager → Option Capabilities → SurfaceReport
report sm capabilities =
    let (visible, removed) = split capabilities (candidates sm) in
    record {
      visible = visible;
      removed = removed;
      mounted_groups = mounted_groups sm;
      core_count = core_number visible;
      expert_count = length visible - core_number visible;
      over_budget = ltb sm.max_resident (core_number visible);
    }

abbrev pub visible : SurfaceManager → Option Capabilities → List ToolSpec
visible sm capabilities = (report sm capabilities).visible

abbrev pub visible_names : SurfaceManager → Option Capabilities → List String
visible_names sm capabilities = map (λ s. s.name) (visible sm capabilities)

-- `assert_budget`: `false` is the ValueError.
unfoldable pub within_budget : SurfaceManager → Bool
within_budget sm = leb (length sm.core) sm.max_resident && leb (length all_tools) sm.hard_limit
