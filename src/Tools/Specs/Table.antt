-- ===== src/Tools/Specs/Table.antt =====
-- Facts about the table of tools that hold of every tool in it.
use zygisk_frida_packet_tcp.Base.{
  String, ◌≡◌, refl, Bool, true, false, not, ◌&&◌, ◌||◌, Option, none, some, List, [], ◌∷◌, arith,
  str_eq, eq_iff, mem_text, if◌then◌else◌, check_all, All, All-check_all, ap, sym, ◌∙◌, subst,
  Bool-cases, inl, inr,
}
use zygisk_frida_packet_tcp.Json.{Json, bool, obj, get, get?, put}
use zygisk_frida_packet_tcp.Protocol.Commands.{CommandSpec, find_command, is_known}
use zygisk_frida_packet_tcp.Tools.Spec.{ToolSpec, post_init, is_core}
use zygisk_frida_packet_tcp.Tools.Specs.{all_tools, find_tool, spec_by_name, expert_groups}

abbrev pub writes_of : Option CommandSpec → Bool
writes_of none = false
writes_of (some c) = c.writes

abbrev is_false : Json → Bool
is_false (bool b) = not b
is_false _ = false

-- `schema["additionalProperties"] is False`.
abbrev pub is_strict : Json → Bool
is_strict (obj fs) = is_false (get fs "additionalProperties")
is_strict _ = false

agree : Bool → Bool → Bool
agree a b = if a then b else not b

agree_sound : (a b : Bool) → agree a b ≡ true → a ≡ b
unfolding agree
agree_sound a b h = ground arith

all_agree : Bool → Bool → Bool → Bool → Bool → Bool → Bool → Bool
all_agree valid strict read_only writes destructive core? in_groups =
    valid
    && strict
    && agree read_only (not writes)
    && (not destructive || not read_only)
    && (core? || in_groups)

all_agree_sound :
    (v s r w d c g : Bool)
    → all_agree v s r w d c g ≡ true
    → (v ≡ true) × (s ≡ true) × (r ≡ not w) × (d && r ≡ false) × (c || g ≡ true)
unfolding all_agree agree
all_agree_sound v s r w d c g h = ground arith

well_formed : ToolSpec → Bool
well_formed t =
    all_agree (post_init t) (is_strict t.input_schema) t.read_only
      (writes_of (find_command t.command)) t.destructive (is_core t.surface)
      (mem_text t.group expert_groups)

table : check_all well_formed all_tools ≡ true
unfolding check_all well_formed all_agree agree post_init find_command is_known all_tools
    expert_groups mem_text get? put
table = refl

find_tool-All :
    (P : ToolSpec → Type 0) (ts : List ToolSpec) (name : String) (t : ToolSpec)
    → All P ts
    → find_tool ts name ≡ some t
    → P t × (t.name ≡ name)
unfolding find_tool
find_tool-All P [] name t h e = absurd (cc)
find_tool-All P (x ∷ ts) name t h e = elim (Bool-cases (str_eq x.name name)) [
  | inl same ↦
      let x_t : x ≡ t = ground (arith, same, e) in
      (subst P x_t h.0, sym (ap (λ (c : ToolSpec). c.name) x_t) ∙ (eq_iff x.name name).0 same)
  | inr other ↦ find_tool-All P ts name t h.1 (ground (arith, other, e))
]

-- A tool that the table has under a name bears that name; its own checks hold, so its command is in
-- the register of commands, and it has a group exactly if it is an Expert tool; its input schema
-- allows no further properties; it is marked read-only exactly if its command does not write, and
-- then it is not destructive; and an Expert tool's group is one of the groups that can be mounted.
pub spec_by_name-consistent :
    (name : String) (t : ToolSpec)
    → spec_by_name name ≡ some t
    → (t.name ≡ name)
      × (post_init t ≡ true)
      × (is_strict t.input_schema ≡ true)
      × (t.read_only ≡ not (writes_of (find_command t.command)))
      × (t.destructive && t.read_only ≡ false)
      × (is_core t.surface || mem_text t.group expert_groups ≡ true)
unfolding spec_by_name
spec_by_name-consistent name t e =
    let (fine, same) =
      find_tool-All (λ (x : ToolSpec). well_formed x ≡ true) all_tools name t
        (All-check_all well_formed all_tools table) e in
    let (v, s, r, d, g) =
      all_agree_sound (post_init t) (is_strict t.input_schema) t.read_only
        (writes_of (find_command t.command)) t.destructive (is_core t.surface)
        (mem_text t.group expert_groups) (unfold well_formed in fine) in
    (same, v, s, r, d, g)
