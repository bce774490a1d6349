-- ===== src/Host/RuntimeBridge.antt =====
-- host/runtime_bridge.py: `RuntimeBridge`, the gates of `call` before the client's `call` and what is
-- made of its answer, and the capabilities of the session. `snapshot` and `awarmup` only report.
pub mod Gates
use zygisk_frida_packet_tcp.Base.{
  ℕ, String, Bool, true, false, not, Option, none, some, List, [], ◌∷◌, ◌++◌, map, keep, join_comma,
  fstring, if◌then◌else◌,
}
use zygisk_frida_packet_tcp.Json.{
  Json, null, bool, int, milli, str, arr, obj, Fields, end, ◌⇒◌⨾◌, get, get?, texts, truthy,
}
use zygisk_frida_packet_tcp.Protocol.Errors.{
  ProtocolError, error_next, e_not_ready, PyError, attribute_error, Result, ok, raise, Outcome,
  returns, raises, crashes, bind, outcome,
}
use zygisk_frida_packet_tcp.Protocol.Constants.{SessionState, closed, state_value, link_value}
use zygisk_frida_packet_tcp.Tools.Spec.{ToolSpec}
use zygisk_frida_packet_tcp.Tools.Specs.{spec_by_name}
use zygisk_frida_packet_tcp.Bridge.Session.{Session, SessionManager, require}
use zygisk_frida_packet_tcp.Bridge.Client.{Client}
use zygisk_frida_packet_tcp.Bridge.Calls.{is_linked}

-- `capabilities`.
abbrev pub capabilities : Option Session → Fields
capabilities none = "runtime" ⇒ obj end ⨾ "network" ⇒ obj end ⨾ end
capabilities (some s) = s.capabilities

-- The items of one group, each with its truth.
items_of : String → Fields → List (String × Bool)
items_of group end = []
items_of group (key ⇒ v ⨾ fs) = (fstring (group ∷ "." ∷ key ∷ []), truthy v) ∷ items_of group fs

-- `items.items()` wants a dict.
group_items : String → Json → Outcome (List (String × Bool))
unfolding items_of
group_items group (obj fs) = returns (items_of group fs)
group_items group v = crashes attribute_error

flatten_groups : Fields → Outcome (List (String × Bool))
unfolding group_items
flatten_groups end = returns []
flatten_groups (group ⇒ v ⨾ fs) =
    bind (group_items group v) λ items. bind (flatten_groups fs) λ rest. returns (items ++ rest)

-- `capability_summary`: what is available, and what is not. The keys of the groups are distinct
-- when no name has a dot, as the program's have none.
unfoldable pub capability_summary : Option Session → Outcome (List String × List String)
unfolding flatten_groups
capability_summary s = bind (flatten_groups (capabilities s)) λ flat. returns (
  map (λ (p : String × Bool). p.0) (keep (λ (p : String × Bool). p.1) flat),
  map (λ (p : String × Bool). p.0) (keep (λ (p : String × Bool). not (p.1)) flat),
)

-- `capabilities.get(group, {}).get(key, False)`, read as a truth.
granted_in : Option Json → String → Outcome Bool
granted_in none key = returns false
granted_in (some (obj fs)) key = returns (truthy (get fs key))
granted_in (some v) key = crashes attribute_error

unfoldable pub granted : Fields → String → String → Outcome Bool
unfolding granted_in
granted caps group key = granted_in (get? caps group) key

-- `spec.capability_gaps` on the session's capabilities.
unfoldable pub session_gaps : Fields → List (String × String) → Outcome (List String)
session_gaps caps [] = returns []
session_gaps caps ((group, key) ∷ rest) = bind (granted caps group key) λ there.
    bind (session_gaps caps rest)
      λ missing. returns (if there then missing else fstring (group ∷ "." ∷ key ∷ []) ∷ missing)

no_gaps : ToolSpec → Session → List String → Outcome String
no_gaps spec sess [] = returns spec.command
no_gaps spec sess (gap ∷ gaps) = raises (
    error_next e_not_ready
      (fstring ("工具 " ∷ spec.name ∷ " 依赖的能力不可用：" ∷ join_comma (gap ∷ gaps) ∷ []))
      ("tool"
        ⇒ str spec.name ⨾ "missing_capabilities"
        ⇒ texts (gap ∷ gaps) ⨾ "session_state"
        ⇒ str (state_value sess.state) ⨾ end)
      "该工具已从可见集摘除；先 session.capabilities 确认可用能力")

check_gaps : Session → String → Option ToolSpec → Outcome String
unfolding no_gaps
check_gaps sess name none = returns name
check_gaps sess name (some spec) =
    bind (session_gaps sess.capabilities spec.requires) (no_gaps spec sess)

-- `call` up to the client's own: the command that is called, or why none is.
unfoldable pub gate : String → Client → String → Outcome String
unfolding check_gaps
gate endpoint c name =
    if is_linked c.link
    then bind (outcome (require c.sessions)) (λ sess. check_gaps sess name (spec_by_name name))
    else raises (
        error_next e_not_ready (fstring ("链路不可用（" ∷ link_value c.link ∷ "）：" ∷ c.link_reason ∷ []))
          ("link" ⇒ str (link_value c.link) ⨾ "endpoint" ⇒ str endpoint ⨾ end)
          "等待自动重连完成；仍失败则检查目标 App 是否在运行")

shaped_body : Json → Fields
shaped_body (obj fs) = fs
shaped_body v = "value" ⇒ v ⨾ end

-- What `call` returns of the client's answer.
unfoldable pub shaped : Fields → Fields
unfolding shaped_body
shaped resp = shaped_body (get resp "payload")

abbrev pub session_state_of : Option Session → SessionState
session_state_of none = closed
session_state_of (some s) = s.state
