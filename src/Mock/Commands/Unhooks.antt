-- ===== src/Mock/Commands/Unhooks.antt =====
-- Removing a hook.
use zygisk_frida_packet_tcp.Base.{
  String, ◌≡◌, refl, sym, ap, ◌∙◌, ◌⊎◌, inl, inr, false, some, List, [], ◌∷◌, arith, str_eq, eq_iff,
  Bool-cases,
}
use zygisk_frida_packet_tcp.Json.{str, obj, Fields, end, ◌⇒◌⨾◌, get, truthy}
use zygisk_frida_packet_tcp.Protocol.Errors.{returns}
use zygisk_frida_packet_tcp.Mock.State.{MockHook, MockRuntimeState, find_hook, put_hook}
use zygisk_frida_packet_tcp.Mock.State.Hooks.{find_hook-put_hook, find_hook-put_hook_ne}
use zygisk_frida_packet_tcp.Mock.Commands.{
  entry, known_hook, hook_dict, cmd_runtime_unhook, cmd_runtime_hook_info, unhook_found,
}

find_hook_id :
    (hs : List MockHook) (id : String) (h : MockHook) → find_hook hs id ≡ some h → h.hook_id ≡ id
unfolding find_hook
find_hook_id [] id h e = absurd (cc)
find_hook_id (x ∷ hs) id h e = elim (Bool-cases (str_eq x.hook_id id)) [
  | inl same ↦
      let x_h : x ≡ h = ground (arith, same, e) in
      sym (ap (λ (y : MockHook). y.hook_id) x_h) ∙ (eq_iff x.hook_id id).0 same
  | inr other ↦ find_hook_id hs id h (ground (arith, other, e))
]

-- `runtime.unhook` of a hook that is there keeps it, marked as removed, and changes no other;
-- `runtime.hook_info` of the same id, which is not empty, then shows it so.
pub unhook_shown :
    (st : MockRuntimeState) (payload : Fields) (id : String) (h : MockHook)
    → get payload "hook_id" ≡ str id
    → str_eq id "" ≡ false
    → find_hook st.hooks id ≡ some h
    → let gone : MockHook = record h { status = "removed" } in
      let st' = (cmd_runtime_unhook st payload).0 in
      (find_hook st'.hooks id ≡ some gone)
      × ((other : String) → (id ≡ other) ⊎ (find_hook st'.hooks other ≡ find_hook st.hooks other))
      × ((cmd_runtime_hook_info st' payload).1 ≡ returns ("hook" ⇒ obj (hook_dict gone) ⨾ end))
unfolding cmd_runtime_unhook cmd_runtime_hook_info unhook_found known_hook entry truthy
unhook_shown st payload id h asked text found =
    let gone : MockHook = record h { status = "removed" } in
    let is_id : h.hook_id ≡ id = find_hook_id st.hooks id h found in
    let kept : find_hook (put_hook st.hooks gone) id ≡ some gone =
      ap (find_hook (put_hook st.hooks gone)) (sym is_id) ∙ find_hook-put_hook st.hooks gone in
    rw (asked, text, found)
      (
        kept,
        (λ other. elim (Bool-cases (str_eq h.hook_id other)) [
          | inl same ↦ inl (sym is_id ∙ (eq_iff h.hook_id other).0 same)
          | inr differs ↦ inr (find_hook-put_hook_ne st.hooks gone other differs)
        ]),
        rw kept refl,
      )
