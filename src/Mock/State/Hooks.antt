-- ===== src/Mock/State/Hooks.antt =====
-- `create_hook`: the new hook and the others.
use zygisk_frida_packet_tcp.Base.{
  ◌+◌, ◌≡◌, refl, ◌⊎◌, inl, inr, false, none, some, List, [], ◌∷◌, str_eq, eq_iff, String,
  Bool-cases, Option-cases, length,
}
use zygisk_frida_packet_tcp.Json.{Json}
use zygisk_frida_packet_tcp.Protocol.Errors.{ok, Raises, e_not_found}
use zygisk_frida_packet_tcp.Mock.State.{
  MockModule, MockHook, MockRuntimeState, find_module, find_hook, put_hook, new_hook, create_hook,
  hook_in,
}

pub find_hook-put_hook :
    (hs : List MockHook) (h : MockHook) → find_hook (put_hook hs h) h.hook_id ≡ some h
unfolding find_hook put_hook
find_hook-put_hook [] h = rw ((eq_iff h.hook_id h.hook_id).1 refl) refl
find_hook-put_hook (x ∷ hs) h = elim (Bool-cases (str_eq x.hook_id h.hook_id)) [
  | inl same ↦ rw (same, (eq_iff h.hook_id h.hook_id).1 refl) refl
  | inr other ↦ rw (other, other) (find_hook-put_hook hs h)
]

pub find_hook-put_hook_ne :
    (hs : List MockHook) (h : MockHook) (id : String)
    → str_eq h.hook_id id ≡ false
    → find_hook (put_hook hs h) id ≡ find_hook hs id
unfolding find_hook put_hook
find_hook-put_hook_ne [] h id ne = rw ne refl
find_hook-put_hook_ne (x ∷ hs) h id ne = elim (Bool-cases (str_eq x.hook_id h.hook_id)) [
  | inl same ↦
      let other : str_eq x.hook_id id ≡ false = rw ((eq_iff x.hook_id h.hook_id).0 same) ne in
      rw (same, ne, other) refl
  | inr differs ↦ elim (Bool-cases (str_eq x.hook_id id)) [
    | inl here ↦ rw (differs, here) refl
    | inr there ↦ rw (differs, there) (find_hook-put_hook_ne hs h id ne)
  ]
]

-- For a module of the map, `create_hook` returns an active hook on it that no call has entered;
-- the hook is then found under its id, and under every other id what was found before. For any
-- other module it raises E_NOT_FOUND.
pub create_hook_cases :
    (st : MockRuntimeState) (module_name address : Json)
    → ((m : MockModule) × (find_module st module_name ≡ some m)
        × (st' : MockRuntimeState) × (hook : MockHook) × (create_hook st module_name address
            ≡ ok (st', hook))
        × (hook ≡ new_hook (length st.hooks + 1) m.name address)
        × (find_hook st'.hooks hook.hook_id ≡ some hook)
        × ((id : String) → (hook.hook_id ≡ id) ⊎ (find_hook st'.hooks id ≡ find_hook st.hooks id)))
      ⊎ ((find_module st module_name ≡ none)
          × Raises (create_hook st module_name address) e_not_found)
unfolding create_hook hook_in
create_hook_cases st module_name address = elim (Option-cases (find_module st module_name)) [
  | inl unknown ↦ inr (unknown, rw unknown refl)
  | inr (m, found) ↦ inl (
    m,
    found,
    record st { hooks = put_hook st.hooks (hook m) },
    hook m,
    rw found refl,
    refl,
    find_hook-put_hook st.hooks (hook m),
    λ id. elim (Bool-cases (str_eq (hook m).hook_id id)) [
      | inl same ↦ inl ((eq_iff (hook m).hook_id id).0 same)
      | inr other ↦ inr (find_hook-put_hook_ne st.hooks (hook m) id other)
    ],
  )
]
  where
    hook : MockModule → MockHook
    hook m = new_hook (length st.hooks + 1) m.name address
