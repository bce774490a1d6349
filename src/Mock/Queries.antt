-- ===== src/Mock/Queries.antt =====
-- mock/server.py: the commands that only read the state, and `memory.read`, `packet.get` and
-- `artifact.get`, which may raise.
use zygisk_frida_packet_tcp.Base.{
  ℕ, String, Bool, true, false, Option, none, some, List, [], ◌∷◌, map, fstring, hex_ℤ, hex_bytes,
  ascii_text, length, ℤ, pos, negsuc, if◌then◌else◌,
}
use zygisk_frida_packet_tcp.Json.{
  Json, null, bool, nat, str, arr, obj, Fields, end, ◌⇒◌⨾◌, get, get?, items, texts, truthy,
}
use zygisk_frida_packet_tcp.Python.{Builtins, shown}
use zygisk_frida_packet_tcp.Protocol.Errors.{
  error, error_next, e_bad_args, e_not_found, Outcome, outcome, returns, raises, crashes, bind,
  type_error, value_error, attribute_error, key_error,
}
use zygisk_frida_packet_tcp.Protocol.Constants.{state_value}
use zygisk_frida_packet_tcp.Protocol.Frame.{Bytes}
use zygisk_frida_packet_tcp.Protocol.Messages.Check.{is_text, quoted}
use zygisk_frida_packet_tcp.Mock.Device.{thread_dict, connection_dict, MockPacket, packet_dict}
use zygisk_frida_packet_tcp.Mock.State.{
  MockModule, end_of, module_dict, MockRuntimeState, read_memory, module_for_address,
}
use zygisk_frida_packet_tcp.Mock.Initial.{uptime_ms, status}

-- A list of dicts.
abbrev dicts {ℓ} : {A : Type ℓ} → (A → Fields) → List A → Json
dicts f xs = arr (items (map (λ x. obj (f x)) xs))

unfoldable pub cmd_device_list : MockRuntimeState → Fields
cmd_device_list st =
    "total"
    ⇒ nat 1 ⨾ "devices"
    ⇒ arr (
        items (
          obj (
            "serial"
            ⇒ str "MOCK-0001" ⨾ "model"
            ⇒ str "Mock Device" ⨾ "manufacturer"
            ⇒ str "Mock" ⨾ "android"
            ⇒ str "14" ⨾ "api"
            ⇒ nat st.sdk ⨾ "abi"
            ⇒ str st.abi ⨾ "rooted"
            ⇒ bool true ⨾ "zygisk"
            ⇒ bool true ⨾ end)
          ∷ [])) ⨾
      end

unfoldable pub cmd_device_info : MockRuntimeState → Fields
cmd_device_info st =
    "serial"
    ⇒ str "MOCK-0001" ⨾ "model"
    ⇒ str "Mock Device" ⨾ "manufacturer"
    ⇒ str "Mock" ⨾ "android"
    ⇒ str "14" ⨾ "api"
    ⇒ nat st.sdk ⨾ "abi"
    ⇒ str st.abi ⨾ "kernel"
    ⇒ str "6.1.0-mock" ⨾ "page_size"
    ⇒ nat 4096 ⨾ "magisk"
    ⇒ str "mock-27000" ⨾ "zygisk"
    ⇒ str "enabled" ⨾ "selinux"
    ⇒ str "permissive" ⨾ "rooted"
    ⇒ bool true ⨾ end

abbrev pub cmd_device_root_status : Fields
cmd_device_root_status =
    "rooted"
    ⇒ bool true ⨾ "magisk"
    ⇒ bool true ⨾ "zygisk"
    ⇒ bool true ⨾ "selinux"
    ⇒ str "permissive" ⨾ end

unfoldable pub cmd_session_list : MockRuntimeState → String → ℕ → Fields
cmd_session_list st session_id clock =
    "total"
    ⇒ nat 1 ⨾ "sessions"
    ⇒ arr (
        items (
          obj (
            "session_id"
            ⇒ str session_id ⨾ "state"
            ⇒ str (state_value st.state) ⨾ "package"
            ⇒ str st.package_name ⨾ "pid"
            ⇒ nat st.pid ⨾ "uptime_ms"
            ⇒ nat (uptime_ms st clock) ⨾ end)
          ∷ [])) ⨾
      end

unfoldable pub cmd_session_info : MockRuntimeState → String → ℕ → Fields
cmd_session_info st session_id clock =
    "session_id"
    ⇒ str session_id ⨾ "state"
    ⇒ str (state_value st.state) ⨾ "package"
    ⇒ str st.package_name ⨾ "pid"
    ⇒ nat st.pid ⨾ "uid"
    ⇒ nat st.uid ⨾ "abi"
    ⇒ str st.abi ⨾ "sdk"
    ⇒ nat st.sdk ⨾ "uptime_ms"
    ⇒ nat (uptime_ms st clock) ⨾ "capabilities"
    ⇒ obj st.capabilities ⨾ end

unfoldable pub cmd_session_capabilities : MockRuntimeState → Fields
cmd_session_capabilities st =
    "capabilities" ⇒ obj st.capabilities ⨾ "note" ⇒ str "能力为 false 表示不可用；相关工具不应被调用" ⨾ end

unfoldable pub cmd_process_list : MockRuntimeState → Fields
cmd_process_list st =
    "total"
    ⇒ nat 1 ⨾ "truncated"
    ⇒ bool false ⨾ "processes"
    ⇒ arr (
        items (
          obj (
            "pid"
            ⇒ nat st.pid ⨾ "package"
            ⇒ str st.package_name ⨾ "uid"
            ⇒ nat st.uid ⨾ "process_name"
            ⇒ str st.package_name ⨾ "is_target"
            ⇒ bool true ⨾ end)
          ∷ [])) ⨾
      end

unfoldable pub cmd_process_info : MockRuntimeState → ℕ → Fields
cmd_process_info st clock =
    "pid"
    ⇒ nat st.pid ⨾ "package"
    ⇒ str st.package_name ⨾ "uid"
    ⇒ nat st.uid ⨾ "abi"
    ⇒ str st.abi ⨾ "sdk"
    ⇒ nat st.sdk ⨾ "threads"
    ⇒ nat (length st.threads) ⨾ "modules"
    ⇒ nat (length st.modules) ⨾ "uptime_ms"
    ⇒ nat (uptime_ms st clock) ⨾ end

unfoldable pub cmd_process_modules : MockRuntimeState → Fields
cmd_process_modules st =
    "total"
    ⇒ nat (length st.modules) ⨾ "truncated"
    ⇒ bool false ⨾ "modules"
    ⇒ dicts module_dict st.modules ⨾ end

unfoldable pub cmd_process_threads : MockRuntimeState → Fields
cmd_process_threads st =
    "total"
    ⇒ nat (length st.threads) ⨾ "truncated"
    ⇒ bool false ⨾ "threads"
    ⇒ dicts thread_dict st.threads ⨾ end

abbrev pub cmd_runtime_status : MockRuntimeState → ℕ → Fields
cmd_runtime_status st clock = status st clock

map_dict : MockModule → Fields
map_dict m =
    "module"
    ⇒ str m.name ⨾ "start"
    ⇒ str (hex_ℤ (pos m.base)) ⨾ "end"
    ⇒ str (hex_ℤ (pos (end_of m))) ⨾ "permissions"
    ⇒ str m.permissions ⨾ end

unfoldable pub cmd_memory_maps : MockRuntimeState → Fields
unfolding map_dict
cmd_memory_maps st = "total" ⇒ nat (length st.modules) ⨾ "maps" ⇒ dicts map_dict st.modules ⨾ end

unfoldable pub cmd_network_connections : MockRuntimeState → Fields
cmd_network_connections st =
    "total"
    ⇒ nat (length st.connections) ⨾ "truncated"
    ⇒ bool false ⨾ "connections"
    ⇒ dicts connection_dict st.connections ⨾ end

abbrev query : String → String → Json
query host at = obj ("host" ⇒ str host ⨾ "address" ⇒ str at ⨾ "type" ⇒ str "A" ⨾ end)

abbrev pub cmd_network_dns : Fields
cmd_network_dns =
    "total"
    ⇒ nat 2 ⨾ "queries"
    ⇒ arr (
        items (
          query "api.example.com" "93.184.216.34" ∷ query "cdn.example.com" "93.184.216.35" ∷ [])) ⨾
      end

unfoldable pub cmd_packet_list : (Bytes → String) → MockRuntimeState → Fields
cmd_packet_list sha256 st =
    "total"
    ⇒ nat (length st.packets) ⨾ "truncated"
    ⇒ bool false ⨾ "packets"
    ⇒ dicts (λ p. packet_dict sha256 p false) st.packets ⨾ end

abbrev pub cmd_artifact_list : Fields
cmd_artifact_list =
    "total"
    ⇒ nat 0 ⨾ "artifacts"
    ⇒ arr (items []) ⨾ "note"
    ⇒ str "Mock 后端不产生真实产物（避免假产物被当成真结果）" ⨾ end

unfoldable pub cmd_artifact_get : Fields → Outcome Fields
cmd_artifact_get payload =
    let id = get payload "artifact_id" in
    raises (
      error_next e_not_found (fstring ("Mock 后端没有 artifact：" ∷ shown id ∷ []))
        ("artifact_id" ⇒ id ⨾ "candidates" ⇒ arr (items []) ⨾ end) "Mock 后端不落盘产物；接入真机 Runtime 后才有")

-- `next((p for p in packets if p.packet_id == packet_id), None)`.
unfoldable pub find_packet : List MockPacket → Json → Option MockPacket
find_packet [] id = none
find_packet (p ∷ ps) id = if is_text id p.packet_id then some p else find_packet ps id

-- `payload.get("include_hex", True)` as a truth value.
with_hex : Option Json → Bool
with_hex none = true
with_hex (some v) = truthy v

note_entry : Bool → Fields
note_entry true = end
note_entry false = "note" ⇒ str "大对象不进协议 JSON；如需完整内容走 Artifact 通道" ⨾ end

abbrev append_fields : Fields → Fields → Fields
append_fields end gs = gs
append_fields (k ⇒ v ⨾ fs) gs = k ⇒ v ⨾ append_fields fs gs

packet_found :
    (Bytes → String) → MockRuntimeState → Json → Bool → Option MockPacket → Outcome Fields
packet_found sha256 st id hex? none = raises (
    error_next e_not_found (fstring ("未找到 packet_id=" ∷ shown id ∷ "；可能是 id 写错或包尚未捕获" ∷ []))
      ("packet_id"
        ⇒ id ⨾ "candidates"
        ⇒ texts (map (λ (p : MockPacket). p.packet_id) st.packets) ⨾ "candidate_count"
        ⇒ nat (length st.packets) ⨾ end)
      "用 context.candidates 里的 id 重试，或先 packet.list")
packet_found sha256 st id hex? (some p) =
    returns ("packet" ⇒ obj (append_fields (packet_dict sha256 p hex?) (note_entry hex?)) ⨾ end)

unfoldable pub cmd_packet_get : (Bytes → String) → MockRuntimeState → Fields → Outcome Fields
unfolding packet_found with_hex note_entry
cmd_packet_get sha256 st payload =
    let id = get payload "packet_id" in
    packet_found sha256 st id (with_hex (get? payload "include_hex")) (find_packet st.packets id)

length_or_16 : Option Json → Json
length_or_16 none = nat 16
length_or_16 (some v) = v

bad_address : Json → Outcome ℤ
bad_address raw = raises (
    error e_bad_args (fstring ("address 必须是 '0x...' 字符串或整数，收到 " ∷ quoted raw ∷ []))
      ("address" ⇒ raw ⨾ end))

-- `except (TypeError, ValueError)`.
or_bad_address : Json → Outcome ℤ → Outcome ℤ
or_bad_address raw (returns a) = returns a
or_bad_address raw (raises e) = raises e
or_bad_address raw (crashes type_error) = bad_address raw
or_bad_address raw (crashes value_error) = bad_address raw
or_bad_address raw (crashes attribute_error) = crashes attribute_error
or_bad_address raw (crashes key_error) = crashes key_error

address_of : Builtins → Json → Outcome ℤ
address_of py (str s) = py.int_hex s
address_of py v = py.int_of v

module_entries : Option MockModule → Fields
module_entries none = "module" ⇒ null ⨾ "permissions" ⇒ null ⨾ end
module_entries (some m) = "module" ⇒ str m.name ⨾ "permissions" ⇒ str m.permissions ⨾ end

-- The length is positive where the bytes were read.
abbrev pub size_of : ℤ → ℕ
size_of (pos n) = n
size_of (negsuc n) = 0

unfoldable pub read_dict : MockRuntimeState → ℤ → ℤ → Bytes → Fields
unfolding module_entries
read_dict st at n bs =
    "address"
    ⇒ str (hex_ℤ at) ⨾ "length"
    ⇒ nat (length bs) ⨾ "hex"
    ⇒ str (hex_bytes bs) ⨾ "ascii"
    ⇒ str (ascii_text bs) ⨾ module_entries (module_for_address st at (size_of n))

unfoldable pub cmd_memory_read : Builtins → MockRuntimeState → Fields → Outcome Fields
unfolding length_or_16 or_bad_address bad_address address_of
cmd_memory_read py st payload =
    let raw = get payload "address" in
    bind (py.int_of (length_or_16 (get? payload "length"))) λ n.
      bind (or_bad_address raw (address_of py raw))
        λ at. bind (outcome (read_memory st at n)) λ bs. returns (read_dict st at n bs)
