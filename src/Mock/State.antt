-- ===== src/Mock/State.antt =====
-- mock/state.py: the state of the stand-in for a device: modules, memory, hooks and jobs. A dict is
-- the list of its values in their order, each of which holds its key. Progress is in thousandths,
-- the clock, in milliseconds, and random ids are arguments.
pub mod Reads
pub mod Jobs
pub mod Hooks
use Prim.Native.Char.{code}
use zygisk_frida_packet_tcp.Base.{
  ℕ, ◌+◌, ◌-◌, ◌*◌, ◌≡◌, min, String, Bool, true, false, ◌||◌, Option, none, some, List, [], ◌∷◌,
  ◌++◌, map, ◌==◌, ltb, leb, str_eq, keep, if◌then◌else◌, fstring, decimal_ℤ, hex, hex12, hex_ℤ,
  length, take, replicate, ℤ, pos, negsuc, sorted,
}
use zygisk_frida_packet_tcp.Json.{Json, null, int, milli, nat, str, obj, Fields, end, ◌⇒◌⨾◌, texts}
use zygisk_frida_packet_tcp.Protocol.Errors.{
  ProtocolError, error, error_next, e_bad_args, e_read_failed, e_permission_denied, e_not_found,
  Result, ok, raise,
}
use zygisk_frida_packet_tcp.Protocol.Constants.{SessionState}
use zygisk_frida_packet_tcp.Protocol.Frame.{Bytes}
use zygisk_frida_packet_tcp.Protocol.Messages.Check.{is_text}
use zygisk_frida_packet_tcp.Python.{shown}
use zygisk_frida_packet_tcp.Mock.Device.{MockThread, MockConnection, MockPacket}

pub record MockModule : Type 0 where
  pub name : String
  pub path : String
  pub base : ℕ
  pub size : ℕ
  pub permissions : String

abbrev pub end_of : MockModule → ℕ
end_of m = m.base + m.size

-- An address may be negative; a length is called with at least 1.
abbrev pub contains : MockModule → ℤ → ℕ → Bool
contains m (pos a) n = if leb m.base a then leb (a + n) (end_of m) else false
contains m (negsuc a) n = false

unfoldable pub module_dict : MockModule → Fields
module_dict m =
    "name"
    ⇒ str m.name ⨾ "path"
    ⇒ str m.path ⨾ "base"
    ⇒ str (hex_ℤ (pos m.base)) ⨾ "size"
    ⇒ nat m.size ⨾ "permissions"
    ⇒ str m.permissions ⨾ end

pub record MockHook : Type 0 where
  pub hook_id : String
  pub module_name : String
  pub address : Json
  pub status : String
  pub enter_count : ℕ
  pub leave_count : ℕ

pub record MockJob : Type 0 where
  pub job_id : String
  pub command : String
  pub state : String
  pub progress : ℕ
  pub created_at : ℕ
  pub outcome : Option Fields

abbrev pub is_running : MockJob → Bool
is_running j = str_eq j.state "running"

-- The entry that a running job has more.
wait_entry : Bool → Fields → Fields
wait_entry true rest = "suggested_wait_ms" ⇒ nat 200 ⨾ rest
wait_entry false rest = rest

result_entry : Option Fields → Fields
result_entry none = end
result_entry (some r) = "result" ⇒ obj r ⨾ end

unfoldable pub job_dict : MockJob → ℕ → Fields
unfolding wait_entry result_entry
job_dict j now =
    "job_id"
    ⇒ str j.job_id ⨾ "command"
    ⇒ str j.command ⨾ "state"
    ⇒ str j.state ⨾ "progress"
    ⇒ milli j.progress ⨾ "elapsed_ms"
    ⇒ nat (now - j.created_at) ⨾ wait_entry (is_running j) (result_entry j.outcome)

-- The memory has the bytes that were laid out at an address.
pub record MockRuntimeState : Type 0 where
  pub package_name : String
  pub pid : ℕ
  pub uid : ℕ
  pub abi : String
  pub sdk : ℕ
  pub started_at : ℕ
  pub state : SessionState
  pub threads : List MockThread
  pub connections : List MockConnection
  pub packets : List MockPacket
  pub capabilities : Fields
  pub modules : List MockModule
  pub memory : List (ℕ × Bytes)
  pub hooks : List MockHook
  pub jobs : List MockJob

-- A name that is no text is equal to none.
find_in : List MockModule → Json → Option MockModule
find_in [] name = none
find_in (m ∷ ms) name = if is_text name m.name then some m else find_in ms name

unfoldable pub find_module : MockRuntimeState → Json → Option MockModule
unfolding find_in
find_module st name = find_in st.modules name

unfoldable pub first_containing : List MockModule → ℤ → ℕ → Option MockModule
first_containing [] address n = none
first_containing (m ∷ ms) address n =
    if contains m address n then some m else first_containing ms address n

unfoldable pub module_for_address : MockRuntimeState → ℤ → ℕ → Option MockModule
module_for_address st address n = first_containing st.modules address n

-- `"r" in permissions`.
unfoldable pub is_readable : String → Bool
is_readable String.[] = false
is_readable (String.◌∷◌ c s) = code c == b'r' || is_readable s

-- `_memory.get(address)`.
unfoldable pub bytes_at : List (ℕ × Bytes) → ℤ → Option Bytes
bytes_at [] address = none
bytes_at ((a, bs) ∷ rest) (pos n) = if a == n then some bs else bytes_at rest (pos n)
bytes_at ((a, bs) ∷ rest) (negsuc n) = none

-- The bytes laid out, and zeros after them, cut to the length.
unfoldable pub padded : Option Bytes → ℕ → Bytes
padded none n = replicate n 0
padded (some chunk) n = take n (chunk ++ replicate n 0)

abbrev pub max_read : ℕ
max_read = 4096

range_text : MockModule → String
range_text m = fstring (hex_ℤ (pos m.base) ∷ "-" ∷ hex_ℤ (pos (end_of m)) ∷ [])

-- `read_memory` once the length is known to be legal and the module is looked up.
unfoldable pub read_in : MockRuntimeState → ℤ → ℕ → Option MockModule → Result Bytes
unfolding range_text
read_in st address n none = raise (
    error_next e_read_failed (fstring ("地址 " ∷ hex_ℤ address ∷ " 未落在任何已映射区间" ∷ []))
      ("address"
        ⇒ str (hex_ℤ address) ⨾ "length"
        ⇒ nat n ⨾ "mapped_ranges"
        ⇒ texts (map range_text st.modules) ⨾ end)
      "先用 process.modules 取模块基址，再计算实际地址")
read_in st address n (some m) =
    if is_readable m.permissions
    then ok (padded (bytes_at st.memory address) n)
    else raise (
        error e_permission_denied (fstring ("区间 " ∷ m.name ∷ " 不可读（权限 " ∷ m.permissions ∷ "）" ∷ []))
          ("module" ⇒ str m.name ⨾ "permissions" ⇒ str m.permissions ⨾ end))

not_positive : ℤ → Result Bytes
not_positive n =
    raise (error e_bad_args (fstring ("length 必须为正：" ∷ decimal_ℤ n ∷ [])) ("length" ⇒ int n ⨾ end))

unfoldable pub read_memory : MockRuntimeState → ℤ → ℤ → Result Bytes
unfolding not_positive
read_memory st address (negsuc n) = not_positive (negsuc n)
read_memory st address (pos n) =
    if n == 0
    then not_positive (pos n)
    else if ltb max_read n
    then raise (
        error_next e_bad_args (fstring ("单次读取上限 4096 字节，收到 " ∷ decimal_ℤ (pos n) ∷ []))
          ("length" ⇒ nat n ⨾ end) "分批读取，或改用 memory.dump 走 Artifact 通道")
    else read_in st address n (module_for_address st address n)

-- `hooks[hook_id] = hook`: in the place of the entry with that id, or at the end.
unfoldable pub put_hook : List MockHook → MockHook → List MockHook
put_hook [] h = h ∷ []
put_hook (x ∷ hs) h = if str_eq x.hook_id h.hook_id then h ∷ hs else x ∷ put_hook hs h

unfoldable pub find_hook : List MockHook → String → Option MockHook
find_hook [] id = none
find_hook (h ∷ hs) id = if str_eq h.hook_id id then some h else find_hook hs id

abbrev pub new_hook : ℕ → String → Json → MockHook
new_hook n module_name address = record {
  hook_id = fstring ("hook_" ∷ hex12 n ∷ []);
  module_name = module_name;
  address = address;
  status = "active";
  enter_count = 0;
  leave_count = 0;
}

hook_in : MockRuntimeState → Json → Json → Option MockModule → Result (MockRuntimeState × MockHook)
hook_in st module_name address none = raise (
    error_next e_not_found (fstring ("模块 " ∷ shown module_name ∷ " 不在当前映射表" ∷ []))
      ("module"
        ⇒ module_name ⨾ "candidates"
        ⇒ texts (map (λ (m : MockModule). m.name) st.modules) ⨾ end)
      "先 process.modules 确认模块名；候选已附在 context.candidates")
hook_in st module_name address (some m) =
    let hook = new_hook (length st.hooks + 1) m.name address in
    ok (record st { hooks = put_hook st.hooks hook }, hook)

unfoldable pub create_hook : MockRuntimeState → Json → Json → Result (MockRuntimeState × MockHook)
unfolding hook_in
create_hook st module_name address = hook_in st module_name address (find_module st module_name)

unfoldable pub put_job : List MockJob → MockJob → List MockJob
put_job [] j = j ∷ []
put_job (x ∷ js) j = if str_eq x.job_id j.job_id then j ∷ js else x ∷ put_job js j

unfoldable pub find_job : List MockJob → String → Option MockJob
find_job [] id = none
find_job (j ∷ js) id = if str_eq j.job_id id then some j else find_job js id

-- `new_job`, with the id that is drawn and the time.
unfoldable pub new_job : MockRuntimeState → String → String → ℕ → MockRuntimeState × MockJob
new_job st command job_id now =
    let job : MockJob = record {
      job_id = job_id;
      command = command;
      state = "running";
      progress = 0;
      created_at = now;
      outcome = none;
    } in
    (record st { jobs = put_job st.jobs job }, job)

abbrev pub mock_result : Fields
mock_result = "note" ⇒ str "Mock 后端，未产生真实产物" ⨾ "artifact_id" ⇒ null ⨾ end

-- The body of the loop of `advance_jobs`.
unfoldable pub advance_job : MockJob → MockJob
advance_job j =
    let progress = min 1000 (j.progress + 500) in
    if is_running j
    then if leb 1000 progress
      then record j { progress = progress; state = "completed"; outcome = some mock_result }
      else record j { progress = progress }
    else j

unfoldable pub advance_jobs : MockRuntimeState → MockRuntimeState
advance_jobs st = record st { jobs = map advance_job st.jobs }
