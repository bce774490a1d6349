-- ===== src/Mock/Server.antt =====
-- mock/server.py: `_handle`, the answer to one message. `getattr` on the class is a table from the
-- names of its methods. The messages that `conn.send` hands to the socket are the list `sent`.
pub mod Answers
use zygisk_frida_packet_tcp.Base.{
  ℕ, ◌+◌, String, Bool, true, false, not, ◌||◌, Option, none, some, List, [], ◌∷◌, ◌++◌, map,
  str_eq, fstring, sorted, mem_text, if◌then◌else◌, ℤ,
}
use zygisk_frida_packet_tcp.Json.{
  Json, null, bool, nat, str, arr, obj, Fields, end, ◌⇒◌⨾◌, get, get?, or_else, texts, truthy, keys,
}
use zygisk_frida_packet_tcp.Python.{Builtins}
use zygisk_frida_packet_tcp.Protocol.Errors.{
  code_value, error, error_next, e_bad_args, e_not_ready, e_session_stale, Result, ok, raise,
  Outcome, returns, raises, crashes, bind, outcome, attribute_error,
}
use zygisk_frida_packet_tcp.Protocol.Frame.{JsonCodec, Bytes, encode_frame}
use zygisk_frida_packet_tcp.Protocol.Messages.{
  EventArgs, make_event, make_response, make_error, make_pong,
}
use zygisk_frida_packet_tcp.Protocol.Messages.Check.{message_type_of, is_text}
use zygisk_frida_packet_tcp.Tools.Handlers.{method_name_for}
use zygisk_frida_packet_tcp.Mock.State.{
  MockHook, MockRuntimeState, create_hook, put_hook, advance_jobs,
}
use zygisk_frida_packet_tcp.Mock.Commands.{
  hook_dict, cmd_memory_dump, cmd_job_status, cmd_job_result, cmd_job_cancel, cmd_runtime_unhook,
  cmd_runtime_hook_info,
}
use zygisk_frida_packet_tcp.Mock.Queries.{
  cmd_device_list, cmd_device_info, cmd_device_root_status, cmd_session_list, cmd_session_info,
  cmd_session_capabilities, cmd_process_list, cmd_process_info, cmd_process_modules,
  cmd_process_threads, cmd_runtime_status, cmd_memory_maps, cmd_network_connections,
  cmd_network_dns, cmd_packet_list, cmd_artifact_list, cmd_artifact_get, cmd_packet_get,
  cmd_memory_read,
}
use zygisk_frida_packet_tcp.Mock.Hooking.{Turn, Ran, cmd_runtime_hook}

-- The methods `_cmd_…`: those that read no payload, and those that do.
pub data Plain : Type 0 where
  device_list device_info device_root_status session_list session_info session_capabilities : Plain
  process_list process_info process_modules process_threads runtime_status memory_maps : Plain
  network_connections network_dns packet_list artifact_list memory_dump : Plain

pub data Reading : Type 0 where
  runtime_hook runtime_unhook runtime_hook_info memory_read packet_get artifact_get : Reading
  job_status job_result job_cancel : Reading

pub data Method : Type 0 where
  plain : Plain → Method
  reading : Reading → Method

abbrev pub methods : List (String × Method)
methods =
    ("device_list", plain device_list)
    ∷ ("device_info", plain device_info)
    ∷ ("device_root_status", plain device_root_status)
    ∷ ("session_list", plain session_list)
    ∷ ("session_info", plain session_info)
    ∷ ("session_capabilities", plain session_capabilities)
    ∷ ("process_list", plain process_list)
    ∷ ("process_info", plain process_info)
    ∷ ("process_modules", plain process_modules)
    ∷ ("process_threads", plain process_threads)
    ∷ ("runtime_status", plain runtime_status)
    ∷ ("runtime_hook", reading runtime_hook)
    ∷ ("runtime_unhook", reading runtime_unhook)
    ∷ ("runtime_hook_info", reading runtime_hook_info)
    ∷ ("memory_read", reading memory_read)
    ∷ ("memory_maps", plain memory_maps)
    ∷ ("memory_dump", plain memory_dump)
    ∷ ("network_connections", plain network_connections)
    ∷ ("network_dns", plain network_dns)
    ∷ ("packet_list", plain packet_list)
    ∷ ("packet_get", reading packet_get)
    ∷ ("artifact_list", plain artifact_list)
    ∷ ("artifact_get", reading artifact_get)
    ∷ ("job_status", reading job_status)
    ∷ ("job_result", reading job_result)
    ∷ ("job_cancel", reading job_cancel)
    ∷ []

unfoldable pub find_method : List (String × Method) → String → Option Method
find_method [] name = none
find_method ((n, m) ∷ ms) name = if str_eq n name then some m else find_method ms name

abbrev shows : MockRuntimeState → Fields → Ran
shows st fs = record { events = []; state = st; result = returns fs }

abbrev leaves : MockRuntimeState × Outcome Fields → Ran
leaves p = record { events = []; state = p.0; result = p.1 }

module _ (py : Builtins) (codec : JsonCodec) (t : Turn) (st : MockRuntimeState) where
  unfoldable pub run_plain : Plain → Ran
  run_plain device_list = shows st (cmd_device_list st)
  run_plain device_info = shows st (cmd_device_info st)
  run_plain device_root_status = shows st cmd_device_root_status
  run_plain session_list = shows st (cmd_session_list st t.session_id t.clock)
  run_plain session_info = shows st (cmd_session_info st t.session_id t.clock)
  run_plain session_capabilities = shows st (cmd_session_capabilities st)
  run_plain process_list = shows st (cmd_process_list st)
  run_plain process_info = shows st (cmd_process_info st t.clock)
  run_plain process_modules = shows st (cmd_process_modules st)
  run_plain process_threads = shows st (cmd_process_threads st)
  run_plain runtime_status = shows st (cmd_runtime_status st t.clock)
  run_plain memory_maps = shows st (cmd_memory_maps st)
  run_plain network_connections = shows st (cmd_network_connections st)
  run_plain network_dns = shows st cmd_network_dns
  run_plain packet_list = shows st (cmd_packet_list py.sha256 st)
  run_plain artifact_list = shows st cmd_artifact_list
  run_plain memory_dump = leaves (cmd_memory_dump st end t.job_id t.clock)

  unfoldable pub run_reading : Reading → Fields → Ran
  run_reading runtime_hook fs = cmd_runtime_hook codec t st fs
  run_reading runtime_unhook fs = leaves (cmd_runtime_unhook st fs)
  run_reading runtime_hook_info fs = leaves (cmd_runtime_hook_info st fs)
  run_reading memory_read fs = leaves (st, cmd_memory_read py st fs)
  run_reading packet_get fs = leaves (st, cmd_packet_get py.sha256 st fs)
  run_reading artifact_get fs = leaves (st, cmd_artifact_get fs)
  run_reading job_status fs = leaves (cmd_job_status st fs t.clock)
  run_reading job_result fs = leaves (cmd_job_result st fs t.clock)
  run_reading job_cancel fs = leaves (cmd_job_cancel st fs t.clock)

  -- A payload that is no object has no `get`; `job.status` has moved the jobs on by then.
  unfoldable pub run_method : Method → Json → Ran
  run_method (plain p) v = run_plain p
  run_method (reading r) (obj fs) = run_reading r fs
  run_method (reading job_status) v = leaves (advance_jobs st, crashes attribute_error)
  run_method (reading r) v = leaves (st, crashes attribute_error)

abbrev pub supported_commands : List String
supported_commands =
    "device.list" ∷ "device.info" ∷ "device.root_status" ∷ "session.list" ∷ "session.info"
    ∷ "session.capabilities" ∷ "process.list" ∷ "process.info" ∷ "process.modules"
    ∷ "process.threads" ∷ "runtime.status" ∷ "runtime.hook" ∷ "runtime.unhook" ∷ "runtime.hook_info"
    ∷ "memory.read" ∷ "memory.maps" ∷ "network.connections" ∷ "network.dns" ∷ "packet.get"
    ∷ "packet.list" ∷ "artifact.get" ∷ "artifact.list" ∷ "job.status" ∷ "job.result" ∷ "job.cancel"
    ∷ "memory.dump" ∷ []

-- What a message ends in.
pub record Handled : Type 0 where
  pub sent : List Fields
  pub state : MockRuntimeState
  pub result : Outcome (Unit {0})

-- The last message of a handling, after what has gone out: it goes out if it has a frame, and what
-- `encode_frame` raises leaves the handling.
send_last : MockRuntimeState → List Fields → Fields → Result Bytes → Handled
send_last st ms m (ok frame) = record { sent = ms ++ m ∷ []; state = st; result = returns tt }
send_last st ms m (raise e) = record { sent = ms; state = st; result = raises e }

unfoldable pub sends : JsonCodec → MockRuntimeState → List Fields → Fields → Handled
unfolding send_last
sends codec st ms m = send_last st ms m (encode_frame codec m false)

abbrev silent : MockRuntimeState → Handled
silent st = record { sent = []; state = st; result = returns tt }

abbrev dies : MockRuntimeState → Outcome (Unit {0}) → Handled
dies st r = record { sent = []; state = st; result = r }

not_supported : Turn → Json → Json → Fields
not_supported t request_id command =
    make_response request_id t.session_id "error" (code_value e_not_ready)
      (some (
        "reason"
        ⇒ str "capability unavailable" ⨾ "command"
        ⇒ command ⨾ "mock_supported"
        ⇒ texts (sorted supported_commands) ⨾ "note"
        ⇒ str "Mock 后端未实现该命令；真机 Runtime 就绪后由 Android 侧提供" ⨾ end))
      t.now

stale : Turn → Json → Json → Fields
stale t request_id got =
    make_error
      (error_next e_session_stale "session_id 已失效（重连后旧 Session 不恢复）"
        ("got" ⇒ got ⨾ "current" ⇒ str t.session_id ⨾ end) "重新 session.list 获取新 Session")
      request_id (some t.session_id) t.now

-- The reply to what a command ended in; an exception of another kind is not answered.
replied : JsonCodec → Turn → Json → List Fields → MockRuntimeState → Outcome Fields → Handled
unfolding sends
replied codec t request_id events st (returns body) =
    sends codec st events (make_response request_id t.session_id "ok" "OK" (some body) t.now)
replied codec t request_id events st (raises e) =
    sends codec st events (make_error e request_id (some t.session_id) t.now)
replied codec t request_id events st (crashes x) = record {
  sent = events;
  state = st;
  result = crashes x;
}

abbrev reply_to : JsonCodec → Turn → Json → Ran → Handled
reply_to codec t request_id r = replied codec t request_id r.events r.state r.result

-- `msg.get(k, d)`.
abbrev pub default_json : Option Json → Json → Json
default_json none d = d
default_json (some v) d = v

module _ (py : Builtins) (codec : JsonCodec) (t : Turn) (st : MockRuntimeState) where
  run_found : Json → Json → Json → Option Method → Handled
  unfolding replied sends not_supported
  run_found request_id command payload none = sends codec st [] (not_supported t request_id command)
  run_found request_id command payload (some m) =
      reply_to codec t request_id (run_method py codec t st m payload)

  -- `command.replace(".", "_")` wants a text.
  run_named : Json → Json → Json → Handled
  unfolding run_found
  run_named request_id payload (str command) =
      run_found request_id (str command) payload (find_method methods (method_name_for command))
  run_named request_id payload v = dies st (crashes attribute_error)

  unfoldable pub handle_request : Fields → Handled
  unfolding run_named sends stale
  handle_request msg =
      let request_id = default_json (get? msg "request_id") (str "") in
      let session_id = get msg "session_id" in
      if is_text session_id t.session_id
      then run_named request_id (or_else (get msg "payload") (obj end))
          (default_json (get? msg "command") (str ""))
      else sends codec st [] (stale t request_id session_id)

  ping_answered : Outcome ℤ → Handled
  unfolding sends
  ping_answered (returns seq) = sends codec st [] (make_pong seq t.now)
  ping_answered (raises e) = dies st (raises e)
  ping_answered (crashes x) = dies st (crashes x)

  unfoldable pub handle_type : String → Fields → Handled
  unfolding ping_answered
  handle_type mtype msg =
      if str_eq mtype "PING"
      then if t.heartbeat_enabled
        then ping_answered (py.int_of (default_json (get? msg "seq") (nat 0)))
        else silent st
      else if str_eq mtype "REQUEST"
      then handle_request msg
      else silent st

  handle_read : Result String → Fields → Handled
  handle_read (ok mtype) msg = handle_type mtype msg
  handle_read (raise e) msg = dies st (raises e)

  -- `_handle`.
  unfoldable pub handle : Fields → Handled
  unfolding handle_read
  handle msg = handle_read (message_type_of msg) msg
