-- ===== src/Tools/Specs/Runtime.antt =====
-- tools/specs.py, the tools named runtime.*.
use zygisk_frida_packet_tcp.Base.{true, false, [], ◌∷◌}
use zygisk_frida_packet_tcp.Json.{nat, str, obj, end, ◌⇒◌⨾◌}
use zygisk_frida_packet_tcp.Tools.Spec.{ToolSpec, core, fast, slow, obj_schema, list_of, address}
use zygisk_frida_packet_tcp.Tools.Specs.Fragments.{execution_triad}

abbrev pub runtime_status_tool : ToolSpec
runtime_status_tool = record {
  name = "runtime.status";
  title = "运行时状态";
  description =
      "use_case：探活。任何超时或异常之后先调这个，判断后端是卡住还是已死。notes：只读，最便宜的一次调用。next_step：正常则继续业务；异常则查 session.list 是否已失效。";
  command = "runtime.status";
  surface = core;
  latency = fast;
  read_only = true;
  destructive = false;
  idempotent = true;
  open_world = false;
  group = "";
  requires = [];
  input_schema = obj_schema (end) ([]) true;
  output_schema =
      obj_schema
        ("state"
          ⇒ obj ("type" ⇒ str "string" ⨾ end) ⨾ "pid"
          ⇒ obj ("type" ⇒ str "integer" ⨾ end) ⨾ "package"
          ⇒ obj ("type" ⇒ str "string" ⨾ end) ⨾ "abi"
          ⇒ obj ("type" ⇒ str "string" ⨾ end) ⨾ "runtime_ready"
          ⇒ obj ("type" ⇒ str "boolean" ⨾ end) ⨾ "network_ready"
          ⇒ obj ("type" ⇒ str "boolean" ⨾ end) ⨾ "hooks_active"
          ⇒ obj ("type" ⇒ str "integer" ⨾ end) ⨾ "modules_count"
          ⇒ obj ("type" ⇒ str "integer" ⨾ end) ⨾ "threads_count"
          ⇒ obj ("type" ⇒ str "integer" ⨾ end) ⨾ end)
        ("state" ∷ "pid" ∷ "runtime_ready" ∷ []) false;
}

abbrev pub runtime_hook_tool : ToolSpec
runtime_hook_tool = record {
  name = "runtime.hook";
  title = "安装 Hook";
  description =
      "use_case：对运行中 App 的目标函数装 Hook，App 不重启。notes：需要 module + address。🔴 返回 status=ok **不算成功** —— 必须看 execution.verified 与 events_observed；verified 由真实 HOOK_ENTER / HOOK_LEAVE 事件支撑。next_step：读事件或调 runtime.hook_info 确认状态。";
  command = "runtime.hook";
  surface = core;
  latency = fast;
  read_only = false;
  destructive = true;
  idempotent = false;
  open_world = false;
  group = "";
  requires = ("runtime", "native_hook") ∷ [];
  input_schema =
      obj_schema
        ("module"
          ⇒ obj ("type" ⇒ str "string" ⨾ "minLength" ⇒ nat 1 ⨾ end) ⨾ "address"
          ⇒ address ⨾ end)
        ("module" ∷ "address" ∷ []) true;
  output_schema =
      obj_schema
        ("hook"
          ⇒ obj_schema (end) ([]) false ⨾ "execution"
          ⇒ execution_triad ⨾ "events_observed"
          ⇒ list_of (obj ("type" ⇒ str "string" ⨾ end)) ⨾ end)
        ("execution" ∷ []) false;
}

abbrev pub runtime_unhook_tool : ToolSpec
runtime_unhook_tool = record {
  name = "runtime.unhook";
  title = "移除 Hook";
  description =
      "use_case：分析完成后清理 Hook，避免残留影响目标 App 行为。notes：需要 hook_id，可从 runtime.hook 返回或 runtime.hook_info 取得。next_step：runtime.hook_info 确认 status=removed。";
  command = "runtime.unhook";
  surface = core;
  latency = fast;
  read_only = false;
  destructive = true;
  idempotent = true;
  open_world = false;
  group = "";
  requires = [];
  input_schema =
      obj_schema ("hook_id" ⇒ obj ("type" ⇒ str "string" ⨾ "minLength" ⇒ nat 1 ⨾ end) ⨾ end)
        ("hook_id" ∷ []) true;
  output_schema =
      obj_schema
        ("hook_id"
          ⇒ obj ("type" ⇒ str "string" ⨾ end) ⨾ "status"
          ⇒ obj ("type" ⇒ str "string" ⨾ end) ⨾ "execution"
          ⇒ execution_triad ⨾ end)
        ("hook_id" ∷ "status" ∷ []) false;
}

abbrev pub runtime_trace_tool : ToolSpec
runtime_trace_tool = record {
  name = "runtime.trace";
  title = "函数追踪";
  description =
      "use_case：对某个函数做一段时间内的调用追踪，收集调用序列。notes：JOB 命令，秒~分钟级，返回 job_id。next_step：用 job.status 轮询，完成后 job.result 取产物。";
  command = "runtime.trace";
  surface = core;
  latency = slow;
  read_only = false;
  destructive = false;
  idempotent = false;
  open_world = false;
  group = "";
  requires = ("runtime", "native_hook") ∷ [];
  input_schema =
      obj_schema
        ("module"
          ⇒ obj ("type" ⇒ str "string" ⨾ end) ⨾ "address"
          ⇒ address ⨾ "duration_ms"
          ⇒ obj (
              "type"
              ⇒ str "integer" ⨾ "minimum"
              ⇒ nat 100 ⨾ "maximum"
              ⇒ nat 300000 ⨾ "default"
              ⇒ nat 5000 ⨾ end) ⨾
            end)
        ("module" ∷ "address" ∷ []) true;
  output_schema =
      obj_schema ("job_id" ⇒ obj ("type" ⇒ str "string" ⨾ end) ⨾ end) ("job_id" ∷ []) false;
}
