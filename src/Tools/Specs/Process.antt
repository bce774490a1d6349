-- ===== src/Tools/Specs/Process.antt =====
-- tools/specs.py, the tools named process.*.
use zygisk_frida_packet_tcp.Base.{true, false, [], ◌∷◌}
use zygisk_frida_packet_tcp.Json.{null, bool, str, arr, obj, end, ◌⇒◌⨾◌, items}
use zygisk_frida_packet_tcp.Tools.Spec.{ToolSpec, core, fast, obj_schema, list_of}
use zygisk_frida_packet_tcp.Tools.Specs.Fragments.{module_item, thread_item}

abbrev pub process_list_tool : ToolSpec
process_list_tool = record {
  name = "process.list";
  title = "列出进程";
  description =
      "use_case：确认目标进程是否存在及其 PID。notes：只读。is_target=true 的那条就是目标 App。next_step：process.modules 取模块基址。";
  command = "process.list";
  surface = core;
  latency = fast;
  read_only = true;
  destructive = false;
  idempotent = true;
  open_world = false;
  group = "";
  requires = [];
  input_schema =
      obj_schema ("brief" ⇒ obj ("type" ⇒ str "boolean" ⨾ "default" ⇒ bool true ⨾ end) ⨾ end) ([])
        true;
  output_schema =
      obj_schema
        ("total"
          ⇒ obj ("type" ⇒ str "integer" ⨾ end) ⨾ "truncated"
          ⇒ obj ("type" ⇒ str "boolean" ⨾ end) ⨾ "processes"
          ⇒ list_of (obj_schema (end) ([]) false) ⨾ end)
        ("total" ∷ []) false;
}

abbrev pub process_info_tool : ToolSpec
process_info_tool = record {
  name = "process.info";
  title = "进程详情";
  description =
      "use_case：取 PID / UID / ABI / SDK / 线程数 / 模块数。notes：只读。next_step：process.modules 或 process.threads。";
  command = "process.info";
  surface = core;
  latency = fast;
  read_only = true;
  destructive = false;
  idempotent = true;
  open_world = false;
  group = "";
  requires = [];
  input_schema = obj_schema (end) ([]) true;
  output_schema =
      obj_schema
        ("pid"
          ⇒ obj ("type" ⇒ str "integer" ⨾ end) ⨾ "package"
          ⇒ obj ("type" ⇒ str "string" ⨾ end) ⨾ "abi"
          ⇒ obj ("type" ⇒ str "string" ⨾ end) ⨾ "threads"
          ⇒ obj ("type" ⇒ str "integer" ⨾ end) ⨾ "modules"
          ⇒ obj ("type" ⇒ str "integer" ⨾ end) ⨾ end)
        ("pid" ∷ []) false;
}

abbrev pub process_modules_tool : ToolSpec
process_modules_tool = record {
  name = "process.modules";
  title = "列出模块映射";
  description =
      "use_case：**做 Hook 或内存读之前必须调**，拿模块基址。notes：base 是 '0x...' 字符串。地址算好后用 memory.read 或 runtime.hook。模块名或基址在 SO 加载后可能变化，此时报 E_MAP_STALE，需重新调用本工具。next_step：runtime.hook / memory.read。";
  command = "process.modules";
  surface = core;
  latency = fast;
  read_only = true;
  destructive = false;
  idempotent = true;
  open_world = false;
  group = "";
  requires = [];
  input_schema =
      obj_schema
        ("name_contains"
          ⇒ obj (
              "type"
              ⇒ arr (items ((str "string") ∷ (str "null") ∷ [])) ⨾ "default"
              ⇒ null ⨾ "description"
              ⇒ str "按名字过滤，null 表示不过滤" ⨾ end) ⨾
            end)
        ([]) true;
  output_schema =
      obj_schema
        ("total"
          ⇒ obj ("type" ⇒ str "integer" ⨾ end) ⨾ "truncated"
          ⇒ obj ("type" ⇒ str "boolean" ⨾ end) ⨾ "modules"
          ⇒ list_of module_item ⨾ end)
        ("total" ∷ "modules" ∷ []) false;
}

abbrev pub process_threads_tool : ToolSpec
process_threads_tool = record {
  name = "process.threads";
  title = "列出线程";
  description =
      "use_case：定位目标线程，为 Hook 事件与网络事件做关联。notes：只读。tid 是后续 correlation 的关键字段。next_step：与 packet.get / runtime.hook 的 tid 对齐。";
  command = "process.threads";
  surface = core;
  latency = fast;
  read_only = true;
  destructive = false;
  idempotent = true;
  open_world = false;
  group = "";
  requires = [];
  input_schema = obj_schema (end) ([]) true;
  output_schema =
      obj_schema
        ("total"
          ⇒ obj ("type" ⇒ str "integer" ⨾ end) ⨾ "truncated"
          ⇒ obj ("type" ⇒ str "boolean" ⨾ end) ⨾ "threads"
          ⇒ list_of thread_item ⨾ end)
        ("total" ∷ "threads" ∷ []) false;
}
