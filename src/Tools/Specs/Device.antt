-- ===== src/Tools/Specs/Device.antt =====
-- tools/specs.py, the tools named apk.* and device.*.
use zygisk_frida_packet_tcp.Base.{true, false, [], ◌∷◌}
use zygisk_frida_packet_tcp.Json.{bool, nat, str, obj, end, ◌⇒◌⨾◌}
use zygisk_frida_packet_tcp.Tools.Spec.{ToolSpec, core, fast, medium, slow, obj_schema, list_of}

abbrev pub device_list_tool : ToolSpec
device_list_tool = record {
  name = "device.list";
  title = "列出设备";
  description =
      "use_case：会话开始前确认有哪些可用设备。notes：只读，不改设备状态。next_step：拿到 serial 后调 device.info 或 apk.list。";
  command = "device.list";
  surface = core;
  latency = fast;
  read_only = true;
  destructive = false;
  idempotent = true;
  open_world = false;
  group = "";
  requires = [];
  input_schema = obj_schema (end) ([]) true;
  output_schema =
      obj_schema
        ("total"
          ⇒ obj ("type" ⇒ str "integer" ⨾ end) ⨾ "devices"
          ⇒ list_of (obj_schema (end) ([]) false) ⨾ end)
        ("total" ∷ "devices" ∷ []) false;
}

abbrev pub device_info_tool : ToolSpec
device_info_tool = record {
  name = "device.info";
  title = "设备详情";
  description =
      "use_case：确认 root / Magisk / Zygisk / ABI / 页大小，判断能否做动态分析。notes：Zygisk 未启用时后续所有 Runtime 能力都不可用。next_step：Zygisk 就绪则调 apk.launch 起目标 App。";
  command = "device.info";
  surface = core;
  latency = fast;
  read_only = true;
  destructive = false;
  idempotent = true;
  open_world = false;
  group = "";
  requires = [];
  input_schema = obj_schema (end) ([]) true;
  output_schema =
      obj_schema
        ("serial"
          ⇒ obj ("type" ⇒ str "string" ⨾ end) ⨾ "abi"
          ⇒ obj ("type" ⇒ str "string" ⨾ end) ⨾ "api"
          ⇒ obj ("type" ⇒ str "integer" ⨾ end) ⨾ "page_size"
          ⇒ obj ("type" ⇒ str "integer" ⨾ end) ⨾ "zygisk"
          ⇒ obj ("type" ⇒ str "string" ⨾ end) ⨾ "selinux"
          ⇒ obj ("type" ⇒ str "string" ⨾ end) ⨾ "rooted"
          ⇒ obj ("type" ⇒ str "boolean" ⨾ end) ⨾ end)
        ("abi" ∷ "rooted" ∷ []) false;
}

abbrev pub apk_list_tool : ToolSpec
apk_list_tool = record {
  name = "apk.list";
  title = "列出已安装应用";
  description = "use_case：挑出要分析的目标 App。notes：只读。next_step：用 apk.launch 启动目标包名。";
  command = "apk.list";
  surface = core;
  latency = fast;
  read_only = true;
  destructive = false;
  idempotent = true;
  open_world = false;
  group = "";
  requires = [];
  input_schema =
      obj_schema
        ("brief"
          ⇒ obj (
              "type"
              ⇒ str "boolean" ⨾ "default"
              ⇒ bool true ⨾ "description"
              ⇒ str "只回统计 + 前 N 条摘要" ⨾ end) ⨾
            end)
        ([]) true;
  output_schema =
      obj_schema
        ("total"
          ⇒ obj ("type" ⇒ str "integer" ⨾ end) ⨾ "truncated"
          ⇒ obj ("type" ⇒ str "boolean" ⨾ end) ⨾ end)
        ("total" ∷ "truncated" ∷ []) false;
}

abbrev pub apk_launch_tool : ToolSpec
apk_launch_tool = record {
  name = "apk.launch";
  title = "启动目标应用";
  description =
      "use_case：启动 App 并触发 Zygisk 自动进入，是整条链路的起点。notes：启动后 Runtime 与 Session 是**异步**出现的，不要立刻查 Session，应先轮询 session.list。next_step：session.list 确认 Session 出现，再调 session.capabilities。";
  command = "apk.launch";
  surface = core;
  latency = slow;
  read_only = false;
  destructive = true;
  idempotent = false;
  open_world = false;
  group = "";
  requires = [];
  input_schema =
      obj_schema
        ("package"
          ⇒ obj ("type" ⇒ str "string" ⨾ "minLength" ⇒ nat 1 ⨾ "description" ⇒ str "目标包名" ⨾ end) ⨾
            end)
        ("package" ∷ []) true;
  output_schema =
      obj_schema
        ("package"
          ⇒ obj ("type" ⇒ str "string" ⨾ end) ⨾ "launched"
          ⇒ obj ("type" ⇒ str "boolean" ⨾ end) ⨾ end)
        ("package" ∷ []) false;
}

abbrev pub apk_stop_tool : ToolSpec
apk_stop_tool = record {
  name = "apk.stop";
  title = "停止目标应用";
  description =
      "use_case：结束分析，或强制重启以重跑启动链。notes：会连带 Session 进入 DEGRADED → CLOSED。next_step：需要继续分析就重新 apk.launch。";
  command = "apk.stop";
  surface = core;
  latency = medium;
  read_only = false;
  destructive = true;
  idempotent = true;
  open_world = false;
  group = "";
  requires = [];
  input_schema =
      obj_schema ("package" ⇒ obj ("type" ⇒ str "string" ⨾ "minLength" ⇒ nat 1 ⨾ end) ⨾ end)
        ("package" ∷ []) true;
  output_schema =
      obj_schema
        ("package"
          ⇒ obj ("type" ⇒ str "string" ⨾ end) ⨾ "stopped"
          ⇒ obj ("type" ⇒ str "boolean" ⨾ end) ⨾ end)
        ("package" ∷ []) false;
}
