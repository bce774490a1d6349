-- ===== src/Tools/Specs/Session.antt =====
-- tools/specs.py, the tools named session.*.
use zygisk_frida_packet_tcp.Base.{true, false, [], ◌∷◌}
use zygisk_frida_packet_tcp.Json.{str, arr, obj, end, ◌⇒◌⨾◌, items}
use zygisk_frida_packet_tcp.Tools.Spec.{ToolSpec, core, fast, obj_schema, list_of}
use zygisk_frida_packet_tcp.Tools.Specs.Fragments.{capabilities, session_summary}

abbrev pub session_list_tool : ToolSpec
session_list_tool = record {
  name = "session.list";
  title = "列出会话";
  description =
      "use_case：确认目标 App 的 Session 是否已出现。notes：**重连后 session_id 一定会变**，旧 id 已失效，不要复用。next_step：session.info 或 session.capabilities。";
  command = "session.list";
  surface = core;
  latency = fast;
  read_only = true;
  destructive = false;
  idempotent = true;
  open_world = false;
  group = "";
  requires = [];
  input_schema = obj_schema (end) ([]) true;
  output_schema =
      obj_schema
        ("total" ⇒ obj ("type" ⇒ str "integer" ⨾ end) ⨾ "sessions" ⇒ list_of session_summary ⨾ end)
        ("total" ∷ "sessions" ∷ []) false;
}

abbrev pub session_info_tool : ToolSpec
session_info_tool = record {
  name = "session.info";
  title = "会话详情";
  description =
      "use_case：取当前 Session 的包名 / PID / ABI / SDK / 运行时长。notes：只读。next_step：需要判断能做什么就调 session.capabilities。";
  command = "session.info";
  surface = core;
  latency = fast;
  read_only = true;
  destructive = false;
  idempotent = true;
  open_world = false;
  group = "";
  requires = [];
  input_schema = obj_schema (end) ([]) true;
  output_schema =
      obj_schema
        ("session_id"
          ⇒ obj ("type" ⇒ str "string" ⨾ end) ⨾ "state"
          ⇒ obj ("type" ⇒ str "string" ⨾ end) ⨾ "package"
          ⇒ obj ("type" ⇒ arr (items ((str "string") ∷ (str "null") ∷ [])) ⨾ end) ⨾ "pid"
          ⇒ obj ("type" ⇒ arr (items ((str "integer") ∷ (str "null") ∷ [])) ⨾ end) ⨾ "abi"
          ⇒ obj ("type" ⇒ arr (items ((str "string") ∷ (str "null") ∷ [])) ⨾ end) ⨾ "sdk"
          ⇒ obj ("type" ⇒ arr (items ((str "integer") ∷ (str "null") ∷ [])) ⨾ end) ⨾ "uptime_ms"
          ⇒ obj ("type" ⇒ str "integer" ⨾ end) ⨾ end)
        ("session_id" ∷ "state" ∷ []) false;
}

abbrev pub session_capabilities_tool : ToolSpec
session_capabilities_tool = record {
  name = "session.capabilities";
  title = "会话能力";
  description =
      "use_case：**决定下一步做什么之前必须先调这个**。notes：能力为 false 表示不可用，相关工具已被摘除。尤其注意 https_decrypt=false 时不要声称能看明文。next_step：按返回的能力选择工具，不要试不可用的。";
  command = "session.capabilities";
  surface = core;
  latency = fast;
  read_only = true;
  destructive = false;
  idempotent = true;
  open_world = false;
  group = "";
  requires = [];
  input_schema = obj_schema (end) ([]) true;
  output_schema =
      obj_schema ("capabilities" ⇒ capabilities ⨾ "note" ⇒ obj ("type" ⇒ str "string" ⨾ end) ⨾ end)
        ("capabilities" ∷ []) false;
}
