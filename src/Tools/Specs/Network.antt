-- ===== src/Tools/Specs/Network.antt =====
-- tools/specs.py, the tools named network.*.
use zygisk_frida_packet_tcp.Base.{true, false, [], ◌∷◌}
use zygisk_frida_packet_tcp.Json.{bool, str, arr, obj, end, ◌⇒◌⨾◌, items}
use zygisk_frida_packet_tcp.Tools.Spec.{
  ToolSpec, core, expert, fast, medium, slow, obj_schema, list_of,
}
use zygisk_frida_packet_tcp.Tools.Specs.Fragments.{connection_item}

abbrev pub network_capture_start_tool : ToolSpec
network_capture_start_tool = record {
  name = "network.capture_start";
  title = "开始抓包";
  description =
      "use_case：开始网络捕获，之后才有 Packet 与连接数据。notes：JOB 命令，秒级启动，返回 job_id。抓到了 ≠ 能解密，HTTPS 能力请以 session.capabilities 为准。next_step：job.status 等就绪，然后 network.connections。";
  command = "network.capture_start";
  surface = core;
  latency = slow;
  read_only = false;
  destructive = false;
  idempotent = true;
  open_world = false;
  group = "";
  requires = ("network", "capture") ∷ [];
  input_schema =
      obj_schema
        ("pcap"
          ⇒ obj (
              "type"
              ⇒ str "boolean" ⨾ "default"
              ⇒ bool false ⨾ "description"
              ⇒ str "是否同时落 PCAP 产物（走 Artifact 通道）" ⨾ end) ⨾
            end)
        ([]) true;
  output_schema =
      obj_schema ("job_id" ⇒ obj ("type" ⇒ str "string" ⨾ end) ⨾ end) ("job_id" ∷ []) false;
}

abbrev pub network_capture_stop_tool : ToolSpec
network_capture_stop_tool = record {
  name = "network.capture_stop";
  title = "停止抓包";
  description =
      "use_case：结束捕获并落盘产物。notes：产物走 Artifact 通道，返回 artifact_id + sha256，不进协议 JSON。next_step：artifact.get 取元数据，需要内容走独立通道拉取。";
  command = "network.capture_stop";
  surface = core;
  latency = medium;
  read_only = false;
  destructive = false;
  idempotent = true;
  open_world = false;
  group = "";
  requires = ("network", "capture") ∷ [];
  input_schema = obj_schema (end) ([]) true;
  output_schema =
      obj_schema
        ("stopped"
          ⇒ obj ("type" ⇒ str "boolean" ⨾ end) ⨾ "artifact_id"
          ⇒ obj ("type" ⇒ arr (items ((str "string") ∷ (str "null") ∷ [])) ⨾ end) ⨾ end)
        ("stopped" ∷ []) false;
}

abbrev pub network_connections_tool : ToolSpec
network_connections_tool = record {
  name = "network.connections";
  title = "列出网络连接";
  description =
      "use_case：看 App 当前有哪些连接，是抓包之外最轻量的网络视图。notes：只读。connection_id 是后续关联 Packet 与 Runtime 的桥梁。next_step：packet.get 取具体包，或与 process.threads 做关联。";
  command = "network.connections";
  surface = core;
  latency = fast;
  read_only = true;
  destructive = false;
  idempotent = true;
  open_world = false;
  group = "";
  requires = ("network", "capture") ∷ [];
  input_schema =
      obj_schema ("brief" ⇒ obj ("type" ⇒ str "boolean" ⨾ "default" ⇒ bool false ⨾ end) ⨾ end) ([])
        true;
  output_schema =
      obj_schema
        ("total"
          ⇒ obj ("type" ⇒ str "integer" ⨾ end) ⨾ "truncated"
          ⇒ obj ("type" ⇒ str "boolean" ⨾ end) ⨾ "connections"
          ⇒ list_of connection_item ⨾ end)
        ("total" ∷ "connections" ∷ []) false;
}

abbrev pub network_dns_tool : ToolSpec
network_dns_tool = record {
  name = "network.dns";
  title = "DNS 查询记录";
  description = "use_case：看 App 解析了哪些域名，快速摸清后端清单。notes：只读。next_step：按域名过滤 packet.list。";
  command = "network.dns";
  surface = expert;
  latency = fast;
  read_only = true;
  destructive = false;
  idempotent = true;
  open_world = false;
  group = "Network+";
  requires = ("network", "capture") ∷ [];
  input_schema = obj_schema (end) ([]) true;
  output_schema =
      obj_schema
        ("total"
          ⇒ obj ("type" ⇒ str "integer" ⨾ end) ⨾ "queries"
          ⇒ list_of (obj_schema (end) ([]) false) ⨾ end)
        ("total" ∷ []) false;
}
