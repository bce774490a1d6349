-- ===== src/Tools/Specs/Packet.antt =====
-- tools/specs.py, the tools named packet.*.
use zygisk_frida_packet_tcp.Base.{true, false, [], ◌∷◌}
use zygisk_frida_packet_tcp.Json.{null, bool, nat, str, arr, obj, end, ◌⇒◌⨾◌, items}
use zygisk_frida_packet_tcp.Tools.Spec.{ToolSpec, core, expert, fast, slow, obj_schema, list_of}
use zygisk_frida_packet_tcp.Tools.Specs.Fragments.{packet_item}

abbrev pub packet_get_tool : ToolSpec
packet_get_tool = record {
  name = "packet.get";
  title = "取数据包";
  description =
      "use_case：取一个包的元数据与内容。notes：默认返回 hex；大 body 用 include_hex=false 只取 metadata + sha256。未命中时返回候选 id 与数量，不要据此断定包不存在。next_step：packet.decode 解析结构，或 packet.modify 改包。";
  command = "packet.get";
  surface = core;
  latency = fast;
  read_only = true;
  destructive = false;
  idempotent = true;
  open_world = false;
  group = "";
  requires = ("network", "capture") ∷ [];
  input_schema =
      obj_schema
        ("packet_id"
          ⇒ obj ("type" ⇒ str "string" ⨾ "minLength" ⇒ nat 1 ⨾ end) ⨾ "include_hex"
          ⇒ obj ("type" ⇒ str "boolean" ⨾ "default" ⇒ bool true ⨾ end) ⨾ end)
        ("packet_id" ∷ []) true;
  output_schema = obj_schema ("packet" ⇒ packet_item ⨾ end) ("packet" ∷ []) false;
}

abbrev pub packet_modify_tool : ToolSpec
packet_modify_tool = record {
  name = "packet.modify";
  title = "修改数据包";
  description =
      "use_case：改包并转发（授权测试场景）。notes：🔴 必须走 Write Guard。返回 original_hex / modified_hex / offset / changed_length；协议禁止长度变化时直接拒绝，不得偷偷截断。next_step：观察下游是否真的收到修改后的字节。";
  command = "packet.modify";
  surface = core;
  latency = slow;
  read_only = false;
  destructive = true;
  idempotent = false;
  open_world = false;
  group = "";
  requires = ("network", "packet_intercept") ∷ [];
  input_schema =
      obj_schema
        ("packet_id"
          ⇒ obj ("type" ⇒ str "string" ⨾ "minLength" ⇒ nat 1 ⨾ end) ⨾ "offset"
          ⇒ obj ("type" ⇒ str "integer" ⨾ "minimum" ⇒ nat 0 ⨾ "maximum" ⇒ nat 1048576 ⨾ end) ⨾ "hex"
          ⇒ obj ("type" ⇒ str "string" ⨾ "pattern" ⇒ str "^[0-9a-fA-F]*$" ⨾ end) ⨾ "confirm"
          ⇒ obj ("type" ⇒ str "boolean" ⨾ "default" ⇒ bool false ⨾ end) ⨾ end)
        ("packet_id" ∷ "offset" ∷ "hex" ∷ []) true;
  output_schema =
      obj_schema
        ("packet_id"
          ⇒ obj ("type" ⇒ str "string" ⨾ end) ⨾ "original_hex"
          ⇒ obj ("type" ⇒ str "string" ⨾ end) ⨾ "modified_hex"
          ⇒ obj ("type" ⇒ str "string" ⨾ end) ⨾ "changed_length"
          ⇒ obj ("type" ⇒ str "integer" ⨾ end) ⨾ "verified"
          ⇒ obj ("type" ⇒ str "boolean" ⨾ end) ⨾ end)
        ("packet_id" ∷ "verified" ∷ []) false;
}

abbrev pub packet_list_tool : ToolSpec
packet_list_tool = record {
  name = "packet.list";
  title = "列出数据包";
  description = "use_case：批量看包，配合过滤缩小范围。notes：只读。大结果分页。next_step：packet.get 取具体包内容。";
  command = "packet.list";
  surface = expert;
  latency = fast;
  read_only = true;
  destructive = false;
  idempotent = true;
  open_world = false;
  group = "Packet+";
  requires = ("network", "capture") ∷ [];
  input_schema =
      obj_schema
        ("connection_id"
          ⇒ obj
              ("type" ⇒ arr (items ((str "string") ∷ (str "null") ∷ [])) ⨾ "default" ⇒ null ⨾ end) ⨾
            "limit"
          ⇒ obj (
              "type"
              ⇒ str "integer" ⨾ "minimum"
              ⇒ nat 1 ⨾ "maximum"
              ⇒ nat 200 ⨾ "default"
              ⇒ nat 50 ⨾ end) ⨾
            end)
        ([]) true;
  output_schema =
      obj_schema
        ("total"
          ⇒ obj ("type" ⇒ str "integer" ⨾ end) ⨾ "truncated"
          ⇒ obj ("type" ⇒ str "boolean" ⨾ end) ⨾ "packets"
          ⇒ list_of packet_item ⨾ end)
        ("total" ∷ "packets" ∷ []) false;
}

abbrev pub packet_hex_tool : ToolSpec
packet_hex_tool = record {
  name = "packet.hex";
  title = "包 HEX 视图";
  description =
      "use_case：以偏移 + HEX + ASCII 形式看包内容，便于逐字节定位。notes：只读。大包请用 offset/length 分段看。next_step：确定 offset 后用 packet.modify 改。";
  command = "packet.hex";
  surface = expert;
  latency = fast;
  read_only = true;
  destructive = false;
  idempotent = true;
  open_world = false;
  group = "Packet+";
  requires = ("network", "capture") ∷ [];
  input_schema =
      obj_schema
        ("packet_id"
          ⇒ obj ("type" ⇒ str "string" ⨾ "minLength" ⇒ nat 1 ⨾ end) ⨾ "offset"
          ⇒ obj (
              "type"
              ⇒ str "integer" ⨾ "minimum"
              ⇒ nat 0 ⨾ "maximum"
              ⇒ nat 1048576 ⨾ "default"
              ⇒ nat 0 ⨾ end) ⨾
            "length"
          ⇒ obj (
              "type"
              ⇒ str "integer" ⨾ "minimum"
              ⇒ nat 1 ⨾ "maximum"
              ⇒ nat 4096 ⨾ "default"
              ⇒ nat 256 ⨾ end) ⨾
            end)
        ("packet_id" ∷ []) true;
  output_schema =
      obj_schema
        ("packet_id"
          ⇒ obj ("type" ⇒ str "string" ⨾ end) ⨾ "offset"
          ⇒ obj ("type" ⇒ str "integer" ⨾ end) ⨾ "hex"
          ⇒ obj ("type" ⇒ str "string" ⨾ end) ⨾ end)
        ("packet_id" ∷ "hex" ∷ []) false;
}

abbrev pub packet_export_tool : ToolSpec
packet_export_tool = record {
  name = "packet.export";
  title = "导出数据包";
  description =
      "use_case：把筛选出的包导出成产物（PCAP / JSON）。notes：JOB 命令。产物走 Artifact 通道。next_step：job.status → artifact.get。";
  command = "packet.export";
  surface = expert;
  latency = slow;
  read_only = true;
  destructive = false;
  idempotent = false;
  open_world = false;
  group = "Packet+";
  requires = ("network", "capture") ∷ [];
  input_schema =
      obj_schema
        ("connection_id"
          ⇒ obj
              ("type" ⇒ arr (items ((str "string") ∷ (str "null") ∷ [])) ⨾ "default" ⇒ null ⨾ end) ⨾
            "format"
          ⇒ obj (
              "type"
              ⇒ str "string" ⨾ "enum"
              ⇒ arr (items ((str "pcap") ∷ (str "json") ∷ [])) ⨾ "default"
              ⇒ str "pcap" ⨾ end) ⨾
            end)
        ([]) true;
  output_schema =
      obj_schema ("job_id" ⇒ obj ("type" ⇒ str "string" ⨾ end) ⨾ end) ("job_id" ∷ []) false;
}
