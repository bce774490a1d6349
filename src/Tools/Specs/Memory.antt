-- ===== src/Tools/Specs/Memory.antt =====
-- tools/specs.py, the tools named memory.*.
use zygisk_frida_packet_tcp.Base.{true, false, [], ◌∷◌}
use zygisk_frida_packet_tcp.Json.{bool, nat, str, arr, obj, end, ◌⇒◌⨾◌, items}
use zygisk_frida_packet_tcp.Tools.Spec.{
  ToolSpec, core, expert, fast, medium, slow, obj_schema, list_of, address,
}
use zygisk_frida_packet_tcp.Tools.Specs.Fragments.{execution_triad}

abbrev pub memory_read_tool : ToolSpec
memory_read_tool = record {
  name = "memory.read";
  title = "读内存";
  description =
      "use_case：读取目标进程指定地址的字节。notes：地址必须落在已映射区间且区间可读，否则 E_READ_FAILED 并返回可用区间。单次上限 4096 字节。next_step：需要大块数据改用 memory.dump（JOB）。";
  command = "memory.read";
  surface = core;
  latency = fast;
  read_only = true;
  destructive = false;
  idempotent = true;
  open_world = false;
  group = "";
  requires = ("runtime", "memory_read") ∷ [];
  input_schema =
      obj_schema
        ("address"
          ⇒ address ⨾ "length"
          ⇒ obj (
              "type"
              ⇒ str "integer" ⨾ "minimum"
              ⇒ nat 1 ⨾ "maximum"
              ⇒ nat 4096 ⨾ "default"
              ⇒ nat 16 ⨾ end) ⨾
            end)
        ("address" ∷ []) true;
  output_schema =
      obj_schema
        ("address"
          ⇒ obj ("type" ⇒ str "string" ⨾ end) ⨾ "length"
          ⇒ obj ("type" ⇒ str "integer" ⨾ end) ⨾ "hex"
          ⇒ obj ("type" ⇒ str "string" ⨾ end) ⨾ "ascii"
          ⇒ obj ("type" ⇒ str "string" ⨾ end) ⨾ "module"
          ⇒ obj ("type" ⇒ arr (items ((str "string") ∷ (str "null") ∷ [])) ⨾ end) ⨾ end)
        ("address" ∷ "length" ∷ "hex" ∷ []) false;
}

abbrev pub memory_write_tool : ToolSpec
memory_write_tool = record {
  name = "memory.write";
  title = "写内存";
  description =
      "use_case：修改目标进程内存（授权测试场景）。notes：🔴 高风险。必须走 Write Guard：validate → preview → backup → confirm → execute → verify。confirm 默认 false，必须显式传 true。返回必须含 original / new / verified 三项。next_step：verified=false 时不要声称成功，需回滚并换地址。";
  command = "memory.write";
  surface = core;
  latency = fast;
  read_only = false;
  destructive = true;
  idempotent = false;
  open_world = false;
  group = "";
  requires = ("runtime", "memory_write") ∷ [];
  input_schema =
      obj_schema
        ("address"
          ⇒ address ⨾ "hex"
          ⇒ obj (
              "type"
              ⇒ str "string" ⨾ "pattern"
              ⇒ str "^[0-9a-fA-F]+$" ⨾ "description"
              ⇒ str "要写入的字节，十六进制字符串" ⨾ end) ⨾
            "confirm"
          ⇒ obj (
              "type"
              ⇒ str "boolean" ⨾ "default"
              ⇒ bool false ⨾ "description"
              ⇒ str "Write Guard 显式确认，默认 false" ⨾ end) ⨾
            end)
        ("address" ∷ "hex" ∷ []) true;
  output_schema =
      obj_schema
        ("address"
          ⇒ obj ("type" ⇒ str "string" ⨾ end) ⨾ "original"
          ⇒ obj ("type" ⇒ str "string" ⨾ end) ⨾ "new"
          ⇒ obj ("type" ⇒ str "string" ⨾ end) ⨾ "verified"
          ⇒ obj ("type" ⇒ str "boolean" ⨾ end) ⨾ "execution"
          ⇒ execution_triad ⨾ end)
        ("address" ∷ "verified" ∷ []) false;
}

abbrev pub memory_search_tool : ToolSpec
memory_search_tool = record {
  name = "memory.search";
  title = "搜索内存";
  description =
      "use_case：按特征找地址（先找候选，再验证候选）。notes：0 命中时不要下「不存在」的结论 —— 返回里带搜索范围与放宽建议。next_step：用返回的候选地址调 memory.read 验证。";
  command = "memory.search";
  surface = core;
  latency = medium;
  read_only = true;
  destructive = false;
  idempotent = true;
  open_world = false;
  group = "";
  requires = ("runtime", "memory_read") ∷ [];
  input_schema =
      obj_schema
        ("pattern"
          ⇒ obj (
              "type"
              ⇒ str "string" ⨾ "minLength"
              ⇒ nat 1 ⨾ "description"
              ⇒ str "十六进制字节串，或明文字符串" ⨾ end) ⨾
            "as_text"
          ⇒ obj ("type" ⇒ str "boolean" ⨾ "default" ⇒ bool false ⨾ end) ⨾ "max_results"
          ⇒ obj (
              "type"
              ⇒ str "integer" ⨾ "minimum"
              ⇒ nat 1 ⨾ "maximum"
              ⇒ nat 256 ⨾ "default"
              ⇒ nat 32 ⨾ end) ⨾
            end)
        ("pattern" ∷ []) true;
  output_schema =
      obj_schema
        ("total"
          ⇒ obj ("type" ⇒ str "integer" ⨾ end) ⨾ "matches"
          ⇒ list_of (obj_schema (end) ([]) false) ⨾ end)
        ("total" ∷ []) false;
}

abbrev pub memory_maps_tool : ToolSpec
memory_maps_tool = record {
  name = "memory.maps";
  title = "内存映射表";
  description =
      "use_case：查看完整映射区间，定位可读/可写段。notes：比 process.modules 更细，含权限。next_step：按 start/end 选地址再 memory.read。";
  command = "memory.maps";
  surface = expert;
  latency = fast;
  read_only = true;
  destructive = false;
  idempotent = true;
  open_world = false;
  group = "Memory+";
  requires = ("runtime", "memory_read") ∷ [];
  input_schema = obj_schema (end) ([]) true;
  output_schema =
      obj_schema
        ("total"
          ⇒ obj ("type" ⇒ str "integer" ⨾ end) ⨾ "maps"
          ⇒ list_of (obj_schema (end) ([]) false) ⨾ end)
        ("total" ∷ []) false;
}

abbrev pub memory_dump_tool : ToolSpec
memory_dump_tool = record {
  name = "memory.dump";
  title = "转储内存";
  description =
      "use_case：把一段内存落成产物供离线分析。notes：JOB 命令。产物走 Artifact 通道，只回 metadata + sha256。next_step：job.status 轮询，完成后 artifact.get 取元数据。";
  command = "memory.dump";
  surface = expert;
  latency = slow;
  read_only = true;
  destructive = false;
  idempotent = false;
  open_world = false;
  group = "Memory+";
  requires = ("runtime", "memory_read") ∷ [];
  input_schema =
      obj_schema
        ("address"
          ⇒ address ⨾ "length"
          ⇒ obj ("type" ⇒ str "integer" ⨾ "minimum" ⇒ nat 1 ⨾ "maximum" ⇒ nat 67108864 ⨾ end) ⨾ end)
        ("address" ∷ "length" ∷ []) true;
  output_schema =
      obj_schema ("job_id" ⇒ obj ("type" ⇒ str "string" ⨾ end) ⨾ end) ("job_id" ∷ []) false;
}
