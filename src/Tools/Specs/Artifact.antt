-- ===== src/Tools/Specs/Artifact.antt =====
-- tools/specs.py, the tools named artifact.* and job.*.
use zygisk_frida_packet_tcp.Base.{true, false, [], ◌∷◌}
use zygisk_frida_packet_tcp.Json.{nat, str, obj, end, ◌⇒◌⨾◌}
use zygisk_frida_packet_tcp.Tools.Spec.{ToolSpec, core, expert, fast, obj_schema, list_of}
use zygisk_frida_packet_tcp.Tools.Specs.Fragments.{artifact_item, job_state}

abbrev pub artifact_get_tool : ToolSpec
artifact_get_tool = record {
  name = "artifact.get";
  title = "取产物元数据";
  description =
      "use_case：按 artifact_id 取大对象的元数据（类型 / 大小 / 路径 / sha256）。notes：🔴 大文件**永远不进协议 JSON**。要内容请走独立通道拉取并校验 sha256。next_step：拉取后校验 sha256，不匹配即判定任务失败。";
  command = "artifact.get";
  surface = core;
  latency = fast;
  read_only = true;
  destructive = false;
  idempotent = true;
  open_world = false;
  group = "";
  requires = [];
  input_schema =
      obj_schema ("artifact_id" ⇒ obj ("type" ⇒ str "string" ⨾ "minLength" ⇒ nat 1 ⨾ end) ⨾ end)
        ("artifact_id" ∷ []) true;
  output_schema = obj_schema ("artifact" ⇒ artifact_item ⨾ end) ("artifact" ∷ []) false;
}

abbrev pub artifact_list_tool : ToolSpec
artifact_list_tool = record {
  name = "artifact.list";
  title = "列出产物";
  description = "use_case：查看本次会话已产生的产物。notes：只读。next_step：artifact.get 取元数据。";
  command = "artifact.list";
  surface = expert;
  latency = fast;
  read_only = true;
  destructive = false;
  idempotent = true;
  open_world = false;
  group = "Artifact+";
  requires = [];
  input_schema = obj_schema (end) ([]) true;
  output_schema =
      obj_schema
        ("total" ⇒ obj ("type" ⇒ str "integer" ⨾ end) ⨾ "artifacts" ⇒ list_of artifact_item ⨾ end)
        ("total" ∷ "artifacts" ∷ []) false;
}

abbrev pub job_status_tool : ToolSpec
job_status_tool = record {
  name = "job.status";
  title = "任务状态";
  description =
      "use_case：轮询 JOB 命令进度。notes：running 时返回 suggested_wait_ms，按它等，不要密集轮询。next_step：completed 后调 job.result。";
  command = "job.status";
  surface = expert;
  latency = fast;
  read_only = true;
  destructive = false;
  idempotent = true;
  open_world = false;
  group = "Job";
  requires = [];
  input_schema =
      obj_schema ("job_id" ⇒ obj ("type" ⇒ str "string" ⨾ "minLength" ⇒ nat 1 ⨾ end) ⨾ end)
        ("job_id" ∷ []) true;
  output_schema =
      obj_schema
        ("job_id"
          ⇒ obj ("type" ⇒ str "string" ⨾ end) ⨾ "state"
          ⇒ job_state ⨾ "progress"
          ⇒ obj ("type" ⇒ str "number" ⨾ "minimum" ⇒ nat 0 ⨾ "maximum" ⇒ nat 1 ⨾ end) ⨾ "elapsed_ms"
          ⇒ obj ("type" ⇒ str "integer" ⨾ end) ⨾ "suggested_wait_ms"
          ⇒ obj ("type" ⇒ str "integer" ⨾ end) ⨾ end)
        ("job_id" ∷ "state" ∷ "progress" ∷ []) false;
}

abbrev pub job_result_tool : ToolSpec
job_result_tool = record {
  name = "job.result";
  title = "任务结果";
  description =
      "use_case：取 JOB 命令的最终结果。notes：未完成时返回 E_NOT_READY，先继续轮询 job.status。next_step：结果里若含 artifact_id，用 artifact.get 取元数据。";
  command = "job.result";
  surface = expert;
  latency = fast;
  read_only = true;
  destructive = false;
  idempotent = true;
  open_world = false;
  group = "Job";
  requires = [];
  input_schema =
      obj_schema ("job_id" ⇒ obj ("type" ⇒ str "string" ⨾ "minLength" ⇒ nat 1 ⨾ end) ⨾ end)
        ("job_id" ∷ []) true;
  output_schema =
      obj_schema
        ("job_id"
          ⇒ obj ("type" ⇒ str "string" ⨾ end) ⨾ "state"
          ⇒ job_state ⨾ "result"
          ⇒ obj_schema (end) ([]) false ⨾ end)
        ("job_id" ∷ "state" ∷ []) false;
}

abbrev pub job_cancel_tool : ToolSpec
job_cancel_tool = record {
  name = "job.cancel";
  title = "取消任务";
  description = "use_case：终止不再需要的 JOB 命令，释放后端资源。notes：已进入终态的 job 不会因取消而回滚。next_step：无需后续动作。";
  command = "job.cancel";
  surface = expert;
  latency = fast;
  read_only = false;
  destructive = true;
  idempotent = true;
  open_world = false;
  group = "Job";
  requires = [];
  input_schema =
      obj_schema ("job_id" ⇒ obj ("type" ⇒ str "string" ⨾ "minLength" ⇒ nat 1 ⨾ end) ⨾ end)
        ("job_id" ∷ []) true;
  output_schema =
      obj_schema ("job_id" ⇒ obj ("type" ⇒ str "string" ⨾ end) ⨾ "state" ⇒ job_state ⨾ end)
        ("job_id" ∷ "state" ∷ []) false;
}
