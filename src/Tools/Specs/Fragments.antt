-- ===== src/Tools/Specs/Fragments.antt =====
-- tools/specs.py, the schema fragments that several tools share.
use zygisk_frida_packet_tcp.Base.{false, [], ◌∷◌}
use zygisk_frida_packet_tcp.Json.{Json, nat, str, arr, obj, end, ◌⇒◌⨾◌, items}
use zygisk_frida_packet_tcp.Tools.Spec.{obj_schema}

abbrev pub capabilities : Json
capabilities =
    obj_schema
      ("runtime"
        ⇒ obj_schema
            ("native_hook"
              ⇒ obj ("type" ⇒ str "boolean" ⨾ end) ⨾ "java_hook"
              ⇒ obj ("type" ⇒ str "boolean" ⨾ end) ⨾ "memory_read"
              ⇒ obj ("type" ⇒ str "boolean" ⨾ end) ⨾ "memory_write"
              ⇒ obj ("type" ⇒ str "boolean" ⨾ end) ⨾ "stacktrace"
              ⇒ obj ("type" ⇒ str "boolean" ⨾ end) ⨾ end)
            ([]) false ⨾
          "network"
        ⇒ obj_schema
            ("capture"
              ⇒ obj ("type" ⇒ str "boolean" ⨾ end) ⨾ "http"
              ⇒ obj ("type" ⇒ str "boolean" ⨾ end) ⨾ "https_capture"
              ⇒ obj ("type" ⇒ str "boolean" ⨾ end) ⨾ "https_decrypt"
              ⇒ obj ("type" ⇒ str "boolean" ⨾ end) ⨾ "packet_intercept"
              ⇒ obj ("type" ⇒ str "boolean" ⨾ end) ⨾ end)
            ([]) false ⨾
          end)
      ("runtime" ∷ "network" ∷ []) false

abbrev pub session_summary : Json
session_summary =
    obj_schema
      ("session_id"
        ⇒ obj ("type" ⇒ str "string" ⨾ end) ⨾ "state"
        ⇒ obj ("type" ⇒ str "string" ⨾ end) ⨾ "package"
        ⇒ obj ("type" ⇒ arr (items ((str "string") ∷ (str "null") ∷ [])) ⨾ end) ⨾ "pid"
        ⇒ obj ("type" ⇒ arr (items ((str "integer") ∷ (str "null") ∷ [])) ⨾ end) ⨾ "uptime_ms"
        ⇒ obj ("type" ⇒ str "integer" ⨾ end) ⨾ end)
      ("session_id" ∷ "state" ∷ []) false

abbrev pub module_item : Json
module_item =
    obj_schema
      ("name"
        ⇒ obj ("type" ⇒ str "string" ⨾ end) ⨾ "path"
        ⇒ obj ("type" ⇒ str "string" ⨾ end) ⨾ "base"
        ⇒ obj ("type" ⇒ str "string" ⨾ "description" ⇒ str "'0x...' 字符串" ⨾ end) ⨾ "size"
        ⇒ obj ("type" ⇒ str "integer" ⨾ end) ⨾ "permissions"
        ⇒ obj ("type" ⇒ str "string" ⨾ end) ⨾ end)
      ("name" ∷ "base" ∷ "size" ∷ []) false

abbrev pub thread_item : Json
thread_item =
    obj_schema
      ("tid"
        ⇒ obj ("type" ⇒ str "integer" ⨾ end) ⨾ "name"
        ⇒ obj ("type" ⇒ str "string" ⨾ end) ⨾ "state"
        ⇒ obj ("type" ⇒ str "string" ⨾ end) ⨾ end)
      ("tid" ∷ "name" ∷ []) false

abbrev pub connection_item : Json
connection_item =
    obj_schema
      ("connection_id"
        ⇒ obj ("type" ⇒ str "string" ⨾ end) ⨾ "pid"
        ⇒ obj ("type" ⇒ arr (items ((str "integer") ∷ (str "null") ∷ [])) ⨾ end) ⨾ "protocol"
        ⇒ obj ("type" ⇒ str "string" ⨾ end) ⨾ "local"
        ⇒ obj ("type" ⇒ str "string" ⨾ end) ⨾ "remote"
        ⇒ obj ("type" ⇒ str "string" ⨾ end) ⨾ "state"
        ⇒ obj ("type" ⇒ str "string" ⨾ end) ⨾ end)
      ("connection_id" ∷ "protocol" ∷ "remote" ∷ []) false

abbrev pub packet_item : Json
packet_item =
    obj_schema
      ("packet_id"
        ⇒ obj ("type" ⇒ str "string" ⨾ end) ⨾ "timestamp"
        ⇒ obj ("type" ⇒ str "integer" ⨾ end) ⨾ "direction"
        ⇒ obj (
            "type"
            ⇒ str "string" ⨾ "enum"
            ⇒ arr (items ((str "inbound") ∷ (str "outbound") ∷ [])) ⨾ end) ⨾
          "protocol"
        ⇒ obj ("type" ⇒ str "string" ⨾ end) ⨾ "length"
        ⇒ obj ("type" ⇒ str "integer" ⨾ "minimum" ⇒ nat 0 ⨾ end) ⨾ "connection_id"
        ⇒ obj ("type" ⇒ str "string" ⨾ end) ⨾ "sha256"
        ⇒ obj ("type" ⇒ arr (items ((str "string") ∷ (str "null") ∷ [])) ⨾ end) ⨾ "hex"
        ⇒ obj ("type" ⇒ str "string" ⨾ "description" ⇒ str "仅 include_hex=true 时返回" ⨾ end) ⨾ end)
      ("packet_id" ∷ "length" ∷ []) false

abbrev pub execution_triad : Json
execution_triad =
    obj_schema
      ("accepted"
        ⇒ obj ("type" ⇒ str "boolean" ⨾ "description" ⇒ str "请求已受理" ⨾ end) ⨾ "executed"
        ⇒ obj ("type" ⇒ str "boolean" ⨾ "description" ⇒ str "已实际执行" ⨾ end) ⨾ "verified"
        ⇒ obj (
            "type" ⇒ str "boolean" ⨾ "description" ⇒ str "已验证真实生效（禁止把 accepted 当 verified）" ⨾ end) ⨾
          end)
      ("accepted" ∷ "executed" ∷ "verified" ∷ []) false

abbrev pub artifact_item : Json
artifact_item =
    obj_schema
      ("artifact_id"
        ⇒ obj ("type" ⇒ str "string" ⨾ end) ⨾ "type"
        ⇒ obj ("type" ⇒ str "string" ⨾ end) ⨾ "size"
        ⇒ obj ("type" ⇒ str "integer" ⨾ end) ⨾ "path"
        ⇒ obj ("type" ⇒ str "string" ⨾ end) ⨾ "sha256"
        ⇒ obj ("type" ⇒ str "string" ⨾ end) ⨾ "created_at"
        ⇒ obj ("type" ⇒ str "integer" ⨾ end) ⨾ end)
      ("artifact_id" ∷ "type" ∷ "size" ∷ []) false

abbrev pub job_state : Json
job_state = obj (
    "type"
    ⇒ str "string" ⨾ "enum"
    ⇒ arr (items ((str "running") ∷ (str "completed") ∷ (str "failed") ∷ (str "cancelled") ∷ [])) ⨾
      end)
