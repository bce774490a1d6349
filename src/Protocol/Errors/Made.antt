-- ===== src/Protocol/Errors/Made.antt =====
-- protocol/errors.py: the constructors of the usual errors. The sample of the known commands is cut
-- at ten; `seconds` is the text of a float, given in thousandths as well.
use zygisk_frida_packet_tcp.Base.{ℕ, String, Option, none, some, List, [], ◌∷◌, take, fstring}
use zygisk_frida_packet_tcp.Json.{Json, null, milli, str, Fields, end, ◌⇒◌⨾◌, texts}
use zygisk_frida_packet_tcp.Protocol.Errors.{
  ProtocolError, error, error_next, e_bad_args, e_internal, e_not_ready, e_session_stale, e_timeout,
  e_unknown_cmd,
}

abbrev pub bad_args : String → Fields → ProtocolError
bad_args message context = error e_bad_args message context

abbrev pub unknown_command : String → List String → ProtocolError
unknown_command command known =
    error_next e_unknown_cmd (fstring ("未知命令：" ∷ command ∷ []))
      ("command" ⇒ str command ⨾ "known_sample" ⇒ texts (take 10 known) ⨾ end)
      "改用已知命令；可用 session.capabilities 查询当前能力"

abbrev pub not_ready : String → Fields → ProtocolError
not_ready what context = error e_not_ready (fstring ("前置条件未满足：" ∷ what ∷ [])) context

abbrev or_none : Option String → Json
or_none none = null
or_none (some s) = str s

abbrev pub session_stale : Option String → ProtocolError
session_stale session_id =
    error_next e_session_stale "Session 已失效（重连后旧 Session 不恢复，必须重建）"
      ("session_id" ⇒ or_none session_id ⨾ end) "重新 session.list 获取新 Session"

abbrev pub timeout_error : String → ℕ → String → ProtocolError
timeout_error command thousandths seconds =
    error e_timeout (fstring ("命令 " ∷ command ∷ " 超时（" ∷ seconds ∷ "s）" ∷ []))
      ("command" ⇒ str command ⨾ "timeout_s" ⇒ milli thousandths ⨾ end)

abbrev pub internal : String → Fields → ProtocolError
internal message context = error e_internal message context
