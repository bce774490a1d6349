-- ===== src/Protocol/Messages/Check.antt =====
-- protocol/messages.py, the second half: `validate` and the checks of a connection.
use zygisk_frida_packet_tcp.Base.{
  String, Bool, true, false, not, ◌&&◌, Option, none, some, List, [], ◌∷◌, str_eq, mem_text, keep,
  sorted, join_comma, if◌then◌else◌, fstring,
}
use zygisk_frida_packet_tcp.Json.{
  Json, null, arr, str, obj, Fields, end, ◌⇒◌⨾◌, texts, get, get?, has, keys, is_some, or_else,
}
use zygisk_frida_packet_tcp.Protocol.Errors.{
  ProtocolError, error, error_next, error_protocol_version, e_bad_args, e_unknown_cmd,
  e_malformed_frame, e_not_ready, e_session_stale, Result, ok, raise, Outcome, returns, raises,
  crashes, bind, outcome, type_error,
}
use zygisk_frida_packet_tcp.Protocol.Constants.{message_types, state_of_value, event_types}
use zygisk_frida_packet_tcp.Protocol.Commands.{is_known}
use zygisk_frida_packet_tcp.Protocol.Frame.{type_name}

-- REQUIRED_FIELDS.
unfoldable pub required_fields : String → Option (List String)
required_fields t =
    if str_eq t "HELLO"
    then some ("type" ∷ "protocol" ∷ "client" ∷ "client_version" ∷ "capabilities" ∷ [])
    else if str_eq t "HELLO_ACK"
    then some
        ("type" ∷ "protocol" ∷ "server" ∷ "server_version" ∷ "session_id" ∷ "capabilities" ∷ [])
    else if str_eq t "READY"
    then some ("version" ∷ "type" ∷ "session_id" ∷ "timestamp" ∷ "state" ∷ "capabilities" ∷ [])
    else if str_eq t "REQUEST"
    then some (
        "version" ∷ "type" ∷ "request_id" ∷ "session_id" ∷ "timestamp" ∷ "command" ∷ "payload" ∷ [])
    else if str_eq t "RESPONSE"
    then some (
        "version" ∷ "type" ∷ "request_id" ∷ "session_id" ∷ "timestamp" ∷ "status" ∷ "code"
        ∷ "payload" ∷ [])
    else if str_eq t "EVENT"
    then some (
        "version" ∷ "type" ∷ "event_id" ∷ "session_id" ∷ "timestamp" ∷ "pid" ∷ "tid" ∷ "event_type"
        ∷ "source" ∷ "payload" ∷ [])
    else if str_eq t "PING"
    then some ("version" ∷ "type" ∷ "timestamp" ∷ "seq" ∷ [])
    else if str_eq t "PONG"
    then some ("version" ∷ "type" ∷ "timestamp" ∷ "seq" ∷ [])
    else if str_eq t "ERROR"
    then some ("version" ∷ "type" ∷ "request_id" ∷ "session_id" ∷ "timestamp" ∷ "error" ∷ [])
    else none

-- What `message_type_of` makes of the value of `type`.
type_text : Fields → Option Json → Result String
type_text m (some (str t)) = ok t
type_text m _ =
    raise (error e_malformed_frame "消息缺少 type 字段" ("keys" ⇒ texts (sorted (keys m)) ⨾ end))

unfoldable pub message_type_of : Fields → Result String
unfolding type_text
message_type_of m = type_text m (get? m "type")

-- HELLO has the version under `protocol`, the others under `version`.
unfoldable pub protocol_version_of : Fields → Json
protocol_version_of m = or_else (get m "protocol") (get m "version")

abbrev pub is_text : Json → String → Bool
is_text (str s) t = str_eq s t
is_text _ t = false

-- A value as a message quotes it; a nested one is not written out.
pub quoted : Json → String
quoted (str s) = fstring ("'" ∷ s ∷ "'" ∷ [])
quoted v = type_name v

-- A value as a message shows it plainly; another one is not written out.
pub plain_text : Json → String
plain_text (str s) = s
plain_text v = type_name v

-- `v in table` for a dict or a set of texts: a list or a dict cannot be looked up.
abbrev pub in_table : (String → Bool) → Json → Outcome Bool
in_table test (str s) = returns (test s)
in_table test (arr vs) = crashes type_error
in_table test (obj fs) = crashes type_error
in_table test _ = returns false

abbrev text_in : List String → Json → Bool
text_in ts (str s) = mem_text s ts
text_in ts _ = false

check_command : Json → Outcome (Unit {0})
check_command cmd = bind (in_table is_known cmd) λ known.
    if known
    then returns tt
    else raises (
        error_next e_unknown_cmd (fstring ("未知命令：" ∷ plain_text cmd ∷ [])) ("command" ⇒ cmd ⨾ end)
          "改用 commands.ALL_COMMANDS 中的命令")

check_event : Json → Outcome (Unit {0})
check_event v =
    if text_in event_types v
    then returns tt
    else raises
        (error e_bad_args (fstring ("未知事件类型：" ∷ plain_text v ∷ [])) ("event_type" ⇒ v ⨾ end))

abbrev is_state : String → Bool
is_state s = is_some (state_of_value s)

check_state : Json → Outcome (Unit {0})
check_state v = bind (in_table is_state v) λ known.
    if known
    then returns tt
    else raises
        (error e_bad_args (fstring ("未知 Session 状态：" ∷ plain_text v ∷ [])) ("state" ⇒ v ⨾ end))

abbrev has_code : Json → Bool
has_code (obj fs) = has fs "code"
has_code _ = false

check_error : Json → Outcome (Unit {0})
check_error v =
    if has_code v
    then returns tt
    else raises (
        error e_bad_args "ERROR 消息的 error 字段必须是含 code 的对象" ("error_type" ⇒ str (type_name v) ⨾ end))

-- The checks that depend on the type.
unfoldable pub check_by_type : String → Fields → Outcome (Unit {0})
unfolding check_command check_event check_state check_error
check_by_type t m =
    if str_eq t "REQUEST"
    then check_command (get m "command")
    else if str_eq t "EVENT"
    then check_event (get m "event_type")
    else if str_eq t "READY"
    then check_state (get m "state")
    else if str_eq t "ERROR"
    then check_error (get m "error")
    else returns tt

unfoldable pub missing_fields : List String → Fields → List String
missing_fields required m = keep (λ f. not (has m f)) required

unfoldable pub unknown_fields : List String → Fields → List String
unknown_fields required m = keep (λ k. not (mem_text k required)) (keys m)

abbrev is_nil : List String → Bool
is_nil [] = true
is_nil (s ∷ ss) = false

-- `validate` once the required fields are known.
unfoldable pub validate_fields : List String → String → Fields → Bool → Outcome String
validate_fields required t m strict =
    let missing = missing_fields required m in
    let unknown = unknown_fields required m in
    if not (is_nil missing)
    then raises (
        error e_bad_args (fstring (t ∷ " 缺少必填字段：" ∷ join_comma missing ∷ []))
          ("type" ⇒ str t ⨾ "missing" ⇒ texts missing ⨾ "required" ⇒ texts required ⨾ end))
    else if strict && not (is_nil unknown)
    then raises (
        error e_bad_args (fstring (t ∷ " 含未知字段：" ∷ join_comma (sorted unknown) ∷ []))
          ("type" ⇒ str t ⨾ "unknown" ⇒ texts (sorted unknown) ⨾ end))
    else bind (check_by_type t m) λ _. returns t

-- The entry of the table, or the error of an unknown type.
unfoldable pub validate_type : Option (List String) → String → Fields → Bool → Outcome String
unfolding validate_fields
validate_type none t m strict = raises (
    error e_malformed_frame (fstring ("未知消息类型：" ∷ t ∷ []))
      ("type" ⇒ str t ⨾ "known" ⇒ texts message_types ⨾ end))
validate_type (some required) t m strict = validate_fields required t m strict

unfoldable pub validate : Fields → Bool → Outcome String
validate m strict =
    bind (outcome (message_type_of m)) λ t. validate_type (required_fields t) t m strict

unfoldable pub protocol_version_mismatch : String → Json → ProtocolError
protocol_version_mismatch expected got =
    error_next error_protocol_version
      (fstring ("协议版本不匹配：服务端 " ∷ expected ∷ "，客户端 " ∷ quoted got ∷ []))
      ("expected" ⇒ str expected ⨾ "got" ⇒ got ⨾ end) (fstring ("升级客户端到协议版本 " ∷ expected ∷ []))

unfoldable pub check_protocol_version : Fields → String → Result (Unit {0})
unfolding protocol_version_mismatch
check_protocol_version m expected =
    if is_text (protocol_version_of m) expected
    then ok tt
    else raise (protocol_version_mismatch expected (protocol_version_of m))

abbrev current_matches : Option String → Json → Bool
current_matches none sid = true
current_matches (some current) sid = is_text sid current

abbrev current_value : Option String → Json
current_value none = null
current_value (some current) = str current

unfoldable pub assert_ready_for_command : Fields → Bool → Option String → Result (Unit {0})
assert_ready_for_command m link_ready current =
    if not link_ready
    then raise (error_next e_not_ready "链路尚未 READY，禁止下发命令" end "先完成 HELLO → HELLO_ACK → READY 握手")
    else if current_matches current (get m "session_id")
    then ok tt
    else raise (
        error_next e_session_stale "session_id 已失效（重连后旧 Session 不恢复）"
          ("got" ⇒ get m "session_id" ⨾ "current" ⇒ current_value current ⨾ end)
          "重新 session.list 获取新 Session")
