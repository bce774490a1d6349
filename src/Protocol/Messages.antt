-- ===== src/Protocol/Messages.antt =====
-- protocol/messages.py: the nine messages, built and checked. The clock and the random ids are
-- arguments. Where Python quotes a value with `!r`, the text has `quoted` of it.
pub mod Check
pub mod Built
pub mod Sound
use zygisk_frida_packet_tcp.Base.{
  ℕ, ℤ, String, Bool, true, false, Option, none, some, List, [], ◌∷◌, map, str_eq, mem_text,
  if◌then◌else◌, fstring, length,
}
use zygisk_frida_packet_tcp.Json.{
  Json, null, bool, int, nat, str, obj, Fields, end, ◌⇒◌⨾◌, texts, or_else,
}
use zygisk_frida_packet_tcp.Protocol.Errors.{
  ProtocolError, error, error_next, e_bad_args, e_unknown_cmd, to_dict, Result, ok, raise,
}
use zygisk_frida_packet_tcp.Protocol.Constants.{
  protocol_version, SessionState, state_value, event_types, capability_keys_runtime,
  capability_keys_network,
}
use zygisk_frida_packet_tcp.Protocol.Commands.{is_known}

-- A default for an argument that may be `None`.
abbrev pub default {ℓ} : {A : Type ℓ} → Option A → A → A
default none a = a
default (some b) a = b

abbrev pub or_none {ℓ} : {A : Type ℓ} → (A → Json) → Option A → Json
or_none f none = null
or_none f (some a) = f a

-- `request_id or new_request_id()`.
abbrev pub given_or : Option String → String → String
given_or none fresh = fresh
given_or (some s) fresh = if str_eq s "" then fresh else s

unfoldable pub make_hello : String → String → Option (List String) → String → Fields
make_hello client client_version capabilities protocol =
    "type"
    ⇒ str "HELLO" ⨾ "protocol"
    ⇒ str protocol ⨾ "client"
    ⇒ str client ⨾ "client_version"
    ⇒ str client_version ⨾ "capabilities"
    ⇒ texts (default capabilities ("runtime" ∷ "memory" ∷ "network" ∷ "packet" ∷ [])) ⨾ end

unfoldable pub make_hello_ack : String → String → String → Option (List String) → String → Fields
make_hello_ack session_id server server_version capabilities protocol =
    "type"
    ⇒ str "HELLO_ACK" ⨾ "protocol"
    ⇒ str protocol ⨾ "server"
    ⇒ str server ⨾ "server_version"
    ⇒ str server_version ⨾ "session_id"
    ⇒ str session_id ⨾ "capabilities"
    ⇒ texts (default capabilities []) ⨾ end

all_false : List String → Fields
all_false [] = end
all_false (k ∷ ks) = k ⇒ bool false ⨾ all_false ks

-- The capabilities that are reported if none are given.
unfoldable pub no_capabilities : Fields
unfolding all_false
no_capabilities =
    "runtime"
    ⇒ obj (all_false capability_keys_runtime) ⨾ "network"
    ⇒ obj (all_false capability_keys_network) ⨾ end

unfoldable pub make_ready : String → SessionState → Option Fields → ℕ → Fields
unfolding no_capabilities
make_ready session_id state capabilities now =
    "version"
    ⇒ str protocol_version ⨾ "type"
    ⇒ str "READY" ⨾ "session_id"
    ⇒ str session_id ⨾ "timestamp"
    ⇒ nat now ⨾ "state"
    ⇒ str (state_value state) ⨾ "capabilities"
    ⇒ obj (default capabilities no_capabilities) ⨾ end

abbrev pub request_fields : String → Option Fields → String → Option String → String → ℕ → Fields
request_fields command payload session_id request_id fresh now =
    "version"
    ⇒ str protocol_version ⨾ "type"
    ⇒ str "REQUEST" ⨾ "request_id"
    ⇒ str (given_or request_id fresh) ⨾ "session_id"
    ⇒ str session_id ⨾ "timestamp"
    ⇒ nat now ⨾ "command"
    ⇒ str command ⨾ "payload"
    ⇒ obj (default payload end) ⨾ end

unfoldable pub make_request :
    String → Option Fields → String → Option String → String → ℕ → Result Fields
make_request command payload session_id request_id fresh now =
    if is_known command
    then ok (request_fields command payload session_id request_id fresh now)
    else raise (
        error_next e_unknown_cmd (fstring ("未知命令：" ∷ command ∷ [])) ("command" ⇒ str command ⨾ end)
          "改用 commands.ALL_COMMANDS 中的命令")

unfoldable pub make_response : Json → String → String → String → Option Fields → ℕ → Fields
make_response request_id session_id status code payload now =
    "version"
    ⇒ str protocol_version ⨾ "type"
    ⇒ str "RESPONSE" ⨾ "request_id"
    ⇒ request_id ⨾ "session_id"
    ⇒ str session_id ⨾ "timestamp"
    ⇒ nat now ⨾ "status"
    ⇒ str status ⨾ "code"
    ⇒ str code ⨾ "payload"
    ⇒ obj (default payload end) ⨾ end

abbrev pub event_sources : List String
event_sources = "runtime" ∷ "network" ∷ "session" ∷ "system" ∷ []

pub record EventArgs : Type 0 where
  pub event_type : String
  pub session_id : String
  pub source : String
  pub payload : Option Fields
  pub pid : Option ℕ
  pub tid : Option ℕ
  pub event_id : Option String
  pub timestamp : Option ℕ

abbrev pub event_fields : EventArgs → String → ℕ → Fields
event_fields a fresh now =
    "version"
    ⇒ str protocol_version ⨾ "type"
    ⇒ str "EVENT" ⨾ "event_id"
    ⇒ str (given_or a.event_id fresh) ⨾ "session_id"
    ⇒ str a.session_id ⨾ "timestamp"
    ⇒ nat (default a.timestamp now) ⨾ "pid"
    ⇒ or_none nat a.pid ⨾ "tid"
    ⇒ or_none nat a.tid ⨾ "event_type"
    ⇒ str a.event_type ⨾ "source"
    ⇒ str a.source ⨾ "payload"
    ⇒ obj (default a.payload end) ⨾ end

unfoldable pub make_event : EventArgs → String → ℕ → Result Fields
make_event a fresh now =
    if mem_text a.event_type event_types
    then if mem_text a.source event_sources
      then ok (event_fields a fresh now)
      else raise
          (error e_bad_args (fstring ("未知事件来源：" ∷ a.source ∷ [])) ("source" ⇒ str a.source ⨾ end))
    else raise (
        error e_bad_args (fstring ("未知事件类型：" ∷ a.event_type ∷ []))
          ("event_type" ⇒ str a.event_type ⨾ "known_count" ⇒ nat (length event_types) ⨾ end))

unfoldable pub make_ping : ℕ → ℕ → Fields
make_ping seq now =
    "version"
    ⇒ str protocol_version ⨾ "type"
    ⇒ str "PING" ⨾ "timestamp"
    ⇒ nat now ⨾ "seq"
    ⇒ nat seq ⨾ end

-- The number of a PONG is that of the PING it answers, whatever integer the peer sent.
unfoldable pub make_pong : ℤ → ℕ → Fields
make_pong seq now =
    "version"
    ⇒ str protocol_version ⨾ "type"
    ⇒ str "PONG" ⨾ "timestamp"
    ⇒ nat now ⨾ "seq"
    ⇒ int seq ⨾ end

unfoldable pub make_error : ProtocolError → Json → Option String → ℕ → Fields
make_error e request_id session_id now =
    "version"
    ⇒ str protocol_version ⨾ "type"
    ⇒ str "ERROR" ⨾ "request_id"
    ⇒ request_id ⨾ "session_id"
    ⇒ or_none str session_id ⨾ "timestamp"
    ⇒ nat now ⨾ "error"
    ⇒ obj (to_dict e) ⨾ end
