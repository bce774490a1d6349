-- ===== src/Bridge/Handshake.antt =====
-- bridge/client.py: how the client waits for a message, the handshake, and `connect`. What the socket
-- does is a list of its answers to `recv`.
pub mod Agrees
use zygisk_frida_packet_tcp.Base.{
  ℕ, ◌+◌, String, Bool, true, false, Option, none, some, List, [], ◌∷◌, ◌++◌, str_eq, fstring,
  if◌then◌else◌,
}
use zygisk_frida_packet_tcp.Json.{
  Json, null, bool, int, milli, str, arr, obj, Fields, end, ◌⇒◌⨾◌, get, get?, or_else,
}
use zygisk_frida_packet_tcp.Protocol.Errors.{
  ProtocolError, error, error_next, e_malformed_frame, e_timeout, Result, ok, raise, Outcome,
  returns, raises, crashes, bind, outcome, key_error, value_error,
}
use zygisk_frida_packet_tcp.Protocol.Constants.{
  SessionState, state_of_value, connected, protocol_version,
}
use zygisk_frida_packet_tcp.Protocol.Frame.{Bytes, JsonCodec, FrameDecoder, feed}
use zygisk_frida_packet_tcp.Protocol.Messages.Check.{
  message_type_of, check_protocol_version, validate,
}
use zygisk_frida_packet_tcp.Bridge.Session.{open_session}
use zygisk_frida_packet_tcp.Bridge.Client.{Client}

-- What a `recv` brings: bytes, or none if the peer has closed; nothing in time; an `OSError`.
pub data Pump : Type 0 where
  arrives : Bytes → Pump
  silent : Pump
  broken : String → Pump

-- The decoder, the messages that are left, the answers of the socket that are left, and the message.
pub record Awaited : Type 0 where
  pub decoder : FrameDecoder
  pub inbox : List Fields
  pub left : List Pump
  pub message : Result Fields

abbrev pub timed_out : String → String → ProtocolError
timed_out endpoint timeout =
    error_next e_timeout (fstring ("等待消息超时（" ∷ timeout ∷ "s）" ∷ []))
      ("endpoint" ⇒ str endpoint ⨾ end) "检查 Runtime 是否已就绪"

module _ (codec : JsonCodec) (endpoint timeout : String) where
  gives_up : FrameDecoder → List Pump → ProtocolError → Awaited
  gives_up d ps e = record { decoder = d; inbox = []; left = ps; message = raise e }

  -- `_await_message`; with no answer of the socket left, the deadline has passed.
  unfoldable pub await_message : FrameDecoder → List Fields → List Pump → Awaited
  unfolding gives_up
  await_message d (m ∷ ms) ps = record { decoder = d; inbox = ms; left = ps; message = ok m }
  await_message d [] [] = gives_up d [] (timed_out endpoint timeout)
  await_message d [] (silent ∷ ps) = gives_up d ps (timed_out endpoint timeout)
  await_message d [] (broken exc ∷ ps) =
      gives_up d ps (error e_timeout (fstring ("读取失败：" ∷ exc ∷ [])) end)
  await_message d [] (arrives [] ∷ ps) =
      gives_up d ps (error e_timeout "握手期间对端关闭了连接" ("endpoint" ⇒ str endpoint ⨾ end))
  await_message d [] (arrives (b ∷ bs) ∷ ps) =
      let (d', result) = feed codec d (b ∷ bs) in
      elim result [ raise e ↦ gives_up d' ps e | ok ms ↦ await_message d' ms ps ]

-- What a handshake agrees on.
pub record Negotiated : Type 0 where
  pub session_id : Json
  pub state : SessionState
  pub capabilities : Json

expect : String → Fields → Result (Unit {0})
expect wanted m = elim (message_type_of m) [
  | raise e ↦ raise e
  | ok got ↦
      if str_eq got wanted
      then ok tt
      else raise (
          error e_malformed_frame (fstring ("握手失败：期望 " ∷ wanted ∷ "，收到 " ∷ got ∷ []))
            ("got" ⇒ str got ⨾ end))
]

-- `d[k]`.
item : Fields → String → Outcome Json
item m k = elim (get? m k) [ none ↦ crashes key_error | some v ↦ returns v ]

-- `SessionState(v)`; after `validate` it does not fail.
state_from : Json → Outcome SessionState
state_from (str s) = elim (state_of_value s) [
  | none ↦ crashes value_error
  | some state ↦ returns state
]
state_from v = crashes value_error

-- `a == b` of two values: `same` is the answer where they are not two texts.
same_id : (Json → Json → Bool) → Json → Json → Bool
same_id same (str s) (str t) = str_eq s t
same_id same v w = same v w

agree_on : (Json → Json → Bool) → Json → Json → Json → Json → Outcome Negotiated
unfolding state_from same_id
agree_on same ack_id ready_id state capabilities =
    if same_id same ack_id ready_id
    then bind (state_from state) (λ s.
      returns
        (record { session_id = ack_id; state = s; capabilities = or_else capabilities (obj end) }))
    else raises (
        error e_malformed_frame "HELLO_ACK 与 READY 的 session_id 不一致"
          ("ack" ⇒ ack_id ⨾ "ready" ⇒ ready_id ⨾ end))

-- `_handshake`, after the HELLO, with what the two waits bring.
unfoldable pub handshake : (Json → Json → Bool) → Result Fields → Result Fields → Outcome Negotiated
unfolding expect item agree_on
handshake same first second = bind (outcome first) λ ack.
    bind (outcome (expect "HELLO_ACK" ack)) λ _.
      bind (outcome (check_protocol_version ack protocol_version)) λ _.
        bind (outcome second) λ ready. bind (outcome (expect "READY" ready)) λ _.
          bind (outcome (check_protocol_version ready protocol_version)) λ _.
            bind (validate ready false) λ _. bind (item ack "session_id") λ ack_id.
              bind (item ready "state") λ state.
                agree_on same ack_id (get ready "session_id") state (get ready "capabilities")
