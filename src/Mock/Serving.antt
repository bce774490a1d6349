-- ===== src/Mock/Serving.antt =====
-- mock/server.py: one connection, from the handshake to its end. A `recv` gives bytes, none at all if
-- the peer has closed, or nothing in time. That `send` meets an `OSError` and clears `alive` is, in
-- a round of the loop, the turn's `broken`; in the handshake it is left out, and so are the
-- lock, `close` and an `OSError` of the read.
pub mod Split
use zygisk_frida_packet_tcp.Base.{
  ℕ, String, Bool, true, false, not, ◌&&◌, ◌||◌, Option, none, some, List, [], ◌∷◌, ◌++◌, str_eq,
  fstring, if◌then◌else◌,
}
use zygisk_frida_packet_tcp.Json.{Json, null, str, nat, Fields, end, ◌⇒◌⨾◌}
use zygisk_frida_packet_tcp.Python.{Builtins}
use zygisk_frida_packet_tcp.Protocol.Errors.{
  ProtocolError, error, error_next, e_malformed_frame, error_protocol_version, Result, ok, raise,
  Outcome, returns, raises, crashes,
}
use zygisk_frida_packet_tcp.Protocol.Constants.{protocol_version, server_name, server_version}
use zygisk_frida_packet_tcp.Protocol.Frame.{Bytes, JsonCodec, FrameDecoder, feed}
use zygisk_frida_packet_tcp.Protocol.Messages.{
  EventArgs, make_hello_ack, make_ready, make_event, make_error,
}
use zygisk_frida_packet_tcp.Protocol.Messages.Check.{
  message_type_of, protocol_version_of, protocol_version_mismatch, is_text,
}
use zygisk_frida_packet_tcp.Mock.State.{MockRuntimeState}
use zygisk_frida_packet_tcp.Mock.Hooking.{Turn, send_all}
use zygisk_frida_packet_tcp.Mock.Server.{Handled, handle}

pub record Connection : Type 0 where
  pub decoder : FrameDecoder
  pub inbox : List Fields
  pub alive : Bool

pub data Recv : Type 0 where
  timed_out : Recv
  received : Bytes → Recv

-- `inbox.pop(0) if inbox else None`.
pop_inbox : Connection → List Fields → Connection × Result (Option Fields)
pop_inbox c [] = (record c { inbox = [] }, ok none)
pop_inbox c (m ∷ ms) = (record c { inbox = ms }, ok (some m))

took : Connection → FrameDecoder × Result (List Fields) → Connection × Result (Option Fields)
unfolding pop_inbox
took c (d, ok ms) = pop_inbox (record c { decoder = d }) (c.inbox ++ ms)
took c (d, raise e) = (record c { decoder = d }, raise e)

module _ (codec : JsonCodec) where
  receive : Connection → Recv → Connection × Result (Option Fields)
  unfolding took
  receive c timed_out = (c, ok none)
  receive c (received []) = (record c { alive = false }, ok none)
  receive c (received bs) = took c (feed codec c.decoder bs)

  read_from : Connection → List Fields → Recv → Connection × Result (Option Fields)
  unfolding receive
  read_from c [] r = receive c r
  read_from c (m ∷ ms) r = (record c { inbox = ms }, ok (some m))

  -- `_read_message`: the socket is asked only if the inbox is empty.
  unfoldable pub read_message : Connection → Recv → Connection × Result (Option Fields)
  unfolding read_from
  read_message c r = read_from c c.inbox r

-- What the handshake sends, whether the connection is ready then, and whether it succeeds.
pub record Greeted : Type 0 where
  pub sent : List Fields
  pub ready : Bool
  pub success : Outcome Bool

abbrev pub ready_args : Turn → MockRuntimeState → EventArgs
ready_args t st = record {
  event_type = "RUNTIME_READY";
  session_id = t.session_id;
  source = "runtime";
  payload = some ("package" ⇒ str st.package_name ⨾ "abi" ⇒ str st.abi ⨾ "sdk" ⇒ nat st.sdk ⨾ end);
  pid = some st.pid;
  tid = some st.pid;
  event_id = none;
  timestamp = none;
}

abbrev pub ack_of : Turn → Fields
ack_of t =
    make_hello_ack t.session_id server_name server_version
      (some
        ("native_hook" ∷ "java_hook" ∷ "memory_read" ∷ "memory_write" ∷ "packet_intercept" ∷ []))
      protocol_version

abbrev pub ready_of : Turn → MockRuntimeState → Fields
ready_of t st = make_ready t.session_id st.state (some st.capabilities) t.now

-- What the handshake comes to after a message that is the last, and what it returns.
ended : Bool → Bool → List Fields → List Fields × Result (Unit {0}) → Greeted
ended ready answer before (ms, ok u) = record {
  sent = before ++ ms;
  ready = ready;
  success = returns answer;
}
ended ready answer before (ms, raise e) = record {
  sent = before ++ ms;
  ready = ready;
  success = raises e;
}

refuses : JsonCodec → ProtocolError → Turn → Greeted
unfolding ended
refuses codec e t = ended false false [] (send_all codec (ok (make_error e null none t.now) ∷ []))

-- The acknowledgment and READY are out before the event is made.
welcomes : JsonCodec → Result Fields → List Fields × Result (Unit {0}) → Greeted
unfolding ended
welcomes codec event (ms, raise e) = record { sent = ms; ready = false; success = raises e }
welcomes codec event (ms, ok u) = ended true true ms (send_all codec (event ∷ []))

greet_version : JsonCodec → Turn → MockRuntimeState → Json → Greeted
unfolding welcomes refuses
greet_version codec t st got =
    if is_text got protocol_version
    then welcomes codec (make_event (ready_args t st) (t.event_id 0) t.now)
        (send_all codec (ok (ack_of t) ∷ ok (ready_of t st) ∷ []))
    else refuses codec (protocol_version_mismatch protocol_version got) t

greet_type : JsonCodec → Turn → MockRuntimeState → Fields → Result String → Greeted
unfolding greet_version refuses
greet_type codec t st hello (raise e) = record { sent = []; ready = false; success = raises e }
greet_type codec t st hello (ok mtype) =
    if str_eq mtype "HELLO"
    then greet_version codec t st (protocol_version_of hello)
    else refuses codec (error e_malformed_frame (fstring ("握手首帧必须是 HELLO，收到 " ∷ mtype ∷ [])) end) t

-- `_do_handshake` with the message that was read; `blocked` is the test's switch.
unfoldable pub do_handshake : JsonCodec → Turn → MockRuntimeState → Bool → Option Fields → Greeted
unfolding greet_type
do_handshake codec t st blocked none = record { sent = []; ready = false; success = returns false }
do_handshake codec t st blocked (some hello) =
    if blocked
    then record { sent = []; ready = false; success = returns false }
    else greet_type codec t st hello (message_type_of hello)

-- What a connection has done: all that it sent, the state, and whether it still goes on.
pub record Served : Type 0 where
  pub sent : List Fields
  pub state : MockRuntimeState
  pub connection : Connection
  pub goes_on : Bool

is_returned : Outcome (Unit {0}) → Bool
is_returned (returns u) = true
is_returned (raises e) = false
is_returned (crashes x) = false

is_empty : List Fields → Bool
is_empty [] = true
is_empty (m ∷ ms) = false

-- A message that is sent into a broken socket ends the connection.
after_sending : Turn → List Fields → Connection → Connection
unfolding is_empty
after_sending t ms c = record c { alive = c.alive && (not t.broken || is_empty ms) }

module _ (py : Builtins) (codec : JsonCodec) where
  served : Turn → MockRuntimeState → Connection × Result (Option Fields) → Served
  unfolding is_returned after_sending
  served t st (c, raise e) = record {
    sent =
        (send_all codec (
          ok (make_error (error e_malformed_frame "帧解析失败" end) null (some t.session_id) t.now)
          ∷ [])).0;
    state = st;
    connection = c;
    goes_on = false;
  }
  served t st (c, ok none) = record { sent = []; state = st; connection = c; goes_on = c.alive }
  served t st (c, ok (some m)) =
      let h = handle py codec t st m in
      let c' = after_sending t h.sent c in
      record {
        sent = h.sent;
        state = h.state;
        connection = c';
        goes_on = is_returned h.result && c'.alive;
      }

  -- One round of the loop of `_serve`.
  unfoldable pub serve_round : Connection → MockRuntimeState → Turn × Recv → Served
  unfolding served
  serve_round c st (t, r) = served t st (read_message codec c r)

  -- The loop, for the rounds that there are.
  unfoldable pub serve : Connection → MockRuntimeState → List (Turn × Recv) → Served
  serve c st [] = record { sent = []; state = st; connection = c; goes_on = true }
  serve c st (r ∷ rs) =
      let first = serve_round c st r in
      let rest = serve first.connection first.state rs in
      if first.goes_on then record rest { sent = first.sent ++ rest.sent } else first
