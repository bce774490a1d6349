-- ===== src/Bridge/Client.antt =====
-- bridge/client.py: what `BridgeClient` does with a message, a heartbeat and a lost link. Threads are
-- steps that follow one another; the clock, in milliseconds, is the argument `now`; the callbacks,
-- whose exceptions the code swallows, are left out, and so are the socket and the threads.
pub mod Branches
pub mod Replies
pub mod Slots
pub mod Pending
use zygisk_frida_packet_tcp.Base.{
  ℕ, suc, ◌+◌, ◌-◌, ◌*◌, String, Bool, true, false, not, ◌||◌, Option, none, some, List, [], ◌∷◌,
  ◌++◌, map, ◌==◌, leb, str_eq, if◌then◌else◌, fstring, decimal, length, drop, ℤ, pos, negsuc,
  ltb_ℤ,
}
use zygisk_frida_packet_tcp.Json.{
  Json, null, nat, int, str, arr, obj, Fields, end, ◌⇒◌⨾◌, get, get?, or_else, truthy,
}
use zygisk_frida_packet_tcp.Protocol.Errors.{
  ErrorCode, code_of_value, ProtocolError, error, error_next, e_internal, e_not_ready,
  e_session_stale, e_timeout, Result, ok, raise, Outcome, returns, raises, crashes, bind,
  type_error, attribute_error,
}
use zygisk_frida_packet_tcp.Protocol.Constants.{
  LinkState, disconnected, connected, degraded_link, SessionState, closed,
}
use zygisk_frida_packet_tcp.Protocol.Frame.{JsonCodec, Bytes, encode_frame}
use zygisk_frida_packet_tcp.Protocol.Messages.{make_ping, make_pong}
use zygisk_frida_packet_tcp.Protocol.Messages.Check.{message_type_of}
use zygisk_frida_packet_tcp.Python.{Builtins}
use zygisk_frida_packet_tcp.Bridge.Session.{Session, SessionManager, degrade, close_session, touch}

-- `_Pending`, as long as it waits.
pub record Slot : Type 0 where
  pub request_id : String
  pub command : String

-- The error that a slot fails with; the peer's message and next step may be any value.
pub record Failure : Type 0 where
  pub code : ErrorCode
  pub message : Json
  pub context : Fields
  pub next_step : Json

pub data Settled : Type 0 where
  resolved : Fields → Settled
  failed_with : Failure → Settled

-- `settled` has the slots that were resolved or failed, in order; `sent` the messages that were
-- handed to the socket.
pub record Client : Type 0 where
  pub link : LinkState
  pub link_reason : String
  pub sessions : SessionManager
  pub pending : List Slot
  pub settled : List (String × Settled)
  pub events : List Fields
  pub sent : List Fields
  pub ping_seq : ℕ
  pub pong_seq : ℤ
  pub last_pong : ℕ
  pub missed : ℕ
  pub closing : Bool
  pub auto_reconnect : Bool
  pub reconnecting : Bool
  pub heartbeat_timeout : ℕ

abbrev pub event_buffer_size : ℕ
event_buffer_size = 512

-- `_events.append` on the deque, which has its `maxlen`.
unfoldable pub push_event : List Fields → Fields → List Fields
push_event events msg = let all = events ++ msg ∷ [] in drop (length all - event_buffer_size) all

unfoldable pub has_slot : List Slot → String → Bool
has_slot [] id = false
has_slot (s ∷ ss) id = str_eq s.request_id id || has_slot ss id

-- `_pending.pop(id, None)`: what is left.
unfoldable pub without_slot : List Slot → String → List Slot
without_slot [] id = []
without_slot (s ∷ ss) id = if str_eq s.request_id id then ss else s ∷ without_slot ss id

-- The id that a value is as a key of `_pending`: a list or a dict cannot be one, and what else is
-- no text is in no entry.
key_of : Json → Outcome (Option String)
key_of (str s) = returns (some s)
key_of (arr vs) = crashes type_error
key_of (obj fs) = crashes type_error
key_of _ = returns none

unfoldable pub settle : Client → Option String → Settled → Client
settle c none r = c
settle c (some id) r =
    if has_slot c.pending id
    then record c { pending = without_slot c.pending id; settled = c.settled ++ (id, r) ∷ [] }
    else c

-- The slot leaves `_pending` before the error is read.
unfoldable pub pop_only : Client → Option String → Client
pop_only c none = c
pop_only c (some id) = record c { pending = without_slot c.pending id }

unfoldable pub error_code : Json → Outcome ErrorCode
error_code (str s) = elim (code_of_value s) [ none ↦ returns e_internal | some code ↦ returns code ]
error_code (arr vs) = crashes type_error
error_code (obj fs) = crashes type_error
error_code _ = returns e_internal

default_json : Option Json → Json → Json
default_json none d = d
default_json (some v) d = v

-- A late PONG brings a degraded link back.
unfoldable pub relink : Client → LinkState → Client
relink c degraded_link = record c { link = connected; link_reason = "心跳恢复" }
relink c _ = c

abbrev pub fail_slots : List Slot → Failure → List (String × Settled)
fail_slots ss f = map (λ (s : Slot). (s.request_id, failed_with f)) ss

unfoldable pub fail_all_pending : Client → Failure → Client
fail_all_pending c f = record c { pending = []; settled = c.settled ++ fail_slots c.pending f }

abbrev current_id : Option Session → Json
current_id none = null
current_id (some s) = str s.session_id

abbrev pub lost_error : SessionManager → String → Failure
lost_error m reason = record {
  code = e_session_stale;
  message = str (fstring ("连接已断开（" ∷ reason ∷ "）。已自动重连后请重试。" ∷ []));
  context = "session_id" ⇒ current_id m.current ⨾ end;
  next_step = str "重连完成后重新发起；旧 session_id 已失效";
}

-- `_on_link_lost`; `reconnecting` says that the thread that reconnects was started.
unfoldable pub on_link_lost : Client → String → Client
unfolding fail_all_pending
on_link_lost c reason =
    let m = degrade c.sessions in
    if c.closing
    then c
    else fail_all_pending
        (record c {
          link = disconnected;
          link_reason = reason;
          sessions = m;
          reconnecting = c.reconnecting || c.auto_reconnect;
        })
        (lost_error m reason)

-- What the socket does with a message: there is none, it takes it, or an `OSError`.
pub data Wire : Type 0 where
  no_socket takes : Wire
  fails : String → Wire

module _ (codec : JsonCodec) where
  unfoldable pub send_framed : Client → Wire → Fields → Result Bytes → Client × Result (Unit {0})
  send_framed c wire msg (raise e) = (c, raise e)
  send_framed c (fails exc) msg (ok frame) = (
    on_link_lost c (fstring ("发送失败：" ∷ exc ∷ [])),
    raise (error e_timeout (fstring ("发送失败：" ∷ exc ∷ [])) ("command" ⇒ get msg "command" ⨾ end)),
  )
  send_framed c _ msg (ok frame) = (record c { sent = c.sent ++ msg ∷ [] }, ok tt)

  -- `_send`.
  unfoldable pub send : Client → Wire → Fields → Client × Result (Unit {0})
  unfolding send_framed
  send c no_socket msg = (c, raise (error_next e_not_ready "链路未建立，无法发送" end "先 connect"))
  send c wire msg = send_framed c wire msg (encode_frame codec msg false)

module _ (py : Builtins) where
  failure_of : Json → Outcome Failure
  unfolding error_code default_json
  failure_of (obj err) = bind (error_code (get err "code")) λ code.
      bind (py.dict_of (or_else (get err "context") (obj end))) λ context. returns (record {
        code = code;
        message = default_json (get? err "message") (str "对端返回错误");
        context = context;
        next_step = get err "next_step";
      })
  failure_of _ = crashes attribute_error

module _ (py : Builtins) (codec : JsonCodec) (wire : Wire) where
  pong_seen : Client → Outcome ℤ → ℕ → Client × Outcome (Unit {0})
  unfolding relink
  pong_seen c (raises e) now = (c, raises e)
  pong_seen c (crashes x) now = (c, crashes x)
  pong_seen c (returns seq) now =
      let c' : Client = record c { pong_seq = seq; sessions = touch c.sessions now } in
      (relink c' c'.link, returns tt)

  -- A PONG that cannot be sent is passed over; a socket that fails loses the link all the same.
  ping_seen : Client → Outcome ℤ → ℕ → Client × Outcome (Unit {0})
  ping_seen c (returns seq) now = ((send codec c wire (make_pong seq now)).0, returns tt)
  ping_seen c (raises e) now = (c, raises e)
  ping_seen c (crashes x) now = (c, crashes x)

  response_seen : Client → Fields → Outcome (Option String) → Client × Outcome (Unit {0})
  unfolding settle
  response_seen c msg (returns id) = (settle c id (resolved msg), returns tt)
  response_seen c msg (raises e) = (c, raises e)
  response_seen c msg (crashes x) = (c, crashes x)

  -- An error that cannot be read: the slot is gone and nothing was settled.
  error_read : Client → Option String → Outcome Failure → Client × Outcome (Unit {0})
  unfolding settle pop_only
  error_read c id (returns f) = (settle c id (failed_with f), returns tt)
  error_read c id (raises e) = (pop_only c id, raises e)
  error_read c id (crashes x) = (pop_only c id, crashes x)

  error_seen : Client → Fields → Outcome (Option String) → Client × Outcome (Unit {0})
  unfolding error_read failure_of
  error_seen c msg (returns id) =
      error_read c id (failure_of py (or_else (get msg "error") (obj end)))
  error_seen c msg (raises e) = (c, raises e)
  error_seen c msg (crashes x) = (c, crashes x)

  -- `_dispatch` once the type is read.
  unfoldable pub dispatch_type : Client → String → Fields → ℕ → Client × Outcome (Unit {0})
  unfolding pong_seen ping_seen response_seen error_seen key_of
  dispatch_type c mtype msg now =
      if str_eq mtype "PONG"
      then pong_seen (record c { last_pong = now; missed = 0 })
          (py.int_of (default_json (get? msg "seq") (int (negsuc 0)))) now
      else if str_eq mtype "PING"
      then ping_seen c (py.int_of (default_json (get? msg "seq") (nat 0))) now
      else if str_eq mtype "RESPONSE"
      then response_seen c msg (key_of (default_json (get? msg "request_id") (str "")))
      else if str_eq mtype "ERROR"
      then error_seen c msg (key_of (or_else (get msg "request_id") (str "")))
      else if str_eq mtype "EVENT"
      then (
        record c { events = push_event c.events msg; sessions = touch c.sessions now },
        returns tt,
      )
      else (c, returns tt)

  read_type : Client → Result String → Fields → ℕ → Client × Outcome (Unit {0})
  read_type c (raise e) msg now = (c, raises e)
  read_type c (ok mtype) msg now = dispatch_type c mtype msg now

  unfoldable pub dispatch : Client → Fields → ℕ → Client × Outcome (Unit {0})
  unfolding read_type
  dispatch c msg now = read_type c (message_type_of msg) msg now

-- The verdict of `_heartbeat_loop` on the ping that was sent.
unfoldable pub judge : Builtins → Client → ℕ → Client
judge py c now =
    let age = now - c.last_pong in
    let c' : Client = record c { missed = c.missed + 1 } in
    if not (ltb_ℤ c.pong_seq (pos c.ping_seq))
    then record c { missed = 0 }
    else if leb age c.heartbeat_timeout
    then c
    else if c'.missed == 1
    then record c' {
      link = degraded_link;
      link_reason = fstring ("心跳超时 " ∷ py.seconds age ∷ "s（未收到 PONG）" ∷ []);
    }
    else on_link_lost c' (fstring ("连续 " ∷ decimal c'.missed ∷ " 次心跳超时" ∷ []))
