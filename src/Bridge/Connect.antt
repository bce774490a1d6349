-- ===== src/Bridge/Connect.antt =====
-- bridge/client.py: `connect`, `close` and the loop that reconnects. The two waits of the handshake
-- share the decoder and the inbox. `same` is `==` of values, `text_of` is `str` of an exception.
pub mod Backoff
pub mod Kept
use zygisk_frida_packet_tcp.Base.{
  ℕ, ◌+◌, ◌-◌, String, Bool, true, false, not, Option, none, some, List, [], ◌∷◌, get_elem?, length,
  min, decimal, fstring, if◌then◌else◌,
}
use zygisk_frida_packet_tcp.Json.{Json, null, str, obj, Fields, end}
use zygisk_frida_packet_tcp.Protocol.Errors.{
  ProtocolError, error_next, code_value, e_timeout, PyError, Result, ok, raise, Outcome, returns,
  raises, crashes, bind,
}
use zygisk_frida_packet_tcp.Protocol.Constants.{
  LinkState, connected, disconnected, SessionState, closed, reconnect_backoff, frame_max_payload,
  client_name, client_version, protocol_version,
}
use zygisk_frida_packet_tcp.Protocol.Frame.{JsonCodec, FrameDecoder, new_decoder}
use zygisk_frida_packet_tcp.Protocol.Messages.{make_hello}
use zygisk_frida_packet_tcp.Bridge.Session.{open_session, close_session}
use zygisk_frida_packet_tcp.Bridge.Client.{Failure, Client, fail_all_pending}
use zygisk_frida_packet_tcp.Bridge.Handshake.{Pump, Awaited, await_message, Negotiated, handshake}
use zygisk_frida_packet_tcp.Bridge.Client.{Wire, send}

-- What `connect` comes to. The last: a session id that is no text, or capabilities that are no
-- object; the code stores them, the model's session has no room for them.
pub data Connecting : Type 0 where
  opened : Client → Connecting
  fails : Client → ProtocolError → Connecting
  breaks : Client → PyError → Connecting
  untyped : Negotiated → Connecting

-- `_set_link`.
abbrev pub set_link : Client → LinkState → String → Client
set_link c state reason = record c { link = state; link_reason = reason }

module _ (codec : JsonCodec) (same : Json → Json → Bool) (endpoint timeout : String) where
  -- `_handshake` after the HELLO, on what the socket brings.
  unfoldable pub negotiated : List Pump → Outcome Negotiated
  negotiated ps =
      let first = await_message codec endpoint timeout (new_decoder frame_max_payload) [] ps in
      let second = await_message codec endpoint timeout first.decoder first.inbox first.left in
      handshake same first.message second.message

  unfoldable pub enter : Client → Negotiated → Json → Json → ℕ → Connecting
  enter c n (str id) (obj caps) now =
      let c' : Client = record c {
        sessions = open_session c.sessions id n.state caps now;
        missed = 0;
      } in
      opened (record (set_link c' connected "握手完成") { last_pong = now })
  enter c n _ _ now = untyped n

  unfoldable pub conclude : Client → Outcome Negotiated → ℕ → Connecting
  unfolding enter
  conclude c (returns n) now = enter c n n.session_id n.capabilities now
  conclude c (raises e) now = fails c e
  conclude c (crashes x) now = breaks c x

  unfoldable pub greet : Client × Result (Unit {0}) → List Pump → ℕ → Connecting
  unfolding negotiated conclude
  greet (c, raise e) ps now = fails c e
  greet (c, ok u) ps now = conclude c (negotiated ps) now

  -- `connect`: `socket` is what opening it came to, `wire` what becomes of the HELLO.
  unfoldable pub connect_on : Client → Result (Unit {0}) → Wire → List Pump → ℕ → Connecting
  unfolding greet
  connect_on c (raise e) wire ps now = fails c e
  connect_on c (ok u) wire ps now =
      greet (send codec c wire (make_hello client_name client_version none protocol_version)) ps now

  unfoldable pub connect : Client → Result (Unit {0}) → Wire → List Pump → ℕ → Connecting
  unfolding connect_on
  connect c socket wire ps now = connect_on (record c { closing = false }) socket wire ps now

abbrev pub closed_error : Failure
closed_error = record {
  code = e_timeout;
  message = str "客户端已关闭";
  context = end;
  next_step = str "重新 connect";
}

-- `close`.
unfoldable pub close : Client → Client
close c =
    let c' = fail_all_pending (record c { closing = true }) closed_error in
    set_link (record c' { sessions = close_session c'.sessions closed }) disconnected "客户端已关闭"

abbrev or_zero : Option ℕ → ℕ
or_zero none = 0
or_zero (some n) = n

-- `RECONNECT_BACKOFF[min(attempt, len(RECONNECT_BACKOFF) - 1)]`, in seconds.
unfoldable pub delay : ℕ → ℕ
delay attempt = or_zero (get_elem? reconnect_backoff (min attempt (length reconnect_backoff - 1)))

-- A round of the loop: whether `close` interrupts the sleep, and what the next `connect` meets.
pub record Attempt : Type 0 where
  pub interrupted : Bool
  pub socket : Result (Unit {0})
  pub wire : Wire
  pub pumps : List Pump
  pub now : ℕ

-- Where the loop is: it has ended, it goes on with the next number, or `connect` was untyped.
pub data Looping : Type 0 where
  ended : Client → Looping
  retries : Client → ℕ → Looping
  outside : Negotiated → Looping

abbrev leaves : Client → Looping
leaves c = ended (record c { reconnecting = false })

abbrev pub exception_text : ProtocolError → String
exception_text e = fstring (code_value e.code ∷ ": " ∷ e.message ∷ [])

failed_attempt : Client → ℕ → String → Looping
failed_attempt c attempt text =
    retries (record c { link_reason = fstring ("重连失败：" ∷ text ∷ []) }) (attempt + 1)

module _ (text_of : PyError → String) (codec : JsonCodec) (same : Json → Json → Bool)
    (endpoint timeout : String) where
  after_connect : ℕ → Connecting → Looping
  unfolding failed_attempt
  after_connect attempt (opened c) = leaves c
  after_connect attempt (fails c e) = failed_attempt c attempt (exception_text e)
  after_connect attempt (breaks c x) = failed_attempt c attempt (text_of x)
  after_connect attempt (untyped n) = outside n

  -- One round of `_reconnect_loop`.
  unfoldable pub reconnect_round : Client → ℕ → Attempt → Looping
  unfolding after_connect
  reconnect_round c attempt a =
      let c' : Client = record c {
        link_reason =
            fstring (decimal (attempt + 1) ∷ " 次重连将在 " ∷ decimal (delay attempt) ∷ "s 后尝试" ∷ []);
      } in
      if c.closing
      then leaves c
      else if a.interrupted
      then leaves c'
      else after_connect attempt
          (connect codec same endpoint timeout c' a.socket a.wire a.pumps a.now)

  continue_with : Looping → (Client → ℕ → Looping) → Looping
  continue_with (ended c) next = ended c
  continue_with (retries c n) next = next c n
  continue_with (outside n) next = outside n

  -- `_reconnect_loop`, for the rounds that there are.
  unfoldable pub reconnect : Client → ℕ → List Attempt → Looping
  unfolding reconnect_round continue_with
  reconnect c attempt [] = retries c attempt
  reconnect c attempt (a ∷ attempts) =
      continue_with (reconnect_round c attempt a) (λ c' n. reconnect c' n attempts)
