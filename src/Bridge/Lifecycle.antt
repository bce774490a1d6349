-- ===== src/Bridge/Lifecycle.antt =====
-- bridge/client.py: what can happen to a client, one step at a time, and in any order.
pub mod Effects
pub mod Refines
pub mod Late
use zygisk_frida_packet_tcp.Base.{ℕ, ◌+◌, String, ◌≡◌, Bool, true, false, Option, List, [], ◌++◌, ℤ}
use zygisk_frida_packet_tcp.Json.{Json, Fields}
use zygisk_frida_packet_tcp.Python.{Builtins}
use zygisk_frida_packet_tcp.Protocol.Errors.{ProtocolError, PyError, Result}
use zygisk_frida_packet_tcp.Protocol.Commands.{CommandSpec}
use zygisk_frida_packet_tcp.Protocol.Frame.{JsonCodec}
use zygisk_frida_packet_tcp.Bridge.Client.{
  Slot, Failure, Settled, Client, push_event, without_slot, Wire, send, dispatch, judge,
  on_link_lost, fail_all_pending,
}
use zygisk_frida_packet_tcp.Protocol.Constants.{
  SessionState, disconnected, degraded_link, connected,
}
use zygisk_frida_packet_tcp.Bridge.Session.{touch, degrade, close_session, open_session}
use zygisk_frida_packet_tcp.Bridge.Handshake.{Pump}
use zygisk_frida_packet_tcp.Bridge.Calls.{put_slot, issue, finish}
use zygisk_frida_packet_tcp.Bridge.Heartbeat.{beat, drain_events}
use zygisk_frida_packet_tcp.Bridge.Connect.{opened, fails, breaks, connect, close, set_link}

-- What the client was made with, and what of Python it calls.
pub record Setting : Type 0 where
  pub py : Builtins
  pub codec : JsonCodec
  pub same : Json → Json → Bool
  pub float_text : ℕ → String
  pub endpoint : String
  pub connect_timeout : String

-- One step. First the operations as wholes: a message is handled, a ping goes out, a heartbeat is
-- judged, whether the link is still up or not, the link is lost, a call sends its request or ends,
-- `connect` succeeds or fails, `close`. None of these keeps all the other threads out from its first
-- line to its last: the state lock is held by `connect` and by the first lines of `_on_link_lost`
-- only. So their parts, the writes of the fields, are steps too, each by itself and in any order,
-- more than the code can take: another thread may come between any two.
pub data Step (env : Setting) (c : Client) : Client → Type 0 where
  receives :
      (wire : Wire) (msg : Fields) (now : ℕ)
      → Step env c (dispatch env.py env.codec wire c msg now).0
  beats : (wire : Wire) (now : ℕ) → Step env c (beat env.codec c wire now)
  judges : (now : ℕ) → Step env c (judge env.py c now)
  loses : (reason : String) → Step env c (on_link_lost c reason)
  issues :
      (wire : Wire) (command : String) (payload : Option Fields) (id : String) (now : ℕ)
      → Step env c (issue env.codec c wire command payload id now).0
  finishes :
      (slot : Slot) (spec : CommandSpec) (limit : Option ℕ) (now : ℕ)
      → Step env c (finish env.float_text c slot spec limit now).0
  connects :
      (socket : Result (Unit {0})) (wire : Wire) (ps : List Pump) (now : ℕ) (c' : Client)
      → connect env.codec env.same env.endpoint env.connect_timeout c socket wire ps now ≡ opened c'
      → Step env c c'
  connect_fails :
      (socket : Result (Unit {0})) (wire : Wire) (ps : List Pump) (now : ℕ) (c' : Client)
      (e : ProtocolError)
      → connect env.codec env.same env.endpoint env.connect_timeout c socket wire ps now
        ≡ fails c' e
      → Step env c c'
  connect_breaks :
      (socket : Result (Unit {0})) (wire : Wire) (ps : List Pump) (now : ℕ) (c' : Client)
      (x : PyError)
      → connect env.codec env.same env.endpoint env.connect_timeout c socket wire ps now
        ≡ breaks c' x
      → Step env c c'
  closes : Step env c (close c)
  drains : Step env c (drain_events c).1
  -- Parts of `call`, of a heartbeat and of the handling of a message.
  registers : (slot : Slot) → Step env c (record c { pending = put_slot c.pending slot })
  sends : (wire : Wire) (msg : Fields) → Step env c (send env.codec c wire msg).0
  forgets : (id : String) → Step env c (record c { pending = without_slot c.pending id })
  touches : (now : ℕ) → Step env c (record c { sessions = touch c.sessions now })
  counts_ping : Step env c (record c { ping_seq = c.ping_seq + 1 })
  notes_pong : (seq : ℤ) → Step env c (record c { pong_seq = seq })
  counts : (last missed : ℕ) → Step env c (record c { last_pong = last; missed = missed })
  settles : (rs : List (String × Settled)) → Step env c (record c { settled = c.settled ++ rs })
  clears_pending : Step env c (record c { pending = [] })
  buffers : (msg : Fields) → Step env c (record c { events = push_event c.events msg })
  -- Parts of `connect` and of the loop that reconnects.
  starts_connecting : Step env c (record c { closing = false })
  opens_session :
      (id : String) (state : SessionState) (capabilities : Fields) (now : ℕ)
      → Step env c (record c { sessions = open_session c.sessions id state capabilities now })
  links :
      (now : ℕ) → Step env c (record (set_link c connected "握手完成") { last_pong = now; missed = 0 })
  explains : (reason : String) → Step env c (record c { link_reason = reason })
  reconnects : (on : Bool) → Step env c (record c { reconnecting = on })
  -- Parts of `close`.
  starts_closing : Step env c (record c { closing = true })
  closes_session :
      (state : SessionState) → Step env c (record c { sessions = close_session c.sessions state })
  -- Parts of `close` and of the loss of a link.
  goes_off : (reason : String) → Step env c (set_link c disconnected reason)
  degrades : Step env c (record c { sessions = degrade c.sessions })
  fails_pending : (f : Failure) → Step env c (fail_all_pending c f)
  -- `_set_link` by a heartbeat or a PONG that has read the link before.
  marks_degraded : (reason : String) → Step env c (set_link c degraded_link reason)
  marks_recovered : (reason : String) → Step env c (set_link c connected reason)

-- The steps that can bring a link up: a whole `connect`, and those that write a link state that was
-- decided on before, by `connect` after it has opened its session, by a heartbeat, or by a PONG.
-- And the one that opens a session.
pub data Kind : Type 0 where
  whole_connect late_write opening other : Kind

abbrev pub kind_of : {env : Setting} {c c' : Client} → Step env c c' → Kind
kind_of (judges now) = late_write
kind_of (marks_degraded reason) = late_write
kind_of (marks_recovered reason) = late_write
kind_of (connects socket wire ps now c' e) = whole_connect
kind_of (opens_session id state capabilities now) = opening
kind_of (links now) = late_write
kind_of _ = other

-- A client that steps lead to.
pub data Reach (env : Setting) (c : Client) : Client → Type 0 where
  start : Reach env c c
  then_ : {d e : Client} → Reach env c d → Step env d e → Reach env c e
