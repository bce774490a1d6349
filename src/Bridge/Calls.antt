-- ===== src/Bridge/Calls.antt =====
-- bridge/client.py: `call` in its two halves, up to the wait and after it.
-- Times are in milliseconds; `float_text` is `str` of a float.
pub mod Kept
pub mod Answered
use zygisk_frida_packet_tcp.Base.{
  ℕ, ◌*◌, String, Bool, true, false, ◌||◌, Option, none, some, List, [], ◌∷◌, ◌++◌, str_eq, fstring,
  ◌⊎◌, inl, inr, if◌then◌else◌,
}
use zygisk_frida_packet_tcp.Json.{
  Json, null, bool, int, milli, str, arr, obj, Fields, end, ◌⇒◌⨾◌, get, or_else, truthy,
}
use zygisk_frida_packet_tcp.Python.{shown}
use zygisk_frida_packet_tcp.Protocol.Errors.{
  ErrorCode, ProtocolError, error, error_next, e_internal, e_not_ready, e_timeout, e_unknown_cmd,
  PyError, attribute_error, Result, ok, raise, Outcome, returns, raises, crashes,
}
use zygisk_frida_packet_tcp.Protocol.Constants.{
  LinkState, connected, degraded_link, disconnected, connecting, link_value, class_value,
}
use zygisk_frida_packet_tcp.Protocol.Commands.{CommandSpec, find_command, timeout}
use zygisk_frida_packet_tcp.Protocol.Frame.{JsonCodec, encode_frame, Bytes}
use zygisk_frida_packet_tcp.Protocol.Messages.{make_request}
use zygisk_frida_packet_tcp.Protocol.Messages.Check.{is_text}
use zygisk_frida_packet_tcp.Bridge.Session.{Session, require, touch}
use zygisk_frida_packet_tcp.Bridge.Client.{
  Slot, Failure, Settled, resolved, failed_with, Client, without_slot, error_code, on_link_lost,
  Wire, send,
}

-- `connected`.
abbrev pub is_linked : LinkState → Bool
is_linked disconnected = false
is_linked connecting = false
is_linked connected = true
is_linked degraded_link = true

-- `_pending[id] = slot`: an entry of the same id is replaced in its place.
unfoldable pub put_slot : List Slot → Slot → List Slot
put_slot [] slot = slot ∷ []
put_slot (s ∷ ss) slot =
    if str_eq s.request_id slot.request_id then slot ∷ ss else s ∷ put_slot ss slot

module _ (codec : JsonCodec) where
  -- A request that waits, after `send`; one that could not be sent does not stay.
  sent_or_gone :
      Slot → CommandSpec → Client × Result (Unit {0}) → Client × Result (Slot × CommandSpec)
  sent_or_gone slot spec (c, ok u) = (c, ok (slot, spec))
  sent_or_gone slot spec (c, raise e) =
      (record c { pending = without_slot c.pending slot.request_id }, raise e)

  issue_request :
      Client
      → Wire
      → String
      → CommandSpec
      → String
      → Result Fields
      → Client × Result (Slot × CommandSpec)
  unfolding sent_or_gone
  issue_request c wire command spec id (raise e) = (c, raise e)
  issue_request c wire command spec id (ok req) =
      let slot : Slot = record { request_id = id; command = command } in
      sent_or_gone slot spec (send codec (record c { pending = put_slot c.pending slot }) wire req)

  issue_in :
      Client
      → Wire
      → String
      → CommandSpec
      → Option Fields
      → String
      → ℕ
      → Result Session
      → Client × Result (Slot × CommandSpec)
  unfolding issue_request
  issue_in c wire command spec payload id now (raise e) = (c, raise e)
  issue_in c wire command spec payload id now (ok sess) =
      issue_request c wire command spec id
        (make_request command payload sess.session_id none id now)

  issue_spec :
      Client
      → Wire
      → String
      → Option CommandSpec
      → Option Fields
      → String
      → ℕ
      → Client × Result (Slot × CommandSpec)
  unfolding issue_in
  issue_spec c wire command none payload id now = (
    c,
    raise (
        error_next e_unknown_cmd (fstring ("未知命令：" ∷ command ∷ [])) ("command" ⇒ str command ⨾ end)
          "改用 commands.ALL_COMMANDS 中的命令"),
  )
  issue_spec c wire command (some spec) payload id now =
      if is_linked c.link
      then issue_in c wire command spec payload id now (require c.sessions)
      else (
        c,
        raise (
            error_next e_not_ready
              (fstring ("链路不可用（" ∷ link_value c.link ∷ "）：" ∷ c.link_reason ∷ []))
              ("link" ⇒ str (link_value c.link) ⨾ end) "等待自动重连完成，或重新 connect"),
      )

  -- `call` up to the wait; `id` is the fresh request id.
  unfoldable pub issue :
      Client → Wire → String → Option Fields → String → ℕ → Client × Result (Slot × CommandSpec)
  unfolding issue_spec
  issue c wire command payload id now =
      issue_spec c wire command (find_command command) payload id now

-- What a call ends in; the failure of a slot keeps what the peer sent.
pub data Called : Type 0 where
  answered : Fields → Called
  refused : ProtocolError → Called
  failed : Failure → Called
  crashed : PyError → Called

-- How a slot was settled, if it was.
unfoldable pub find_settled : List (String × Settled) → String → Option Settled
find_settled [] id = none
find_settled ((x, r) ∷ rs) id = if str_eq x id then some r else find_settled rs id

error_answer : String → Fields → Outcome ErrorCode → Called
error_answer command resp (returns code) =
    refused (
      error code (fstring ("命令 " ∷ command ∷ " 返回错误" ∷ [])) ("response" ⇒ get resp "payload" ⨾ end))
error_answer command resp (raises e) = refused e
error_answer command resp (crashes x) = crashed x

unfoldable pub read_answer : String → Settled → Called
unfolding error_answer error_code
read_answer command (failed_with f) = failed f
read_answer command (resolved resp) =
    if is_text (get resp "status") "error"
    then error_answer command resp (error_code (get resp "code"))
    else answered resp

module _ (float_text : ℕ → String) where
  abbrev wait_of : Option ℕ → CommandSpec → ℕ
  wait_of none spec = timeout spec * 1000
  wait_of (some ms) spec = ms

  abbrev pub call_timed_out : String → CommandSpec → ℕ → ProtocolError
  call_timed_out command spec ms =
      error_next e_timeout (fstring ("命令 " ∷ command ∷ " 超时（" ∷ float_text ms ∷ "s）" ∷ []))
        ("command"
          ⇒ str command ⨾ "timeout_s"
          ⇒ milli ms ⨾ "cls"
          ⇒ str (class_value spec.cls) ⨾ end)
        "先探活（runtime.status），确认后端未卡死"

  finish_with : Client → Slot → CommandSpec → Option ℕ → Option Settled → ℕ → Client × Called
  unfolding read_answer
  finish_with c slot spec limit none now = (
    record c { pending = without_slot c.pending slot.request_id },
    refused (call_timed_out slot.command spec (wait_of limit spec)),
  )
  finish_with c slot spec limit (some r) now =
      (record c { sessions = touch c.sessions now }, read_answer slot.command r)

  -- `call` after the wait: the slot was settled in time, or it leaves.
  unfoldable pub finish : Client → Slot → CommandSpec → Option ℕ → ℕ → Client × Called
  unfolding finish_with
  finish c slot spec limit now =
      finish_with c slot spec limit (find_settled c.settled slot.request_id) now
