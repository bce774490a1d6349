-- ===== src/Bridge/Calls/Answered.antt =====
-- The client and the server together: a request, what the server sends for it, and the end of the
-- call.
use zygisk_frida_packet_tcp.Base.{ℕ, String, Option, none, [], ◌∷◌, ◌++◌}
use zygisk_frida_packet_tcp.Json.{Json, Fields}
use zygisk_frida_packet_tcp.Protocol.Messages.{request_fields}
use zygisk_frida_packet_tcp.Mock.Hooking.{Turn}
use zygisk_frida_packet_tcp.Mock.Server.Answers.{Reply, answers, refuses, reply_message}
use zygisk_frida_packet_tcp.Bridge.Session.{Session}
use zygisk_frida_packet_tcp.Bridge.Client.{Slot, Settled, resolved, failed_with, Client}
use zygisk_frida_packet_tcp.Bridge.Client.Replies.{failure_from}
use zygisk_frida_packet_tcp.Bridge.Calls.{put_slot}

-- How the slot is settled that a reply is for.
abbrev pub settled_by : Turn → Json → Reply → Settled
settled_by t id (answers status code body) =
    resolved (reply_message t id (answers status code body))
settled_by t id (refuses e) = failed_with (failure_from e)

-- The request that `call` sends.
abbrev pub request_of : String → Option Fields → Session → String → ℕ → Fields
request_of command payload sess id now = request_fields command payload sess.session_id none id now

abbrev slot_of : String → String → Slot
slot_of command id = record { request_id = id; command = command }

-- The client after its request has gone out.
abbrev asked : Client → String → String → Fields → Client
asked c command id req = record c {
  pending = put_slot c.pending (slot_of command id);
  sent = c.sent ++ req ∷ [];
}
