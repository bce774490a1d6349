-- ===== src/Tests/Client.antt =====
-- A client with two requests that wait.
use zygisk_frida_packet_tcp.Base.{◌≡◌, refl, true, false, [], ◌∷◌, pos}
use zygisk_frida_packet_tcp.Json.{str, Fields, end, ◌⇒◌⨾◌}
use zygisk_frida_packet_tcp.Protocol.Errors.{returns}
use zygisk_frida_packet_tcp.Protocol.Constants.{connected}
use zygisk_frida_packet_tcp.Bridge.Session.{new_manager}
use zygisk_frida_packet_tcp.Python.{Builtins}
use zygisk_frida_packet_tcp.Bridge.Client.{
  Slot, Client, takes, has_slot, on_link_lost, fail_all_pending,
}
use zygisk_frida_packet_tcp.Bridge.Client.Slots.{distinct}
use zygisk_frida_packet_tcp.Bridge.Client.Pending.{Settles, receives, happen, happen-Settles}
use zygisk_frida_packet_tcp.Tests.Given.{codec}

-- A toy of the builtins, which no message here reaches.
abbrev py : Builtins
py = record {
  int_of = λ v. returns (pos 0);
  int_hex = λ s. returns (pos 0);
  dict_of = λ v. returns end;
  seconds = λ n. "";
  sha256 = λ bs. "";
}

abbrev slot : Slot
slot = record { request_id = "r1"; command = "memory.read" }

abbrev other_slot : Slot
other_slot = record { request_id = "r2"; command = "process.list" }

abbrev client : Client
client = record {
  link = connected;
  link_reason = "";
  sessions = new_manager 600;
  pending = slot ∷ other_slot ∷ [];
  settled = [];
  events = [];
  sent = [];
  ping_seq = 0;
  pong_seq = pos 0;
  last_pong = 0;
  missed = 0;
  closing = false;
  auto_reconnect = true;
  reconnecting = false;
  heartbeat_timeout = 30000;
}

abbrev answer : Fields
answer = "type" ⇒ str "RESPONSE" ⨾ "request_id" ⇒ str "r1" ⨾ end

distinct_slots : distinct client.pending ≡ true
unfolding distinct has_slot
distinct_slots = refl

happen-Settles_example : Settles client (happen py codec client (receives takes answer 5))
happen-Settles_example = happen-Settles py codec client (receives takes answer 5) distinct_slots

-- The link is lost: both fail, and nothing waits.
lost : (on_link_lost client "gone").pending ≡ []
unfolding on_link_lost fail_all_pending
lost = refl
