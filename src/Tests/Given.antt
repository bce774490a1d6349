-- ===== src/Tests/Given.antt =====
-- What the tests of the client and of the server share.
use zygisk_frida_packet_tcp.Base.{true, false, some, [], ◌∷◌, pos}
use zygisk_frida_packet_tcp.Json.{Json, Fields, obj, end}
use zygisk_frida_packet_tcp.Python.{Builtins}
use zygisk_frida_packet_tcp.Protocol.Errors.{Outcome, returns, crashes, type_error}
use zygisk_frida_packet_tcp.Protocol.Constants.{connected, disconnected, running}
use zygisk_frida_packet_tcp.Protocol.Frame.{JsonCodec, value}
use zygisk_frida_packet_tcp.Bridge.Session.{Session}
use zygisk_frida_packet_tcp.Bridge.Client.{Client}
use zygisk_frida_packet_tcp.Mock.State.{MockRuntimeState}
use zygisk_frida_packet_tcp.Mock.Initial.{default_state}
use zygisk_frida_packet_tcp.Mock.Hooking.{Turn}

abbrev copied : Json → Outcome Fields
copied (obj fs) = returns fs
copied v = crashes type_error

-- Builtins that copy a dict and know no number.
abbrev pub py : Builtins
py = record {
  int_of = λ v. returns (pos 0);
  int_hex = λ s. returns (pos 0);
  dict_of = copied;
  seconds = λ n. "";
  sha256 = λ bs. "";
}

abbrev pub codec : JsonCodec
codec = record {
  dumps = λ canonical m. 123 ∷ 125 ∷ [];
  loads = λ body. value (obj end);
  preview = λ body. "";
}

abbrev pub turn : Turn
turn = record {
  session_id = "s1";
  heartbeat_enabled = true;
  job_id = "job-1";
  event_id = λ n. "e";
  now = 7;
  clock = 7;
  broken = false;
}

abbrev pub runtime : MockRuntimeState
runtime = default_state 0 0

abbrev pub session : Session
session = record {
  session_id = "s1";
  generation = 1;
  state = running;
  capabilities = end;
  created_at = 0;
  last_activity = 0;
}

abbrev pub client : Client
client = record {
  link = connected;
  link_reason = "";
  sessions = record { current = some session; generation = 1; idle_timeout = 600; history = [] };
  pending = [];
  settled = [];
  events = [];
  sent = [];
  ping_seq = 1;
  pong_seq = pos 0;
  last_pong = 0;
  missed = 0;
  closing = false;
  auto_reconnect = true;
  reconnecting = false;
  heartbeat_timeout = 30000;
}

-- A link that was lost.
abbrev pub idle_client : Client
idle_client = record client { link = disconnected }
