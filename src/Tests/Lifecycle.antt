-- ===== src/Tests/Lifecycle.antt =====
-- A client that is connected, loses its link and calls.
use zygisk_frida_packet_tcp.Base.{
  zero, suc, keep, mem_text, ◌≡◌, refl, List, true, false, none, [], ◌∷◌,
}
use zygisk_frida_packet_tcp.Json.{obj, get?, truthy}
use zygisk_frida_packet_tcp.Bridge.Client.{Client, on_link_lost, judge}
use zygisk_frida_packet_tcp.Bridge.Calls.{is_linked}
use zygisk_frida_packet_tcp.Bridge.Lifecycle.{Setting, connects, Reach, start, then_}
use zygisk_frida_packet_tcp.Bridge.Lifecycle.Late.{judge-on_link_lost}
use zygisk_frida_packet_tcp.Protocol.Errors.{ok}
use zygisk_frida_packet_tcp.Protocol.Constants.{
  connected, client_name, client_version, protocol_version, state_of_value,
}
use zygisk_frida_packet_tcp.Protocol.Frame.{
  Bytes, JsonCodec, Loaded, value, encode_frame, frame_of, feed, drain, round, unpack,
  decode_payload, payload_of, pack,
}
use zygisk_frida_packet_tcp.Protocol.Messages.Check.{
  message_type_of, check_protocol_version, protocol_version_of, validate, validate_type,
  validate_fields, required_fields, missing_fields, unknown_fields, check_by_type,
}
use zygisk_frida_packet_tcp.Protocol.Messages.{make_hello, make_hello_ack, make_ready}
use zygisk_frida_packet_tcp.Bridge.Session.{open_session}
use zygisk_frida_packet_tcp.Bridge.Handshake.{Pump, arrives, handshake, await_message}
use zygisk_frida_packet_tcp.Bridge.Client.{takes, send, send_framed}
use zygisk_frida_packet_tcp.Bridge.Connect.{
  connect, opened, connect_on, greet, conclude, enter, negotiated,
}
use zygisk_frida_packet_tcp.Mock.Serving.{ack_of, ready_of}
use zygisk_frida_packet_tcp.Tests.Given.{turn, runtime, py, codec, client, idle_client}

abbrev env : Setting
env = record {
  py = py;
  codec = codec;
  same = λ v w. false;
  float_text = λ n. "";
  endpoint = "";
  connect_timeout = "";
}

judge-on_link_lost_example :
    let lost = on_link_lost client "gone" in
    let judged = judge py lost 100000 in
    (is_linked lost.link ≡ false)
    × (is_linked judged.link ≡ true)
    × (judged.sessions.generation ≡ client.sessions.generation)
judge-on_link_lost_example = judge-on_link_lost py client "gone" 100000 refl refl refl refl

-- A JSON library that reads HELLO_ACK in the byte 1 and READY in any other.
loads_greeting : Bytes → Loaded
loads_greeting (suc zero ∷ bs) = value (obj (ack_of turn))
loads_greeting bs = value (obj (ready_of turn runtime))

abbrev greeting : JsonCodec
unfolding loads_greeting
greeting = record {
  dumps = λ canonical m. 123 ∷ 125 ∷ [];
  loads = loads_greeting;
  preview = λ bs. "";
}

abbrev greeted : Setting
greeted = record env { codec = greeting }

abbrev brought : List Pump
brought = arrives (0 ∷ 0 ∷ 0 ∷ 1 ∷ 1 ∷ []) ∷ arrives (0 ∷ 0 ∷ 0 ∷ 1 ∷ 2 ∷ []) ∷ []

abbrev back : Client
back = record idle_client {
  sent = make_hello client_name client_version none protocol_version ∷ [];
  sessions = open_session idle_client.sessions "s1" runtime.state runtime.capabilities 9;
  link = connected;
  link_reason = "握手完成";
  last_pong = 9;
}

reconnected :
    connect greeting (λ v w. false) "" "" idle_client (ok tt) takes brought 9 ≡ opened back
unfolding connect connect_on greet conclude enter negotiated send send_framed encode_frame frame_of
    greeting handshake await_message feed drain round unpack decode_payload payload_of
    message_type_of get? make_hello_ack make_ready make_hello check_protocol_version
    protocol_version_of truthy validate validate_type validate_fields required_fields missing_fields
    keep check_by_type state_of_value loads_greeting mem_text pack unknown_fields
reconnected = refl

abbrev reconnects : Reach greeted idle_client back
reconnects = then_ start (connects (ok tt) takes brought 9 back reconnected)
