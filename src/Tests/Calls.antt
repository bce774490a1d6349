-- ===== src/Tests/Calls.antt =====
-- A call of `memory.read` on a client that is connected.
use zygisk_frida_packet_tcp.Base.{◌≡◌, refl, true, false, none, some, [], ◌∷◌}
use zygisk_frida_packet_tcp.Json.{Fields, str, obj, end, ◌⇒◌⨾◌, get?}
use zygisk_frida_packet_tcp.Protocol.Errors.{ok, returns}
use zygisk_frida_packet_tcp.Protocol.Constants.{fast, protocol_version}
use zygisk_frida_packet_tcp.Protocol.Commands.{CommandSpec}
use zygisk_frida_packet_tcp.Protocol.Frame.{Bytes, encode_frame, frame_of, pack}
use zygisk_frida_packet_tcp.Protocol.Messages.{make_hello}
use zygisk_frida_packet_tcp.Bridge.Client.{Slot}
use zygisk_frida_packet_tcp.Bridge.Calls.Answered.{request_of}
use zygisk_frida_packet_tcp.Bridge.Handshake.{handshake}
use zygisk_frida_packet_tcp.Bridge.Handshake.Agrees.{ready_event, handshake_agrees}
use zygisk_frida_packet_tcp.Mock.Serving.{do_handshake, ack_of, ready_of}
use zygisk_frida_packet_tcp.Protocol.Messages.Check.{validate}
use zygisk_frida_packet_tcp.Tests.Given.{codec, turn, runtime, session}

abbrev frame : Bytes
frame = 0 ∷ 0 ∷ 0 ∷ 2 ∷ 123 ∷ 125 ∷ []

any_framed : (m : Fields) → encode_frame codec m false ≡ ok frame
unfolding encode_frame frame_of pack
any_framed m = refl

handshake_agrees_example :
    (do_handshake codec turn runtime false (some (make_hello "c" "1" none protocol_version))
      ≡ record {
        sent = ack_of turn ∷ ready_of turn runtime ∷ ready_event turn runtime ∷ [];
        ready = true;
        success = returns true;
      })
    × (get? (ready_event turn runtime) "event_type" ≡ some (str "RUNTIME_READY"))
    × (validate (ready_event turn runtime) true ≡ returns "EVENT")
    × (handshake (λ v w. false) (ok (ack_of turn)) (ok (ready_of turn runtime))
        ≡ returns (record {
          session_id = str turn.session_id;
          state = runtime.state;
          capabilities = obj runtime.capabilities;
        }))
handshake_agrees_example =
    handshake_agrees (λ v w. false) codec turn runtime "c" "1" none frame frame frame (any_framed _)
      (any_framed _) (any_framed _)

abbrev payload : Fields
payload = "address" ⇒ str "0x1000" ⨾ end

abbrev spec : CommandSpec
spec = record {
  name = "memory.read";
  cls = fast;
  category = "memory";
  writes = false;
  destructive = false;
  spec_source = true;
}

abbrev req : Fields
req = request_of "memory.read" (some payload) session "r1" 5

abbrev slot : Slot
slot = record { request_id = "r1"; command = "memory.read" }
