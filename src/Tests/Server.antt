-- ===== src/Tests/Server.antt =====
-- The server's answer to one request.
use zygisk_frida_packet_tcp.Base.{◌≡◌, refl, arith, true, false, none, [], ◌∷◌}
use zygisk_frida_packet_tcp.Json.{str, Fields, end, ◌⇒◌⨾◌, get?}
use zygisk_frida_packet_tcp.Protocol.Errors.{ok, returns}
use zygisk_frida_packet_tcp.Protocol.Messages.Check.{message_type_of}
use zygisk_frida_packet_tcp.Mock.Server.{handle}
use zygisk_frida_packet_tcp.Mock.Server.Answers.{IsSettled, request_id_of, handle-IsSettled}
use zygisk_frida_packet_tcp.Protocol.Frame.{encode_frame, frame_of, pack}
use zygisk_frida_packet_tcp.Mock.Serving.{received, read_message, do_handshake}
use zygisk_frida_packet_tcp.Mock.Serving.Split.{new_connection, split_hello_fails}
use zygisk_frida_packet_tcp.Tests.Given.{codec, py, turn, runtime}

abbrev request : Fields
request =
    "type"
    ⇒ str "REQUEST" ⨾ "request_id"
    ⇒ str "r1" ⨾ "session_id"
    ⇒ str "s1" ⨾ "command"
    ⇒ str "device.list" ⨾ end

is_request : message_type_of request ≡ ok "REQUEST"
unfolding message_type_of get?
is_request = refl

handle-IsSettled_example :
    IsSettled codec turn (request_id_of request) (handle py codec turn runtime request)
handle-IsSettled_example = handle-IsSettled py codec turn runtime request is_request

-- Two bytes of a header come first.
split_hello_fails_example :
    let read = read_message codec new_connection (received (0 ∷ 0 ∷ [])) in
    (read.1 ≡ ok none)
    × (read.0.alive ≡ true)
    × (do_handshake codec turn runtime false none
        ≡ record { sent = []; ready = false; success = returns false })
unfolding encode_frame frame_of pack
split_hello_fails_example =
    split_hello_fails codec turn runtime false request (0 ∷ 0 ∷ []) (0 ∷ 2 ∷ 123 ∷ 125 ∷ []) refl
      (omega arith) (omega arith)
