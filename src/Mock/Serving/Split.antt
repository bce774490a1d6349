-- ===== src/Mock/Serving/Split.antt =====
-- A HELLO that arrives in two pieces.
use zygisk_frida_packet_tcp.Base.{
  ◌<◌, ◌≡◌, refl, Bool, true, false, none, [], ◌∷◌, ◌++◌, length, arith,
}
use zygisk_frida_packet_tcp.Json.{Fields}
use zygisk_frida_packet_tcp.Protocol.Errors.{ok, returns}
use zygisk_frida_packet_tcp.Protocol.Constants.{frame_max_payload}
use zygisk_frida_packet_tcp.Protocol.Frame.{Bytes, JsonCodec, encode_frame, new_decoder}
use zygisk_frida_packet_tcp.Protocol.Frame.Ends.{feed_truncated}
use zygisk_frida_packet_tcp.Mock.State.{MockRuntimeState}
use zygisk_frida_packet_tcp.Mock.Hooking.{Turn}
use zygisk_frida_packet_tcp.Mock.Serving.{
  Connection, received, receive, read_from, read_message, took, pop_inbox, do_handshake,
}

abbrev pub new_connection : Connection
new_connection = record { decoder = new_decoder frame_max_payload; inbox = []; alive = true }

-- Of a frame of which the first read brings a part only, `_read_message` returns no message though
-- the connection is alive, and the handshake ends without success and without a word.
pub split_hello_fails :
    (codec : JsonCodec) (t : Turn) (st : MockRuntimeState) (blocked : Bool) (hello : Fields)
    (part rest : Bytes)
    → encode_frame codec hello false ≡ ok (part ++ rest)
    → 0 < length part
    → 0 < length rest
    → let read = read_message codec new_connection (received part) in
      (read.1 ≡ ok none)
      × (read.0.alive ≡ true)
      × (do_handshake codec t st blocked none
          ≡ record { sent = []; ready = false; success = returns false })
unfolding read_message read_from receive took pop_inbox do_handshake
split_hello_fails codec t st blocked hello [] rest h p q = absurd (omega arith)
split_hello_fails codec t st blocked hello (b ∷ bs) rest h p q =
    let (fed, leftover) =
      feed_truncated codec frame_max_payload hello (b ∷ bs) rest h p q (omega arith) in
    (rw fed refl, rw fed refl, refl)
