-- ===== src/Tests/Frames.antt =====
-- Frames over a JSON library that knows one message, the empty object.
use mathlib.Core.List.{flatten}
use zygisk_frida_packet_tcp.Base.{ℕ, ◌+◌, ◌<◌, ◌≡◌, refl, List, [], ◌∷◌, ◌++◌, arith, length, false}
use zygisk_frida_packet_tcp.Json.{obj, nat, ◌⇒◌⨾◌, end}
use zygisk_frida_packet_tcp.Protocol.Errors.{ok, raise, Raises, e_malformed_frame, ProtocolError}
use zygisk_frida_packet_tcp.Protocol.Constants.{frame_max_payload}
use zygisk_frida_packet_tcp.Protocol.Frame.{
  Bytes, JsonCodec, value, pack, unpack, payload_of, decode_payload, decode_body, decode_frame,
  frame_of, frame_length, encode_payload, encode_frame, iter_frames, FrameDecoder, new_decoder,
  wait, round, drain, feed, finish, malformed,
}
use zygisk_frida_packet_tcp.Protocol.Frame.Chunks.{prepend, feed-append}
use zygisk_frida_packet_tcp.Protocol.Frame.Stream.{feed_all, feed_all-iter_frames}
use zygisk_frida_packet_tcp.Protocol.Frame.Ends.{feed_bound, feed_truncated, feed_loses}
use zygisk_frida_packet_tcp.Protocol.Frame.Whole.{decode_frame-encode_frame}

-- `{}` in bytes, whatever the message.
abbrev braces : Bytes
braces = 123 ∷ 125 ∷ []

abbrev codec : JsonCodec
codec = record {
  dumps = λ canonical m. braces;
  loads = λ body. value (obj end);
  preview = λ body. "";
}

abbrev frame : Bytes
frame = 0 ∷ 0 ∷ 0 ∷ 2 ∷ braces

abbrev limit : ℕ
limit = frame_max_payload

abbrev decoder : FrameDecoder
decoder = new_decoder limit

framed : encode_frame codec end false ≡ ok frame
unfolding encode_frame encode_payload frame_of pack
framed = refl

fed : feed codec decoder frame ≡ (decoder, ok (end ∷ []))
unfolding feed drain round unpack decode_payload payload_of
fed = refl

-- Two frames in one chunk and a part of the third.
fed_more :
    feed codec decoder (frame ++ (frame ++ 0 ∷ 0 ∷ []))
    ≡ (record { buf = 0 ∷ 0 ∷ []; max_payload = limit }, ok (end ∷ end ∷ []))
unfolding feed drain round unpack decode_payload payload_of
fed_more = refl

feed-append_example :
    feed codec decoder (frame ++ (0 ∷ 0 ∷ []))
    ≡ prepend (end ∷ []) (feed codec (feed codec decoder frame).0 (0 ∷ 0 ∷ []))
feed-append_example = feed-append codec decoder frame (0 ∷ 0 ∷ []) (end ∷ []) (λ i. (fed i).1)

abbrev zero_length : ProtocolError
zero_length = malformed "帧头声明长度为 0" ("buffered" ⇒ nat 4 ⨾ end)

fed_zero : (feed codec decoder (pack 0)).1 ≡ raise zero_length
unfolding feed drain round unpack pack
fed_zero = refl

fed_joined :
    feed codec decoder ((0 ∷ []) ++ flatten ((0 ∷ 0 ∷ 2 ∷ braces) ∷ [])) ≡ (decoder, ok (end ∷ []))
unfolding feed drain round unpack decode_payload payload_of flatten
fed_joined = refl

two_framed : iter_frames codec (end ∷ end ∷ []) ≡ ok (frame ++ frame)
unfolding iter_frames encode_frame encode_payload frame_of pack
two_framed = refl

cut_up : (0 ∷ []) ++ flatten ((0 ∷ 0 ∷ 2 ∷ []) ∷ (braces ++ frame) ∷ []) ≡ frame ++ frame
unfolding flatten
cut_up = refl

abbrev chunks : List Bytes
chunks = (0 ∷ 0 ∷ 2 ∷ []) ∷ (braces ++ frame) ∷ []

feed_all-iter_frames_example :
    (feed_all codec decoder ((0 ∷ []) ∷ chunks) ≡ (decoder, ok (end ∷ end ∷ [])))
    × (finish (feed_all codec decoder ((0 ∷ []) ∷ chunks)).0 ≡ ok tt)
feed_all-iter_frames_example =
    feed_all-iter_frames codec limit (end ∷ end ∷ []) (frame ++ frame) (0 ∷ []) chunks two_framed
      (refl, (refl, tt)) (omega arith) cut_up

feed_bound_example :
    (round limit (feed codec decoder frame).0.buf ≡ wait)
    × (length (feed codec decoder frame).0.buf < 4 + limit)
feed_bound_example = feed_bound codec decoder frame (end ∷ []) (λ i. (fed i).1)

feed_truncated_example :
    (feed codec decoder (0 ∷ 0 ∷ []) ≡ (record { buf = 0 ∷ 0 ∷ []; max_payload = limit }, ok []))
    × Raises (finish (feed codec decoder (0 ∷ 0 ∷ [])).0) e_malformed_frame
feed_truncated_example =
    feed_truncated codec limit end (0 ∷ 0 ∷ []) (0 ∷ 2 ∷ braces) framed (omega arith) (omega arith)
      (omega arith)

feed_loses_example :
    Raises (feed codec decoder (frame ++ pack 0)).1 e_malformed_frame
    × ((feed codec decoder (frame ++ pack 0)).0.buf ≡ pack 0)
    × ((feed codec decoder frame).1 ≡ ok (end ∷ []))
feed_loses_example = feed_loses codec limit end frame framed refl (omega arith)

decode_frame-encode_frame_example : decode_frame codec frame ≡ ok end
decode_frame-encode_frame_example = decode_frame-encode_frame codec end false frame framed refl

decoded : decode_frame codec frame ≡ ok end
unfolding decode_frame frame_length unpack decode_body decode_payload payload_of
decoded = refl

-- A frame with a byte too many is refused.
over_long : Raises (decode_frame codec (frame ++ 0 ∷ [])) e_malformed_frame
unfolding decode_frame frame_length unpack decode_body
over_long = refl
