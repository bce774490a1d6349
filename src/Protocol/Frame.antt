-- ===== src/Protocol/Frame.antt =====
-- protocol/frame.py: a frame is four bytes of length, the highest first, and the JSON text of a
-- message. The JSON library and UTF-8 are a parameter, `JsonCodec`.
pub mod Loop
pub mod Chunks
pub mod Stream
pub mod Ends
pub mod Whole
use zygisk_frida_packet_tcp.Base.{
  ℕ, zero, suc, ◌+◌, ◌-◌, ◌*◌, ◌/◌, ◌%◌, ◌^◌, String, Bool, true, false, some, List, [], ◌∷◌, ◌++◌,
  ◌==◌, ltb, if◌then◌else◌, fstring, decimal, length, take, drop, not,
}
use zygisk_frida_packet_tcp.Json.{
  Json, null, bool, int, milli, str, arr, obj, nat, Fields, end, ◌⇒◌⨾◌,
}
use zygisk_frida_packet_tcp.Protocol.Errors.{
  ProtocolError, error, error_next, e_malformed_frame, Result, ok, raise, ◌>>=◌,
}
use zygisk_frida_packet_tcp.Protocol.Constants.{frame_header_size, frame_max_payload}

abbrev pub Bytes : Type 0
Bytes = List ℕ

-- What `json.loads(body.decode("utf-8"))` does: the two exceptions, with the text of the first and
-- the message and position of the second, or a value.
pub data Loaded : Type 0 where
  bad_utf8 : String → Loaded
  bad_json : String → ℕ → Loaded
  value : Json → Loaded

-- `dumps canonical m` is the encoded `json.dumps`, `preview` is `body[:64]` decoded for the message.
pub record JsonCodec : Type 0 where
  pub dumps : Bool → Fields → Bytes
  pub loads : Bytes → Loaded
  pub preview : Bytes → String

-- `struct.Struct(">I")`.
unfoldable pub pack : ℕ → Bytes
pack n = (n / 2 ^ 24 % 256) ∷ (n / 2 ^ 16 % 256) ∷ (n / 2 ^ 8 % 256) ∷ (n % 256) ∷ []

-- `unpack_from(buf, 0)`, which is called on four bytes or more.
unfoldable pub unpack : Bytes → ℕ
unpack (a ∷ b ∷ c ∷ d ∷ _) = a * 2 ^ 24 + b * 2 ^ 16 + c * 2 ^ 8 + d
unpack _ = 0

-- `type(v).__name__`.
pub type_name : Json → String
type_name null = "NoneType"
type_name (bool b) = "bool"
type_name (int i) = "int"
type_name (milli n) = "float"
type_name (str s) = "str"
type_name (arr vs) = "list"
type_name (obj fs) = "dict"

abbrev pub malformed : String → Fields → ProtocolError
malformed m ctx = error e_malformed_frame m ctx

unfoldable pub frame_length : Bytes → Result ℕ
frame_length frame =
    if ltb (length frame) frame_header_size
    then raise (malformed "帧头不足 4 字节" ("got" ⇒ nat (length frame) ⨾ end))
    else ok (unpack frame)

module _ (c : JsonCodec) where
  unfoldable pub encode_payload : Fields → Bool → Bytes
  encode_payload payload canonical = c.dumps canonical payload

  -- The two checks of `encode_frame`, and the header before the body.
  unfoldable pub frame_of : Bytes → Result Bytes
  frame_of body =
      if length body == 0
      then raise (malformed "空 payload 不允许成帧" ("payload_bytes" ⇒ nat 0 ⨾ end))
      else if ltb frame_max_payload (length body)
      then raise (
          error_next e_malformed_frame
            (fstring
              ("payload 超出上限：" ∷ decimal (length body) ∷ " > " ∷ decimal frame_max_payload ∷ []))
            ("payload_bytes" ⇒ nat (length body) ⨾ "max" ⇒ nat frame_max_payload ⨾ end)
            "大对象改走 Artifact Channel，只传 metadata + sha256")
      else ok (pack (length body) ++ body)

  unfoldable pub encode_frame : Fields → Bool → Result Bytes
  unfolding encode_payload
  encode_frame payload canonical = frame_of (encode_payload payload canonical)

  -- What `decode_payload` makes of the library's answer.
  unfoldable pub payload_of : Bytes → Loaded → Result Fields
  payload_of body (bad_utf8 exc) = raise (
      malformed (fstring ("payload 不是合法 UTF-8：" ∷ exc ∷ []))
        ("payload_bytes" ⇒ nat (length body) ⨾ end))
  payload_of body (bad_json msg pos) = raise (
      malformed (fstring ("畸形 JSON：" ∷ msg ∷ "（位置 " ∷ decimal pos ∷ "）" ∷ []))
        ("payload_bytes" ⇒ nat (length body) ⨾ "preview" ⇒ str (c.preview body) ⨾ end))
  payload_of body (value (obj fs)) = ok fs
  payload_of body (value v) = raise (
      malformed (fstring ("payload 顶层必须是 JSON 对象，实际是 " ∷ type_name v ∷ []))
        ("type" ⇒ str (type_name v) ⨾ end))

  unfoldable pub decode_payload : Bytes → Result Fields
  unfolding payload_of
  decode_payload body =
      if length body == 0
      then raise (malformed "payload 为空" ("payload_bytes" ⇒ nat 0 ⨾ end))
      else payload_of body (c.loads body)

  -- A frame with the declared length read off.
  unfoldable pub decode_body : Bytes → ℕ → Result Fields
  decode_body body declared =
      if ltb (length body) declared
      then raise (
          malformed
            (fstring
              ("帧被截断：声明 " ∷ decimal declared ∷ " 字节，实际只有 " ∷ decimal (length body) ∷ " 字节" ∷ []))
            ("declared" ⇒ nat declared ⨾ "actual" ⇒ nat (length body) ⨾ end))
      else if ltb declared (length body)
      then raise (
          malformed
            (fstring
              ("帧尾有多余数据：声明 " ∷ decimal declared ∷ " 字节，实际 " ∷ decimal (length body) ∷ " 字节" ∷ []))
            ("declared" ⇒ nat declared ⨾ "actual" ⇒ nat (length body) ⨾ end))
      else decode_payload body

  unfoldable pub decode_frame : Bytes → Result Fields
  unfolding frame_length decode_body
  decode_frame frame =
      if ltb (length frame) frame_header_size
      then raise (
          malformed (fstring ("帧不完整：只有 " ∷ decimal (length frame) ∷ " 字节，连帧头都不够" ∷ []))
            ("got" ⇒ nat (length frame) ⨾ "need_header" ⇒ nat frame_header_size ⨾ end))
      else do declared ← frame_length frame; decode_body (drop frame_header_size frame) declared

  -- `b"".join(encode_frame(m) for m in messages)`.
  unfoldable pub iter_frames : List Fields → Result Bytes
  iter_frames [] = ok []
  iter_frames (m ∷ ms) = do frame ← encode_frame m false; rest ← iter_frames ms; ok (frame ++ rest)

-- `FrameDecoder`.
pub record FrameDecoder : Type 0 where
  pub buf : Bytes
  pub max_payload : ℕ

abbrev pub new_decoder : ℕ → FrameDecoder
new_decoder max = record { buf = []; max_payload = max }

abbrev pub buffered_bytes : FrameDecoder → ℕ
buffered_bytes d = length d.buf

abbrev pub has_partial : FrameDecoder → Bool
has_partial d = ltb 0 (length d.buf)

abbrev pub reset : FrameDecoder → FrameDecoder
reset d = record d { buf = [] }

-- One round of the loop of `feed`: leave the loop, raise, or cut a body off the buffer.
pub data Round : Type 0 where
  wait : Round
  illegal : ProtocolError → Round
  cut : Bytes → Bytes → Round

unfoldable pub round : ℕ → Bytes → Round
round max buf =
    let declared = unpack buf in
    let total = frame_header_size + declared in
    if ltb (length buf) frame_header_size
    then wait
    else if declared == 0
    then illegal (malformed "帧头声明长度为 0" ("buffered" ⇒ nat (length buf) ⨾ end))
    else if ltb max declared
    then illegal (
        error_next e_malformed_frame
          (fstring ("帧头声明长度非法：" ∷ decimal declared ∷ " > " ∷ decimal max ∷ []))
          ("declared" ⇒ nat declared ⨾ "max" ⇒ nat max ⨾ end) "检查对端字节序或切帧逻辑；大对象走 Artifact Channel")
    else if ltb (length buf) total
    then wait
    else cut (take (total - frame_header_size) (drop frame_header_size buf)) (drop total buf)

module _ (c : JsonCodec) where
  -- The loop, with the messages found so far. A frame leaves the buffer before its body is decoded.
  unfoldable pub drain : ℕ → ℕ → Bytes → List Fields → Bytes × Result (List Fields)
  drain max zero buf out = (buf, ok out)
  drain max (suc fuel) buf out = elim (round max buf) [
    | wait ↦ (buf, ok out)
    | illegal e ↦ (buf, raise e)
    | cut body rest ↦ elim (decode_payload c body) [
      | ok m ↦ drain max fuel rest (out ++ m ∷ [])
      | raise e ↦ (rest, raise e)
    ]
  ]

  -- The new decoder, and the messages or the error. Each round takes a byte at least, so the loop
  -- ends within as many rounds as there are bytes.
  unfoldable pub feed : FrameDecoder → Bytes → FrameDecoder × Result (List Fields)
  feed d bytes =
      let buf = d.buf ++ bytes in
      let (left, result) = drain d.max_payload (suc (length buf)) buf [] in
      (record d { buf = left }, result)

unfoldable pub finish : FrameDecoder → Result (Unit {0})
finish d =
    if length d.buf == 0
    then ok tt
    else raise (
        malformed (fstring ("连接关闭时缓冲区仍有 " ∷ decimal (length d.buf) ∷ " 字节残留（不完整帧）" ∷ []))
          ("buffered" ⇒ nat (length d.buf) ⨾ end))
