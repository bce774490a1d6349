-- ===== src/Protocol/Frame/Whole.antt =====
-- `encode_frame` and `decode_frame`: whole frames.
use zygisk_frida_packet_tcp.Base.{
  ℕ, ◌+◌, ◌^◌, ◌≤◌, ◌<◌, ◌≡◌, refl, Bool, ◌++◌, arith, length, drop, length-append, length-drop,
  ◌⊎◌, inl, inr, ltb, Bool-cases,
}
use zygisk_frida_packet_tcp.Json.{obj, Fields}
use zygisk_frida_packet_tcp.Protocol.Errors.{e_malformed_frame, ok, Raises}
use zygisk_frida_packet_tcp.Protocol.Constants.{frame_max_payload}
use zygisk_frida_packet_tcp.Protocol.Frame.{
  Bytes, JsonCodec, value, pack, unpack, frame_of, encode_frame, payload_of, decode_payload,
  decode_frame,
}

pub unpack-pack : (n : ℕ) (rest : Bytes) → n < 2 ^ 32 → unpack (pack n ++ rest) ≡ n
unfolding pack unpack
unpack-pack n rest h = omega arith

pub length-pack : (n : ℕ) → length (pack n) ≡ 4
unfolding pack
length-pack n = refl

pub drop-pack : (n : ℕ) (rest : Bytes) → drop 4 (pack n ++ rest) ≡ rest
unfolding pack
drop-pack n rest = refl

module _ (c : JsonCodec) where
  -- The library gives back the message that it wrote.
  abbrev pub Survives : Bool → Fields → Type 0
  Survives canonical m = c.loads (c.dumps canonical m) ≡ value (obj m)

  pub payload-Survives :
      (canonical : Bool) (m : Fields)
      → 0 < length (c.dumps canonical m)
      → Survives canonical m
      → decode_payload c (c.dumps canonical m) ≡ ok m
  unfolding decode_payload
  payload-Survives canonical m h s = ground (arith, s)

  -- What a successful `encode_frame` returns.
  pub frame_of_ok :
      (body frame : Bytes)
      → frame_of c body ≡ ok frame
      → (frame ≡ pack (length body) ++ body) × (0 < length body) × (length body ≤ frame_max_payload)
  unfolding frame_of
  frame_of_ok body frame h = ground arith

  -- Of a payload of one byte to 8 MiB, `encode_frame` returns the header with its length and the
  -- payload itself; on an empty or a larger one it raises the code of a malformed frame.
  pub encode_frame_range :
      (m : Fields) (canonical : Bool)
      → let body = c.dumps canonical m in
        ((0 < length body)
          × (length body ≤ frame_max_payload)
          × (encode_frame c m canonical ≡ ok (pack (length body) ++ body)))
        ⊎ (((length body ≡ 0) ⊎ (frame_max_payload < length body))
            × Raises (encode_frame c m canonical) e_malformed_frame)
  unfolding encode_frame frame_of
  encode_frame_range m canonical = elim (Bool-cases (ltb 0 (length (c.dumps canonical m)))) [
    | inr empty ↦ inr (inl (ground arith), ground arith)
    | inl some_bytes ↦ elim (Bool-cases (ltb frame_max_payload (length (c.dumps canonical m)))) [
      | inl large ↦ inr (inr (ground arith), ground arith)
      | inr fits ↦ inl (ground arith, ground arith, ground arith)
    ]
  ]

  decode_frame-pack :
      (body : Bytes)
      → length body < 2 ^ 32
      → decode_frame c (pack (length body) ++ body) ≡ decode_payload c body
  unfolding decode_frame
  decode_frame-pack body h = ground (
    arith,
    length-append (pack (length body)) body,
    length-pack (length body),
    drop-pack (length body) body,
    unpack-pack (length body) body,
  )

  -- Decoding the frame that `encode_frame` made of a message returns the message, if the JSON
  -- library gives back what it wrote.
  pub decode_frame-encode_frame :
      (m : Fields) (canonical : Bool) (frame : Bytes)
      → encode_frame c m canonical ≡ ok frame
      → Survives canonical m
      → decode_frame c frame ≡ ok m
  unfolding encode_frame
  decode_frame-encode_frame m canonical frame h s =
      let (e, pos, small) = frame_of_ok (c.dumps canonical m) frame h in
      rw (e, decode_frame-pack (c.dumps canonical m) (omega arith))
        (payload-Survives canonical m pos s)

  -- `decode_frame` accepts a frame only if its length is exactly that of the header and of the
  -- declared payload, the payload is not empty, and the library reads the payload as the object.
  pub decode_frame_exact :
      (frame : Bytes) (m : Fields)
      → decode_frame c frame ≡ ok m
      → (length frame ≡ 4 + unpack frame)
        × (0 < unpack frame)
        × (c.loads (drop 4 frame) ≡ value (obj m))
  unfolding decode_frame decode_payload payload_of
  decode_frame_exact frame m h = ground (arith, length-drop 4 frame)
