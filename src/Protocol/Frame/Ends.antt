-- ===== src/Protocol/Frame/Ends.antt =====
-- What a call of `feed` leaves behind: the bound on the buffer, a connection that ends inside a
-- frame, and a message before a bad header.
use zygisk_frida_packet_tcp.Base.{
  ℕ, zero, suc, ◌+◌, ◌≤◌, ◌<◌, ◌≡◌, refl, sym, ap, subst, ◌∙◌, inl, inr, false, List, [], ◌∷◌, ◌++◌,
  arith, length, length-append, append_assoc, append-nil,
}
use zygisk_frida_packet_tcp.Json.{Fields}
use zygisk_frida_packet_tcp.Protocol.Errors.{e_malformed_frame, Result, ok, Raises}
use zygisk_frida_packet_tcp.Protocol.Constants.{frame_max_payload}
use zygisk_frida_packet_tcp.Protocol.Frame.{
  Bytes, JsonCodec, pack, unpack, encode_frame, decode_payload, FrameDecoder, new_decoder, wait,
  round, drain, feed, finish,
}
use zygisk_frida_packet_tcp.Protocol.Frame.Loop.{
  IsIllegal, take_illegal, round_cases, Result-cases, length-cut, drain-wait, drain-illegal,
  drain-cut_ok, drain-cut_raise, drain_fuel, unpack-append,
}
use zygisk_frida_packet_tcp.Protocol.Frame.Stream.{round-frame, round-nil}
use zygisk_frida_packet_tcp.Protocol.Frame.Whole.{
  unpack-pack, length-pack, Survives, payload-Survives, frame_of_ok,
}

module _ (c : JsonCodec) where
  drain_waits :
      (max f : ℕ) (buf left : Bytes) (out ms : List Fields)
      → length buf < f
      → drain c max f buf out ≡ (left, ok ms)
      → round max left ≡ wait
  drain_waits max zero buf left out ms hf r = absurd (omega arith)
  drain_waits max (suc f) buf left out ms hf r = elim (round_cases (round max buf)) [
    | inl e ↦
        let q = sym (drain-wait c max f buf out e) ∙ r in
        subst (λ (p : Bytes × Result (List Fields)). round max p.0 ≡ wait) q e
    | inr (inl (err, e)) ↦ absurd (cc (drain-illegal c max f buf out err e))
    | inr (inr (body, rest, e)) ↦ elim (Result-cases (decode_payload c body)) [
      | inl (m, d) ↦
          drain_waits max f rest left (out ++ m ∷ []) ms
            (omega (arith, length-cut max buf body rest e))
            (sym (drain-cut_ok c max f buf out body rest m e d) ∙ r)
      | inr (err, d) ↦ absurd (cc (drain-cut_raise c max f buf out body rest err e d))
    ]
  ]

wait_bound : (max : ℕ) (buf : Bytes) → round max buf ≡ wait → length buf < 4 + max
unfolding round
wait_bound max buf h = ground arith

module _ (c : JsonCodec) (d : FrameDecoder) (bytes : Bytes) (ms : List Fields) where
  -- A call of `feed` that returns has taken every whole frame out: the loop has ended by its own
  -- test, and fewer bytes stay in the buffer than a header and the largest payload have, however
  -- many came in.
  pub feed_bound :
      (feed c d bytes).1 ≡ ok ms
      → (round d.max_payload (feed c d bytes).0.buf ≡ wait)
        × (length (feed c d bytes).0.buf < 4 + d.max_payload)
  unfolding feed
  feed_bound h =
      let w =
        drain_waits c d.max_payload (suc (length (d.buf ++ bytes))) (d.buf ++ bytes)
          (feed c d bytes).0.buf [] ms (omega arith) (λ i. ((feed c d bytes).0.buf, h i)) in
      (w, wait_bound d.max_payload (feed c d bytes).0.buf w)

round-short :
    (max : ℕ) (part rest body : Bytes)
    → part ++ rest ≡ pack (length body) ++ body
    → 0 < length rest
    → 0 < length body
    → length body ≤ max
    → length body < 2_000_000_000
    → round max part ≡ wait
unfolding round
round-short max part rest body e more pos small word = ground (
  arith,
  unpack-append part rest,
  unpack-pack (length body) body,
  ap unpack e,
  ap length e,
  length-append part rest,
  length-append (pack (length body)) body,
  length-pack (length body),
)

-- A connection that ends inside a frame: the decoder returns no message for the part that came and
-- keeps it, and `finish` then raises the code of a malformed frame.
pub feed_truncated :
    (c : JsonCodec) (max : ℕ) (m : Fields) (part rest : Bytes)
    → encode_frame c m false ≡ ok (part ++ rest)
    → 0 < length part
    → 0 < length rest
    → frame_max_payload ≤ max
    → (feed c (new_decoder max) part ≡ (record { buf = part; max_payload = max }, ok []))
      × Raises (finish (feed c (new_decoder max) part).0) e_malformed_frame
unfolding feed encode_frame finish
feed_truncated c max m part rest h some_part more big =
    let (e, pos, small) = frame_of_ok c (c.dumps false m) (part ++ rest) h in
    let r =
      drain-wait c max (length part) part []
        (round-short max part rest (c.dumps false m) e more pos (omega arith) (omega arith)) in
    ((λ i. (record { buf = (r i).0; max_payload = max }, (r i).1)), rw r (ground arith))

round-zero : (max : ℕ) → IsIllegal (round max (pack 0))
unfolding round pack unpack
round-zero max = refl

-- The loop takes the frame of a message off, whatever follows it.
drain-encode_frame :
    (c : JsonCodec) (max f : ℕ) (m : Fields) (frame rest : Bytes) (out : List Fields)
    → encode_frame c m false ≡ ok frame
    → Survives c false m
    → frame_max_payload ≤ max
    → (drain c max (suc f) (frame ++ rest) out ≡ drain c max f rest (out ++ m ∷ []))
      × (4 < length frame)
unfolding encode_frame
drain-encode_frame c max f m frame rest out h s big =
    let body : Bytes = c.dumps false m in
    let (e, pos, small) = frame_of_ok c body frame h in
    (
      ap (λ (x : Bytes). drain c max (suc f) (x ++ rest) out) e
          ∙ ap (λ (x : Bytes). drain c max (suc f) x out)
              (append_assoc (pack (length body)) body rest)
          ∙ drain-cut_ok c max f (pack (length body) ++ (body ++ rest)) out body rest m
              (round-frame max body rest pos (omega arith) (omega arith))
              (payload-Survives c false m pos s),
      omega
          (arith, ap length e, length-append (pack (length body)) body, length-pack (length body)),
    )

-- A header that declares no payload makes `feed` raise, and what stood before it in the same chunk
-- is lost: the message of a whole legal frame is neither returned nor kept in the buffer, although
-- the same frame fed in a call of its own returns the message.
pub feed_loses :
    (c : JsonCodec) (max : ℕ) (m : Fields) (frame : Bytes)
    → encode_frame c m false ≡ ok frame
    → Survives c false m
    → frame_max_payload ≤ max
    → Raises (feed c (new_decoder max) (frame ++ pack 0)).1 e_malformed_frame
      × ((feed c (new_decoder max) (frame ++ pack 0)).0.buf ≡ pack 0)
      × ((feed c (new_decoder max) frame).1 ≡ ok (m ∷ []))
unfolding feed
feed_loses c max m frame h s big =
    let both = drain-encode_frame c max (length (frame ++ pack 0)) m frame (pack 0) [] h s big in
    let alone = drain-encode_frame c max (length frame) m frame [] [] h s big in
    let (err, e, bad) = take_illegal (round max (pack 0)) (round-zero max) in
    let r =
      both.0
      ∙ drain_fuel c max (length (frame ++ pack 0)) 5 (pack 0) (m ∷ [])
          (omega (arith, both.1, length-append frame (pack 0), length-pack 0))
          (omega (arith, length-pack 0))
      ∙ drain-illegal c max 4 (pack 0) (m ∷ []) err e in
    let q =
      ap (λ (x : Bytes). drain c max (suc (length frame)) x []) (sym (append-nil frame))
      ∙ alone.0
      ∙ drain_fuel c max (length frame) 1 [] (m ∷ []) (omega (arith, alone.1)) (omega arith)
      ∙ drain-wait c max 0 [] (m ∷ []) (round-nil max) in
    (rw r bad, (λ i. (r i).0), (λ i. (q i).1))
