-- ===== src/Protocol/Frame/Stream.antt =====
-- A stream of frames in any chunks, and what the decoder keeps between calls.
use zygisk_frida_packet_tcp.Base.{
  ℕ, zero, suc, ◌+◌, ◌-◌, ◌≤◌, ◌<◌, ◌≡◌, refl, sym, ap, ap₂, subst, ◌∙◌, inl, inr, false, List, [],
  ◌∷◌, ◌++◌, arith, length, drop, take, length-append, append_assoc, append-nil, take-append_self,
  drop-append_self, All,
}
use mathlib.Core.List.{flatten}
use zygisk_frida_packet_tcp.Json.{Fields}
use zygisk_frida_packet_tcp.Protocol.Errors.{e_malformed_frame, Result, ok, raise, Raises}
use zygisk_frida_packet_tcp.Protocol.Constants.{frame_max_payload}
use zygisk_frida_packet_tcp.Protocol.Frame.{
  Bytes, JsonCodec, pack, encode_frame, iter_frames, FrameDecoder, new_decoder, wait, cut, round,
  drain, feed, finish,
}
use zygisk_frida_packet_tcp.Protocol.Frame.Loop.{Result-cases, drain-wait, drain-cut_ok}
use zygisk_frida_packet_tcp.Protocol.Frame.Chunks.{prepend, feed-append, feed-append_raise}
use zygisk_frida_packet_tcp.Protocol.Frame.Whole.{
  unpack-pack, length-pack, drop-pack, Survives, payload-Survives, frame_of_ok,
}

take-all : (xs : Bytes) (n : ℕ) (ys : Bytes) → n ≡ length xs → take n (xs ++ ys) ≡ xs
take-all xs n ys h = rw h (take-append_self xs ys)

four_more : (n : ℕ) → 4 + n ≡ suc (suc (suc (suc n)))
four_more n = omega arith

drop-frame : (n : ℕ) (xs ys : Bytes) → n ≡ length xs → drop (4 + n) (pack n ++ (xs ++ ys)) ≡ ys
unfolding pack
drop-frame n xs ys h = rw (four_more n, h) (drop-append_self xs ys)

-- A whole legal frame at the head of the buffer is cut off.
pub round-frame :
    (max : ℕ) (body rest : Bytes)
    → 0 < length body
    → length body ≤ max
    → length body < 2_000_000_000
    → round max (pack (length body) ++ (body ++ rest)) ≡ cut body rest
unfolding round
round-frame max body rest pos small word = ground (
  arith,
  length-append (pack (length body)) (body ++ rest),
  length-append body rest,
  length-pack (length body),
  unpack-pack (length body) (body ++ rest),
  drop-pack (length body) (body ++ rest),
  drop-frame (length body) body rest,
  take-all body (4 + length body - 4) rest,
)

pub round-nil : (max : ℕ) → round max [] ≡ wait
unfolding round
round-nil max = refl

-- Calls of `feed` on one chunk after the other, up to the first that raises.
unfoldable pub feed_all :
    JsonCodec → FrameDecoder → List Bytes → FrameDecoder × Result (List Fields)
feed_all c d [] = (d, ok [])
feed_all c d (x ∷ xs) =
    let (d', result) = feed c d x in
    elim result [ ok ms ↦ prepend ms (feed_all c d' xs) | raise e ↦ (d', raise e) ]

module _ (c : JsonCodec) where
  iter_frames-nil : (bytes : Bytes) → iter_frames c [] ≡ ok bytes → [] ≡ bytes
  unfolding iter_frames
  iter_frames-nil bytes h = cc

  iter_frames-cons :
      (m : Fields) (ms : List Fields) (bytes : Bytes)
      → iter_frames c (m ∷ ms) ≡ ok bytes
      → (frame : Bytes) × (rest : Bytes) × (encode_frame c m false ≡ ok frame)
        × (iter_frames c ms ≡ ok rest)
        × (bytes ≡ frame ++ rest)
  unfolding iter_frames
  iter_frames-cons m ms bytes h = elim (Result-cases (encode_frame c m false)) [
    | inl (frame, e) ↦ elim (Result-cases (iter_frames c ms)) [
      | inl (rest, r) ↦ (frame, rest, e, r, ground (arith, e, r))
      | inr (err, r) ↦ absurd (ground (arith, e, r))
    ]
    | inr (err, e) ↦ absurd (ground (arith, e))
  ]

  drain-iter_frames :
      (max f : ℕ) (ms out : List Fields) (bytes : Bytes)
      → frame_max_payload ≤ max
      → length bytes < f
      → iter_frames c ms ≡ ok bytes
      → All (Survives c false) ms
      → drain c max f bytes out ≡ ([], ok (out ++ ms))
  drain-iter_frames max zero ms out bytes big hf h s = absurd (omega arith)
  drain-iter_frames max (suc f) [] out bytes big hf h s = rw (← iter_frames-nil bytes h) (
      drain-wait c max f [] out (round-nil max)
      ∙ ap (λ (x : List Fields). ([], ok x)) (sym (append-nil out)))
  drain-iter_frames max (suc f) (m ∷ ms) out bytes big hf h s =
      let (frame, rest, e, r, b) = iter_frames-cons m ms bytes h in
      let body : Bytes = c.dumps false m in
      let (fr, pos, small) = frame_of_ok c body frame (unfold encode_frame in e) in
      let bytes_eq : bytes ≡ pack (length body) ++ (body ++ rest) =
        b ∙ ap (λ (x : Bytes). x ++ rest) fr ∙ append_assoc (pack (length body)) body rest in
      rw bytes_eq (
        drain-cut_ok c max f (pack (length body) ++ (body ++ rest)) out body rest m
          (round-frame max body rest pos (omega arith) (omega arith))
          (payload-Survives c false m pos s.0)
        ∙ drain-iter_frames max f ms (out ++ m ∷ []) rest big
            (omega (
              arith,
              ap length bytes_eq,
              length-append (pack (length body)) (body ++ rest),
              length-append body rest,
            ))
            r s.1
        ∙ ap (λ (x : List Fields). ([], ok x)) (append_assoc out (m ∷ []) ms))

  feed_all-cons_ok :
      (d : FrameDecoder) (x : Bytes) (xs : List Bytes) (ms : List Fields)
      → (feed c d x).1 ≡ ok ms
      → feed_all c d (x ∷ xs) ≡ prepend ms (feed_all c (feed c d x).0 xs)
  unfolding feed_all
  feed_all-cons_ok d x xs ms h = rw (h, feed_all)

  -- The part of a successful call that the earlier messages leave.
  prepend_parts :
      (xs : List Fields) (r : FrameDecoder × Result (List Fields)) (d' : FrameDecoder)
      (ms : List Fields)
      → prepend xs r ≡ (d', ok ms)
      → (ys : List Fields) × (r ≡ (d', ok ys)) × (xs ++ ys ≡ ms)
  prepend_parts xs (d, ok ys) d' ms h =
      (ys, ap₂ (λ (a : FrameDecoder) (b : List Fields). (a, ok b)) (cc) refl, cc)
  prepend_parts xs (d, raise e) d' ms h = absurd (cc)

  -- If one call on all the bytes returns the messages `ms`, then so do the calls on the chunks, and
  -- both end in the same decoder.
  pub feed_all-flatten :
      (d d' : FrameDecoder) (x : Bytes) (xs : List Bytes) (ms : List Fields)
      → feed c d (x ++ flatten xs) ≡ (d', ok ms)
      → feed_all c d (x ∷ xs) ≡ (d', ok ms)
  unfolding flatten feed_all
  feed_all-flatten d d' x [] ms h =
      let e : feed c d x ≡ (d', ok ms) = rw (← append-nil x) h in
      feed_all-cons_ok d x [] ms (λ i. (e i).1) ∙ λ i. ((e i).0, ok (append-nil ms i))
  feed_all-flatten d d' x (y ∷ ys) ms h = elim (Result-cases (feed c d x).1) [
    | inl (first, e) ↦
        let (rest, r, m) =
          prepend_parts first (feed c (feed c d x).0 (y ++ flatten ys)) d' ms
            (sym (feed-append c d x (y ++ flatten ys) first e) ∙ h) in
        feed_all-cons_ok d x (y ∷ ys) first e
        ∙ ap (prepend first) (feed_all-flatten (feed c d x).0 d' y ys rest r)
        ∙ ap (λ (l : List Fields). (d', ok l)) m
    | inr (err, e) ↦ absurd (
        subst (λ (r : FrameDecoder × Result (List Fields)). Raises r.1 e_malformed_frame) h
          (feed-append_raise c d x (y ++ flatten ys) err e))
  ]

  -- A stream of frames, cut into chunks in any way, comes out as the messages that went in; nothing
  -- is left in the buffer, so `finish` accepts the end of the connection. The frames must be legal,
  -- the JSON library must give back what it wrote, and the decoder's limit must be 8 MiB or more.
  pub feed_all-iter_frames :
      (max : ℕ) (ms : List Fields) (bytes x : Bytes) (xs : List Bytes)
      → iter_frames c ms ≡ ok bytes
      → All (Survives c false) ms
      → frame_max_payload ≤ max
      → x ++ flatten xs ≡ bytes
      → (feed_all c (new_decoder max) (x ∷ xs) ≡ (new_decoder max, ok ms))
        × (finish (feed_all c (new_decoder max) (x ∷ xs)).0 ≡ ok tt)
  unfolding feed finish
  feed_all-iter_frames max ms bytes x xs h s big e =
      let r : feed_all c (new_decoder max) (x ∷ xs) ≡ (new_decoder max, ok ms) =
        feed_all-flatten (new_decoder max) (new_decoder max) x xs ms (
          rw e (λ i.
            let p =
              drain-iter_frames max (suc (length bytes)) ms [] bytes big (omega arith) h s i in
            (record { buf = p.0; max_payload = max }, p.1))) in
      (r, ap (λ (p : FrameDecoder × Result (List Fields)). finish p.0) r)
