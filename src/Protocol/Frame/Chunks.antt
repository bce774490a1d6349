-- ===== src/Protocol/Frame/Chunks.antt =====
-- The decoder does not see how the bytes were cut into chunks.
use zygisk_frida_packet_tcp.Base.{
  ℕ, zero, suc, ◌<◌, ◌≡◌, refl, sym, ap, ◌∙◌, inl, inr, List, [], ◌∷◌, ◌++◌, arith, length,
  append_assoc, append-nil,
}
use zygisk_frida_packet_tcp.Json.{Fields}
use zygisk_frida_packet_tcp.Protocol.Errors.{
  ProtocolError, e_malformed_frame, Result, ok, raise, Raises,
}
use zygisk_frida_packet_tcp.Protocol.Frame.{
  Bytes, JsonCodec, decode_payload, FrameDecoder, round, drain, feed,
}
use zygisk_frida_packet_tcp.Protocol.Frame.Loop.{
  round_cases, Result-cases, length-cut, round-append_cut, round-append_illegal, drain-wait,
  drain-illegal, drain-cut_ok, drain-cut_raise, drain_fuel, payload_error,
}

-- The messages of two calls, one after the other.
abbrev pub prepend {ℓ} :
    {S : Type ℓ} → List Fields → S × Result (List Fields) → S × Result (List Fields)
prepend out (s, ok ms) = (s, ok (out ++ ms))
prepend out (s, raise e) = (s, raise e)

prepend-prepend {ℓ} :
    {S : Type ℓ} (xs ys : List Fields) (r : S × Result (List Fields))
    → prepend xs (prepend ys r) ≡ prepend (xs ++ ys) r
prepend-prepend xs ys (s, ok ms) = ap (λ l. (s, ok l)) (sym (append_assoc xs ys ms))
prepend-prepend xs ys (s, raise e) = refl

pair_parts :
    {buf left : Bytes} {out ms : List Fields}
    → ◌≡◌ {A = Bytes × Result (List Fields)} (buf, ok out) (left, ok ms)
    → (buf ≡ left) × (out ≡ ms)
pair_parts h = (cc, cc)

module _ (c : JsonCodec) (max : ℕ) where
  -- The messages found before do not matter to the rounds that follow.
  drain-prepend :
      (f : ℕ) (buf : Bytes) (xs ys : List Fields)
      → drain c max f buf (xs ++ ys) ≡ prepend xs (drain c max f buf ys)
  drain-prepend zero buf xs ys = unfold drain in refl
  drain-prepend (suc f) buf xs ys = elim (round_cases (round max buf)) [
    | inl e ↦ rw (drain-wait c max f buf (xs ++ ys) e, drain-wait c max f buf ys e)
    | inr (inl (err, e)) ↦
        rw (drain-illegal c max f buf (xs ++ ys) err e, drain-illegal c max f buf ys err e)
    | inr (inr (body, rest, e)) ↦ elim (Result-cases (decode_payload c body)) [
      | inl (m, d) ↦
          rw
            (
              drain-cut_ok c max f buf (xs ++ ys) body rest m e d,
              drain-cut_ok c max f buf ys body rest m e d,
              append_assoc xs ys (m ∷ []),
            )
            (drain-prepend f rest xs (ys ++ m ∷ []))
      | inr (err, d) ↦ rw (
        drain-cut_raise c max f buf (xs ++ ys) body rest err e d,
        drain-cut_raise c max f buf ys body rest err e d,
      )
    ]
  ]

  -- The loop over a buffer that has more bytes behind it goes through the rounds of the buffer.
  drain-append :
      (f g h : ℕ) (buf more left : Bytes) (out ms : List Fields)
      → length buf < f
      → length (buf ++ more) < g
      → length (left ++ more) < h
      → drain c max f buf out ≡ (left, ok ms)
      → drain c max g (buf ++ more) out ≡ drain c max h (left ++ more) ms
  drain-append zero g h buf more left out ms hf hg hh r = absurd (omega arith)
  drain-append (suc f) zero h buf more left out ms hf hg hh r = absurd (omega arith)
  drain-append (suc f) (suc g) h buf more left out ms hf hg hh r =
      elim (round_cases (round max buf)) [
        | inl e ↦
            let p = pair_parts (sym (drain-wait c max f buf out e) ∙ r) in
            drain_fuel c max (suc g) h (buf ++ more) out hg (rw p.0 hh) ∙ rw (p.0, p.1) refl
        | inr (inl (err, e)) ↦ cc (drain-illegal c max f buf out err e)
        | inr (inr (body, rest, e)) ↦ elim (Result-cases (decode_payload c body)) [
          | inl (m, d) ↦
              drain-cut_ok c max g (buf ++ more) out body (rest ++ more) m
                (round-append_cut max buf more body rest e) d
              ∙ drain-append f g h rest more left (out ++ m ∷ []) ms
                  (omega (arith, length-cut max buf body rest e))
                  (omega (
                    arith,
                    length-cut max (buf ++ more) body (rest ++ more)
                        (round-append_cut max buf more body rest e),
                  ))
                  hh (sym (drain-cut_ok c max f buf out body rest m e d) ∙ r)
          | inr (err, d) ↦ cc (drain-cut_raise c max f buf out body rest err e d)
        ]
      ]

  -- An error stays an error, whatever follows.
  drain-append_raise :
      (f g : ℕ) (buf more left : Bytes) (out : List Fields) (err : ProtocolError)
      → length buf < f
      → length (buf ++ more) < g
      → drain c max f buf out ≡ (left, raise err)
      → Raises (drain c max g (buf ++ more) out).1 e_malformed_frame
  drain-append_raise zero g buf more left out err hf hg r = absurd (omega arith)
  drain-append_raise (suc f) zero buf more left out err hf hg r = absurd (omega arith)
  drain-append_raise (suc f) (suc g) buf more left out err hf hg r =
      elim (round_cases (round max buf)) [
        | inl e ↦ cc (drain-wait c max f buf out e)
        | inr (inl (x, e)) ↦
            let (x', e', bad) = round-append_illegal max buf more x e in
            rw (drain-illegal c max g (buf ++ more) out x' e') bad
        | inr (inr (body, rest, e)) ↦
            let e' = round-append_cut max buf more body rest e in
            elim (Result-cases (decode_payload c body)) [
              | inl (m, d) ↦
                  rw (drain-cut_ok c max g (buf ++ more) out body (rest ++ more) m e' d) (
                    drain-append_raise f g rest more left (out ++ m ∷ []) err
                      (omega (arith, length-cut max buf body rest e))
                      (omega (arith, length-cut max (buf ++ more) body (rest ++ more) e'))
                      (sym (drain-cut_ok c max f buf out body rest m e d) ∙ r))
              | inr (x, d) ↦
                  rw (drain-cut_raise c max g (buf ++ more) out body (rest ++ more) x e' d)
                    (payload_error c body x d)
            ]
      ]

abbrev with_buffer :
    FrameDecoder → Bytes × Result (List Fields) → FrameDecoder × Result (List Fields)
with_buffer d r = (record d { buf = r.0 }, r.1)

with_buffer-prepend :
    (d : FrameDecoder) (ms : List Fields) (r : Bytes × Result (List Fields))
    → with_buffer d (prepend ms r) ≡ prepend ms (with_buffer d r)
with_buffer-prepend d ms (buf, ok xs) = refl
with_buffer-prepend d ms (buf, raise e) = refl

module _ (c : JsonCodec) (d : FrameDecoder) (a b : Bytes) where
  -- If feeding `a` returns the messages `ms`, then feeding `a ++ b` in one call is feeding `a` and
  -- then `b`: the same decoder, and `ms` before the messages of `b`, or the error of `b`.
  pub feed-append :
      (ms : List Fields)
      → (feed c d a).1 ≡ ok ms
      → feed c d (a ++ b) ≡ prepend ms (feed c (feed c d a).0 b)
  unfolding feed
  feed-append ms h = rw (← append_assoc d.buf a b) (
      ap (with_buffer d) (
        drain-append c d.max_payload (suc (length (d.buf ++ a))) (suc (length ((d.buf ++ a) ++ b)))
          (suc (length (left ++ b))) (d.buf ++ a) b left [] ms (omega arith) (omega arith)
          (omega arith) (λ i. (left, h i))
        ∙ sym (ap (drain c d.max_payload (suc (length (left ++ b))) (left ++ b)) (append-nil ms))
        ∙ drain-prepend c d.max_payload (suc (length (left ++ b))) (left ++ b) ms [])
      ∙ with_buffer-prepend d ms (drain c d.max_payload (suc (length (left ++ b))) (left ++ b) []))
    where
      left : Bytes
      left = (feed c d a).0.buf

  -- If feeding `a` raises, then feeding `a ++ b` raises the code of a malformed frame.
  pub feed-append_raise :
      (err : ProtocolError)
      → (feed c d a).1 ≡ raise err
      → Raises (feed c d (a ++ b)).1 e_malformed_frame
  unfolding feed
  feed-append_raise err h = rw (← append_assoc d.buf a b) (
      drain-append_raise c d.max_payload (suc (length (d.buf ++ a)))
        (suc (length ((d.buf ++ a) ++ b))) (d.buf ++ a) b (feed c d a).0.buf [] err (omega arith)
        (omega arith) (λ i. ((feed c d a).0.buf, h i)))
