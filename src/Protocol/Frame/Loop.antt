-- ===== src/Protocol/Frame/Loop.antt =====
-- The loop of `feed`, round by round: what a round cuts off, and that the fuel is enough.
use zygisk_frida_packet_tcp.Base.{
  ℕ, zero, suc, ◌+◌, ◌-◌, ◌≤◌, ◌<◌, ◌≡◌, refl, sym, ◌∙◌, ◌⊎◌, inl, inr, List, [], ◌∷◌, ◌++◌, arith,
  length, drop, length-drop, length-append, take-append_le, drop-append_le,
}
use zygisk_frida_packet_tcp.Json.{Fields}
use zygisk_frida_packet_tcp.Protocol.Errors.{ProtocolError, e_malformed_frame, Result, ok, raise}
use zygisk_frida_packet_tcp.Protocol.Frame.{
  Bytes, JsonCodec, unpack, decode_payload, payload_of, Loaded, Round, wait, illegal, cut, round,
  drain,
}

-- The three outcomes of a round, each with the equation.
abbrev pub RoundCases : Round → Type 0
RoundCases r =
    (r ≡ wait)
    ⊎ ((e : ProtocolError) × (r ≡ illegal e))
    ⊎ ((body : Bytes) × (rest : Bytes) × (r ≡ cut body rest))

pub round_cases : (r : Round) → RoundCases r
round_cases wait = inl refl
round_cases (illegal e) = inr (inl (e, refl))
round_cases (cut body rest) = inr (inr (body, rest, refl))

pub Result-cases {ℓ} :
    {A : Type ℓ} (r : Result A) → ((a : A) × (r ≡ ok a)) ⊎ ((e : ProtocolError) × (r ≡ raise e))
Result-cases (ok a) = inl (a, refl)
Result-cases (raise e) = inr (e, refl)

pub length-cut :
    (max : ℕ) (buf body rest : Bytes) → round max buf ≡ cut body rest → length rest < length buf
unfolding round
length-cut max buf body rest h = ground (arith, length-drop (4 + unpack buf) buf)

pub unpack-append : (buf more : Bytes) → 4 ≤ length buf → unpack (buf ++ more) ≡ unpack buf
unfolding unpack
unpack-append (a ∷ b ∷ c ∷ d ∷ rest) more h = refl
unpack-append (a ∷ b ∷ c ∷ []) more h = absurd (omega arith)
unpack-append (a ∷ b ∷ []) more h = absurd (omega arith)
unpack-append (a ∷ []) more h = absurd (omega arith)
unpack-append [] more h = absurd (omega arith)

-- A round that cuts a body off needs nothing of the bytes behind it.
pub round-append_cut :
    (max : ℕ) (buf more body rest : Bytes)
    → round max buf ≡ cut body rest
    → round max (buf ++ more) ≡ cut body (rest ++ more)
unfolding round
round-append_cut max buf more body rest h = ground (
  arith,
  unpack-append buf more,
  length-append buf more,
  drop-append_le (4 + unpack buf) buf more,
  drop-append_le 4 buf more,
  take-append_le (4 + unpack buf - 4) (drop 4 buf) more,
  length-drop 4 buf,
)

-- A round that raises, with the code of a malformed frame.
abbrev pub IsIllegal : Round → Type 0
IsIllegal (illegal e) = e.code ≡ e_malformed_frame
IsIllegal wait = ⊥
IsIllegal (cut body rest) = ⊥

illegal-IsIllegal :
    (max : ℕ) (buf : Bytes) (e : ProtocolError)
    → round max buf ≡ illegal e
    → e.code ≡ e_malformed_frame
unfolding round
illegal-IsIllegal max buf e h = ground arith

round-append_IsIllegal :
    (max : ℕ) (buf more : Bytes) (e : ProtocolError)
    → round max buf ≡ illegal e
    → IsIllegal (round max (buf ++ more))
unfolding round
round-append_IsIllegal max buf more e h =
    ground (arith, unpack-append buf more, length-append buf more)

pub take_illegal :
    (r : Round) → IsIllegal r → (e : ProtocolError) × (r ≡ illegal e) × (e.code ≡ e_malformed_frame)
take_illegal wait h = absurd h
take_illegal (illegal e) h = (e, refl, h)
take_illegal (cut body rest) h = absurd h

-- An illegal header is illegal whatever follows.
pub round-append_illegal :
    (max : ℕ) (buf more : Bytes) (e : ProtocolError)
    → round max buf ≡ illegal e
    → (e' : ProtocolError) × (round max (buf ++ more) ≡ illegal e') × (e'.code ≡ e_malformed_frame)
round-append_illegal max buf more e h = take_illegal _ (round-append_IsIllegal max buf more e h)

-- One round of the loop, with the fuel that is left.
module _ (c : JsonCodec) (max f : ℕ) (buf : Bytes) (out : List Fields) where
  pub drain-wait : round max buf ≡ wait → drain c max (suc f) buf out ≡ (buf, ok out)
  unfolding drain
  drain-wait h = rw (h, drain)

  pub drain-illegal :
      (e : ProtocolError) → round max buf ≡ illegal e → drain c max (suc f) buf out ≡ (buf, raise e)
  unfolding drain
  drain-illegal e h = rw (h, drain)

  pub drain-cut_ok :
      (body rest : Bytes) (m : Fields)
      → round max buf ≡ cut body rest
      → decode_payload c body ≡ ok m
      → drain c max (suc f) buf out ≡ drain c max f rest (out ++ m ∷ [])
  unfolding drain
  drain-cut_ok body rest m h k = rw (h, k, drain)

  pub drain-cut_raise :
      (body rest : Bytes) (e : ProtocolError)
      → round max buf ≡ cut body rest
      → decode_payload c body ≡ raise e
      → drain c max (suc f) buf out ≡ (rest, raise e)
  unfolding drain
  drain-cut_raise body rest e h k = rw (h, k, drain)

module _ (c : JsonCodec) where
  -- Any two fuels above the length of the buffer give one result.
  pub drain_fuel :
      (max f g : ℕ) (buf : Bytes) (out : List Fields)
      → length buf < f
      → length buf < g
      → drain c max f buf out ≡ drain c max g buf out
  drain_fuel max zero g buf out hf hg = absurd (omega arith)
  drain_fuel max (suc f) zero buf out hf hg = absurd (omega arith)
  drain_fuel max (suc f) (suc g) buf out hf hg = elim (round_cases (round max buf)) [
    | inl e ↦ drain-wait c max f buf out e ∙ sym (drain-wait c max g buf out e)
    | inr (inl (err, e)) ↦
        drain-illegal c max f buf out err e ∙ sym (drain-illegal c max g buf out err e)
    | inr (inr (body, rest, e)) ↦ elim (Result-cases (decode_payload c body)) [
      | inl (m, d) ↦
          drain-cut_ok c max f buf out body rest m e d
          ∙ drain_fuel max f g rest (out ++ m ∷ []) (omega (arith, length-cut max buf body rest e))
              (omega (arith, length-cut max buf body rest e))
          ∙ sym (drain-cut_ok c max g buf out body rest m e d)
      | inr (err, d) ↦
          drain-cut_raise c max f buf out body rest err e d
          ∙ sym (drain-cut_raise c max g buf out body rest err e d)
    ]
  ]

  payload_of_error :
      (body : Bytes) (l : Loaded) (e : ProtocolError)
      → payload_of c body l ≡ raise e
      → e.code ≡ e_malformed_frame
  unfolding payload_of
  payload_of_error body l e h = ground arith

  -- The decoder's error is always that of a malformed frame.
  pub payload_error :
      (body : Bytes) (e : ProtocolError)
      → decode_payload c body ≡ raise e
      → e.code ≡ e_malformed_frame
  unfolding decode_payload
  payload_error body e h = ground (arith, payload_of_error body (c.loads body) e)
