-- ===== src/Bridge/Client/Replies.antt =====
-- What the client makes of the server's events and replies.
use zygisk_frida_packet_tcp.Base.{
  ℕ, String, ◌≡◌, refl, ap, ◌∙◌, true, Option, some, List, [], ◌∷◌, ◌++◌, All, str_eq, eq_iff,
  Bool-cases, inl, inr,
}
use zygisk_frida_packet_tcp.Json.{Json, str, obj, Fields, end, ◌⇒◌⨾◌, get, get?, or_else, truthy}
use zygisk_frida_packet_tcp.Python.{Builtins}
use zygisk_frida_packet_tcp.Protocol.Errors.{
  ErrorCode, ProtocolError, Outcome, returns, to_dict, code_value, code_of_value-code_value,
}
use zygisk_frida_packet_tcp.Protocol.Frame.{JsonCodec}
use zygisk_frida_packet_tcp.Protocol.Messages.{make_response, make_error}
use zygisk_frida_packet_tcp.Protocol.Messages.Check.{validate, message_type_of}
use zygisk_frida_packet_tcp.Protocol.Messages.Sound.{validate_exact}
use zygisk_frida_packet_tcp.Bridge.Client.{
  Wire, Failure, resolved, failed_with, Client, settle, key_of, error_code, failure_of,
  response_seen, error_read, error_seen, dispatch_type, read_type, dispatch,
}

-- The reader's loop over the messages that came.
unfoldable pub deliver : Builtins → JsonCodec → Wire → Client → List Fields → ℕ → Client
deliver py codec wire c [] now = c
deliver py codec wire c (m ∷ ms) now =
    deliver py codec wire (dispatch py codec wire c m now).0 ms now

-- The failure that an error of the server is for the caller: the same code, message and context.
abbrev pub failure_from : ProtocolError → Failure
failure_from e = record {
  code = e.code;
  message = str e.message;
  context = e.context;
  next_step = get (to_dict e) "next_step";
}

or_else-end : (fs : Fields) → or_else (obj fs) (obj end) ≡ obj fs
unfolding truthy
or_else-end end = refl
or_else-end (k ⇒ v ⨾ fs) = refl

or_else-empty : (s : String) → or_else (str s) (str "") ≡ str s
unfolding truthy
or_else-empty s = elim (Bool-cases (str_eq s "")) [
  | inl same ↦ let e : s ≡ "" = (eq_iff s "").0 same in rw e refl
  | inr other ↦ rw other refl
]

error_code-code_value : (code : ErrorCode) → error_code (str (code_value code)) ≡ returns code
unfolding error_code
error_code-code_value code = rw (error_code, code_of_value-code_value code) refl

module _ (py : Builtins) (copies : (fs : Fields) → py.dict_of (obj fs) ≡ returns fs) where
  failure_of-to_dict :
      (e : ProtocolError) → failure_of py (obj (to_dict e)) ≡ returns (failure_from e)
  unfolding failure_of get? to_dict
  failure_of-to_dict e =
      rw (error_code-code_value e.code, or_else-end e.context, copies e.context) refl

  seen-settles :
      (codec : JsonCodec) (wire : Wire) (c : Client) (e : ProtocolError) (id : String)
      (session_id : Option String) (at : ℕ)
      → (error_seen py codec wire c (make_error e (str id) session_id at) (returns (some id))).0
        ≡ settle c (some id) (failed_with (failure_from e))
  unfolding error_seen make_error get? truthy to_dict
  seen-settles codec wire c e id session_id at =
      ap (λ (o : Outcome Failure). (error_read py codec wire c (some id) o).0)
        (failure_of-to_dict e)

  pub error-settles :
      (codec : JsonCodec) (wire : Wire) (c : Client) (e : ProtocolError) (id : String)
      (session_id : Option String) (at now : ℕ)
      → (dispatch py codec wire c (make_error e (str id) session_id at) now).0
        ≡ settle c (some id) (failed_with (failure_from e))
  unfolding dispatch read_type dispatch_type message_type_of get? make_error key_of
  error-settles codec wire c e id session_id at now =
      ap
        (λ (v : Json).
          (error_seen py codec wire c (make_error e (str id) session_id at) (key_of v)).0)
        (or_else-empty id)
      ∙ seen-settles codec wire c e id session_id at

pub response-settles :
    (py : Builtins) (codec : JsonCodec) (wire : Wire) (c : Client)
    (id session_id status code : String) (body : Option Fields) (at now : ℕ)
    → let reply = make_response (str id) session_id status code body at in
      (dispatch py codec wire c reply now).0 ≡ settle c (some id) (resolved reply)
unfolding dispatch read_type dispatch_type message_type_of get? make_response response_seen key_of
response-settles py codec wire c id session_id status code body at now = refl

event-kept :
    (py : Builtins) (codec : JsonCodec) (wire : Wire) (c : Client) (m : Fields) (now : ℕ)
    → validate m true ≡ returns "EVENT"
    → ((dispatch py codec wire c m now).0.pending ≡ c.pending)
      × ((dispatch py codec wire c m now).0.settled ≡ c.settled)
unfolding dispatch read_type dispatch_type message_type_of
event-kept py codec wire c m now v = rw ((validate_exact m "EVENT" v).0) (refl, refl)

-- Valid events settle nothing.
pub deliver-kept :
    (py : Builtins) (codec : JsonCodec) (wire : Wire) (c : Client) (events rest : List Fields)
    (now : ℕ)
    → All (λ (m : Fields). validate m true ≡ returns "EVENT") events
    → (d : Client) × (deliver py codec wire c (events ++ rest) now
        ≡ deliver py codec wire d rest now)
      × (d.pending ≡ c.pending)
      × (d.settled ≡ c.settled)
unfolding deliver
deliver-kept py codec wire c [] rest now v = (c, refl, refl, refl)
deliver-kept py codec wire c (m ∷ ms) rest now v =
    let (d, same, p, s) =
      deliver-kept py codec wire (dispatch py codec wire c m now).0 ms rest now v.1 in
    let (p', s') = event-kept py codec wire c m now v.0 in (d, same, p ∙ p', s ∙ s')
