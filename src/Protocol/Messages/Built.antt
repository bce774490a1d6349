-- ===== src/Protocol/Messages/Built.antt =====
-- Every message that the constructors build passes `validate` in its strict form.
use zygisk_frida_packet_tcp.Base.{
  ℕ, ℤ, String, ◌≡◌, refl, true, false, Option, some, List, [], ◌∷◌, arith, mem_text, keep, ◌&&◌,
  false, ◌⊎◌, inl, inr, Bool-cases,
}
use zygisk_frida_packet_tcp.Json.{Json, Fields, get?, keys}
use zygisk_frida_packet_tcp.Protocol.Errors.{
  ProtocolError, to_dict, ok, Raises, returns, e_unknown_cmd, e_bad_args,
}
use zygisk_frida_packet_tcp.Protocol.Constants.{
  SessionState, event_types, state_of_value-state_value,
}
use zygisk_frida_packet_tcp.Protocol.Commands.{is_known}
use zygisk_frida_packet_tcp.Protocol.Messages.{
  make_hello, make_hello_ack, make_ready, make_request, make_response, EventArgs, make_event,
  make_ping, make_pong, make_error, event_sources, request_fields, event_fields,
}
use zygisk_frida_packet_tcp.Protocol.Messages.Check.{
  validate, missing_fields, unknown_fields, check_by_type, message_type_of, required_fields,
  validate_type,
}

-- The messages that need no lookup to be built.
pub data Plain : Type 0 where
  hello : String → String → Option (List String) → String → Plain
  hello_ack : String → String → String → Option (List String) → String → Plain
  ready : String → SessionState → Option Fields → ℕ → Plain
  response : Json → String → String → String → Option Fields → ℕ → Plain
  ping : ℕ → ℕ → Plain
  pong : ℤ → ℕ → Plain
  failure : ProtocolError → Json → Option String → ℕ → Plain

abbrev pub build : Plain → Fields
build (hello client version capabilities protocol) = make_hello client version capabilities protocol
build (hello_ack session_id server version capabilities protocol) =
    make_hello_ack session_id server version capabilities protocol
build (ready session_id state capabilities now) = make_ready session_id state capabilities now
build (response request_id session_id status code payload now) =
    make_response request_id session_id status code payload now
build (ping seq now) = make_ping seq now
build (pong seq now) = make_pong seq now
build (failure e request_id session_id now) = make_error e request_id session_id now

abbrev pub type_of : Plain → String
type_of (hello _ _ _ _) = "HELLO"
type_of (hello_ack _ _ _ _ _) = "HELLO_ACK"
type_of (ready _ _ _ _) = "READY"
type_of (response _ _ _ _ _ _) = "RESPONSE"
type_of (ping _ _) = "PING"
type_of (pong _ _) = "PONG"
type_of (failure _ _ _ _) = "ERROR"

-- Every HELLO, HELLO_ACK, READY, RESPONSE, PING, PONG and ERROR that the constructors build passes
-- the strict validation, which returns its type.
pub validate-build : (p : Plain) → validate (build p) true ≡ returns (type_of p)
unfolding validate message_type_of required_fields validate_type get? keys missing_fields
    unknown_fields mem_text check_by_type make_hello make_hello_ack make_ready make_response
    make_ping make_pong make_error to_dict keep
validate-build (hello client version capabilities protocol) = refl
validate-build (hello_ack session_id server version capabilities protocol) = refl
validate-build (ready session_id state capabilities now) =
    ground (arith, state_of_value-state_value state)
validate-build (response request_id session_id status code payload now) = refl
validate-build (ping seq now) = refl
validate-build (pong seq now) = refl
validate-build (failure e request_id session_id now) = refl

-- For a command of the register, `make_request` returns a message, which passes the strict
-- validation as a REQUEST; for any other name it raises E_UNKNOWN_CMD.
pub validate-make_request :
    (command session_id fresh : String) (payload : Option Fields) (request_id : Option String)
    (now : ℕ)
    → ((is_known command ≡ true)
        × (m : Fields) × (make_request command payload session_id request_id fresh now ≡ ok m)
        × (validate m true ≡ returns "REQUEST"))
      ⊎ ((is_known command ≡ false)
          × Raises (make_request command payload session_id request_id fresh now) e_unknown_cmd)
unfolding make_request validate message_type_of required_fields validate_type get? keys
    missing_fields unknown_fields mem_text keep check_by_type
validate-make_request command session_id fresh payload request_id now =
    elim (Bool-cases (is_known command)) [
      | inl known ↦ inl (
        known,
        request_fields command payload session_id request_id fresh now,
        ground arith,
        ground arith,
      )
      | inr unknown ↦ inr (unknown, ground arith)
    ]

-- What `validate` comes to when no field is missing and none is unknown.
validate-by_type :
    (m : Fields) (t : String) (required : List String)
    → message_type_of m ≡ ok t
    → required_fields t ≡ some required
    → missing_fields required m ≡ []
    → unknown_fields required m ≡ []
    → check_by_type t m ≡ returns tt
    → validate m true ≡ returns t
unfolding validate validate_type
validate-by_type m t required e r missing unknown checked =
    rw (e, r, missing, unknown, checked) refl

abbrev event_required : List String
event_required =
    "version" ∷ "type" ∷ "event_id" ∷ "session_id" ∷ "timestamp" ∷ "pid" ∷ "tid" ∷ "event_type"
    ∷ "source" ∷ "payload" ∷ []

event_unknown :
    (a : EventArgs) (fresh : String) (now : ℕ)
    → unknown_fields event_required (event_fields a fresh now) ≡ []
unfolding unknown_fields keys mem_text keep
event_unknown a fresh now = refl

-- For a listed event type and a listed source, `make_event` returns a message, which passes the
-- strict validation as an EVENT; if one of the two is not listed it raises E_BAD_ARGS.
pub validate-make_event :
    (a : EventArgs) (fresh : String) (now : ℕ)
    → ((mem_text a.event_type event_types && mem_text a.source event_sources ≡ true)
        × (m : Fields) × (make_event a fresh now ≡ ok m)
        × (validate m true ≡ returns "EVENT"))
      ⊎ ((mem_text a.event_type event_types && mem_text a.source event_sources ≡ false)
          × Raises (make_event a fresh now) e_bad_args)
unfolding make_event get? missing_fields keep check_by_type message_type_of required_fields
validate-make_event a fresh now =
    elim (Bool-cases (mem_text a.event_type event_types && mem_text a.source event_sources)) [
      | inl listed ↦
          let known : mem_text a.event_type event_types ≡ true = ground arith in
          inl (
            listed,
            event_fields a fresh now,
            ground arith,
            validate-by_type (event_fields a fresh now) "EVENT" event_required refl refl refl
                (event_unknown a fresh now) (rw known refl),
          )
      | inr bad ↦ inr (bad, ground arith)
    ]
