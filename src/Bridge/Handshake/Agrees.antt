-- ===== src/Bridge/Handshake/Agrees.antt =====
-- The handshake of the client and that of the server.
use zygisk_frida_packet_tcp.Base.{
  ℕ, String, ◌≡◌, refl, Bool, true, false, Option, some, List, [], ◌∷◌, arith, eq_iff, keep,
  mem_text,
}
use zygisk_frida_packet_tcp.Json.{Json, str, obj, end, ◌⇒◌⨾◌, or_else, Fields, get?, keys, truthy}
use zygisk_frida_packet_tcp.Protocol.Errors.{ok, returns}
use zygisk_frida_packet_tcp.Protocol.Constants.{
  SessionState, state_value, protocol_version, state_of_value, state_of_value-state_value,
}
use zygisk_frida_packet_tcp.Protocol.Messages.{
  make_hello, make_hello_ack, make_ready, make_event, event_fields,
}
use zygisk_frida_packet_tcp.Protocol.Messages.Check.{
  validate, missing_fields, unknown_fields, check_by_type, message_type_of, required_fields,
  validate_type, protocol_version_of, check_protocol_version,
}
use zygisk_frida_packet_tcp.Mock.State.{MockRuntimeState}
use zygisk_frida_packet_tcp.Mock.Hooking.{Turn, send_next, send_all}
use zygisk_frida_packet_tcp.Mock.Hooking.Valid.{made-IsValid}
use zygisk_frida_packet_tcp.Protocol.Frame.{JsonCodec, Bytes, encode_frame}
use zygisk_frida_packet_tcp.Mock.Serving.{do_handshake, ack_of, ready_of, ready_args}
use zygisk_frida_packet_tcp.Bridge.Handshake.{handshake, state_from, same_id, state_from}

ready-valid :
    (id : String) (s : SessionState) (caps : Option Fields) (now : ℕ)
    → validate (make_ready id s caps now) false ≡ returns "READY"
unfolding validate message_type_of required_fields validate_type get? keys missing_fields
    check_by_type make_ready keep unknown_fields mem_text
ready-valid id s caps now = ground (arith, state_of_value-state_value s)

state_from-state_value : (s : SessionState) → state_from (str (state_value s)) ≡ returns s
unfolding state_from
state_from-state_value s = rw (state_from, state_of_value-state_value s) refl

or_else-end : (cs : Fields) → or_else (obj cs) (obj end) ≡ obj cs
unfolding truthy
or_else-end end = refl
or_else-end (k ⇒ v ⨾ cs) = refl

client_accepts :
    (same : Json → Json → Bool) (id server version : String) (caps : Option (List String))
    (s : SessionState) (cs : Fields) (now : ℕ)
    → handshake same
        (ok (make_hello_ack id server version caps protocol_version))
        (ok (make_ready id s (some cs) now))
      ≡ returns (record { session_id = str id; state = s; capabilities = obj cs })
unfolding handshake message_type_of protocol_version_of check_protocol_version get? make_ready
    make_hello_ack truthy same_id state_of_value
client_accepts same id server version caps s cs now =
    rw
      (
        ready-valid id s (some cs) now,
        (eq_iff id id).1 refl,
        state_from-state_value s,
        or_else-end cs,
      )
      refl

-- The event that the server sends after READY.
abbrev pub ready_event : Turn → MockRuntimeState → Fields
ready_event t st = event_fields (ready_args t st) (t.event_id 0) t.now

-- The server answers a HELLO of its version, from a client that the test does not block and for which
-- its three messages can be encoded, with HELLO_ACK, READY and the event RUNTIME_READY, which is a
-- valid EVENT, and the handshake succeeds; and the client that waits for two messages and gets the
-- first two accepts them, whatever `==` says of values that are not texts: it has the
-- server's session id, its state and its capabilities.
pub handshake_agrees :
    (same : Json → Json → Bool) (codec : JsonCodec) (t : Turn) (st : MockRuntimeState)
    (client client_version : String) (capabilities : Option (List String))
    (ack_frame ready_frame event_frame : Bytes)
    → encode_frame codec (ack_of t) false ≡ ok ack_frame
    → encode_frame codec (ready_of t st) false ≡ ok ready_frame
    → encode_frame codec (ready_event t st) false ≡ ok event_frame
    → (do_handshake codec t st false
          (some (make_hello client client_version capabilities protocol_version))
        ≡ record {
          sent = ack_of t ∷ ready_of t st ∷ ready_event t st ∷ [];
          ready = true;
          success = returns true;
        })
      × (get? (ready_event t st) "event_type" ≡ some (str "RUNTIME_READY"))
      × (validate (ready_event t st) true ≡ returns "EVENT")
      × (handshake same (ok (ack_of t)) (ok (ready_of t st))
          ≡ returns (record {
            session_id = str t.session_id;
            state = st.state;
            capabilities = obj st.capabilities;
          }))
unfolding do_handshake make_hello message_type_of protocol_version_of get? truthy make_event
    mem_text send_all send_next
handshake_agrees same codec t st client client_version capabilities af rf ef a r e = (
  rw (a, r, e) refl,
  refl,
  made-IsValid (ready_args t st) (t.event_id 0) t.now _ refl,
  client_accepts same t.session_id _ _ _ st.state st.capabilities t.now,
)
