-- ===== src/Mock/Server/Answers.antt =====
-- How a request is answered.
use zygisk_frida_packet_tcp.Base.{
  String, ◌≡◌, refl, ◌⊎◌, inl, inr, Option, none, some, List, [], ◌∷◌, ◌++◌, All, Bool-cases, false,
}
use zygisk_frida_packet_tcp.Json.{Json, str, obj, Fields, get, get?}
use zygisk_frida_packet_tcp.Python.{Builtins}
use zygisk_frida_packet_tcp.Protocol.Errors.{
  ProtocolError, PyError, Result, ok, raise, Outcome, returns, raises, crashes, code_value,
  e_not_ready, attribute_error,
}
use zygisk_frida_packet_tcp.Protocol.Frame.{JsonCodec, Bytes, encode_frame}
use zygisk_frida_packet_tcp.Protocol.Messages.{make_response, make_error}
use zygisk_frida_packet_tcp.Protocol.Messages.Check.{message_type_of, is_text}
use zygisk_frida_packet_tcp.Protocol.Messages.Built.{response, failure, validate-build}
use zygisk_frida_packet_tcp.Tools.Handlers.{method_name_for}
use zygisk_frida_packet_tcp.Mock.State.{MockRuntimeState}
use zygisk_frida_packet_tcp.Mock.Hooking.{Turn}
use zygisk_frida_packet_tcp.Mock.Server.{
  Method, plain, reading, Plain, device_list, Reading, runtime_hook, job_status, methods,
  find_method, run_plain, run_reading, run_method, Handled, run_found, run_named, default_json,
  handle_request, handle_type, handle_read, handle, replied, sends, send_last, not_supported, stale,
}
use zygisk_frida_packet_tcp.Mock.Hooking.Valid.{IsValid, EventsValid, hook-valid}

-- The message's id as the server reads it.
abbrev pub request_id_of : Fields → Json
request_id_of msg = default_json (get? msg "request_id") (str "")

-- What a reply is made of: a status, a code and a body, or an error.
pub data Reply : Type 0 where
  answers : String → String → Option Fields → Reply
  refuses : ProtocolError → Reply

-- The message that the server makes of it.
abbrev pub reply_message : Turn → Json → Reply → Fields
reply_message t id (answers status code body) = make_response id t.session_id status code body t.now
reply_message t id (refuses e) = make_error e id (some t.session_id) t.now

-- Valid events, and after them one valid reply that bears the id: nothing else.
pub record IsAnswer (t : Turn) (id : Json) (sent : List Fields) : Type 0 where
  pub events : List Fields
  pub reply : Reply
  pub all_sent : sent ≡ events ++ reply_message t id reply ∷ []
  pub events_valid : All (IsValid "EVENT") events
  pub reply_valid :
      IsValid "RESPONSE" (reply_message t id reply) ⊎ IsValid "ERROR" (reply_message t id reply)
  pub same_id : get? (reply_message t id reply) "request_id" ≡ some id

plain-valid :
    (py : Builtins) (codec : JsonCodec) (t : Turn) (st : MockRuntimeState) (p : Plain)
    → EventsValid (run_plain py codec t st p)
unfolding run_plain
plain-valid py codec t st device_list = tt
plain-valid py codec t st _ = tt

reading-valid :
    (py : Builtins) (codec : JsonCodec) (t : Turn) (st : MockRuntimeState) (r : Reading)
    (fs : Fields)
    → EventsValid (run_reading py codec t st r fs)
unfolding run_reading
reading-valid py codec t st runtime_hook fs = hook-valid codec t st fs
reading-valid py codec t st _ fs = tt

-- A method that reads its payload, given one that is no object, sends nothing.
no_object-valid :
    (py : Builtins) (codec : JsonCodec) (t : Turn) (st : MockRuntimeState) (r : Reading) (v : Json)
    → EventsValid (run_method py codec t st (reading r) v)
unfolding run_method
no_object-valid py codec t st r (obj fs) = reading-valid py codec t st r fs
no_object-valid py codec t st job_status v = tt
no_object-valid py codec t st _ v = tt

method-valid :
    (py : Builtins) (codec : JsonCodec) (t : Turn) (st : MockRuntimeState) (m : Method) (v : Json)
    → EventsValid (run_method py codec t st m v)
unfolding run_method
method-valid py codec t st (plain p) v = plain-valid py codec t st p
method-valid py codec t st (reading r) v = no_object-valid py codec t st r v

-- A reply that has no frame: valid events are out, and what `encode_frame` raises leaves the handling.
pub record IsUnsent (codec : JsonCodec) (t : Turn) (id : Json) (h : Handled) : Type 0 where
  pub reply : Reply
  pub error : ProtocolError
  pub no_frame : encode_frame codec (reply_message t id reply) false ≡ raise error
  pub raised : h.result ≡ raises error
  pub events_valid : All (IsValid "EVENT") h.sent

-- How a message is handled: it is answered, or its reply cannot be encoded, or the thread ends in an
-- exception of Python's own.
abbrev pub IsSettled : JsonCodec → Turn → Json → Handled → Type 0
IsSettled codec t id h =
    ((h.result ≡ returns tt) × IsAnswer t id h.sent)
    ⊎ (IsUnsent codec t id h ⊎ ((x : PyError) × (h.result ≡ crashes x)))

reply-IsValid :
    (t : Turn) (id : Json) (r : Reply)
    → IsValid "RESPONSE" (reply_message t id r) ⊎ IsValid "ERROR" (reply_message t id r)
reply-IsValid t id (answers status code body) =
    inl (validate-build (response id t.session_id status code body t.now))
reply-IsValid t id (refuses e) = inr (validate-build (failure e id (some t.session_id) t.now))

reply-id : (t : Turn) (id : Json) (r : Reply) → get? (reply_message t id r) "request_id" ≡ some id
unfolding make_response make_error get?
reply-id t id (answers status code body) = refl
reply-id t id (refuses e) = refl

-- A reply after valid events is an answer.
reply-IsAnswer :
    (t : Turn) (id : Json) (r : Reply) (events : List Fields)
    → All (IsValid "EVENT") events
    → IsAnswer t id (events ++ reply_message t id r ∷ [])
reply-IsAnswer t id r events v = record {
  events = events;
  reply = r;
  all_sent = refl;
  events_valid = v;
  reply_valid = reply-IsValid t id r;
  same_id = reply-id t id r;
}

result_cases :
    (r : Result Bytes) → ((frame : Bytes) × (r ≡ ok frame)) ⊎ ((e : ProtocolError) × (r ≡ raise e))
result_cases (ok frame) = inl (frame, refl)
result_cases (raise e) = inr (e, refl)

framed :
    (codec : JsonCodec) (m : Fields)
    → ((frame : Bytes) × (encode_frame codec m false ≡ ok frame))
      ⊎ ((e : ProtocolError) × (encode_frame codec m false ≡ raise e))
framed codec m = result_cases (encode_frame codec m false)

-- A reply that is sent after valid events answers, if it has a frame.
sends-IsSettled :
    (codec : JsonCodec) (t : Turn) (st : MockRuntimeState) (id : Json) (events : List Fields)
    (r : Reply)
    → All (IsValid "EVENT") events
    → IsSettled codec t id (sends codec st events (reply_message t id r))
unfolding sends send_last
sends-IsSettled codec t st id events r v = elim (framed codec (reply_message t id r)) [
  | inl (frame, e) ↦ rw e (inl (refl, reply-IsAnswer t id r events v))
  | inr (x, e) ↦
      rw e
        (inr (inl (record { reply = r; error = x; no_frame = e; raised = refl; events_valid = v })))
]

replied-IsSettled :
    (codec : JsonCodec) (t : Turn) (id : Json) (events : List Fields) (st : MockRuntimeState)
    (r : Outcome Fields)
    → All (IsValid "EVENT") events
    → IsSettled codec t id (replied codec t id events st r)
unfolding replied
replied-IsSettled codec t id events st (returns body) v =
    sends-IsSettled codec t st id events (answers "ok" "OK" (some body)) v
replied-IsSettled codec t id events st (raises e) v =
    sends-IsSettled codec t st id events (refuses e) v
replied-IsSettled codec t id events st (crashes x) v = inr (inr (x, refl))

module _ (py : Builtins) (codec : JsonCodec) (t : Turn) (st : MockRuntimeState) where
  found-IsSettled :
      (id command payload : Json) (m : Option Method)
      → IsSettled codec t id (run_found py codec t st id command payload m)
  unfolding run_found not_supported
  found-IsSettled id command payload (some m) =
      replied-IsSettled codec t id _ _ (run_method py codec t st m payload).result
        (method-valid py codec t st m payload)
  found-IsSettled id command payload none =
      sends-IsSettled codec t st id [] (answers "error" (code_value e_not_ready) _) tt

  named-IsSettled :
      (id payload command : Json)
      → IsSettled codec t id (run_named py codec t st id payload command)
  unfolding run_named
  named-IsSettled id payload (str command) =
      found-IsSettled id (str command) payload (find_method methods (method_name_for command))
  named-IsSettled id payload _ = inr (inr (attribute_error, refl))

  request-IsSettled :
      (msg : Fields) → IsSettled codec t (request_id_of msg) (handle_request py codec t st msg)
  unfolding handle_request stale
  request-IsSettled msg = elim (Bool-cases (is_text (get msg "session_id") t.session_id)) [
    | inl current ↦ rw current (named-IsSettled _ _ _)
    | inr other ↦ rw other (sends-IsSettled codec t st (request_id_of msg) [] (refuses _) tt)
  ]

  -- Whatever the state and the message, the handling of a request comes to one of three: it returns,
  -- and what was sent is valid events and, last, exactly one reply, a valid RESPONSE or ERROR that bears
  -- the request's id; or `encode_frame` refuses the reply, no reply goes out after the valid
  -- events, and that very error leaves the handling; or an exception of Python's own leaves it.
  pub handle-IsSettled :
      (msg : Fields)
      → message_type_of msg ≡ ok "REQUEST"
      → IsSettled codec t (request_id_of msg) (handle py codec t st msg)
  unfolding handle handle_read handle_type
  handle-IsSettled msg h = rw h (request-IsSettled msg)
