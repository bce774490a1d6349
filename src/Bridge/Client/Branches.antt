-- ===== src/Bridge/Client/Branches.antt =====
-- The ways that one message, or one heartbeat, can leave the client, as a rule to prove by.
use zygisk_frida_packet_tcp.Base.{
  ℕ, ◌+◌, ◌-◌, String, Bool, true, false, not, Option, [], ◌∷◌, ◌++◌, ◌==◌, leb, str_eq,
  if◌then◌else◌, ℤ, pos, ltb_ℤ,
}
use zygisk_frida_packet_tcp.Json.{Fields}
use zygisk_frida_packet_tcp.Python.{Builtins}
use zygisk_frida_packet_tcp.Protocol.Errors.{
  ProtocolError, Outcome, returns, raises, crashes, Result, ok, raise,
}
use zygisk_frida_packet_tcp.Protocol.Constants.{degraded_link}
use zygisk_frida_packet_tcp.Protocol.Messages.{make_pong}
use zygisk_frida_packet_tcp.Protocol.Messages.Check.{message_type_of}
use zygisk_frida_packet_tcp.Protocol.Frame.{JsonCodec, Bytes}
use zygisk_frida_packet_tcp.Bridge.Session.{touch}
use zygisk_frida_packet_tcp.Bridge.Client.{
  Wire, no_socket, takes, fails, send, send_framed, Failure, Settled, resolved, failed_with, Client,
  settle, pop_only, relink, push_event, pong_seen, ping_seen, response_seen, error_read, error_seen,
  dispatch_type, read_type, dispatch, on_link_lost, judge,
}

module _ (P : Client × Result (Unit {0}) → Type 0) (codec : JsonCodec) (c : Client) (wire : Wire)
    (msg : Fields) (unsent : (e : ProtocolError) → P (c, raise e))
    (lost : (reason : String) (e : ProtocolError) → P (on_link_lost c reason, raise e))
    (sent : P (record c { sent = c.sent ++ msg ∷ [] }, ok tt)) where
  framed-holds : (w : Wire) (r : Result Bytes) → P (send_framed codec c w msg r)
  unfolding send_framed
  framed-holds w (raise e) = unsent e
  framed-holds no_socket (ok frame) = sent
  framed-holds takes (ok frame) = sent
  framed-holds (fails exc) (ok frame) = lost _ _

  wire-holds : (w : Wire) → P (send codec c w msg)
  unfolding send
  wire-holds no_socket = unsent _
  wire-holds takes = framed-holds takes _
  wire-holds (fails exc) = framed-holds (fails exc) _

  -- What holds of every outcome of `_send` holds of it.
  pub send-holds : P (send codec c wire msg)
  send-holds = wire-holds wire

if_holds :
    (P : Client → Type 0) (b : Bool) (x y : Client × Outcome (Unit {0}))
    → P x.0
    → P y.0
    → P (if b then x else y).0
if_holds P true x y p q = p
if_holds P false x y p q = q

abbrev pub heard : Client → ℕ → Client
heard c now = record c { last_pong = now; missed = 0 }

abbrev pub ponged : Client → ℕ → ℤ → Client
ponged c now seq = record (heard c now) { pong_seq = seq; sessions = touch c.sessions now }

module _ (P : Client → Type 0) (py : Builtins) (codec : JsonCodec) (wire : Wire) (c : Client)
    (msg : Fields) (now : ℕ) (nothing : P c) (unread : P (heard c now))
    (pong : (seq : ℤ) → P (relink (ponged c now seq) c.link))
    (lost : (reason : String) → P (on_link_lost c reason))
    (ping : (seq : ℤ) → P (record c { sent = c.sent ++ make_pong seq now ∷ [] }))
    (settled : (id : Option String) (r : Settled) → P (settle c id r))
    (popped : (id : Option String) → P (pop_only c id))
    (event : P
      (record c { events = push_event c.events msg; sessions = touch c.sessions now })) where
  pong-holds : (o : Outcome ℤ) → P (pong_seen py codec wire (heard c now) o now).0
  unfolding pong_seen
  pong-holds (returns seq) = pong seq
  pong-holds (raises e) = unread
  pong-holds (crashes x) = unread

  ping-holds : (o : Outcome ℤ) → P (ping_seen py codec wire c o now).0
  unfolding ping_seen
  ping-holds (returns seq) =
      send-holds (λ p. P p.0) codec c wire _ (λ e. nothing) (λ reason e. lost reason) (ping seq)
  ping-holds (raises e) = nothing
  ping-holds (crashes x) = nothing

  response-holds : (o : Outcome (Option String)) → P (response_seen py codec wire c msg o).0
  unfolding response_seen
  response-holds (returns id) = settled id (resolved msg)
  response-holds (raises e) = nothing
  response-holds (crashes x) = nothing

  error_read-holds :
      (id : Option String) (o : Outcome Failure) → P (error_read py codec wire c id o).0
  unfolding error_read
  error_read-holds id (returns f) = settled id (failed_with f)
  error_read-holds id (raises e) = popped id
  error_read-holds id (crashes x) = popped id

  error-holds : (o : Outcome (Option String)) → P (error_seen py codec wire c msg o).0
  unfolding error_seen
  error-holds (returns id) = error_read-holds id _
  error-holds (raises e) = nothing
  error-holds (crashes x) = nothing

  type-holds : (mtype : String) → P (dispatch_type py codec wire c mtype msg now).0
  unfolding dispatch_type
  type-holds mtype = if_holds P (str_eq mtype "PONG") _ _ (pong-holds _) (
      if_holds P (str_eq mtype "PING") _ _ (ping-holds _) (
        if_holds P (str_eq mtype "RESPONSE") _ _ (response-holds _) (
          if_holds P (str_eq mtype "ERROR") _ _ (error-holds _)
            (if_holds P (str_eq mtype "EVENT") _ _ event nothing))))

  read_type-holds : (o : Result String) → P (read_type py codec wire c o msg now).0
  unfolding read_type
  read_type-holds (ok mtype) = type-holds mtype
  read_type-holds (raise e) = nothing

  -- What holds of every outcome of `_dispatch` holds after it.
  pub dispatch-holds : P (dispatch py codec wire c msg now).0
  unfolding dispatch
  dispatch-holds = read_type-holds (message_type_of msg)

pub if_client : (P : Client → Type 0) (b : Bool) (x y : Client) → P x → P y → P (if b then x else y)
if_client P true x y p q = p
if_client P false x y p q = q

-- What holds of every outcome of a heartbeat holds after it.
pub judge-holds :
    (P : Client → Type 0) (py : Builtins) (c : Client) (now : ℕ)
    → P c
    → P (record c { missed = 0 })
    → ((reason : String)
        → P (record c { missed = c.missed + 1; link = degraded_link; link_reason = reason }))
    → ((reason : String) → P (on_link_lost (record c { missed = c.missed + 1 }) reason))
    → P (judge py c now)
unfolding judge
judge-holds P py c now nothing answered first lost =
    if_client P (not (ltb_ℤ c.pong_seq (pos c.ping_seq))) _ _ answered (
      if_client P (leb (now - c.last_pong) c.heartbeat_timeout) _ _ nothing
        (if_client P (c.missed + 1 == 1) _ _ (first _) (lost _)))
