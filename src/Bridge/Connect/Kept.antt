-- ===== src/Bridge/Connect/Kept.antt =====
-- What `connect` and `close` do to the link, the session and the requests that wait.
use zygisk_frida_packet_tcp.Base.{ℕ, String, refl, inl, inr, Bool, false, List}
use zygisk_frida_packet_tcp.Json.{Json, str, obj, Fields}
use zygisk_frida_packet_tcp.Protocol.Errors.{Result, ok, raise, Outcome, returns, raises, crashes}
use zygisk_frida_packet_tcp.Protocol.Frame.{JsonCodec}
use zygisk_frida_packet_tcp.Bridge.Session.Counted.{open-generation, open-session, close-generation}
use zygisk_frida_packet_tcp.Protocol.Constants.{closed}
use zygisk_frida_packet_tcp.Bridge.Client.{Client, fail_all_pending}
use zygisk_frida_packet_tcp.Bridge.Handshake.{Pump, Negotiated}
use zygisk_frida_packet_tcp.Bridge.Client.{Wire}
use zygisk_frida_packet_tcp.Bridge.Client.Branches.{send-holds}
use zygisk_frida_packet_tcp.Bridge.Connect.{
  Connecting, opened, fails, untyped, breaks, enter, conclude, greet, connect_on, connect, close,
}
use zygisk_frida_packet_tcp.Bridge.Lifecycle.Effects.{
  Quiet, Drops, Opens, Effect, quiet, lost-Effect,
}

-- The effect on `c` of what `connect` comes to; `untyped` is outside the model.
abbrev pub Fits : Client → Connecting → Type 0
Fits c (opened c') = Opens c c'
Fits c (fails c' e) = Effect c c'
Fits c (breaks c' x) = Effect c c'
Fits c (untyped n) = Unit

abbrev eager : Client → Client
eager c = record c { closing = false }

eager-Quiet : (c : Client) → Quiet c (eager c)
eager-Quiet c = record {
  link_same = refl;
  generation_same = refl;
  session_same = refl;
  closing_same = inr refl;
  pending_less = inl refl;
}

module _ (codec : JsonCodec) (same : Json → Json → Bool) (endpoint timeout : String) (c : Client)
    (now : ℕ) where
  unchanged : (sent : List Fields) → Effect c (record (eager c) { sent = sent })
  unchanged sent = quiet (record {
    link_same = refl;
    generation_same = refl;
    session_same = refl;
    closing_same = inr refl;
    pending_less = inl refl;
  })

  enter-Fits :
      (sent : List Fields) (n : Negotiated) (id caps : Json)
      → Fits c (enter codec same endpoint timeout (record (eager c) { sent = sent }) n id caps now)
  unfolding enter
  enter-Fits sent n (str id) (obj caps) = record {
    up = refl;
    generation_next = open-generation c.sessions id n.state caps now;
    session_there = open-session c.sessions id n.state caps now;
    not_closing = refl;
    pending_same = refl;
  }
  enter-Fits sent n v w = tt

  conclude-Fits :
      (sent : List Fields) (o : Outcome Negotiated)
      → Fits c (conclude codec same endpoint timeout (record (eager c) { sent = sent }) o now)
  unfolding conclude
  conclude-Fits sent (returns n) = enter-Fits sent n _ _
  conclude-Fits sent (raises e) = unchanged sent
  conclude-Fits sent (crashes x) = unchanged sent

  on-Fits :
      (socket : Result (Unit {0})) (wire : Wire) (ps : List Pump)
      → Fits c (connect_on codec same endpoint timeout (eager c) socket wire ps now)
  unfolding connect_on greet
  on-Fits (raise e) wire ps = unchanged _
  on-Fits (ok u) wire ps =
      send-holds (λ p. Fits c (greet codec same endpoint timeout p ps now)) codec (eager c) wire _
        (λ e. unchanged _) (λ reason e. lost-Effect c (eager c) reason (eager-Quiet c))
        (conclude-Fits _ _)

  -- What `connect` comes to: an open link, or no more than a lost one.
  pub connect-Fits :
      (socket : Result (Unit {0})) (wire : Wire) (ps : List Pump)
      → Fits c (connect codec same endpoint timeout c socket wire ps now)
  unfolding connect
  connect-Fits socket wire ps = on-Fits socket wire ps

-- `close` leaves no link and no request that waits.
pub close-Drops : (c : Client) → Drops c (close c)
unfolding close fail_all_pending
close-Drops c = record {
  down = refl;
  generation_same = close-generation c.sessions closed;
  none_wait = refl;
}
