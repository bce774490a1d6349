-- ===== src/Bridge/Heartbeat/Kept.antt =====
-- A ping that is sent leaves the link, or loses it.
use zygisk_frida_packet_tcp.Base.{ℕ, ◌+◌, refl, ◌||◌, not}
use zygisk_frida_packet_tcp.Protocol.Frame.{JsonCodec}
use zygisk_frida_packet_tcp.Bridge.Client.{Client}
use zygisk_frida_packet_tcp.Bridge.Client.Branches.{if_client}
use zygisk_frida_packet_tcp.Bridge.Calls.{is_linked}
use zygisk_frida_packet_tcp.Bridge.Client.{Wire}
use zygisk_frida_packet_tcp.Bridge.Client.Branches.{send-holds}
use zygisk_frida_packet_tcp.Bridge.Heartbeat.{beat, drain_events}
use zygisk_frida_packet_tcp.Bridge.Lifecycle.Effects.{Quiet, Effect, quiet, same_Quiet, lost-Effect}

pub beat-Effect :
    (codec : JsonCodec) (c : Client) (wire : Wire) (now : ℕ) → Effect c (beat codec c wire now)
unfolding beat
beat-Effect codec c wire now =
    if_client (Effect c) (c.closing || not (is_linked c.link)) _ _
      (quiet (same_Quiet c c refl refl refl refl))
      (send-holds (λ p. Effect c p.0) codec (record c { ping_seq = c.ping_seq + 1 }) wire _
        (λ e. quiet (same_Quiet c _ refl refl refl refl))
        (λ reason e. lost-Effect c _ reason (same_Quiet c _ refl refl refl refl))
        (quiet (same_Quiet c _ refl refl refl refl)))

pub drain-Quiet : (c : Client) → Quiet c (drain_events c).1
unfolding drain_events
drain-Quiet c = same_Quiet c _ refl refl refl refl
