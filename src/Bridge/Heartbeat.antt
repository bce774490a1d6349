-- ===== src/Bridge/Heartbeat.antt =====
-- bridge/client.py: the first half of a round of `_heartbeat_loop`, which sends a ping (the verdict is
-- `judge` of Client), and the reading of the buffered events.
pub mod Kept
use zygisk_frida_packet_tcp.Base.{
  ℕ, ◌+◌, ◌-◌, Bool, true, false, not, ◌||◌, ◌==◌, Option, none, some, List, [], length, drop,
  if◌then◌else◌,
}
use zygisk_frida_packet_tcp.Json.{Fields}
use zygisk_frida_packet_tcp.Protocol.Frame.{JsonCodec}
use zygisk_frida_packet_tcp.Protocol.Messages.{make_ping}
use zygisk_frida_packet_tcp.Bridge.Client.{Client}
use zygisk_frida_packet_tcp.Bridge.Calls.{is_linked}
use zygisk_frida_packet_tcp.Bridge.Client.{Wire, send}

-- The ping is counted before it is sent; that it cannot be sent is passed over.
unfoldable pub beat : JsonCodec → Client → Wire → ℕ → Client
beat codec c wire now =
    let seq = c.ping_seq + 1 in
    if c.closing || not (is_linked c.link)
    then c
    else (send codec (record c { ping_seq = seq }) wire (make_ping seq now)).0

-- `items[-limit:] if limit else items`, for a limit that is not negative.
unfoldable pub recent_events : List Fields → Option ℕ → List Fields
recent_events items none = items
recent_events items (some n) = if n == 0 then items else drop (length items - n) items

-- `drain_events`: what it returns, and the client without them.
unfoldable pub drain_events : Client → List Fields × Client
drain_events c = (c.events, record c { events = [] })
