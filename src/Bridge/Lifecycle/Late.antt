-- ===== src/Bridge/Lifecycle/Late.antt =====
-- A heartbeat whose link goes before it is judged.
use zygisk_frida_packet_tcp.Base.{ℕ, ◌-◌, String, ◌≡◌, refl, true, false, pos, ltb_ℤ, leb}
use zygisk_frida_packet_tcp.Python.{Builtins}
use zygisk_frida_packet_tcp.Bridge.Session.{degrade}
use zygisk_frida_packet_tcp.Bridge.Client.{Client, fail_all_pending, on_link_lost, judge}
use zygisk_frida_packet_tcp.Bridge.Calls.{is_linked}

-- A client that is not closing, that has missed no heartbeat, whose last ping has no answer, and whose
-- last PONG is older than the timeout: if its link is lost before the ping is judged, the
-- loss takes the link down, and the verdict makes the client count as connected again, though
-- no session was opened since.
pub judge-on_link_lost :
    (py : Builtins) (c : Client) (reason : String) (now : ℕ)
    → c.closing ≡ false
    → c.missed ≡ 0
    → ltb_ℤ c.pong_seq (pos c.ping_seq) ≡ true
    → leb (now - c.last_pong) c.heartbeat_timeout ≡ false
    → let lost = on_link_lost c reason in
      let judged = judge py lost now in
      (is_linked lost.link ≡ false)
      × (is_linked judged.link ≡ true)
      × (judged.sessions.generation ≡ c.sessions.generation)
unfolding on_link_lost judge fail_all_pending degrade
judge-on_link_lost py c reason now open_ none_missed silent late =
    rw (open_, silent, late, none_missed) (refl, refl, refl)
