-- ===== src/Tests/Sessions.antt =====
-- A manager whose session is replaced.
use zygisk_frida_packet_tcp.Base.{
  eq_iff, arith, ◌≡◌, ◌≢◌, refl, true, some, List, [], ◌∷◌, mem_text, ◌⊎◌, String,
}
use zygisk_frida_packet_tcp.Json.{end}
use zygisk_frida_packet_tcp.Protocol.Errors.{ok}
use zygisk_frida_packet_tcp.Protocol.Constants.{running}
use zygisk_frida_packet_tcp.Bridge.Session.{
  Session, SessionManager, new_manager, require_matching, retire_current, open_session, Op, opens,
  degrades, sweeps, run,
}
use zygisk_frida_packet_tcp.Bridge.Session.Counted.{IsCounted, IsCounted-new, run-IsCounted}
use zygisk_frida_packet_tcp.Bridge.Session.Stale.{
  Accepts, Refuses, Lacks, require_matching_exact, reopened_stays_stale,
}

abbrev first : Session
first = record {
  session_id = "s1";
  generation = 1;
  state = running;
  capabilities = end;
  created_at = 10;
  last_activity = 10;
}

abbrev opened : SessionManager
opened = record { current = some first; generation = 1; idle_timeout = 30; history = [] }

opened_by : open_session (new_manager 30) "s1" running end 10 ≡ opened
unfolding open_session retire_current
opened_by = refl

abbrev calls : List Op
calls = degrades ∷ opens "s3" running end 60 ∷ sweeps 200 ∷ []

run-IsCounted_example : IsCounted (run (new_manager 30) (opens "s1" running end 10 ∷ calls))
run-IsCounted_example =
    run-IsCounted (new_manager 30) (opens "s1" running end 10 ∷ calls) (IsCounted-new 30)

require_matching_exact_example :
    Accepts opened (some "s2") ⊎ Refuses opened (some "s2") ⊎ Lacks opened (some "s2")
require_matching_exact_example = require_matching_exact opened (some "s2")

s2_s1 : ◌≢◌ {A = String} "s2" "s1"
s2_s1 e = ground (arith, (eq_iff "s2" "s1").1 e)

s3_s1 : ◌≢◌ {A = String} "s3" "s1"
s3_s1 e = ground (arith, (eq_iff "s3" "s1").1 e)

reopened_stays_stale_example :
    (mem_text "s1" (run (open_session opened "s2" running end 20) calls).history ≡ true)
    × ((s : Session)
        → require_matching (run (open_session opened "s2" running end 20) calls) (some "s1") ≢ ok s)
reopened_stays_stale_example =
    reopened_stays_stale opened first "s2" running end 20 calls refl s2_s1 (tt, (s3_s1, (tt, tt)))
