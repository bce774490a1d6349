-- ===== src/Bridge/Session/Counted.antt =====
-- The generation counts the sessions that were ever opened.
use zygisk_frida_packet_tcp.Base.{
  ℕ, ◌+◌, String, ◌≡◌, refl, true, Option, none, some, List, [], ◌∷◌, arith, length, length-append,
}
use zygisk_frida_packet_tcp.Json.{Fields, is_some}
use zygisk_frida_packet_tcp.Protocol.Constants.{SessionState, closed}
use zygisk_frida_packet_tcp.Bridge.Session.{
  Session, SessionManager, new_manager, retire, retire_current, open_session, degrade,
  close_session, sweep, touch, Op, opens, degrades, closes, sweeps, touches, step, run,
}

abbrev pub live_count : Option Session → ℕ
live_count none = 0
live_count (some s) = 1

abbrev pub current_generation : Option Session → ℕ → ℕ
current_generation none g = g
current_generation (some s) g = s.generation

-- Every session ever opened is the current one or in the history, and the current one bears the
-- manager's generation.
pub record IsCounted (m : SessionManager) : Type 0 where
  pub total : m.generation ≡ length m.history + live_count m.current
  pub newest : current_generation m.current m.generation ≡ m.generation

retire_counts :
    (m : SessionManager) (o : Option Session) (state : SessionState)
    → (length (retire_current m o state).history ≡ length m.history + live_count o)
      × ((retire_current m o state).generation ≡ m.generation)
      × ((retire_current m o state).current ≡ m.current)
unfolding retire_current retire
retire_counts m none state = (omega arith, refl, refl)
retire_counts m (some s) state = (length-append m.history (s.session_id ∷ []), refl, refl)

step-IsCounted : (m : SessionManager) (o : Op) → IsCounted m → IsCounted (step m o)
unfolding open_session degrade close_session sweep touch
step-IsCounted m (opens id state caps now) h = ground (arith, retire_counts m m.current closed)
step-IsCounted m degrades h = ground arith
step-IsCounted m (closes state) h = ground (arith, retire_counts m m.current state)
step-IsCounted m (sweeps now) h = ground (arith, retire_counts m m.current closed)
step-IsCounted m (touches now) h = ground arith

-- Whatever calls are made of a manager whose generation is the number of its sessions, those in the
-- history and the current one, and whose current session bears that generation: both still hold.
-- (A new manager is such a manager, by `IsCounted-new`.)
pub run-IsCounted : (m : SessionManager) (os : List Op) → IsCounted m → IsCounted (run m os)
unfolding run
run-IsCounted m [] h = h
run-IsCounted m (o ∷ os) h = run-IsCounted (step m o) os (step-IsCounted m o h)

pub IsCounted-new : (idle_timeout : ℕ) → IsCounted (new_manager idle_timeout)
IsCounted-new idle_timeout = record { total = omega arith; newest = refl }

-- `open` counts one more session, which is then the current one; `close` leaves the count.
pub open-generation :
    (m : SessionManager) (id : String) (state : SessionState) (caps : Fields) (now : ℕ)
    → (open_session m id state caps now).generation ≡ m.generation + 1
unfolding open_session
open-generation m id state caps now = rw (retire_counts m m.current closed).1 refl

pub open-session :
    (m : SessionManager) (id : String) (state : SessionState) (caps : Fields) (now : ℕ)
    → is_some (open_session m id state caps now).current ≡ true
unfolding open_session
open-session m id state caps now = refl

pub close-generation :
    (m : SessionManager) (state : SessionState) → (close_session m state).generation ≡ m.generation
unfolding close_session
close-generation m state = (retire_counts m m.current state).1
