-- ===== src/Bridge/Session.antt =====
-- bridge/session.py: the session and its manager. `time.monotonic()` is the argument `now`, in the
-- unit of the idle timeout. A session that is replaced or closed leaves the manager, so the state
-- that `_retire` writes into the object is seen only by who still holds it: `retire` returns it.
pub mod Counted
pub mod Stale
use zygisk_frida_packet_tcp.Base.{
  ℕ, ◌+◌, ◌-◌, String, Bool, true, false, not, ◌&&◌, Option, none, some, List, [], ◌∷◌, ◌++◌,
  str_eq, leb, if◌then◌else◌,
}
use zygisk_frida_packet_tcp.Json.{
  Json, null, nat, str, obj, Fields, end, ◌⇒◌⨾◌, get, truthy, or_null, get?,
}
use zygisk_frida_packet_tcp.Protocol.Errors.{
  ProtocolError, error_next, e_not_ready, e_session_stale, Result, ok, raise, ◌>>=◌,
}
use zygisk_frida_packet_tcp.Protocol.Constants.{
  SessionState, created, starting, runtime_ready, network_ready, running, paused, stopping, closed,
  degraded, failed, errored,
}

pub record Session : Type 0 where
  pub session_id : String
  pub generation : ℕ
  pub state : SessionState
  pub capabilities : Fields
  pub created_at : ℕ
  pub last_activity : ℕ

abbrev pub touched : Session → ℕ → Session
touched s now = record s { last_activity = now }

abbrev pub idle : Session → ℕ → ℕ
idle s now = now - s.last_activity

abbrev pub age : Session → ℕ → ℕ
age s now = now - s.created_at

abbrev pub live_state : SessionState → Bool
live_state closed = false
live_state failed = false
live_state errored = false
live_state _ = true

abbrev pub is_live : Session → Bool
is_live s = live_state s.state

pub record SessionManager : Type 0 where
  pub current : Option Session
  pub generation : ℕ
  pub idle_timeout : ℕ
  pub history : List String

abbrev pub new_manager : ℕ → SessionManager
new_manager idle_timeout = record {
  current = none;
  generation = 0;
  idle_timeout = idle_timeout;
  history = [];
}

-- `session_id` is `None` or a text.
abbrev pub id_is : Option String → String → Bool
id_is none id = false
id_is (some got) id = str_eq got id

abbrev current_is : Option Session → Option String → Bool
current_is none id = false
current_is (some s) id = id_is id s.session_id

unfoldable pub is_current : SessionManager → Option String → Bool
is_current m id = current_is m.current id

abbrev pub live_or : Option Session → ProtocolError → Result Session
live_or none e = raise e
live_or (some s) e = if is_live s then ok s else raise e

unfoldable pub require : SessionManager → Result Session
require m = live_or m.current (
    error_next e_not_ready "当前没有可用的 Session" ("generation" ⇒ nat m.generation ⨾ end)
      "等待 Runtime 建立 Session，或检查目标 App 是否已启动")

abbrev id_value : Option String → Json
id_value none = null
id_value (some id) = str id

matching : Option String → Session → Result Session
matching id sess =
    if id_is id sess.session_id
    then ok sess
    else raise (
        error_next e_session_stale "session_id 已失效（重连后旧 Session 不恢复）"
          ("got" ⇒ id_value id ⨾ "current" ⇒ str sess.session_id ⨾ end)
          "重新 session.list 获取新 Session")

unfoldable pub require_matching : SessionManager → Option String → Result Session
unfolding require matching
require_matching m id = do sess ← require m; matching id sess

-- `_retire`: the id goes to the history, and the object gets its last state.
unfoldable pub retire : SessionManager → Session → SessionState → SessionManager × Session
retire m s state =
    (record m { history = m.history ++ s.session_id ∷ [] }, record s { state = state })

unfoldable pub retire_current : SessionManager → Option Session → SessionState → SessionManager
retire_current m none state = m
retire_current m (some s) state = (retire m s state).0

unfoldable pub open_session : SessionManager → String → SessionState → Fields → ℕ → SessionManager
unfolding retire retire_current
open_session m session_id state capabilities now =
    let m' = retire_current m m.current closed in
    record m' {
      current = some (record {
        session_id = session_id;
        generation = m'.generation + 1;
        state = state;
        capabilities = capabilities;
        created_at = now;
        last_activity = now;
      });
      generation = m'.generation + 1;
    }

with_state : Option Session → SessionState → Option Session
with_state none state = none
with_state (some s) state = some (record s { state = state })

unfoldable pub degrade : SessionManager → SessionManager
unfolding with_state
degrade m = record m { current = with_state m.current degraded }

unfoldable pub close_session : SessionManager → SessionState → SessionManager
unfolding retire retire_current
close_session m state = record (retire_current m m.current state) { current = none }

abbrev idle_over : Option Session → ℕ → ℕ → Bool
idle_over none now limit = false
idle_over (some s) now limit = not (leb (idle s now) limit)

-- The new manager, and whether a session was closed.
unfoldable pub sweep : SessionManager → ℕ → SessionManager × Bool
unfolding close_session
sweep m now =
    if idle_over m.current now m.idle_timeout then (close_session m closed, true) else (m, false)

touch_current : Option Session → ℕ → Option Session
touch_current none now = none
touch_current (some s) now = some (touched s now)

unfoldable pub touch : SessionManager → ℕ → SessionManager
unfolding touch_current
touch m now = record m { current = touch_current m.current now }

-- The calls that change the manager, as a history of it is made of.
pub data Op : Type 0 where
  opens : String → SessionState → Fields → ℕ → Op
  degrades : Op
  closes : SessionState → Op
  sweeps touches : ℕ → Op

abbrev pub step : SessionManager → Op → SessionManager
step m (opens id state capabilities now) = open_session m id state capabilities now
step m degrades = degrade m
step m (closes state) = close_session m state
step m (sweeps now) = (sweep m now).0
step m (touches now) = touch m now

unfoldable pub run : SessionManager → List Op → SessionManager
run m [] = m
run m (o ∷ os) = run (step m o) os
