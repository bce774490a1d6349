-- ===== src/Mock/Hooking.antt =====
-- mock/server.py: what a turn of a connection takes and gives, and `runtime.hook`, which sends events.
pub mod Valid
use zygisk_frida_packet_tcp.Base.{
  ℕ, ◌+◌, String, Bool, true, false, not, ◌||◌, none, some, List, [], ◌∷◌, sorted, if◌then◌else◌,
}
use zygisk_frida_packet_tcp.Json.{
  Json, bool, nat, str, obj, Fields, end, ◌⇒◌⨾◌, get, texts, truthy, keys,
}
use zygisk_frida_packet_tcp.Protocol.Errors.{
  error_next, e_bad_args, Result, ok, raise, Outcome, returns, raises,
}
use zygisk_frida_packet_tcp.Protocol.Frame.{JsonCodec, Bytes, encode_frame}
use zygisk_frida_packet_tcp.Protocol.Messages.{make_event}
use zygisk_frida_packet_tcp.Mock.State.{MockHook, MockRuntimeState, create_hook, put_hook}
use zygisk_frida_packet_tcp.Mock.Commands.{hook_dict}

-- What one turn of a connection takes from outside: its session and whether it answers a PING, the
-- ids that are drawn, the wall clock and the monotonic clock, and whether its socket refuses what is
-- sent (an `OSError`, which `send` takes for the end of the connection).
pub record Turn : Type 0 where
  pub session_id : String
  pub heartbeat_enabled : Bool
  pub job_id : String
  pub event_id : ℕ → String
  pub now : ℕ
  pub clock : ℕ
  pub broken : Bool

-- A command sends events, leaves a state, and ends in a payload or an error.
pub record Ran : Type 0 where
  pub events : List Fields
  pub state : MockRuntimeState
  pub result : Outcome Fields

-- A message that has a frame goes out, and then the others do.
unfoldable pub send_next :
    Fields → Result Bytes → List Fields × Result (Unit {0}) → List Fields × Result (Unit {0})
send_next m (ok frame) (ms, r) = (m ∷ ms, r)
send_next m (raise e) rest = ([], raise e)

-- The messages go out one by one, each by `_Connection.send`; one that cannot be made, or for which
-- `encode_frame` raises, ends them.
unfoldable pub send_all : JsonCodec → List (Result Fields) → List Fields × Result (Unit {0})
unfolding send_next
send_all codec [] = ([], ok tt)
send_all codec (ok m ∷ rs) = send_next m (encode_frame codec m false) (send_all codec rs)
send_all codec (raise x ∷ rs) = ([], raise x)

unfoldable pub runtime_event : Turn → MockRuntimeState → ℕ → String → Fields → ℕ → Result Fields
runtime_event t st k event_type payload tid =
    make_event
      (record {
        event_type = event_type;
        session_id = t.session_id;
        source = "runtime";
        payload = some payload;
        pid = some st.pid;
        tid = some tid;
        event_id = none;
        timestamp = none;
      })
      (t.event_id k) t.now

abbrev pub hook_entries : MockHook → Json → Json → Fields → Fields
hook_entries h module_name at rest =
    "hook_id" ⇒ str h.hook_id ⨾ "module" ⇒ module_name ⨾ "address" ⇒ at ⨾ rest

unfoldable pub hook_events : Turn → MockRuntimeState → MockHook → Json → Json → List (Result Fields)
hook_events t st h module_name at =
    runtime_event t st 0 "HOOK_INSTALLED" (hook_entries h module_name at end) st.pid
    ∷ runtime_event t st 1 "HOOK_ENTER"
        (hook_entries h module_name at ("arguments" ⇒ texts ("0x1" ∷ "0x7ffd12ab" ∷ []) ⨾ end))
        (st.pid + 8)
    ∷ runtime_event t st 2 "HOOK_LEAVE"
        (hook_entries h module_name at ("return_value" ⇒ str "0x0" ⨾ "duration_us" ⇒ nat 812 ⨾ end))
        (st.pid + 8)
    ∷ []

abbrev verified : Json
verified = obj ("accepted" ⇒ bool true ⨾ "executed" ⇒ bool true ⨾ "verified" ⇒ bool true ⨾ end)

hook_sent : MockRuntimeState → MockHook → List Fields × Result (Unit {0}) → Ran
hook_sent st h (sent, raise e) = record { events = sent; state = st; result = raises e }
hook_sent st h (sent, ok u) =
    let h' : MockHook = record h {
      enter_count = h.enter_count + 1;
      leave_count = h.leave_count + 1;
    } in
    record {
      events = sent;
      state = record st { hooks = put_hook st.hooks h' };
      result = returns (
          "hook"
          ⇒ obj (hook_dict h') ⨾ "execution"
          ⇒ verified ⨾ "events_observed"
          ⇒ texts ("HOOK_INSTALLED" ∷ "HOOK_ENTER" ∷ "HOOK_LEAVE" ∷ []) ⨾ "note"
          ⇒ str "verified 由真实 HOOK_ENTER / HOOK_LEAVE 事件支撑" ⨾ end);
    }

hook_made :
    JsonCodec → Turn → MockRuntimeState → Json → Json → Result (MockRuntimeState × MockHook) → Ran
unfolding hook_sent
hook_made codec t st module_name at (raise e) = record {
  events = [];
  state = st;
  result = raises e;
}
hook_made codec t st module_name at (ok (st', h)) =
    hook_sent st' h (send_all codec (hook_events t st' h module_name at))

unfoldable pub cmd_runtime_hook : JsonCodec → Turn → MockRuntimeState → Fields → Ran
unfolding hook_made
cmd_runtime_hook codec t st payload =
    let module_name = get payload "module" in
    let at = get payload "address" in
    if not (truthy module_name) || not (truthy at)
    then record {
      events = [];
      state = st;
      result = raises (
          error_next e_bad_args "runtime.hook 需要 module 与 address"
            ("got" ⇒ texts (sorted (keys payload)) ⨾ end) "先 process.modules 取模块名与基址，再算 address");
    }
    else hook_made codec t st module_name at (create_hook st module_name at)
