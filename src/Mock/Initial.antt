-- ===== src/Mock/Initial.antt =====
-- mock/state.py: the state that `MockRuntimeState()` builds, at the time `now`, and what `status`
-- reports.
use zygisk_frida_packet_tcp.Base.{
  ℕ, zero, suc, ◌+◌, ◌-◌, String, Bool, true, false, List, [], ◌∷◌, ◌++◌, fstring, keep, str_eq,
  length, ascii_bytes,
}
use zygisk_frida_packet_tcp.Json.{bool, nat, str, obj, Fields, end, ◌⇒◌⨾◌}
use zygisk_frida_packet_tcp.Protocol.Constants.{SessionState, state_value, runtime_ready, running}
use zygisk_frida_packet_tcp.Protocol.Frame.{Bytes}
use zygisk_frida_packet_tcp.Mock.Device.{MockThread, MockConnection, MockPacket}
use zygisk_frida_packet_tcp.Mock.State.{MockModule, MockHook, MockRuntimeState}

abbrev pub target_package : String
target_package = "com.example.target"

abbrev pub target_pid : ℕ
target_pid = 18342

abbrev pub target_uid : ℕ
target_uid = 10234

abbrev mapped : String → String → ℕ → ℕ → MockModule
mapped name path base size = record {
  name = name;
  path = path;
  base = base;
  size = size;
  permissions = "r-xp";
}

abbrev modules_of : String → List MockModule
modules_of package_name =
    mapped "libc.so" "/apex/com.android.runtime/lib64/bionic/libc.so" 523986010112 2097152
    ∷ mapped "libart.so" "/apex/com.android.art/lib64/libart.so" 524522881024 8388608
    ∷ mapped "libgame.so" (fstring ("/data/app/" ∷ package_name ∷ "/lib/arm64/libgame.so" ∷ []))
        525044809728 4194304
    ∷ mapped "libnetwork.so"
        (fstring ("/data/app/" ∷ package_name ∷ "/lib/arm64/libnetwork.so" ∷ [])) 525328187392
        1572864
    ∷ []

abbrev thread : ℕ → String → String → MockThread
thread tid name state = record { tid = tid; name = name; state = state }

abbrev threads_of : ℕ → List MockThread
threads_of pid =
    thread pid "main" "R"
    ∷ thread (pid + 8) "Jit thread pool" "S"
    ∷ thread (pid + 9) "Signal Catcher" "S"
    ∷ thread (pid + 18) "RenderThread" "S"
    ∷ []

-- The default of a connection's pid is the constant, not the pid of the state.
abbrev connection : String → String → String → MockConnection
connection id local remote = record {
  connection_id = id;
  protocol = "TCP";
  local = local;
  remote = remote;
  state = "ESTABLISHED";
  pid = target_pid;
}

abbrev crlf : Bytes
crlf = 13 ∷ 10 ∷ []

abbrev packet : String → String → ℕ → Bytes → ℕ → MockPacket
packet id direction size payload now = record {
  packet_id = id;
  direction = direction;
  protocol = "TCP";
  length = size;
  connection_id = "conn_0000000000f1";
  payload = payload;
  timestamp = now;
}

-- `bytes(range(64))`.
abbrev range_from : ℕ → ℕ → Bytes
range_from zero k = []
range_from (suc n) k = k ∷ range_from n (k + 1)

abbrev block : Bytes
block = ascii_bytes "AI-ANALYZER-MOCK-BLOCK-"

abbrev default_capabilities : Fields
default_capabilities =
    "runtime"
    ⇒ obj (
        "native_hook"
        ⇒ bool true ⨾ "java_hook"
        ⇒ bool true ⨾ "memory_read"
        ⇒ bool true ⨾ "memory_write"
        ⇒ bool true ⨾ "stacktrace"
        ⇒ bool true ⨾ end) ⨾
      "network"
    ⇒ obj (
        "capture"
        ⇒ bool true ⨾ "http"
        ⇒ bool true ⨾ "https_capture"
        ⇒ bool true ⨾ "https_decrypt"
        ⇒ bool false ⨾ "packet_intercept"
        ⇒ bool true ⨾ end) ⨾
      end

-- The times are the clock of `started_at` and the wall clock of the packets.
abbrev pub new_state : String → ℕ → ℕ → String → ℕ → ℕ → ℕ → MockRuntimeState
new_state package_name pid uid abi sdk clock now = record {
  package_name = package_name;
  pid = pid;
  uid = uid;
  abi = abi;
  sdk = sdk;
  started_at = clock;
  state = running;
  threads = threads_of pid;
  connections =
      connection "conn_0000000000f1" "10.0.0.5:41234" "93.184.216.34:443"
      ∷ connection "conn_0000000000f2" "10.0.0.5:41240" "8.8.8.8:53"
      ∷ [];
  packets =
      packet "pkt_0000000000e1" "outbound" 384
        (ascii_bytes "POST /login HTTP/1.1"
          ++ (crlf ++ (ascii_bytes "Host: api.example.com" ++ (crlf ++ crlf))))
        now
      ∷ packet "pkt_0000000000e2" "inbound" 128
          (ascii_bytes "HTTP/1.1 200 OK"
            ++ (crlf ++ (ascii_bytes "Content-Length: 2" ++ (crlf ++ (crlf ++ ascii_bytes "{}")))))
          now
      ∷ [];
  capabilities = default_capabilities;
  modules = modules_of package_name;
  memory =
      (525044809728, 127 ∷ 69 ∷ 76 ∷ 70 ∷ 2 ∷ 1 ∷ 1 ∷ 0 ∷ [])
      ∷ (525044813824, range_from 64 0)
      ∷ (525044817920, block ++ (block ++ (block ++ block)))
      ∷ [];
  hooks = [];
  jobs = [];
}

abbrev pub default_state : ℕ → ℕ → MockRuntimeState
default_state clock now = new_state target_package target_pid target_uid "arm64-v8a" 34 clock now

abbrev pub uptime_ms : MockRuntimeState → ℕ → ℕ
uptime_ms st clock = clock - st.started_at

abbrev pub is_up : SessionState → Bool
is_up runtime_ready = true
is_up running = true
is_up _ = false

abbrev pub active_hooks : List MockHook → List MockHook
active_hooks hooks = keep (λ (h : MockHook). str_eq h.status "active") hooks

unfoldable pub status : MockRuntimeState → ℕ → Fields
status st clock =
    "state"
    ⇒ str (state_value st.state) ⨾ "pid"
    ⇒ nat st.pid ⨾ "package"
    ⇒ str st.package_name ⨾ "abi"
    ⇒ str st.abi ⨾ "sdk"
    ⇒ nat st.sdk ⨾ "uptime_ms"
    ⇒ nat (uptime_ms st clock) ⨾ "runtime_ready"
    ⇒ bool (is_up st.state) ⨾ "network_ready"
    ⇒ bool true ⨾ "hooks_active"
    ⇒ nat (length (active_hooks st.hooks)) ⨾ "modules_count"
    ⇒ nat (length st.modules) ⨾ "threads_count"
    ⇒ nat (length st.threads) ⨾ "connections_count"
    ⇒ nat (length st.connections) ⨾ "packets_count"
    ⇒ nat (length st.packets) ⨾ end
