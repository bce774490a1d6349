-- ===== src/Protocol/Constants.antt =====
-- protocol/constants.py: the constants and the enumerations that the other modules use.
use zygisk_frida_packet_tcp.Base.{
  ℕ, ◌*◌, String, List, [], ◌∷◌, ◌++◌, Option, none, some, str_eq, if◌then◌else◌, ◌≡◌, refl,
}

abbrev pub protocol_version : String
protocol_version = "1.0"

abbrev pub server_name : String
server_name = "ai-analyzer"

abbrev pub server_version : String
server_version = "1.0.0"

abbrev pub client_name : String
client_name = "mcp-server"

abbrev pub client_version : String
client_version = "1.0.0"

abbrev pub frame_header_size : ℕ
frame_header_size = 4

-- 8 MiB, `8 * 1024 * 1024`.
abbrev pub frame_max_payload : ℕ
frame_max_payload = 8 * 1024 * 1024

-- Times are in seconds.
abbrev pub heartbeat_interval : ℕ
heartbeat_interval = 5

abbrev pub heartbeat_timeout : ℕ
heartbeat_timeout = 30

abbrev pub fast_command_timeout : ℕ
fast_command_timeout = 10

abbrev pub job_command_timeout : ℕ
job_command_timeout = 300

abbrev pub session_idle_timeout : ℕ
session_idle_timeout = 600

abbrev pub reconnect_backoff : List ℕ
reconnect_backoff = 1 ∷ 2 ∷ 4 ∷ 8 ∷ 16 ∷ 30 ∷ []

abbrev pub reconnect_backoff_max : ℕ
reconnect_backoff_max = 30

abbrev pub max_resident_tools : ℕ
max_resident_tools = 25

abbrev pub max_tools_hard_limit : ℕ
max_tools_hard_limit = 45

-- The nine values of `MessageType`.
abbrev pub message_types : List String
message_types =
    "HELLO" ∷ "HELLO_ACK" ∷ "READY" ∷ "REQUEST" ∷ "RESPONSE" ∷ "EVENT" ∷ "PING" ∷ "PONG" ∷ "ERROR"
    ∷ []

pub data CommandClass : Type 0 where
  fast job : CommandClass

abbrev pub class_value : CommandClass → String
class_value fast = "FAST"
class_value job = "JOB"

pub data SessionState : Type 0 where
  created starting runtime_ready network_ready running paused stopping closed degraded failed
        errored :
      SessionState

abbrev pub state_value : SessionState → String
state_value created = "CREATED"
state_value starting = "STARTING"
state_value runtime_ready = "RUNTIME_READY"
state_value network_ready = "NETWORK_READY"
state_value running = "RUNNING"
state_value paused = "PAUSED"
state_value stopping = "STOPPING"
state_value closed = "CLOSED"
state_value degraded = "DEGRADED"
state_value failed = "FAILED"
state_value errored = "ERROR"

abbrev pub all_states : List SessionState
all_states =
    created ∷ starting ∷ runtime_ready ∷ network_ready ∷ running ∷ paused ∷ stopping ∷ closed
    ∷ degraded ∷ failed ∷ errored ∷ []

find_state : List SessionState → String → Option SessionState
find_state [] raw = none
find_state (s ∷ ss) raw = if str_eq (state_value s) raw then some s else find_state ss raw

-- `SessionState(raw)`, if `raw` is one of the values.
unfoldable pub state_of_value : String → Option SessionState
unfolding find_state
state_of_value raw = find_state all_states raw

pub state_of_value-state_value : (s : SessionState) → state_of_value (state_value s) ≡ some s
unfolding state_of_value
state_of_value-state_value created = refl
state_of_value-state_value _ = refl

pub data LinkState : Type 0 where
  disconnected connecting connected degraded_link : LinkState

abbrev pub link_value : LinkState → String
link_value disconnected = "DISCONNECTED"
link_value connecting = "CONNECTING"
link_value connected = "CONNECTED"
link_value degraded_link = "DEGRADED"

abbrev pub event_types_p0 : List String
event_types_p0 =
    "PROCESS_STARTED" ∷ "AGENT_CONNECTED" ∷ "RUNTIME_READY" ∷ "MODULE_LOADED" ∷ "THREAD_CREATED"
    ∷ "HOOK_ENTER" ∷ "HOOK_LEAVE" ∷ "NETWORK_CONNECTED" ∷ "HTTP_REQUEST" ∷ "HTTP_RESPONSE"
    ∷ "PACKET_CAPTURED" ∷ []

abbrev pub event_types_p1 : List String
event_types_p1 =
    "DEX_LOADED" ∷ "CLASS_LOADED" ∷ "JNI_CALL" ∷ "SO_LOADED" ∷ "MEMORY_CHANGED" ∷ "WEBSOCKET_FRAME"
    ∷ "HOOK_INSTALLED" ∷ "PACKET_MODIFIED" ∷ "PACKET_REPLAYED" ∷ []

abbrev pub event_types : List String
event_types = event_types_p0 ++ event_types_p1

abbrev pub capability_keys_runtime : List String
capability_keys_runtime =
    "native_hook" ∷ "java_hook" ∷ "memory_read" ∷ "memory_write" ∷ "stacktrace" ∷ []

abbrev pub capability_keys_network : List String
capability_keys_network =
    "capture" ∷ "http" ∷ "https_capture" ∷ "https_decrypt" ∷ "packet_intercept" ∷ []
