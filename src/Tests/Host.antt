-- ===== src/Tests/Host.antt =====
-- The gates, the calls of the tools, endpoints, errors and the forwarding on concrete inputs.
use zygisk_frida_packet_tcp.Base.{
  String, ◌≡◌, refl, true, none, some, List, [], ◌∷◌, pos, mem_text, keep, decimal,
}
use zygisk_frida_packet_tcp.Json.{truthy, bool, obj, end, ◌⇒◌⨾◌, get?}
use zygisk_frida_packet_tcp.Protocol.Errors.{ok, returns, error, e_timeout}
use zygisk_frida_packet_tcp.Protocol.Commands.{is_known}
use zygisk_frida_packet_tcp.Bridge.Session.{Session, require}
use zygisk_frida_packet_tcp.Bridge.Client.{Client}
use zygisk_frida_packet_tcp.Bridge.Calls.{is_linked}
use zygisk_frida_packet_tcp.Bridge.Transport.{parse_endpoint, after_prefix}
use zygisk_frida_packet_tcp.Bridge.Transport.Parsed.{Parses, parse_endpoint-Parses}
use zygisk_frida_packet_tcp.Host.RuntimeBridge.{gate, session_gaps, granted}
use zygisk_frida_packet_tcp.Host.RuntimeBridge.Gates.{Allowed, gate-Allowed}
use zygisk_frida_packet_tcp.Host.ErrorMapping.{to_mcp_exception}
use zygisk_frida_packet_tcp.Host.ErrorMapping.Layers.{MappedBy, to_mcp_exception-MappedBy}
use zygisk_frida_packet_tcp.Host.Adb.{
  TextTools, Process, ends, has_text, tcp_text, list_args, forward_args, stripped_lines,
  ensure_forward, checked, run_adb, forward_list_of, hits_in,
}
use zygisk_frida_packet_tcp.Host.Adb.Verified.{ensure_forward-verified}
use zygisk_frida_packet_tcp.Tools.Spec.{ToolSpec}
use zygisk_frida_packet_tcp.Tools.Specs.{spec_by_name}
use zygisk_frida_packet_tcp.Tools.Handlers.Calls.{packet_hex, tool_of, request}
use zygisk_frida_packet_tcp.Tools.Handlers.Calls.Specified.{
  CallsFor, all_in, payload_names, property_names, request-specified,
}
use zygisk_frida_packet_tcp.Tests.Given.{client, session}

-- A session that declares that memory can be read.
abbrev reader : Session
reader = record session { capabilities = "runtime" ⇒ obj ("memory_read" ⇒ bool true ⨾ end) ⨾ end }

abbrev bridged : Client
bridged = record client { sessions = record client.sessions { current = some reader } }

passed : gate "" bridged "memory.read" ≡ returns "memory.read"
unfolding gate require spec_by_name session_gaps granted truthy get?
passed = refl

gate-Allowed_example :
    (is_linked bridged.link ≡ true)
    × (sess : Session) × (require bridged.sessions ≡ ok sess)
    × Allowed "memory.read" sess "memory.read" (spec_by_name "memory.read")
gate-Allowed_example = gate-Allowed "" bridged "memory.read" "memory.read" passed

request-specified_example :
    (spec : ToolSpec) × (spec_by_name (tool_of (packet_hex "p1" (pos 0) (pos 16))) ≡ some spec)
    × CallsFor (packet_hex "p1" (pos 0) (pos 16)) spec
    × (is_known (request (packet_hex "p1" (pos 0) (pos 16))).0 ≡ true)
    × (all_in
          (payload_names (request (packet_hex "p1" (pos 0) (pos 16))).1)
          (property_names spec.input_schema)
        ≡ true)
request-specified_example = request-specified (packet_hex "p1" (pos 0) (pos 16))

parse_endpoint-Parses_example :
    Parses "tcp:127.0.0.1:60500" (parse_endpoint (λ s. some (pos 60500)) "tcp:127.0.0.1:60500")
parse_endpoint-Parses_example = parse_endpoint-Parses (λ s. some (pos 60500)) "tcp:127.0.0.1:60500"

to_mcp_exception-MappedBy_example :
    MappedBy
      (λ fs. "")
      (error e_timeout "late" end)
      (to_mcp_exception (λ fs. "") (error e_timeout "late" end))
to_mcp_exception-MappedBy_example =
    to_mcp_exception-MappedBy (λ fs. "") (error e_timeout "late" end)

-- Texts in lower case, of one line.
abbrev plain_tools : TextTools
plain_tools = record {
  lower = λ s. s;
  strip = λ s. s;
  split_lines = λ s. s ∷ [];
  words = λ s. s ∷ [];
}

-- Every run of adb ends well and prints one mapping.
abbrev prints : List String → Process
prints args = ends (pos 0) "emulator tcp:60500 tcp:60500" ""

verified : (ensure_forward plain_tools "adb" "15.0" prints 60500 60500 none).verified ≡ true
unfolding ensure_forward checked run_adb forward_list_of stripped_lines hits_in has_text
    after_prefix keep decimal
verified = refl

-- A mapping of another port, of which the asked one is the beginning, counts as well.
verified_prefix : (ensure_forward plain_tools "adb" "15.0" prints 6050 6050 none).verified ≡ true
unfolding ensure_forward checked run_adb forward_list_of stripped_lines hits_in has_text
    after_prefix keep decimal
verified_prefix = refl

ensure_forward-verified_example :
    (out : String) × (err : String) × (listed : String) × (err' : String) × (prints
        ("adb" ∷ forward_args plain_tools "adb" "15.0" prints 60500 60500 none)
      ≡ ends (pos 0) out err)
    × (prints ("adb" ∷ list_args none) ≡ ends (pos 0) listed err')
    × (line : String) × (has_text (tcp_text 60500) line ≡ true)
    × (mem_text line (stripped_lines plain_tools "adb" "15.0" prints (listed ∷ [])) ≡ true)
ensure_forward-verified_example =
    ensure_forward-verified plain_tools "adb" "15.0" prints 60500 60500 none verified
