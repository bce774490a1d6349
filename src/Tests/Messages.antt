-- ===== src/Tests/Messages.antt =====
-- Messages that are built and checked.
use zygisk_frida_packet_tcp.Base.{String, ◌≡◌, refl, true, false, ◌⊎◌, none, some, List, mem_text}
use zygisk_frida_packet_tcp.Json.{str, Fields, end, ◌⇒◌⨾◌, get?, truthy, has}
use zygisk_frida_packet_tcp.Protocol.Errors.{
  ok, Raises, returns, e_unknown_cmd, error_protocol_version,
}
use zygisk_frida_packet_tcp.Protocol.Commands.{is_known}
use zygisk_frida_packet_tcp.Protocol.Messages.{make_request, EventArgs, make_ping}
use zygisk_frida_packet_tcp.Protocol.Messages.Check.{
  validate, required_fields, check_by_type, check_protocol_version, protocol_version_of,
}
use zygisk_frida_packet_tcp.Protocol.Messages.Built.{
  ping, build, validate-build, validate-make_request,
}
use zygisk_frida_packet_tcp.Protocol.Messages.Sound.{validate_exact}

validate-build_example : validate (build (ping 7 100)) true ≡ returns "PING"
validate-build_example = validate-build (ping 7 100)

validate-make_request_example :
    ((is_known "memory.read" ≡ true)
      × (m : Fields) × (make_request "memory.read" none "s1" none "r1" 5 ≡ ok m)
      × (validate m true ≡ returns "REQUEST"))
    ⊎ ((is_known "memory.read" ≡ false)
        × Raises (make_request "memory.read" none "s1" none "r1" 5) e_unknown_cmd)
validate-make_request_example = validate-make_request "memory.read" "s1" "r1" none none 5

abbrev installed : EventArgs
installed = record {
  event_type = "HOOK_INSTALLED";
  session_id = "s1";
  source = "runtime";
  payload = none;
  pid = some 10;
  tid = none;
  event_id = none;
  timestamp = none;
}

validate_exact_example :
    (get? (make_ping 7 100) "type" ≡ some (str "PING"))
    × (required : List String) × (required_fields "PING" ≡ some required)
    × ((k : String) → has (make_ping 7 100) k ≡ mem_text k required)
    × (check_by_type "PING" (make_ping 7 100) ≡ returns tt)
validate_exact_example = validate_exact (make_ping 7 100) "PING" (validate-build (ping 7 100))

abbrev old_hello : Fields
old_hello = "protocol" ⇒ str "0.9" ⨾ end

-- An old version is refused.
old_refused : Raises (check_protocol_version old_hello "1.0") error_protocol_version
unfolding check_protocol_version protocol_version_of get? truthy
old_refused = refl
