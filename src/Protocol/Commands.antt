-- ===== src/Protocol/Commands.antt =====
-- protocol/commands.py: the register of commands, FAST or JOB, and the test for a guarded write.
pub mod Table
use zygisk_frida_packet_tcp.Base.{
  ℕ, String, Bool, true, false, ◌||◌, Option, none, some, List, [], ◌∷◌, str_eq, if◌then◌else◌,
  mem_text, keep, map,
}
use zygisk_frida_packet_tcp.Json.{Fields, end, ◌⇒◌⨾◌, get, truthy, is_some}
use zygisk_frida_packet_tcp.Protocol.Constants.{
  CommandClass, fast, job, fast_command_timeout, job_command_timeout,
}

pub record CommandSpec : Type 0 where
  pub name : String
  pub cls : CommandClass
  pub category : String
  pub writes : Bool
  pub destructive : Bool
  pub spec_source : Bool

abbrev class_timeout : CommandClass → ℕ
class_timeout fast = fast_command_timeout
class_timeout job = job_command_timeout

abbrev pub timeout : CommandSpec → ℕ
timeout s = class_timeout s.cls

abbrev fast_specified : List String
fast_specified =
    "process.list" ∷ "process.info" ∷ "runtime.status" ∷ "memory.read" ∷ "network.connections"
    ∷ "network.dns" ∷ "packet.get" ∷ []

abbrev job_specified : List String
job_specified =
    "memory.dump" ∷ "packet.export" ∷ "apk.decompile" ∷ "network.capture_start" ∷ "runtime.trace"
    ∷ []

-- `_spec(name, cls, category, writes, destructive)`.
spec : String → CommandClass → String → Bool → Bool → CommandSpec
spec name cls category writes destructive = record {
  name = name;
  cls = cls;
  category = category;
  writes = writes;
  destructive = destructive;
  spec_source = mem_text name fast_specified || mem_text name job_specified;
}

unfoldable pub all_specs : List CommandSpec
unfolding spec
all_specs =
    spec "device.list" fast "device" false false
    ∷ spec "device.info" fast "device" false false
    ∷ spec "device.root_status" fast "device" false false
    ∷ spec "device.shell" job "device" true true
    ∷ spec "device.reboot" job "device" true true
    ∷ spec "apk.list" fast "apk" false false
    ∷ spec "apk.install" job "apk" true false
    ∷ spec "apk.uninstall" job "apk" true true
    ∷ spec "apk.launch" job "apk" true false
    ∷ spec "apk.stop" job "apk" true false
    ∷ spec "apk.manifest" job "apk" false false
    ∷ spec "apk.permissions" job "apk" false false
    ∷ spec "apk.decompile" job "apk" false false
    ∷ spec "apk.search" job "apk" false false
    ∷ spec "session.list" fast "session" false false
    ∷ spec "session.info" fast "session" false false
    ∷ spec "session.capabilities" fast "session" false false
    ∷ spec "process.list" fast "process" false false
    ∷ spec "process.info" fast "process" false false
    ∷ spec "process.threads" fast "process" false false
    ∷ spec "process.modules" fast "process" false false
    ∷ spec "runtime.status" fast "runtime" false false
    ∷ spec "runtime.attach" job "runtime" true false
    ∷ spec "runtime.enumerate_classes" job "runtime" false false
    ∷ spec "runtime.enumerate_methods" job "runtime" false false
    ∷ spec "runtime.enumerate_modules" fast "runtime" false false
    ∷ spec "runtime.hook" fast "runtime" true false
    ∷ spec "runtime.unhook" fast "runtime" true false
    ∷ spec "runtime.hook_enable" fast "runtime" true false
    ∷ spec "runtime.hook_disable" fast "runtime" true false
    ∷ spec "runtime.hook_info" fast "runtime" false false
    ∷ spec "runtime.trace" job "runtime" true false
    ∷ spec "runtime.stacktrace" fast "runtime" false false
    ∷ spec "memory.maps" fast "memory" false false
    ∷ spec "memory.read" fast "memory" false false
    ∷ spec "memory.write" fast "memory" true false
    ∷ spec "memory.search" job "memory" false false
    ∷ spec "memory.dump" job "memory" false false
    ∷ spec "memory.compare" job "memory" false false
    ∷ spec "memory.pointer_scan" job "memory" false false
    ∷ spec "network.capture_start" job "network" true false
    ∷ spec "network.capture_stop" job "network" true false
    ∷ spec "network.connections" fast "network" false false
    ∷ spec "network.dns" fast "network" false false
    ∷ spec "network.http" fast "network" false false
    ∷ spec "network.https" fast "network" false false
    ∷ spec "network.websocket" fast "network" false false
    ∷ spec "network.intercept_start" job "network" true false
    ∷ spec "network.intercept_stop" job "network" true false
    ∷ spec "packet.list" fast "packet" false false
    ∷ spec "packet.get" fast "packet" false false
    ∷ spec "packet.hex" fast "packet" false false
    ∷ spec "packet.decode" job "packet" false false
    ∷ spec "packet.filter" fast "packet" false false
    ∷ spec "packet.modify" job "packet" true false
    ∷ spec "packet.intercept" job "packet" true false
    ∷ spec "packet.forward" fast "packet" true false
    ∷ spec "packet.drop" fast "packet" true true
    ∷ spec "packet.replay" job "packet" true false
    ∷ spec "packet.export" job "packet" false false
    ∷ spec "rule.create" fast "automation" true false
    ∷ spec "rule.delete" fast "automation" true false
    ∷ spec "rule.list" fast "automation" false false
    ∷ spec "breakpoint.create" fast "automation" true false
    ∷ spec "breakpoint.remove" fast "automation" true false
    ∷ spec "workflow.create" fast "automation" true false
    ∷ spec "workflow.run" job "automation" true false
    ∷ spec "workflow.stop" fast "automation" true false
    ∷ spec "analysis.correlate" job "analysis" false false
    ∷ spec "analysis.trace_request" job "analysis" false false
    ∷ spec "analysis.find_callers" job "analysis" false false
    ∷ spec "analysis.find_network_source" job "analysis" false false
    ∷ spec "analysis.report" job "analysis" false false
    ∷ spec "artifact.get" fast "artifact" false false
    ∷ spec "artifact.list" fast "artifact" false false
    ∷ spec "artifact.export" job "artifact" false false
    ∷ spec "job.status" fast "job" false false
    ∷ spec "job.result" fast "job" false false
    ∷ spec "job.cancel" fast "job" true true
    ∷ []

unfoldable pub find_spec : List CommandSpec → String → Option CommandSpec
find_spec [] name = none
find_spec (s ∷ ss) name = if str_eq s.name name then some s else find_spec ss name

-- `COMMANDS.get(name)`; the names are distinct.
unfoldable pub find_command : String → Option CommandSpec
unfolding find_spec all_specs
find_command name = find_spec all_specs name

unfoldable pub is_known : String → Bool
unfolding find_command
is_known name = is_some (find_command name)

abbrev of_class : Option CommandSpec → Option CommandClass
of_class none = none
of_class (some s) = some s.cls

unfoldable pub command_class : String → Option CommandClass
unfolding find_command
command_class name = of_class (find_command name)

abbrev is_fast : CommandClass → Bool
is_fast fast = true
is_fast job = false

unfoldable pub fast_commands : List String
unfolding all_specs keep
fast_commands = map (λ s. s.name) (keep (λ s. is_fast s.cls) all_specs)

abbrev is_job : CommandClass → Bool
is_job fast = false
is_job job = true

unfoldable pub job_commands : List String
unfolding all_specs keep
job_commands = map (λ s. s.name) (keep (λ s. is_job s.cls) all_specs)

unfoldable pub by_category : String → List CommandSpec
unfolding all_specs keep
by_category category = keep (λ s. str_eq s.category category) all_specs

abbrev pub write_guarded_commands : List String
write_guarded_commands = "memory.write" ∷ "packet.modify" ∷ []

abbrev pub write_intent_flags : List String
write_intent_flags = "modify" ∷ "modify_arguments" ∷ "modify_return" ∷ "write" ∷ "confirm" ∷ []

-- `any(payload.get(flag) for flag in flags)`.
any_flag : List String → Fields → Bool
any_flag [] payload = false
any_flag (f ∷ fs) payload = truthy (get payload f) || any_flag fs payload

-- `payload=None` is the empty payload: neither is truthy.
unfoldable pub is_write_guarded : String → Fields → Bool
unfolding any_flag mem_text
is_write_guarded name payload =
    if mem_text name write_guarded_commands then true else any_flag write_intent_flags payload
