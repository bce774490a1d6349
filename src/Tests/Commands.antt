-- ===== src/Tests/Commands.antt =====
-- Commands to the stand-in for a device.
use zygisk_frida_packet_tcp.Base.{String, ◌≡◌, refl, ◌⊎◌, some, [], ◌∷◌}
use zygisk_frida_packet_tcp.Json.{str, obj, Fields, end, ◌⇒◌⨾◌, get, get?}
use zygisk_frida_packet_tcp.Protocol.Errors.{returns, RaisesCode, e_not_ready}
use zygisk_frida_packet_tcp.Mock.Initial.{default_state}
use zygisk_frida_packet_tcp.Mock.State.{
  MockHook, MockJob, MockRuntimeState, mock_result, job_dict, find_hook, find_job, new_job,
}
use zygisk_frida_packet_tcp.Mock.Commands.{
  hook_dict, cmd_memory_dump, cmd_job_status, cmd_job_result, cmd_job_cancel, cmd_runtime_unhook,
  cmd_runtime_hook_info,
}
use zygisk_frida_packet_tcp.Mock.Commands.Polls.{job_cancel_any, memory_dump_polled}
use zygisk_frida_packet_tcp.Mock.Commands.Unhooks.{unhook_shown}

abbrev hook : MockHook
hook = record {
  hook_id = "hook_1";
  module_name = "libc.so";
  address = str "0x1000";
  status = "active";
  enter_count = 1;
  leave_count = 1;
}

abbrev completed : MockJob
completed = record {
  job_id = "job_1";
  command = "memory.dump";
  state = "completed";
  progress = 1000;
  created_at = 0;
  outcome = some mock_result;
}

abbrev device : MockRuntimeState
device = record (default_state 0 0) {
  modules = [];
  memory = [];
  hooks = hook ∷ [];
  jobs = completed ∷ [];
}

abbrev ask_job : String → Fields
ask_job id = "job_id" ⇒ str id ⨾ end

abbrev ask_hook : Fields
ask_hook = "hook_id" ⇒ str "hook_1" ⨾ end

asked : get (ask_job "job_1") "job_id" ≡ str "job_1"
unfolding get?
asked = refl

asked_new : get (ask_job "job_2") "job_id" ≡ str "job_2"
unfolding get?
asked_new = refl

asked_hook : get ask_hook "hook_id" ≡ str "hook_1"
unfolding get?
asked_hook = refl

job_found : find_job device.jobs "job_1" ≡ some completed
unfolding find_job
job_found = refl

hook_found : find_hook device.hooks "hook_1" ≡ some hook
unfolding find_hook
hook_found = refl

-- The completed job is cancelled all the same.
job_cancel_any_example :
    let gone : MockJob = record completed { state = "cancelled" } in
    let (st', reply) = cmd_job_cancel device (ask_job "job_1") 5 in
    (reply ≡ returns (job_dict gone 5))
    × (find_job st'.jobs "job_1" ≡ some gone)
    × ((cmd_job_status st' (ask_job "job_1") 9).1 ≡ returns (job_dict gone 9))
job_cancel_any_example =
    job_cancel_any (ask_job "job_1") "job_1" asked device completed 5 9 job_found

memory_dump_polled_example :
    let made = (new_job device "memory.dump" "job_2" 7).1 in
    let done : MockJob = record made {
      state = "completed";
      progress = 1000;
      outcome = some mock_result;
    } in
    let dumped = (cmd_memory_dump device end "job_2" 7).0 in
    let twice = cmd_job_status (cmd_job_status dumped (ask_job "job_2") 8).0 (ask_job "job_2") 9 in
    RaisesCode (cmd_job_result dumped (ask_job "job_2") 8).1 e_not_ready
    × (twice.1 ≡ returns (job_dict done 9))
    × ((cmd_job_result twice.0 (ask_job "job_2") 10).1 ≡ returns (job_dict done 10))
memory_dump_polled_example =
    memory_dump_polled (ask_job "job_2") "job_2" asked_new device end 7 8 9 10

unhook_shown_example :
    let gone : MockHook = record hook { status = "removed" } in
    let st' = (cmd_runtime_unhook device ask_hook).0 in
    (find_hook st'.hooks "hook_1" ≡ some gone)
    × ((other : String)
        → ("hook_1" ≡ other) ⊎ (find_hook st'.hooks other ≡ find_hook device.hooks other))
    × ((cmd_runtime_hook_info st' ask_hook).1 ≡ returns ("hook" ⇒ obj (hook_dict gone) ⨾ end))
unhook_shown_example = unhook_shown device ask_hook "hook_1" hook asked_hook refl hook_found
