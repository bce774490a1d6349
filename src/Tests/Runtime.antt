-- ===== src/Tests/Runtime.antt =====
-- The stand-in for a device: a state with one module, and what it answers.
use zygisk_frida_packet_tcp.Base.{
  ◌+◌, ◌≤◌, ◌<◌, ◌≡◌, refl, ◌⊎◌, true, false, none, some, [], ◌∷◌, String, length, pos, All,
}
use mathlib.Core.List.{Memᴰ}
use zygisk_frida_packet_tcp.Json.{str}
use zygisk_frida_packet_tcp.Protocol.Errors.{ok, Raises, e_not_found}
use zygisk_frida_packet_tcp.Protocol.Frame.{Bytes}
use zygisk_frida_packet_tcp.Mock.Initial.{default_state}
use zygisk_frida_packet_tcp.Mock.State.{
  MockModule, MockHook, MockJob, MockRuntimeState, is_running, contains, first_containing,
  find_module, module_for_address, is_readable, bytes_at, padded, read_in, read_memory, max_read,
  find_hook, new_hook, create_hook, find_job, advance_jobs,
}
use zygisk_frida_packet_tcp.Mock.State.Reads.{read_memory_mapped}
use zygisk_frida_packet_tcp.Mock.State.Jobs.{advance_jobs_end}
use zygisk_frida_packet_tcp.Mock.State.Hooks.{create_hook_cases}

abbrev libc : MockModule
libc = record {
  name = "libc.so";
  path = "/lib/libc.so";
  base = 4096;
  size = 8192;
  permissions = "r-xp";
}

abbrev half_done : MockJob
half_done = record {
  job_id = "job_1";
  command = "memory.dump";
  state = "running";
  progress = 500;
  created_at = 0;
  outcome = none;
}

abbrev stopped : MockJob
stopped = record half_done { job_id = "job_2"; state = "cancelled" }

abbrev device : MockRuntimeState
device = record (default_state 0 0) {
  modules = libc ∷ [];
  memory = (4096, 127 ∷ 69 ∷ 76 ∷ 70 ∷ []) ∷ [];
  hooks = [];
  jobs = half_done ∷ stopped ∷ [];
}

reads_four : read_memory device (pos 4096) (pos 4) ≡ ok (127 ∷ 69 ∷ 76 ∷ 70 ∷ [])
unfolding read_memory read_in module_for_address first_containing is_readable bytes_at padded
reads_four = refl

reads_six : read_memory device (pos 4096) (pos 6) ≡ ok (127 ∷ 69 ∷ 76 ∷ 70 ∷ 0 ∷ 0 ∷ [])
unfolding read_memory read_in module_for_address first_containing is_readable bytes_at padded
reads_six = refl

abbrev six : Bytes
six = 127 ∷ 69 ∷ 76 ∷ 70 ∷ 0 ∷ 0 ∷ []

read_memory_mapped_example :
    (pos 6 ≡ pos (length six))
    × (0 < length six)
    × (length six ≤ max_read)
    × (m : MockModule) × Memᴰ m device.modules
    × (contains m (pos 4096) (length six) ≡ true)
    × (is_readable m.permissions ≡ true)
read_memory_mapped_example = read_memory_mapped device (pos 4096) (pos 6) six reads_six

advance_jobs_end_example : All (λ j. is_running j ≡ false) (advance_jobs (advance_jobs device)).jobs
advance_jobs_end_example = advance_jobs_end device

stopped_found : find_job device.jobs "job_2" ≡ some stopped
unfolding find_job
stopped_found = refl

create_hook_cases_example :
    ((m : MockModule) × (find_module device (str "libc.so") ≡ some m)
      × (st' : MockRuntimeState) × (hook : MockHook) × (create_hook device
            (str "libc.so")
            (str "0x1000")
          ≡ ok (st', hook))
      × (hook ≡ new_hook (length device.hooks + 1) m.name (str "0x1000"))
      × (find_hook st'.hooks hook.hook_id ≡ some hook)
      × ((id : String)
          → (hook.hook_id ≡ id) ⊎ (find_hook st'.hooks id ≡ find_hook device.hooks id)))
    ⊎ ((find_module device (str "libc.so") ≡ none)
        × Raises (create_hook device (str "libc.so") (str "0x1000")) e_not_found)
create_hook_cases_example = create_hook_cases device (str "libc.so") (str "0x1000")
