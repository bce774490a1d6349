-- ===== src/Mock/Commands.antt =====
-- mock/server.py: the commands on jobs and hooks. A command gives the new state, also where it
-- raises, and its payload. The `candidates` of an error and the text of an id that is no text are
-- as Python writes them up to nested values.
pub mod Polls
pub mod Unhooks
use zygisk_frida_packet_tcp.Base.{
  ℕ, String, Bool, true, false, Option, none, some, List, [], ◌∷◌, map, if◌then◌else◌, fstring,
  decimal_ℤ, sorted, length,
}
use zygisk_frida_packet_tcp.Json.{
  Json, Items, nil, cons, null, bool, int, milli, nat, str, arr, obj, Fields, end, ◌⇒◌⨾◌, get,
  or_else, truthy, texts,
}
use zygisk_frida_packet_tcp.Protocol.Errors.{
  error, error_next, e_not_found, e_not_ready, Outcome, returns, raises, crashes, bind, type_error,
}
use zygisk_frida_packet_tcp.Python.{shown}
use zygisk_frida_packet_tcp.Mock.State.{
  MockHook, MockJob, MockRuntimeState, is_running, job_dict, find_hook, put_hook, find_job, put_job,
  new_job, advance_jobs,
}

-- `table.get(key or "")`, where `table` looks a text up: a list or a dict that is not empty is no
-- key, and of what else is no text there is no entry.
unfoldable pub entry {ℓ} : {A : Type ℓ} → (String → Option A) → Json → Outcome (Option A)
entry table (str s) = returns (table s)
entry table (arr vs) = crashes type_error
entry table (obj fs) = crashes type_error
entry table _ = returns none

unfoldable pub known_job : MockRuntimeState → Json → Option MockJob → Outcome MockJob
known_job st id none = raises (
    error e_not_found (fstring ("Job 不存在：" ∷ shown id ∷ [])) (
      "job_id"
      ⇒ id ⨾ "candidates"
      ⇒ texts (sorted (map (λ (j : MockJob). j.job_id) st.jobs)) ⨾ end))
known_job st id (some j) = returns j

-- The lookup that the three commands on a job begin with.
unfoldable pub job_for : MockRuntimeState → Fields → Outcome MockJob
unfolding known_job entry
job_for st payload =
    let id = get payload "job_id" in
    bind (entry (find_job st.jobs) (or_else id (str ""))) (known_job st id)

unfoldable pub cmd_memory_dump :
    MockRuntimeState → Fields → String → ℕ → MockRuntimeState × Outcome Fields
cmd_memory_dump st payload fresh now =
    let (st', job) = new_job st "memory.dump" fresh now in
    (
      st',
      returns (
          "job_id"
          ⇒ str job.job_id ⨾ "state"
          ⇒ str job.state ⨾ "note"
          ⇒ str "JOB 命令：用 job.status 轮询，完成后 result 只给 metadata + sha256" ⨾ end),
    )

unfoldable pub cmd_job_status : MockRuntimeState → Fields → ℕ → MockRuntimeState × Outcome Fields
cmd_job_status st payload now =
    let st' = advance_jobs st in (st', bind (job_for st' payload) (λ j. returns (job_dict j now)))

ended_only : Json → ℕ → MockJob → Outcome Fields
ended_only id now j =
    if is_running j
    then raises (
        error_next e_not_ready (fstring ("Job 尚未完成：" ∷ shown id ∷ []))
          ("job_id" ⇒ id ⨾ "state" ⇒ str j.state ⨾ "progress" ⇒ milli j.progress ⨾ end)
          "继续轮询 job.status")
    else returns (job_dict j now)

unfoldable pub cmd_job_result : MockRuntimeState → Fields → ℕ → MockRuntimeState × Outcome Fields
unfolding ended_only
cmd_job_result st payload now =
    (st, bind (job_for st payload) (ended_only (get payload "job_id") now))

cancel_found : MockRuntimeState → ℕ → Outcome MockJob → MockRuntimeState × Outcome Fields
cancel_found st now (returns j) =
    let j' : MockJob = record j { state = "cancelled" } in
    (record st { jobs = put_job st.jobs j' }, returns (job_dict j' now))
cancel_found st now (raises e) = (st, raises e)
cancel_found st now (crashes x) = (st, crashes x)

unfoldable pub cmd_job_cancel : MockRuntimeState → Fields → ℕ → MockRuntimeState × Outcome Fields
unfolding cancel_found
cmd_job_cancel st payload now = cancel_found st now (job_for st payload)

-- `MockHook.to_dict`.
unfoldable pub hook_dict : MockHook → Fields
hook_dict h =
    "hook_id"
    ⇒ str h.hook_id ⨾ "module"
    ⇒ str h.module_name ⨾ "address"
    ⇒ h.address ⨾ "status"
    ⇒ str h.status ⨾ "enter_count"
    ⇒ nat h.enter_count ⨾ "leave_count"
    ⇒ nat h.leave_count ⨾ end

unfoldable pub known_hook :
    MockRuntimeState → Json → Option String → Option MockHook → Outcome MockHook
known_hook st id next none = raises (record {
  code = e_not_found;
  message = fstring ("Hook 不存在：" ∷ shown id ∷ []);
  context =
      "hook_id"
      ⇒ id ⨾ "candidates"
      ⇒ texts (sorted (map (λ (h : MockHook). h.hook_id) st.hooks)) ⨾ end;
  next_step = next;
})
known_hook st id next (some h) = returns h

unhook_found : MockRuntimeState → Json → Outcome MockHook → MockRuntimeState × Outcome Fields
unhook_found st id (returns h) = (
  record st { hooks = put_hook st.hooks (record h { status = "removed" }) },
  returns (
      "hook_id"
      ⇒ id ⨾ "status"
      ⇒ str "removed" ⨾ "execution"
      ⇒ obj ("accepted" ⇒ bool true ⨾ "executed" ⇒ bool true ⨾ "verified" ⇒ bool true ⨾ end) ⨾ end),
)
unhook_found st id (raises e) = (st, raises e)
unhook_found st id (crashes x) = (st, crashes x)

unfoldable pub cmd_runtime_unhook : MockRuntimeState → Fields → MockRuntimeState × Outcome Fields
unfolding unhook_found entry known_hook
cmd_runtime_unhook st payload =
    let id = get payload "hook_id" in
    unhook_found st id (
      bind (entry (find_hook st.hooks) (or_else id (str "")))
        (known_hook st id (some "用 candidates 里的 hook_id 重试")))

hook_dicts : List MockHook → Items
hook_dicts [] = nil
hook_dicts (h ∷ hs) = cons (obj (hook_dict h)) (hook_dicts hs)

unfoldable pub cmd_runtime_hook_info : MockRuntimeState → Fields → MockRuntimeState × Outcome Fields
unfolding hook_dicts entry known_hook
cmd_runtime_hook_info st payload =
    let id = get payload "hook_id" in
    (
      st,
      if truthy id
          then bind (bind (entry (find_hook st.hooks) id) (known_hook st id none))
              (λ h. returns ("hook" ⇒ obj (hook_dict h) ⨾ end))
          else returns
              ("total" ⇒ nat (length st.hooks) ⨾ "hooks" ⇒ arr (hook_dicts st.hooks) ⨾ end),
    )
