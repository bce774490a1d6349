-- ===== src/Mock/Commands/Polls.antt =====
-- Polling a job, and cancelling one.
use zygisk_frida_packet_tcp.Base.{
  ℕ, String, ◌≡◌, refl, sym, ap, ◌∙◌, inl, inr, false, Option, some, List, [], ◌∷◌, arith, str_eq,
  eq_iff, Bool-cases,
}
use zygisk_frida_packet_tcp.Json.{str, Fields, get, or_else, truthy}
use zygisk_frida_packet_tcp.Protocol.Errors.{returns, RaisesCode, e_not_ready}
use zygisk_frida_packet_tcp.Mock.State.{
  MockJob, MockRuntimeState, is_running, job_dict, find_job, put_job, new_job, advance_jobs,
  mock_result,
}
use zygisk_frida_packet_tcp.Mock.State.Jobs.{find_job-put_job, new_job_completes, ended_stays}
use zygisk_frida_packet_tcp.Mock.Commands.{
  entry, known_job, job_for, cmd_memory_dump, cmd_job_status, cmd_job_result, cmd_job_cancel,
  ended_only, cancel_found,
}

pub entry-text :
    (A : Type 0) (table : String → Option A) (id : String)
    → entry table (or_else (str id) (str "")) ≡ returns (table id)
unfolding entry truthy
entry-text A table id = elim (Bool-cases (str_eq id "")) [
  | inl empty ↦ rw (empty, (eq_iff id "").0 empty) refl
  | inr text ↦ rw text refl
]

find_job_id :
    (js : List MockJob) (id : String) (j : MockJob) → find_job js id ≡ some j → j.job_id ≡ id
unfolding find_job
find_job_id [] id j h = absurd (cc)
find_job_id (x ∷ js) id j h = elim (Bool-cases (str_eq x.job_id id)) [
  | inl same ↦
      let x_j : x ≡ j = ground (arith, same, h) in
      sym (ap (λ (y : MockJob). y.job_id) x_j) ∙ (eq_iff x.job_id id).0 same
  | inr other ↦ find_job_id js id j (ground (arith, other, h))
]

module _ (payload : Fields) (id : String) (asked : get payload "job_id" ≡ str id) where
  job_for_found :
      (st : MockRuntimeState) (j : MockJob)
      → find_job st.jobs id ≡ some j
      → job_for st payload ≡ returns j
  unfolding job_for known_job
  job_for_found st j found = rw (asked, entry-text MockJob (find_job st.jobs) id, found) refl

  job_status_found :
      (st : MockRuntimeState) (j : MockJob) (now : ℕ)
      → find_job (advance_jobs st).jobs id ≡ some j
      → (cmd_job_status st payload now).1 ≡ returns (job_dict j now)
  unfolding cmd_job_status
  job_status_found st j now found = rw (job_for_found (advance_jobs st) j found) refl

  job_result_found :
      (st : MockRuntimeState) (j : MockJob) (now : ℕ)
      → find_job st.jobs id ≡ some j
      → is_running j ≡ false
      → (cmd_job_result st payload now).1 ≡ returns (job_dict j now)
  unfolding cmd_job_result ended_only
  job_result_found st j now found ended = rw (job_for_found st j found, ended) refl

  -- Whatever state the job is in, a completed one included, `job.cancel` makes it cancelled; the
  -- next `job.status` finds it so.
  pub job_cancel_any :
      (st : MockRuntimeState) (j : MockJob) (now later : ℕ)
      → find_job st.jobs id ≡ some j
      → let gone : MockJob = record j { state = "cancelled" } in
        let (st', reply) = cmd_job_cancel st payload now in
        (reply ≡ returns (job_dict gone now))
        × (find_job st'.jobs id ≡ some gone)
        × ((cmd_job_status st' payload later).1 ≡ returns (job_dict gone later))
  unfolding cmd_job_cancel cancel_found
  job_cancel_any st j now later found =
      let gone : MockJob = record j { state = "cancelled" } in
      let st' : MockRuntimeState = record st { jobs = put_job st.jobs gone } in
      let kept : find_job st'.jobs id ≡ some gone =
        ap (find_job st'.jobs) (sym (find_job_id st.jobs id j found))
        ∙ find_job-put_job st.jobs gone in
      rw (job_for_found st j found)
        (refl, kept, job_status_found st' gone later (ended_stays st' id gone kept refl))

  -- A memory dump polled: the result is refused with E_NOT_READY right after the dump; the second
  -- `job.status` reports the job completed, and `job.result` then returns the same.
  pub memory_dump_polled :
      (st : MockRuntimeState) (args : Fields) (now t1 t2 t3 : ℕ)
      → let made = (new_job st "memory.dump" id now).1 in
        let done : MockJob = record made {
          state = "completed";
          progress = 1000;
          outcome = some mock_result;
        } in
        let dumped = (cmd_memory_dump st args id now).0 in
        let twice = cmd_job_status (cmd_job_status dumped payload t1).0 payload t2 in
        RaisesCode (cmd_job_result dumped payload t1).1 e_not_ready
        × (twice.1 ≡ returns (job_dict done t2))
        × ((cmd_job_result twice.0 payload t3).1 ≡ returns (job_dict done t3))
  unfolding cmd_memory_dump cmd_job_status new_job cmd_job_result ended_only
  memory_dump_polled st args now t1 t2 t3 =
      let made = new_job st "memory.dump" id now in
      let done : MockJob = record made.1 {
        state = "completed";
        progress = 1000;
        outcome = some mock_result;
      } in
      let found = (new_job_completes st "memory.dump" id now).1 in
      (
        rw (job_for_found made.0 made.1 (find_job-put_job st.jobs made.1)) refl,
        job_status_found (advance_jobs made.0) done t2 found,
        job_result_found (advance_jobs (advance_jobs made.0)) done t3 found refl,
      )
