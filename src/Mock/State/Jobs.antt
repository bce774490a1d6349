-- ===== src/Mock/State/Jobs.antt =====
-- `advance_jobs`: every job ends, and a job that has ended is left alone.
use zygisk_frida_packet_tcp.Base.{
  ℕ, String, ◌+◌, ◌≤◌, ◌≡◌, refl, ap, ◌∙◌, inl, inr, true, false, Option, none, some, List, [], ◌∷◌,
  map, arith, str_eq, leb, min, Bool-cases, All, eq_iff,
}
use zygisk_frida_packet_tcp.Mock.State.{
  MockJob, MockRuntimeState, mock_result, is_running, find_job, put_job, new_job, advance_job,
  advance_jobs,
}

-- The job has ended, or it has half of its way behind it.
abbrev IsHalfway : MockJob → Type 0
IsHalfway j = is_running j ≡ true → 500 ≤ j.progress

halfway : (j : MockJob) → IsHalfway (advance_job j)
unfolding advance_job
halfway j running = elim (Bool-cases (is_running j)) [
  | inl before ↦ ground arith
  | inr ended ↦ absurd (ground (arith, ended, running))
]

finishes : (j : MockJob) → IsHalfway j → is_running (advance_job j) ≡ false
unfolding advance_job
finishes j half = elim (Bool-cases (is_running j)) [
  | inl running ↦
      let full : leb 1000 (min 1000 (j.progress + 500)) ≡ true = ground (arith, half running) in
      rw (running, full) refl
  | inr ended ↦ rw ended ended
]

finished :
    (js : List MockJob) → All (λ j. is_running j ≡ false) (map advance_job (map advance_job js))
finished [] = tt
finished (j ∷ js) = (finishes (advance_job j) (halfway j), finished js)

-- Whatever jobs there are, after two calls of `advance_jobs` none is running any more.
pub advance_jobs_end :
    (st : MockRuntimeState) → All (λ j. is_running j ≡ false) (advance_jobs (advance_jobs st)).jobs
unfolding advance_jobs
advance_jobs_end st = finished st.jobs

advance_job-keeps : (j : MockJob) → (advance_job j).job_id ≡ j.job_id
unfolding advance_job
advance_job-keeps j = ground arith

abbrev pub advanced : Option MockJob → Option MockJob
advanced none = none
advanced (some j) = some (advance_job j)

find_job-map :
    (js : List MockJob) (id : String) → find_job (map advance_job js) id ≡ advanced (find_job js id)
unfolding find_job advance_job
find_job-map [] id = refl
find_job-map (j ∷ js) id = elim (Bool-cases (str_eq j.job_id id)) [
  | inl same ↦ rw (advance_job-keeps j, same) refl
  | inr other ↦ rw (advance_job-keeps j, other) (find_job-map js id)
]

pub find_job-advance_jobs :
    (st : MockRuntimeState) (id : String)
    → find_job (advance_jobs st).jobs id ≡ advanced (find_job st.jobs id)
unfolding advance_jobs
find_job-advance_jobs st id = find_job-map st.jobs id

-- A job that is not running, because it has completed or was cancelled, is found unchanged after
-- `advance_jobs`.
pub ended_stays :
    (st : MockRuntimeState) (id : String) (j : MockJob)
    → find_job st.jobs id ≡ some j
    → is_running j ≡ false
    → find_job (advance_jobs st).jobs id ≡ some j
unfolding advance_job
ended_stays st id j found ended = rw (find_job-advance_jobs st id, found, ended) refl

pub find_job-put_job : (js : List MockJob) (j : MockJob) → find_job (put_job js j) j.job_id ≡ some j
unfolding find_job put_job
find_job-put_job [] j = rw ((eq_iff j.job_id j.job_id).1 refl) refl
find_job-put_job (x ∷ js) j = elim (Bool-cases (str_eq x.job_id j.job_id)) [
  | inl same ↦ rw (same, (eq_iff j.job_id j.job_id).1 refl) refl
  | inr other ↦ rw (other, other) (find_job-put_job js j)
]

-- A job that is made is running, and two calls of `advance_jobs` later it is found under its id as
-- completed, with its whole progress and with a result.
pub new_job_completes :
    (st : MockRuntimeState) (command job_id : String) (now : ℕ)
    → let made = new_job st command job_id now in
      (is_running made.1 ≡ true)
      × (find_job (advance_jobs (advance_jobs made.0)).jobs job_id
          ≡ some
              (record made.1 { state = "completed"; progress = 1000; outcome = some mock_result }))
unfolding new_job advance_job
new_job_completes st command job_id now =
    let made = new_job st command job_id now in
    (
      refl,
      find_job-advance_jobs (advance_jobs made.0) job_id
          ∙ ap advanced (find_job-advance_jobs made.0 job_id)
          ∙ ap (λ (o : Option MockJob). advanced (advanced o)) (find_job-put_job st.jobs made.1),
    )
