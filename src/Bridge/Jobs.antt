-- ===== src/Bridge/Jobs.antt =====
-- bridge/client.py: `submit_job` and `await_job`, on what their calls end in.
use zygisk_frida_packet_tcp.Base.{
  String, Bool, ◌||◌, List, [], ◌∷◌, fstring, ◌⊎◌, inl, inr, if◌then◌else◌,
}
use zygisk_frida_packet_tcp.Json.{
  Json, null, bool, int, milli, str, arr, obj, Fields, end, ◌⇒◌⨾◌, get, or_else, truthy,
}
use zygisk_frida_packet_tcp.Python.{shown}
use zygisk_frida_packet_tcp.Protocol.Errors.{
  error, e_internal, e_timeout, attribute_error, Outcome, returns, raises, crashes,
}
use zygisk_frida_packet_tcp.Protocol.Messages.Check.{is_text}
use zygisk_frida_packet_tcp.Bridge.Calls.{Called, answered, refused, crashed}

-- `resp.get("payload") or {}`, as what has a `get`.
body_of : Fields → Outcome Fields
body_of resp = elim (or_else (get resp "payload") (obj end)) [
  | obj fs ↦ returns fs
  | null ↦ crashes attribute_error
  | bool b ↦ crashes attribute_error
  | int i ↦ crashes attribute_error
  | milli n ↦ crashes attribute_error
  | str s ↦ crashes attribute_error
  | arr vs ↦ crashes attribute_error
]

job_id_in : String → Outcome Fields → Called ⊎ Json
job_id_in command (raises e) = inl (refused e)
job_id_in command (crashes x) = inl (crashed x)
job_id_in command (returns body) =
    let job_id = get body "job_id" in
    if truthy job_id
    then inr job_id
    else inl (
        refused (
          error e_internal (fstring ("命令 " ∷ command ∷ " 未返回 job_id" ∷ []))
            ("command" ⇒ str command ⨾ end)))

-- `submit_job`, given what the call ended in: the id of the job, or how it fails.
unfoldable pub submit_job : String → Called → Called ⊎ Json
unfolding job_id_in body_of
submit_job command (answered resp) = job_id_in command (body_of resp)
submit_job command r = inl r

abbrev has_ended : Json → Bool
has_ended v = is_text v "completed" || is_text v "failed" || is_text v "cancelled"

-- What polling ends in, or that it goes on after these polls.
pub data Polled : Type 0 where
  ended : Fields → Polled
  gave_up : Called → Polled
  goes_on : Polled

poll_once : Json → Bool → Outcome Fields → Polled
poll_once job_id late (raises e) = gave_up (refused e)
poll_once job_id late (crashes x) = gave_up (crashed x)
poll_once job_id late (returns body) =
    if has_ended (get body "state")
    then ended body
    else if late
    then gave_up (
        refused (
          error e_timeout (fstring ("job " ∷ shown job_id ∷ " 等待超时" ∷ []))
            ("job_id" ⇒ job_id ⨾ "state" ⇒ get body "state" ⨾ end)))
    else goes_on

-- One poll: what `call("job.status", …)` ended in, and whether the deadline has passed by then.
poll : Json → Bool → Called → Polled
unfolding poll_once body_of
poll job_id late (answered resp) = poll_once job_id late (body_of resp)
poll job_id late r = gave_up r

-- `await_job`, for the polls that there are.
unfoldable pub await_job : Json → List (Called × Bool) → Polled
unfolding poll
await_job job_id [] = goes_on
await_job job_id ((r, late) ∷ rs) =
    let rest = await_job job_id rs in
    elim (poll job_id late r) [ ended body ↦ ended body | gave_up r' ↦ gave_up r' | goes_on ↦ rest ]
