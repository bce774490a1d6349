-- ===== src/Mock/Hooking/Valid.antt =====
-- The events that `runtime.hook` sends are valid messages.
use zygisk_frida_packet_tcp.Base.{
  ℕ, String, ◌≡◌, refl, subst, inl, inr, true, List, [], ◌∷◌, arith, All, Bool-cases, not, ◌||◌,
}
use zygisk_frida_packet_tcp.Json.{Json, Fields, get, truthy}
use zygisk_frida_packet_tcp.Protocol.Errors.{Result, ok, raise, returns}
use zygisk_frida_packet_tcp.Protocol.Frame.{JsonCodec, Bytes}
use zygisk_frida_packet_tcp.Protocol.Messages.{EventArgs, make_event}
use zygisk_frida_packet_tcp.Protocol.Messages.Check.{validate}
use zygisk_frida_packet_tcp.Protocol.Messages.Built.{validate-make_event}
use zygisk_frida_packet_tcp.Mock.State.{MockHook, MockRuntimeState}
use zygisk_frida_packet_tcp.Mock.Hooking.{
  Turn, Ran, send_next, send_all, runtime_event, hook_events, cmd_runtime_hook, hook_made,
  hook_sent,
}

abbrev pub IsValid : String → Fields → Type 0
IsValid t m = validate m true ≡ returns t

pub made-IsValid :
    (a : EventArgs) (fresh : String) (now : ℕ) (e : Fields)
    → make_event a fresh now ≡ ok e
    → IsValid "EVENT" e
made-IsValid a fresh now e h = elim (validate-make_event a fresh now) [
  | inl (listed, m, made, valid) ↦ let same : m ≡ e = cc in subst (IsValid "EVENT") same valid
  | inr (bad, refused) ↦ absurd (ground (arith, h, refused))
]

-- What is sent of events that are valid if they can be made.
abbrev Makes : Result Fields → Type 0
Makes r = (e : Fields) → r ≡ ok e → IsValid "EVENT" e

next-IsValid :
    (m : Fields) (r : Result Bytes) (rest : List Fields × Result (Unit {0}))
    → IsValid "EVENT" m
    → All (IsValid "EVENT") rest.0
    → All (IsValid "EVENT") (send_next m r rest).0
unfolding send_next
next-IsValid m (ok frame) (ms, r) v vs = (v, vs)
next-IsValid m (raise e) rest v vs = tt

send_all-IsValid :
    (codec : JsonCodec) (rs : List (Result Fields))
    → All Makes rs
    → All (IsValid "EVENT") (send_all codec rs).0
unfolding send_all
send_all-IsValid codec [] h = tt
send_all-IsValid codec (ok e ∷ rs) h =
    next-IsValid e _ (send_all codec rs) (h.0 e refl) (send_all-IsValid codec rs h.1)
send_all-IsValid codec (raise x ∷ rs) h = tt

hook_events-IsValid :
    (codec : JsonCodec) (t : Turn) (st : MockRuntimeState) (h : MockHook) (module_name at : Json)
    → All (IsValid "EVENT") (send_all codec (hook_events t st h module_name at)).0
unfolding hook_events runtime_event
hook_events-IsValid codec t st h module_name at =
    send_all-IsValid codec (hook_events t st h module_name at) (
      (λ e. made-IsValid _ (t.event_id 0) t.now e),
      (
        (λ e. made-IsValid _ (t.event_id 1) t.now e),
        ((λ e. made-IsValid _ (t.event_id 2) t.now e), tt),
      ),
    )

abbrev pub EventsValid : Ran → Type 0
EventsValid r = All (IsValid "EVENT") r.events

sent-valid :
    (st : MockRuntimeState) (h : MockHook) (p : List Fields × Result (Unit {0}))
    → All (IsValid "EVENT") p.0
    → EventsValid (hook_sent st h p)
unfolding hook_sent
sent-valid st h (sent, ok u) v = v
sent-valid st h (sent, raise e) v = v

made-valid :
    (codec : JsonCodec) (t : Turn) (st : MockRuntimeState) (module_name at : Json)
    (r : Result (MockRuntimeState × MockHook))
    → EventsValid (hook_made codec t st module_name at r)
unfolding hook_made
made-valid codec t st module_name at (ok (st', h)) =
    sent-valid st' h _ (hook_events-IsValid codec t st' h module_name at)
made-valid codec t st module_name at (raise e) = tt

pub hook-valid :
    (codec : JsonCodec) (t : Turn) (st : MockRuntimeState) (payload : Fields)
    → EventsValid (cmd_runtime_hook codec t st payload)
unfolding cmd_runtime_hook
hook-valid codec t st payload =
    elim (Bool-cases
      (not (truthy (get payload "module")) || not (truthy (get payload "address")))) [
        | inl missing ↦ rw missing tt
        | inr given ↦ rw given (made-valid codec t st _ _ _)
      ]
