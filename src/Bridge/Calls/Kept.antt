-- ===== src/Bridge/Calls/Kept.antt =====
-- What the two halves of a call do to the link, the session and the requests that wait.
use zygisk_frida_packet_tcp.Base.{
  ℕ, String, ◌≡◌, refl, inl, inr, true, Option, none, some, List, Bool-cases,
}
use zygisk_frida_packet_tcp.Json.{Fields}
use zygisk_frida_packet_tcp.Protocol.Errors.{Result, ok, raise}
use zygisk_frida_packet_tcp.Protocol.Commands.{CommandSpec}
use zygisk_frida_packet_tcp.Protocol.Frame.{JsonCodec}
use zygisk_frida_packet_tcp.Bridge.Session.{Session, degrade}
use zygisk_frida_packet_tcp.Bridge.Client.{
  Slot, Settled, Client, without_slot, fail_all_pending, on_link_lost,
}
use zygisk_frida_packet_tcp.Bridge.Client.Branches.{if_client, send-holds}
use zygisk_frida_packet_tcp.Bridge.Calls.{
  is_linked, put_slot, sent_or_gone, issue_request, issue_in, issue_spec, issue, finish_with,
  finish, find_settled,
}
use zygisk_frida_packet_tcp.Bridge.Client.{Wire, send}
use zygisk_frida_packet_tcp.Bridge.Lifecycle.Effects.{
  Quiet, Asks, Effect, quiet, asks, drops, same_Quiet, gone-Quiet, touched-Quiet,
}

abbrev pop : Client → String → Client
pop c id = record c { pending = without_slot c.pending id }

module _ (codec : JsonCodec) (c : Client) (up : is_linked c.link ≡ true) (slot : Slot)
    (spec : CommandSpec) where
  abbrev waiting : Client
  waiting = record c { pending = put_slot c.pending slot }

  unsent-Asks : Asks c (pop waiting slot.request_id)
  unsent-Asks = record {
    up = up;
    slot = slot;
    link_same = refl;
    sessions_same = refl;
    closing_same = refl;
    added = inr refl;
  }

  sent-Asks : (sent : List Fields) → Asks c (record waiting { sent = sent })
  sent-Asks sent = record {
    up = up;
    slot = slot;
    link_same = refl;
    sessions_same = refl;
    closing_same = refl;
    added = inl refl;
  }

  lost_sending-Effect :
      (reason : String) → Effect c (pop (on_link_lost waiting reason) slot.request_id)
  unfolding on_link_lost fail_all_pending degrade without_slot
  lost_sending-Effect reason =
      if_client (λ (d : Client). Effect c (pop d slot.request_id)) c.closing _ _ (asks unsent-Asks)
        (drops (record { down = refl; generation_same = refl; none_wait = refl }))

  send-Effect :
      (wire : Wire) (req : Fields)
      → Effect c (sent_or_gone codec slot spec (send codec waiting wire req)).0
  unfolding sent_or_gone
  send-Effect wire req =
      send-holds (λ p. Effect c (sent_or_gone codec slot spec p).0) codec waiting wire req
        (λ e. asks unsent-Asks) (λ reason e. lost_sending-Effect reason) (asks (sent-Asks _))

module _ (codec : JsonCodec) (c : Client) where
  nothing : Effect c c
  nothing = quiet (same_Quiet c c refl refl refl refl)

  request-Effect :
      is_linked c.link ≡ true
      → (wire : Wire) (command : String) (spec : CommandSpec) (id : String) (r : Result Fields)
      → Effect c (issue_request codec c wire command spec id r).0
  unfolding issue_request
  request-Effect up wire command spec id (raise e) = nothing
  request-Effect up wire command spec id (ok req) = send-Effect codec c up _ spec wire req

  in-Effect :
      is_linked c.link ≡ true
      → (wire : Wire) (command : String) (spec : CommandSpec) (payload : Option Fields)
        (id : String) (now : ℕ) (r : Result Session)
      → Effect c (issue_in codec c wire command spec payload id now r).0
  unfolding issue_in
  in-Effect up wire command spec payload id now (raise e) = nothing
  in-Effect up wire command spec payload id now (ok sess) = request-Effect up wire command spec id _

  spec-Effect :
      (wire : Wire) (command : String) (o : Option CommandSpec) (payload : Option Fields)
      (id : String) (now : ℕ)
      → Effect c (issue_spec codec c wire command o payload id now).0
  unfolding issue_spec
  spec-Effect wire command none payload id now = nothing
  spec-Effect wire command (some spec) payload id now = elim (Bool-cases (is_linked c.link)) [
    | inl up ↦ rw up (in-Effect up wire command spec payload id now _)
    | inr down ↦ rw down nothing
  ]

  -- A call that is sent asks, drops the link, or does nothing.
  pub issue-Effect :
      (wire : Wire) (command : String) (payload : Option Fields) (id : String) (now : ℕ)
      → Effect c (issue codec c wire command payload id now).0
  unfolding issue
  issue-Effect wire command payload id now = spec-Effect wire command _ payload id now

module _ (float_text : ℕ → String) (c : Client) (slot : Slot) (spec : CommandSpec)
    (limit : Option ℕ) (now : ℕ) where
  with-Quiet : (o : Option Settled) → Quiet c (finish_with float_text c slot spec limit o now).0
  unfolding finish_with
  with-Quiet none = gone-Quiet c _ slot.request_id refl refl refl refl
  with-Quiet (some r) = touched-Quiet c _ now refl refl refl refl

  -- The end of a call leaves the link as it is.
  pub finish-Quiet : Quiet c (finish float_text c slot spec limit now).0
  unfolding finish
  finish-Quiet = with-Quiet (find_settled c.settled slot.request_id)
