-- ===== src/Bridge/Client/Pending.antt =====
-- Requests that wait for an answer: each is settled at most once.
use zygisk_frida_packet_tcp.Base.{
  ℕ, String, ◌≡◌, refl, sym, ap, ◌∙◌, inl, inr, true, false, Option, none, some, List, [], ◌∷◌,
  ◌++◌, arith, eq_iff, Bool-cases, All, append-nil,
}
use zygisk_frida_packet_tcp.Json.{Fields}
use zygisk_frida_packet_tcp.Protocol.Constants.{
  LinkState, disconnected, connecting, connected, degraded_link,
}
use zygisk_frida_packet_tcp.Python.{Builtins}
use zygisk_frida_packet_tcp.Protocol.Frame.{JsonCodec}
use zygisk_frida_packet_tcp.Bridge.Client.{
  Wire, Slot, Failure, Settled, Client, has_slot, settle, pop_only, relink, dispatch, fail_slots,
  fail_all_pending, on_link_lost, judge,
}
use zygisk_frida_packet_tcp.Bridge.Client.Branches.{ponged, if_client, dispatch-holds, judge-holds}
use zygisk_frida_packet_tcp.Bridge.Client.Slots.{distinct, without_slot-gone, without_slot-distinct}

-- What a step does to the requests: those that it settles waited before and wait no more, what was
-- settled stays, and the ids that wait are still distinct.
pub record Settles (c c' : Client) : Type 0 where
  pub new : List (String × Settled)
  pub grows : c'.settled ≡ c.settled ++ new
  pub once :
      All
        (λ (p : String × Settled).
          (has_slot c.pending p.0 ≡ true) × (has_slot c'.pending p.0 ≡ false))
        new
  pub unique : distinct c'.pending ≡ true

same-Settles :
    (c c' : Client)
    → distinct c.pending ≡ true
    → c'.pending ≡ c.pending
    → c'.settled ≡ c.settled
    → Settles c c'
same-Settles c c' h p s = record {
  new = [];
  grows = s ∙ sym (append-nil c.settled);
  once = tt;
  unique = ap distinct p ∙ h;
}

settle-Settles :
    (c : Client) (id : Option String) (r : Settled)
    → distinct c.pending ≡ true
    → Settles c (settle c id r)
unfolding settle
settle-Settles c none r h = same-Settles c c h refl refl
settle-Settles c (some id) r h = elim (Bool-cases (has_slot c.pending id)) [
  | inl waits ↦ rw waits (record {
    new = (id, r) ∷ [];
    grows = refl;
    once = ((waits, without_slot-gone c.pending id h), tt);
    unique = without_slot-distinct c.pending id h;
  })
  | inr unknown ↦ rw unknown (same-Settles c c h refl refl)
]

pop-Settles :
    (c : Client) (id : Option String) → distinct c.pending ≡ true → Settles c (pop_only c id)
unfolding pop_only
pop-Settles c none h = same-Settles c c h refl refl
pop-Settles c (some id) h = record {
  new = [];
  grows = sym (append-nil c.settled);
  once = tt;
  unique = without_slot-distinct c.pending id h;
}

relink-pending :
    (c : Client) (l : LinkState)
    → ((relink c l).pending ≡ c.pending) × ((relink c l).settled ≡ c.settled)
unfolding relink
relink-pending c disconnected = (refl, refl)
relink-pending c connecting = (refl, refl)
relink-pending c connected = (refl, refl)
relink-pending c degraded_link = (refl, refl)

fail_slots-waited :
    (ss : List Slot) (all : List Slot) (f : Failure)
    → ((id : String) → has_slot ss id ≡ true → has_slot all id ≡ true)
    → All
        (λ (p : String × Settled). (has_slot all p.0 ≡ true) × (has_slot [] p.0 ≡ false))
        (fail_slots ss f)
unfolding has_slot
fail_slots-waited [] all f among = tt
fail_slots-waited (s ∷ ss) all f among = (
  (among s.request_id (ground (arith, (eq_iff s.request_id s.request_id).1 refl)), refl),
  fail_slots-waited ss all f (λ id e. among id (ground (arith, e))),
)

fail_all-Settles :
    (c c' : Client) (f : Failure)
    → c'.pending ≡ c.pending
    → c'.settled ≡ c.settled
    → Settles c (fail_all_pending c' f)
unfolding fail_all_pending distinct
fail_all-Settles c c' f p s = record {
  new = fail_slots c'.pending f;
  grows = ap (λ (l : List (String × Settled)). l ++ fail_slots c'.pending f) s;
  once = fail_slots-waited c'.pending c.pending f (λ id e. rw (← p) e);
  unique = refl;
}

lost-Settles :
    (c c' : Client) (reason : String)
    → distinct c.pending ≡ true
    → c'.pending ≡ c.pending
    → c'.settled ≡ c.settled
    → Settles c (on_link_lost c' reason)
unfolding on_link_lost
lost-Settles c c' reason h p s =
    if_client (Settles c) c'.closing _ _ (same-Settles c c' h p s) (fail_all-Settles c _ _ p s)

-- What happens to a client: a message comes in, a heartbeat is judged, or the link is lost.
pub data Happens : Type 0 where
  receives : Wire → Fields → ℕ → Happens
  judges : ℕ → Happens
  loses : String → Happens

abbrev pub happen : Builtins → JsonCodec → Client → Happens → Client
happen py codec c (receives wire msg now) = (dispatch py codec wire c msg now).0
happen py codec c (judges now) = judge py c now
happen py codec c (loses reason) = on_link_lost c reason

-- Of a client whose waiting ids are distinct, when a message comes in, whatever becomes of the PONG
-- that answers it, when a heartbeat is judged or when the link is lost: the requests that it settles were
-- waiting before and wait no more, so none is settled twice; what was settled stays; and the ids
-- that wait are still distinct.
pub happen-Settles :
    (py : Builtins) (codec : JsonCodec) (c : Client) (e : Happens)
    → distinct c.pending ≡ true
    → Settles c (happen py codec c e)
happen-Settles py codec c (receives wire msg now) h =
    dispatch-holds (Settles c) py codec wire c msg now (same-Settles c c h refl refl)
      (same-Settles c _ h refl refl)
      (λ seq.
        let kept = relink-pending (ponged c now seq) c.link in same-Settles c _ h kept.0 kept.1)
      (λ reason. lost-Settles c c reason h refl refl) (λ seq. same-Settles c _ h refl refl)
      (λ id r. settle-Settles c id r h) (λ id. pop-Settles c id h) (same-Settles c _ h refl refl)
happen-Settles py codec c (judges now) h =
    judge-holds (Settles c) py c now (same-Settles c c h refl refl) (same-Settles c _ h refl refl)
      (λ reason. same-Settles c _ h refl refl) (λ reason. lost-Settles c _ reason h refl refl)
happen-Settles py codec c (loses reason) h = lost-Settles c c reason h refl refl
