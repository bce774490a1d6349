-- ===== src/Bridge/Lifecycle/Effects.antt =====
-- What a step can change of the link, the session and the requests that wait.
use zygisk_frida_packet_tcp.Base.{
  ℕ, ◌+◌, String, ◌≡◌, refl, sym, ap, ◌∙◌, ◌⊎◌, inl, inr, Bool, true, false, Option, none, some, [],
  arith, ℤ,
}
use zygisk_frida_packet_tcp.Json.{Fields, is_some}
use zygisk_frida_packet_tcp.Python.{Builtins}
use zygisk_frida_packet_tcp.Protocol.Constants.{
  LinkState, disconnected, connecting, connected, degraded_link,
}
use zygisk_frida_packet_tcp.Protocol.Frame.{JsonCodec}
use zygisk_frida_packet_tcp.Bridge.Session.{SessionManager, touch, degrade}
use zygisk_frida_packet_tcp.Bridge.Client.{
  Wire, send, dispatch, Slot, has_slot, Settled, Client, without_slot, settle, pop_only, relink,
  fail_all_pending, on_link_lost,
}
use zygisk_frida_packet_tcp.Bridge.Client.Branches.{ponged, if_client, send-holds, dispatch-holds}
use zygisk_frida_packet_tcp.Bridge.Calls.{is_linked, put_slot}

abbrev pub has_session : SessionManager → Bool
has_session m = is_some m.current

-- The link is as up or as down as before, under the same session, and no request is added; a client
-- that was closing may be so no more.
pub record Quiet (c c' : Client) : Type 0 where
  pub link_same : is_linked c'.link ≡ is_linked c.link
  pub generation_same : c'.sessions.generation ≡ c.sessions.generation
  pub session_same : has_session c'.sessions ≡ has_session c.sessions
  pub closing_same : (c'.closing ≡ c.closing) ⊎ (c'.closing ≡ false)
  pub pending_less :
      (c'.pending ≡ c.pending) ⊎ ((id : String) × (c'.pending ≡ without_slot c.pending id))

-- The link is down and nothing waits.
pub record Drops (c c' : Client) : Type 0 where
  pub down : is_linked c'.link ≡ false
  pub generation_same : c'.sessions.generation ≡ c.sessions.generation
  pub none_wait : c'.pending ≡ []

-- A request is added while the link is up, and nothing else changes but what is sent.
pub record Asks (c c' : Client) : Type 0 where
  pub up : is_linked c.link ≡ true
  pub slot : Slot
  pub link_same : c'.link ≡ c.link
  pub sessions_same : c'.sessions ≡ c.sessions
  pub closing_same : c'.closing ≡ c.closing
  pub added :
      (c'.pending ≡ put_slot c.pending slot)
      ⊎ (c'.pending ≡ without_slot (put_slot c.pending slot) slot.request_id)

-- The link is up, under a session of the next generation.
pub record Opens (c c' : Client) : Type 0 where
  pub up : is_linked c'.link ≡ true
  pub generation_next : c'.sessions.generation ≡ c.sessions.generation + 1
  pub session_there : has_session c'.sessions ≡ true
  pub not_closing : c'.closing ≡ false
  pub pending_same : c'.pending ≡ c.pending

pub data Effect (c c' : Client) : Type 0 where
  quiet : Quiet c c' → Effect c c'
  drops : Drops c c' → Effect c c'
  asks : Asks c c' → Effect c c'

pub same_Quiet :
    (c c' : Client)
    → is_linked c'.link ≡ is_linked c.link
    → c'.sessions ≡ c.sessions
    → c'.closing ≡ c.closing
    → c'.pending ≡ c.pending
    → Quiet c c'
same_Quiet c c' l s k p = record {
  link_same = l;
  generation_same = ap (λ (m : SessionManager). m.generation) s;
  session_same = ap (λ (m : SessionManager). has_session m) s;
  closing_same = inl k;
  pending_less = inl p;
}

pub gone-Quiet :
    (c c' : Client) (id : String)
    → is_linked c'.link ≡ is_linked c.link
    → c'.sessions ≡ c.sessions
    → c'.closing ≡ c.closing
    → c'.pending ≡ without_slot c.pending id
    → Quiet c c'
gone-Quiet c c' id l s k p = record {
  link_same = l;
  generation_same = ap (λ (m : SessionManager). m.generation) s;
  session_same = ap (λ (m : SessionManager). has_session m) s;
  closing_same = inl k;
  pending_less = inr (id, p);
}

touch-session : (m : SessionManager) (now : ℕ) → has_session (touch m now) ≡ has_session m
unfolding touch
touch-session m now = ground arith

settle-Quiet : (c : Client) (id : Option String) (r : Settled) → Quiet c (settle c id r)
unfolding settle
settle-Quiet c none r = same_Quiet c c refl refl refl refl
settle-Quiet c (some id) r =
    if_client (Quiet c) (has_slot c.pending id) _ _ (gone-Quiet c _ id refl refl refl refl)
      (same_Quiet c c refl refl refl refl)

pop-Quiet : (c : Client) (id : Option String) → Quiet c (pop_only c id)
unfolding pop_only
pop-Quiet c none = same_Quiet c c refl refl refl refl
pop-Quiet c (some id) = gone-Quiet c _ id refl refl refl refl

-- A step that touches the session.
pub touched-Quiet :
    (c c' : Client) (now : ℕ)
    → is_linked c'.link ≡ is_linked c.link
    → c'.sessions ≡ touch c.sessions now
    → c'.closing ≡ c.closing
    → c'.pending ≡ c.pending
    → Quiet c c'
unfolding touch
touched-Quiet c c' now l s k p = record {
  link_same = l;
  generation_same = ap (λ (m : SessionManager). m.generation) s;
  session_same = ap (λ (m : SessionManager). has_session m) s ∙ touch-session c.sessions now;
  closing_same = inl k;
  pending_less = inl p;
}

relink-Quiet :
    (c : Client) (l : LinkState) (now : ℕ) (seq : ℤ)
    → c.link ≡ l
    → Quiet c (relink (ponged c now seq) l)
unfolding relink
relink-Quiet c disconnected now seq e = touched-Quiet c _ now refl refl refl refl
relink-Quiet c connecting now seq e = touched-Quiet c _ now refl refl refl refl
relink-Quiet c connected now seq e = touched-Quiet c _ now refl refl refl refl
relink-Quiet c degraded_link now seq e =
    touched-Quiet c _ now (sym (ap (λ (l : LinkState). is_linked l) e)) refl refl refl

-- A link that is lost: nothing happens while the client closes, or all is dropped.
pub lost-Effect : (c c' : Client) (reason : String) → Quiet c c' → Effect c (on_link_lost c' reason)
unfolding on_link_lost fail_all_pending degrade
lost-Effect c c' reason q =
    if_client (Effect c) c'.closing _ _ (quiet q)
      (drops (record { down = refl; generation_same = q.generation_same; none_wait = refl }))

pub dispatch-Effect :
    (py : Builtins) (codec : JsonCodec) (wire : Wire) (c : Client) (msg : Fields) (now : ℕ)
    → Effect c (dispatch py codec wire c msg now).0
dispatch-Effect py codec wire c msg now =
    dispatch-holds (Effect c) py codec wire c msg now (quiet (same_Quiet c c refl refl refl refl))
      (quiet (same_Quiet c _ refl refl refl refl))
      (λ seq. quiet (relink-Quiet c c.link now seq refl))
      (λ reason. lost-Effect c c reason (same_Quiet c c refl refl refl refl))
      (λ seq. quiet (same_Quiet c _ refl refl refl refl)) (λ id r. quiet (settle-Quiet c id r))
      (λ id. quiet (pop-Quiet c id)) (quiet (touched-Quiet c _ now refl refl refl refl))

pub send-Effect :
    (codec : JsonCodec) (c : Client) (wire : Wire) (msg : Fields)
    → Effect c (send codec c wire msg).0
send-Effect codec c wire msg =
    send-holds (λ p. Effect c p.0) codec c wire msg
      (λ e. quiet (same_Quiet c c refl refl refl refl))
      (λ reason e. lost-Effect c c reason (same_Quiet c c refl refl refl refl))
      (quiet (same_Quiet c _ refl refl refl refl))
